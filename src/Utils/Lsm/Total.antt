-- ===== src/Utils/Lsm/Total.antt =====
-- `Run` returns, with its invariant kept, where every step that it reaches does.
use open_gfw_for_frp_integra.Prelude.{
  leb, Bool-cases, length, get_elem?, Outcome, ok, panic, stuck, ◌>>=◌, Gives, ℕ, zero, suc, ◌+◌,
  ◌≤◌, ◌<◌, ◌≡◌, refl, inl, inr, true, Option, none, some, arith,
}
use open_gfw_for_frp_integra.Utils.Lsm.{
  LsmAction, pause, next, restart, cancel, Lsm, RunResult, Stepped, act, round, run_loop, run,
}

module _ {T S : Type 0} (exec : T → Lsm T → S → Outcome (Stepped T S)) (Good : Lsm T → S → Type 0)
    (measure : Lsm T → S → ℕ) where
  -- What an action leaves is good, and nearer to the end than the bound where the run goes on.
  abbrev pub Follows : ℕ → LsmAction → Lsm T → S → Type 0
  Follows n pause m s = Good m s
  Follows n next m s =
      Good (record m { index = m.index + 1 }) s × (measure (record m { index = m.index + 1 }) s < n)
  Follows n restart m s = Good (record m { index = 0 }) s × (measure (record m { index = 0 }) s < n)
  Follows n cancel m s = Good (record m { cancelled = true }) s

  abbrev pub IsFine : ℕ → Outcome (Stepped T S) → Type 0
  IsFine n x = Gives (λ r. Follows n r.action r.machine r.state) x

  -- Every step that is reached returns, and what it leaves is good.
  abbrev pub Returns : Type 0
  Returns =
      (t : T) (m : Lsm T) (s : S)
      → get_elem? m.steps m.index ≡ some t
      → Good m s
      → IsFine (measure m s) (exec t m s)

  abbrev pub IsKept : Outcome (RunResult T S) → Type 0
  IsKept x = Gives (λ r. Good r.machine r.state) x

  act-IsKept :
      (n : ℕ) (again : Lsm T → S → Outcome (RunResult T S))
      → ((m : Lsm T) (s : S) → Good m s → measure m s < n → IsKept (again m s))
      → (a : LsmAction) (m : Lsm T) (s : S) → Follows n a m s
      → IsKept (act again a m s)
  unfolding act
  act-IsKept n again h pause m s f = f
  act-IsKept n again h next m s f = h _ s f.0 f.1
  act-IsKept n again h restart m s f = h _ s f.0 f.1
  act-IsKept n again h cancel m s f = f

  bind-IsKept :
      (n : ℕ) (again : Lsm T → S → Outcome (RunResult T S))
      → ((m : Lsm T) (s : S) → Good m s → measure m s < n → IsKept (again m s))
      → (x : Outcome (Stepped T S)) → IsFine n x
      → IsKept (x >>= λ r. act again r.action r.machine r.state)
  bind-IsKept n again h (ok r) f = act-IsKept n again h r.action r.machine r.state f
  bind-IsKept n again h panic f = f
  bind-IsKept n again h stuck f = f

  round-IsKept :
      (n : ℕ) (again : Lsm T → S → Outcome (RunResult T S))
      → Returns
      → ((m : Lsm T) (s : S) → Good m s → measure m s < n → IsKept (again m s))
      → (o : Option T) (m : Lsm T) (s : S) → get_elem? m.steps m.index ≡ o
      → Good m s
      → measure m s ≤ n
      → IsKept (round exec again o m s)
  unfolding round
  round-IsKept n again w h none m s e g l = g
  round-IsKept n again w h (some t) m s e g l =
      bind-IsKept (measure m s) again (λ m' s' g' l'. h m' s' g' (omega arith)) (exec t m s)
        (w t m s e g)

  run_loop-IsKept :
      (fuel : ℕ) (m : Lsm T) (s : S)
      → Returns
      → Good m s
      → measure m s < fuel
      → IsKept (run_loop exec fuel m s)
  unfolding run_loop
  run_loop-IsKept zero m s w g h = absurd (omega arith)
  run_loop-IsKept (suc fuel) m s w g h =
      round-IsKept fuel (run_loop exec fuel) w (λ m' s' g' l'. run_loop-IsKept fuel m' s' w g' l')
        (get_elem? m.steps m.index) m s refl g (omega arith)

  -- With more fuel than the measure, `Run` neither panics nor runs out of fuel, and what it leaves
  -- is good.
  pub run-IsKept :
      (fuel : ℕ) (m : Lsm T) (s : S)
      → Returns
      → Good m s
      → measure m s < fuel
      → IsKept (run exec fuel m s)
  unfolding run
  run-IsKept fuel m s w g h = elim (Bool-cases (leb (length m.steps) m.index)) [
    | inl over ↦ rw over g
    | inr more ↦ rw more (run_loop-IsKept fuel m s w g h)
  ]
