-- ===== src/Utils/Lsm/Run.antt =====
-- `Run` ends, and its results tell how.
use open_gfw_for_frp_integra.Prelude.{
  leb, Bool-cases, length, get_elem?, Outcome, ok, panic, stuck, ◌>>=◌, >>=-ne-stuck, >>=-ne-panic,
  ℕ, zero, suc, ◌+◌, ◌≤◌, ◌<◌, ◌≡◌, refl, subst, ◌≢◌, inl, inr, Bool, true, Option, none, some,
  arith,
}
use open_gfw_for_frp_integra.Utils.Lsm.{
  LsmAction, pause, next, restart, cancel, Lsm, RunResult, Stepped, act, round, run_loop, run,
}

module _ {T S : Type 0} (exec : T → Lsm T → S → Outcome (Stepped T S)) where
  -- What the action of a step leaves to do is below the bound.
  abbrev pub Falls : (Lsm T → S → ℕ) → ℕ → LsmAction → Lsm T → S → Type 0
  Falls measure n pause m s = Unit
  Falls measure n next m s = measure (record m { index = m.index + 1 }) s < n
  Falls measure n restart m s = measure (record m { index = 0 }) s < n
  Falls measure n cancel m s = Unit

  -- Every step that is reached ends, keeps the invariant and brings the run nearer to its end.
  pub record Shrinks (Good : Lsm T → S → Type 0) (measure : Lsm T → S → ℕ) : Type 0 where
    pub ends :
        (t : T) (m : Lsm T) (s : S)
        → get_elem? m.steps m.index ≡ some t
        → Good m s
        → exec t m s ≢ stuck
    pub falls :
        (t : T) (m : Lsm T) (s : S) (r : Stepped T S)
        → get_elem? m.steps m.index ≡ some t
        → Good m s
        → exec t m s ≡ ok r
        → Falls measure (measure m s) r.action r.machine r.state
    pub keeps :
        (t : T) (m : Lsm T) (s : S) (r : Stepped T S)
        → get_elem? m.steps m.index ≡ some t
        → Good m s
        → exec t m s ≡ ok r
        → Good (record (r.machine) { index = r.machine.index + 1 }) r.state
          × Good (record (r.machine) { index = 0 }) r.state

  module _ {Good : Lsm T → S → Type 0} {measure : Lsm T → S → ℕ} (w : Shrinks Good measure) where
    act-ne-stuck :
        (n : ℕ) (again : Lsm T → S → Outcome (RunResult T S))
        → ((m : Lsm T) (s : S) → Good m s → measure m s < n → again m s ≢ stuck)
        → (a : LsmAction) (m : Lsm T) (s : S)
        → Good (record m { index = m.index + 1 }) s × Good (record m { index = 0 }) s
        → Falls measure n a m s
        → act again a m s ≢ stuck
    unfolding act
    act-ne-stuck n again h pause m s g f = λ e. cc
    act-ne-stuck n again h next m s g f = h _ s g.0 f
    act-ne-stuck n again h restart m s g f = h _ s g.1 f
    act-ne-stuck n again h cancel m s g f = λ e. cc

    round-ne-stuck :
        (n : ℕ) (again : Lsm T → S → Outcome (RunResult T S))
        → ((m : Lsm T) (s : S) → Good m s → measure m s < n → again m s ≢ stuck)
        → (o : Option T) (m : Lsm T) (s : S) → get_elem? m.steps m.index ≡ o
        → Good m s
        → measure m s ≤ n
        → round exec again o m s ≢ stuck
    unfolding round
    round-ne-stuck n again h none m s e g l = λ q. cc
    round-ne-stuck n again h (some t) m s e g l =
        >>=-ne-stuck (exec t m s) _ (w.ends t m s e g) λ r q.
          act-ne-stuck (measure m s) again (λ m' s' g' l'. h m' s' g' (omega arith)) r.action
            r.machine r.state (w.keeps t m s r e g q) (w.falls t m s r e g q)

    run_loop-ne-stuck :
        (fuel : ℕ) (m : Lsm T) (s : S)
        → Good m s
        → measure m s < fuel
        → run_loop exec fuel m s ≢ stuck
    unfolding run_loop
    run_loop-ne-stuck zero m s g h = absurd (omega arith)
    run_loop-ne-stuck (suc fuel) m s g h =
        round-ne-stuck fuel (run_loop exec fuel) (run_loop-ne-stuck fuel)
          (get_elem? m.steps m.index) m s refl g (omega arith)

    -- `Run` ends: where each step keeps an invariant and makes a measure fall, or pauses or
    -- cancels, a run with more fuel than the measure does not run out of fuel.
    pub run-ne-stuck :
        (fuel : ℕ) (m : Lsm T) (s : S) → Good m s → measure m s < fuel → run exec fuel m s ≢ stuck
    unfolding run
    run-ne-stuck fuel m s g h = elim (Bool-cases (leb (length m.steps) m.index)) [
      | inl over ↦ rw over (λ e. cc)
      | inr more ↦ rw more (run_loop-ne-stuck fuel m s g h)
    ]

  -- No step that is reached panics, and every one keeps the invariant.
  pub record IsSafe (Good : Lsm T → S → Type 0) : Type 0 where
    pub no_panic :
        (t : T) (m : Lsm T) (s : S)
        → get_elem? m.steps m.index ≡ some t
        → Good m s
        → exec t m s ≢ panic
    pub keeps :
        (t : T) (m : Lsm T) (s : S) (r : Stepped T S)
        → get_elem? m.steps m.index ≡ some t
        → Good m s
        → exec t m s ≡ ok r
        → Good (record (r.machine) { index = r.machine.index + 1 }) r.state
          × Good (record (r.machine) { index = 0 }) r.state

  module _ {Good : Lsm T → S → Type 0} (w : IsSafe Good) where
    act-ne-panic :
        (again : Lsm T → S → Outcome (RunResult T S))
        → ((m : Lsm T) (s : S) → Good m s → again m s ≢ panic)
        → (a : LsmAction) (m : Lsm T) (s : S)
        → Good (record m { index = m.index + 1 }) s × Good (record m { index = 0 }) s
        → act again a m s ≢ panic
    unfolding act
    act-ne-panic again h pause m s g = λ e. cc
    act-ne-panic again h next m s g = h _ s g.0
    act-ne-panic again h restart m s g = h _ s g.1
    act-ne-panic again h cancel m s g = λ e. cc

    round-ne-panic :
        (again : Lsm T → S → Outcome (RunResult T S))
        → ((m : Lsm T) (s : S) → Good m s → again m s ≢ panic)
        → (o : Option T) (m : Lsm T) (s : S) → get_elem? m.steps m.index ≡ o
        → Good m s
        → round exec again o m s ≢ panic
    unfolding round
    round-ne-panic again h none m s e g = λ q. cc
    round-ne-panic again h (some t) m s e g =
        >>=-ne-panic (exec t m s) _ (w.no_panic t m s e g)
          λ r q. act-ne-panic again h r.action r.machine r.state (w.keeps t m s r e g q)

    run_loop-ne-panic : (fuel : ℕ) (m : Lsm T) (s : S) → Good m s → run_loop exec fuel m s ≢ panic
    unfolding run_loop
    run_loop-ne-panic zero m s g = λ e. cc
    run_loop-ne-panic (suc fuel) m s g =
        round-ne-panic (run_loop exec fuel) (run_loop-ne-panic fuel) (get_elem? m.steps m.index) m s
          refl g

    -- `Run` does not panic if no step does where the invariant holds.
    pub run-ne-panic : (fuel : ℕ) (m : Lsm T) (s : S) → Good m s → run exec fuel m s ≢ panic
    unfolding run
    run-ne-panic fuel m s g = elim (Bool-cases (leb (length m.steps) m.index)) [
      | inl over ↦ rw over (λ e. cc)
      | inr more ↦ rw more (run_loop-ne-panic fuel m s g)
    ]

  -- A property that every step keeps, and that is not about the position in the machine.
  pub record Preserves (P : Lsm T → S → Type 0) : Type 0 where
    pub kept :
        (t : T) (m : Lsm T) (s : S) (r : Stepped T S)
        → P m s
        → exec t m s ≡ ok r
        → P r.machine r.state
    pub moved :
        (m : Lsm T) (s : S) (i : ℕ) (c : Bool) → P m s → P (record m { index = i; cancelled = c }) s

  module _ {P : Lsm T → S → Type 0} (w : Preserves P) where
    abbrev Leaves : Outcome (RunResult T S) → Type 0
    Leaves (ok r) = P r.machine r.state
    Leaves panic = Unit
    Leaves stuck = Unit

    act-Leaves :
        (again : Lsm T → S → Outcome (RunResult T S))
        → ((m : Lsm T) (s : S) → P m s → Leaves (again m s))
        → (a : LsmAction) (m : Lsm T) (s : S) → P m s
        → Leaves (act again a m s)
    unfolding act
    act-Leaves again h pause m s g = g
    act-Leaves again h next m s g = h _ s (w.moved m s (m.index + 1) m.cancelled g)
    act-Leaves again h restart m s g = h _ s (w.moved m s 0 m.cancelled g)
    act-Leaves again h cancel m s g = w.moved m s m.index true g

    bind-Leaves :
        (x : Outcome (Stepped T S)) (f : Stepped T S → Outcome (RunResult T S))
        → ((r : Stepped T S) → x ≡ ok r → Leaves (f r))
        → Leaves (x >>= f)
    bind-Leaves (ok r) f h = h r refl
    bind-Leaves panic f h = tt
    bind-Leaves stuck f h = tt

    round-Leaves :
        (again : Lsm T → S → Outcome (RunResult T S))
        → ((m : Lsm T) (s : S) → P m s → Leaves (again m s))
        → (o : Option T) (m : Lsm T) (s : S) → P m s
        → Leaves (round exec again o m s)
    unfolding round
    round-Leaves again h none m s g = g
    round-Leaves again h (some t) m s g =
        bind-Leaves (exec t m s) _
          λ r q. act-Leaves again h r.action r.machine r.state (w.kept t m s r g q)

    run_loop-Leaves : (fuel : ℕ) (m : Lsm T) (s : S) → P m s → Leaves (run_loop exec fuel m s)
    unfolding run_loop
    run_loop-Leaves zero m s g = tt
    run_loop-Leaves (suc fuel) m s g =
        round-Leaves (run_loop exec fuel) (run_loop-Leaves fuel) (get_elem? m.steps m.index) m s g

    run-Leaves : (fuel : ℕ) (m : Lsm T) (s : S) → P m s → Leaves (run exec fuel m s)
    unfolding run
    run-Leaves fuel m s g = elim (Bool-cases (leb (length m.steps) m.index)) [
      | inl over ↦ rw over g
      | inr more ↦ rw more (run_loop-Leaves fuel m s g)
    ]

    -- What every step keeps, `Run` keeps.
    pub run-Preserves :
        (fuel : ℕ) (m : Lsm T) (s : S) (r : RunResult T S)
        → P m s
        → run exec fuel m s ≡ ok r
        → P r.machine r.state
    run-Preserves fuel m s r g e = subst Leaves e (run-Leaves fuel m s g)
