-- ===== src/Samples/Machine.antt =====
-- A machine that restarts: one step that counts down.
use open_gfw_for_frp_integra.Prelude.{
  Outcome, ok, stuck, ℕ, zero, suc, subst, ◌≢◌, Bool, true, [], ◌∷◌, arith,
}
use open_gfw_for_frp_integra.Utils.Lsm.{pause, restart, Lsm, new_lsm, Stepped, run}
use open_gfw_for_frp_integra.Utils.Lsm.Run.{Falls, Shrinks, run-ne-stuck}

abbrev count_down : Bool → Lsm Bool → ℕ → Outcome (Stepped Bool ℕ)
count_down t m zero = ok (record { action = pause; machine = m; state = 0 })
count_down t m (suc n) = ok (record { action = restart; machine = m; state = n })

abbrev Anything : Lsm Bool → ℕ → Type 0
Anything m s = Unit

abbrev left : Lsm Bool → ℕ → ℕ
left m s = s

abbrev Nearer : ℕ → Outcome (Stepped Bool ℕ) → Type 0
Nearer n (ok r) = Falls count_down left n r.action r.machine r.state
Nearer n _ = Unit

count_down-Nearer : (t : Bool) (m : Lsm Bool) (s : ℕ) → Nearer s (count_down t m s)
count_down-Nearer t m zero = tt
count_down-Nearer t m (suc n) = omega arith

count_down-ne-stuck : (t : Bool) (m : Lsm Bool) (s : ℕ) → count_down t m s ≢ stuck
count_down-ne-stuck t m zero = λ e. cc
count_down-ne-stuck t m (suc n) = λ e. cc

count_down-Shrinks : Shrinks count_down Anything left
count_down-Shrinks = record {
  ends = λ t m s e g. count_down-ne-stuck t m s;
  falls = λ t m s r e g q. subst (Nearer s) q (count_down-Nearer t m s);
  keeps = λ t m s r e g q. (tt, tt);
}

run-ne-stuck_example : run count_down 6 (new_lsm (true ∷ [])) 5 ≢ stuck
run-ne-stuck_example =
    run-ne-stuck count_down count_down-Shrinks 6 (new_lsm (true ∷ [])) 5 tt (omega arith)
