-- ===== src/Utils/Lsm.antt =====
-- analyzer/utils/lsm.go. The steps are closures over the stream in the source; here a step is a
-- tag of a type `T`, and `exec` says what the closure of a tag does. It is handed the machine too,
-- since a step may append further steps to the machine that runs it.
pub mod Run
pub mod Total
use open_gfw_for_frp_integra.Prelude.{
  leb, if◌then◌else◌, length, get_elem?, Outcome, ok, stuck, ◌>>=◌, ℕ, zero, suc, ◌+◌, Bool, true,
  false, Option, none, some, List, ◌++◌, arith,
}

pub data LsmAction : Type 0 where
  pause next restart cancel : LsmAction

pub record Lsm (T : Type 0) : Type 0 where
  pub steps : List T
  pub index : ℕ
  pub cancelled : Bool

module _ {T : Type 0} where
  unfoldable pub new_lsm : List T → Lsm T
  new_lsm steps = record { steps = steps; index = 0; cancelled = false }

  unfoldable pub append_steps : Lsm T → List T → Lsm T
  append_steps m more = record m { steps = m.steps ++ more }

  unfoldable pub reset : Lsm T → Lsm T
  reset m = record m { index = 0; cancelled = false }

-- What `Run` leaves: the machine, the stream's state and the two results.
pub record RunResult (T S : Type 0) : Type 0 where
  pub machine : Lsm T
  pub state : S
  pub was_cancelled : Bool
  pub was_done : Bool

-- What one step leaves.
pub record Stepped (T S : Type 0) : Type 0 where
  pub action : LsmAction
  pub machine : Lsm T
  pub state : S

module _ {T S : Type 0} where
  -- The `switch` on the action of a step; `again` is the loop's next round.
  unfoldable pub act :
      (Lsm T → S → Outcome (RunResult T S)) → LsmAction → Lsm T → S → Outcome (RunResult T S)
  act again pause m s =
      ok (record { machine = m; state = s; was_cancelled = false; was_done = false })
  act again next m s = again (record m { index = m.index + 1 }) s
  act again restart m s = again (record m { index = 0 }) s
  act again cancel m s = ok (record {
    machine = record m { cancelled = true };
    state = s;
    was_cancelled = true;
    was_done = true;
  })

  -- One round of the loop, at the step that the index names; past the steps the loop ends.
  unfoldable pub round :
      (T → Lsm T → S → Outcome (Stepped T S))
      → (Lsm T → S → Outcome (RunResult T S))
      → Option T
      → Lsm T
      → S
      → Outcome (RunResult T S)
  unfolding act
  round exec again none m s =
      ok (record { machine = m; state = s; was_cancelled = false; was_done = true })
  round exec again (some t) m s = exec t m s >>= λ r. act again r.action r.machine r.state

module _ {T S : Type 0} (exec : T → Lsm T → S → Outcome (Stepped T S)) where
  -- The `for` loop of `Run`, on fuel.
  unfoldable pub run_loop : ℕ → Lsm T → S → Outcome (RunResult T S)
  unfolding round
  run_loop zero m s = stuck
  run_loop (suc fuel) m s = round exec (run_loop fuel) (get_elem? m.steps m.index) m s

  -- `Run`: a machine past its last step answers at once, with the flag of an earlier cancel.
  unfoldable pub run : ℕ → Lsm T → S → Outcome (RunResult T S)
  unfolding run_loop
  run fuel m s =
      if leb (length m.steps) m.index
      then ok (record { machine = m; state = s; was_cancelled = m.cancelled; was_done = true })
      else run_loop fuel m s
