-- ===== src/Protocols/Duplex/Steps.antt =====
-- The runs of a side that end with the segment: its one or two steps go on to the next, or the only
-- one cancels.
use open_gfw_for_frp_integra.Prelude.{
  length, ok, ℕ, suc, ◌+◌, ◌<◌, ◌≡◌, refl, ◌∙◌, Bool, true, false, List, [], ◌∷◌, arith,
}
use open_gfw_for_frp_integra.Utils.ByteBuffer.{append}
use open_gfw_for_frp_integra.Utils.Lsm.{
  Lsm, next, cancel, new_lsm, RunResult, act, round, run_loop, run,
}
use open_gfw_for_frp_integra.Protocols.Duplex.{
  Side, Duplex, Behaviour, lift, run_side, finish, feed_data, feed,
}

feed-data :
    {Step : Type 0} (b : Behaviour Step) (rev : Bool) (bytes : List ℕ) (o : Duplex Step)
    → 0 < length bytes
    → feed b rev 0 bytes o ≡ feed_data b rev bytes o
unfolding feed
feed-data b rev [] o l = absurd (omega arith)
feed-data b rev (x ∷ bytes) o l = refl

-- A side of which the run on the data is known.
module _ {Step : Type 0} (b : Behaviour Step) (o : Duplex Step) (m : Lsm Step) (s : Side)
    (r : RunResult Step Side) (bytes : List ℕ) (l : 0 < length bytes)
    (e : run_side b m s bytes ≡ ok r) where
  pub feed-req_run : o.req ≡ s → o.req_lsm ≡ m → feed b false 0 bytes o ≡ ok (finish b false o r)
  unfolding feed_data
  feed-req_run h k = feed-data b false bytes o l ∙ rw (h, k, e) refl

  pub feed-resp_run : o.resp ≡ s → o.resp_lsm ≡ m → feed b true 0 bytes o ≡ ok (finish b true o r)
  unfolding feed_data
  feed-resp_run h k = feed-data b true bytes o l ∙ rw (h, k, e) refl

module _ {Step : Type 0} (b : Behaviour Step) (t u : Step) where
  -- What a machine that both steps took to its end has left.
  abbrev pub ended : Side → RunResult Step Side
  ended s = record {
    machine = record { steps = t ∷ u ∷ []; index = 2; cancelled = false };
    state = s;
    was_cancelled = false;
    was_done = true;
  }

  run-two :
      (fuel : ℕ) (s s1 s2 : Side)
      → b.exec t s ≡ ok (next, s1)
      → b.exec u s1 ≡ ok (next, s2)
      → run (lift b) (suc (suc (suc fuel))) (new_lsm (t ∷ u ∷ [])) s ≡ ok (ended s2)
  unfolding run run_loop round act lift new_lsm
  run-two fuel s s1 s2 e f = rw (e, f) refl

  -- On the bytes that come in, the first step and then the second go on: the machine is done.
  pub run_side-two :
      (s s1 s2 : Side) (bytes : List ℕ)
      → b.exec t (record s { buf = append s.buf bytes; updated = false }) ≡ ok (next, s1)
      → b.exec u s1 ≡ ok (next, s2)
      → run_side b (new_lsm (t ∷ u ∷ [])) s bytes ≡ ok (ended s2)
  unfolding run_side
  run_side-two s s1 s2 bytes e f =
      let n = length (append s.buf bytes) in
      let three : n + 3 ≡ suc (suc (suc n)) = omega arith in
      rw three (run-two n (record s { buf = append s.buf bytes; updated = false }) s1 s2 e f)

  module _ (o : Duplex Step) (s s1 s2 : Side) (bytes : List ℕ) (l : 0 < length bytes)
      (e : b.exec t (record s { buf = append s.buf bytes; updated = false }) ≡ ok (next, s1))
      (f : b.exec u s1 ≡ ok (next, s2)) where
    pub feed-req_two :
        o.req ≡ s
        → o.req_lsm ≡ new_lsm (t ∷ u ∷ [])
        → feed b false 0 bytes o ≡ ok (finish b false o (ended s2))
    feed-req_two =
        feed-req_run b o (new_lsm (t ∷ u ∷ [])) s (ended s2) bytes l
          (run_side-two s s1 s2 bytes e f)

    pub feed-resp_two :
        o.resp ≡ s
        → o.resp_lsm ≡ new_lsm (t ∷ u ∷ [])
        → feed b true 0 bytes o ≡ ok (finish b true o (ended s2))
    feed-resp_two =
        feed-resp_run b o (new_lsm (t ∷ u ∷ [])) s (ended s2) bytes l
          (run_side-two s s1 s2 bytes e f)

module _ {Step : Type 0} (b : Behaviour Step) (t : Step) where
  -- What a machine of one step has left at its end.
  abbrev pub ended_one : Side → RunResult Step Side
  ended_one s = record {
    machine = record { steps = t ∷ []; index = 1; cancelled = false };
    state = s;
    was_cancelled = false;
    was_done = true;
  }

  run-one :
      (fuel : ℕ) (s s1 : Side)
      → b.exec t s ≡ ok (next, s1)
      → run (lift b) (suc (suc fuel)) (new_lsm (t ∷ [])) s ≡ ok (ended_one s1)
  unfolding run run_loop round act lift new_lsm
  run-one fuel s s1 e = rw e refl

  pub run_side-one :
      (s s1 : Side) (bytes : List ℕ)
      → b.exec t (record s { buf = append s.buf bytes; updated = false }) ≡ ok (next, s1)
      → run_side b (new_lsm (t ∷ [])) s bytes ≡ ok (ended_one s1)
  unfolding run_side
  run_side-one s s1 bytes e =
      let n = length (append s.buf bytes) in
      let three : n + 3 ≡ suc (suc (suc n)) = omega arith in
      rw three (run-one (suc n) (record s { buf = append s.buf bytes; updated = false }) s1 e)

  -- What a machine of one step has left that has cancelled.
  abbrev pub cancelled_one : Side → RunResult Step Side
  cancelled_one s = record {
    machine = record { steps = t ∷ []; index = 0; cancelled = true };
    state = s;
    was_cancelled = true;
    was_done = true;
  }

  run-cancelled :
      (fuel : ℕ) (s s1 : Side)
      → b.exec t s ≡ ok (cancel, s1)
      → run (lift b) (suc fuel) (new_lsm (t ∷ [])) s ≡ ok (cancelled_one s1)
  unfolding run run_loop round act lift new_lsm
  run-cancelled fuel s s1 e = rw e refl

  pub run_side-cancelled :
      (s s1 : Side) (bytes : List ℕ)
      → b.exec t (record s { buf = append s.buf bytes; updated = false }) ≡ ok (cancel, s1)
      → run_side b (new_lsm (t ∷ [])) s bytes ≡ ok (cancelled_one s1)
  unfolding run_side
  run_side-cancelled s s1 bytes e =
      let n = length (append s.buf bytes) in
      let three : n + 3 ≡ suc (suc (suc n)) = omega arith in
      rw three
        (run-cancelled (suc (suc n)) (record s { buf = append s.buf bytes; updated = false }) s1 e)
