-- ===== src/Protocols/Duplex.antt =====
-- The shape that four analyzers share (analyzer/tcp/tls.go, http.go, ssh.go and the TCP stream of
-- analyzer/udp/dns.go): a buffer, a map and a machine for each direction, and the same `Feed`. The
-- fields of one direction are a `Side`; a step works on its own side and leaves the machine alone.
pub mod Total
pub mod Steps
use open_gfw_for_frp_integra.Prelude.{
  ◌==◌, if◌then◌else◌, length, Outcome, ok, ◌>>=◌, ℕ, ◌+◌, ◌-◌, ◌/◌, Bool, true, false, not, ◌&&◌,
  ◌||◌, Option, none, some, List, [], ◌∷◌, map,
}
use open_gfw_for_frp_integra.Analyzer.{PropMap, null, PropUpdate}
use open_gfw_for_frp_integra.Utils.Lsm.{LsmAction, Lsm, Stepped, RunResult, new_lsm, run}
use open_gfw_for_frp_integra.Utils.ByteBuffer.{ByteBuffer, append, reset}

pub record Side : Type 0 where
  pub buf : ByteBuffer
  pub found : PropMap
  pub updated : Bool
  pub msg_len : ℕ

pub record Duplex (Step : Type 0) : Type 0 where
  pub req : Side
  pub req_lsm : Lsm Step
  pub req_done : Bool
  pub resp : Side
  pub resp_lsm : Lsm Step
  pub resp_done : Bool

pub record Fed (Step : Type 0) : Type 0 where
  pub stream : Duplex Step
  pub update : Option PropUpdate
  pub is_done : Bool

abbrev pub new_side : Side
new_side = record { buf = []; found = null; updated = false; msg_len = 0 }

module _ {Step : Type 0} where
  unfoldable pub new_duplex : List Step → List Step → Duplex Step
  unfolding new_lsm
  new_duplex req_steps resp_steps = record {
    req = new_side;
    req_lsm = new_lsm req_steps;
    req_done = false;
    resp = new_side;
    resp_lsm = new_lsm resp_steps;
    resp_done = false;
  }

  -- `Close`
  unfoldable pub close : Duplex Step → Duplex Step
  unfolding reset
  close o = record o {
    req = record (o.req) { buf = reset o.req.buf; found = null };
    resp = record (o.resp) { buf = reset o.resp.buf; found = null };
  }

-- What the streams differ in: what a step does, and the update that is sent for a side.
pub record Behaviour (Step : Type 0) : Type 0 where
  pub exec : Step → Side → Outcome (LsmAction × Side)
  pub update_of : Bool → PropMap → PropUpdate

module _ {Step : Type 0} (b : Behaviour Step) where
  unfoldable pub lift : Step → Lsm Step → Side → Outcome (Stepped Step Side)
  lift t m s = b.exec t s >>= λ r. ok (record { action = r.0; machine = m; state = r.1 })

  -- The data arrives, and the machine runs. A machine has two steps at most, and one that starts
  -- anew has read two bytes at least, so the rounds are enough.
  unfoldable pub run_side : Lsm Step → Side → List ℕ → Outcome (RunResult Step Side)
  unfolding append lift run
  run_side m s bytes =
      run lift (length (append s.buf bytes) + 3) m
        (record s { buf = append s.buf bytes; updated = false })

  -- The update of a side that was found.
  unfoldable pub update_if : Bool → Side → Option PropUpdate
  update_if rev s = if s.updated then some (b.update_of rev s.found) else none

  unfoldable pub finish : Bool → Duplex Step → RunResult Step Side → Fed Step
  unfolding update_if
  finish true o r = record {
    stream = record o {
      resp = record (r.state) { updated = false };
      resp_lsm = r.machine;
      resp_done = r.was_done;
    };
    update = update_if true r.state;
    is_done = r.was_cancelled || (o.req_done && r.was_done);
  }
  finish false o r = record {
    stream = record o {
      req = record (r.state) { updated = false };
      req_lsm = r.machine;
      req_done = r.was_done;
    };
    update = update_if false r.state;
    is_done = r.was_cancelled || (r.was_done && o.resp_done);
  }

  unfoldable pub feed_data : Bool → List ℕ → Duplex Step → Outcome (Fed Step)
  unfolding run_side finish
  feed_data true bytes o = run_side o.resp_lsm o.resp bytes >>= λ r. ok (finish true o r)
  feed_data false bytes o = run_side o.req_lsm o.req bytes >>= λ r. ok (finish false o r)

  -- `Feed`
  unfoldable pub feed : Bool → ℕ → List ℕ → Duplex Step → Outcome (Fed Step)
  unfolding feed_data
  feed rev skip [] o = ok (record { stream = o; update = none; is_done = not (skip == 0) })
  feed rev skip (x ∷ bytes) o =
      if skip == 0
      then feed_data rev (x ∷ bytes) o
      else ok (record { stream = o; update = none; is_done = true })
