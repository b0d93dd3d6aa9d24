-- ===== src/Engine/Tcp.antt =====
-- The streams of engine/tcp.go. As in Engine.Udp an analyzer's stream is a type `A` with the
-- operations of an interface, and the logger's calls are a list of events. The reassembly of
-- segments is a library's: a `Segment` is what it hands to `ReassembledSG`.
pub mod Quota
pub mod Verdicts
pub mod Actions
use open_gfw_for_frp_integra.Prelude.{
  ltb, ◌==◌, if◌then◌else◌, length, take, ℕ, ◌+◌, ◌-◌, String, Bool, true, false, ◌||◌, Option,
  none, List, [], ◌∷◌, ◌++◌,
}
use open_gfw_for_frp_integra.Analyzer.{PropUpdate, CombinedPropMap}
use open_gfw_for_frp_integra.Ruleset.{
  Action, maybe, allow, block, drop_packet, modify, Verdict, accept, accept_stream, drop_stream,
  StreamInfo, Match,
}
use open_gfw_for_frp_integra.Engine.PropUpdates.{process_prop_update}
use open_gfw_for_frp_integra.Engine.Udp.{Fed, LogEvent, prop_update, stream_action}

-- What `sg.Info`, `sg.Lengths` and `sg.Fetch` tell of the reassembled data.
pub record Segment : Type 0 where
  pub rev : Bool
  pub is_start : Bool
  pub is_end : Bool
  pub skip : ℕ
  pub bytes : List ℕ

pub record TcpStreams (A : Type 0) : Type 0 where
  pub feed_stream : A → Segment → Fed A
  pub close_stream : A → Bool → A × Option PropUpdate

pub record TcpEntry (A : Type 0) : Type 0 where
  pub name : String
  pub stream : A
  pub has_limit : Bool
  pub quota : ℕ

pub record TcpStream (A : Type 0) : Type 0 where
  pub info : StreamInfo
  pub virgin : Bool
  pub active_entries : List (TcpEntry A)
  pub done_entries : List (TcpEntry A)
  pub last_verdict : Verdict
  pub log : List LogEvent

unfoldable pub action_to_tcp_verdict : Action → Verdict
action_to_tcp_verdict maybe = accept_stream
action_to_tcp_verdict allow = accept_stream
action_to_tcp_verdict modify = accept_stream
action_to_tcp_verdict block = drop_stream
action_to_tcp_verdict drop_packet = drop_stream

module _ {A : Type 0} where
  abbrev pub set_props : TcpStream A → CombinedPropMap → TcpStream A
  set_props s cpm = record s { info = record (s.info) { properties = cpm } }

  abbrev pub write_log : LogEvent → TcpStream A → TcpStream A
  write_log e s = record s { log = e ∷ s.log }

  -- `Accept`: the answer, and the verdict that it leaves in the context.
  unfoldable pub accept_packet : TcpStream A → Verdict → Bool × Verdict
  accept_packet s verdict = elim (s.active_entries) [
    | _ ∷ _ ↦ (true, verdict)
    | [] ↦ if s.virgin then (true, verdict) else (false, s.last_verdict)
  ]

pub record FedEntry (A : Type 0) : Type 0 where
  pub entry : TcpEntry A
  pub update : Option PropUpdate
  pub close_update : Option PropUpdate
  pub is_done : Bool

pub record FedAll (A : Type 0) : Type 0 where
  pub active : List (TcpEntry A)
  pub finished : List (TcpEntry A)
  pub cpm : CombinedPropMap
  pub updated : Bool

pub record ClosedAll (A : Type 0) : Type 0 where
  pub closed : List (TcpEntry A)
  pub cpm : CombinedPropMap
  pub updated : Bool

module _ {A : Type 0} (streams : TcpStreams A) where
  open streams use {feed_stream, close_stream}

  -- The `Quota <= 0` branch of `feedEntry`.
  unfoldable pub exhaust : TcpEntry A → Option PropUpdate → FedEntry A
  exhaust e update =
      let (closed, close_update) = close_stream e.stream true in
      record {
        entry = record e { stream = closed };
        update = update;
        close_update = close_update;
        is_done = true;
      }

  -- The `else` branch of `feedEntry`: the data is cut to the quota, which is charged for it.
  unfoldable pub feed_limited : TcpEntry A → Segment → FedEntry A
  unfolding exhaust
  feed_limited e seg =
      let q_data = if ltb e.quota (length seg.bytes) then take e.quota seg.bytes else seg.bytes in
      let r = feed_stream e.stream (record seg { bytes = q_data }) in
      let charged = record e { stream = r.stream; quota = e.quota - length q_data } in
      let metered : FedEntry A = record {
        entry = charged;
        update = r.update;
        close_update = none;
        is_done = r.is_done;
      } in
      if charged.quota == 0 then exhaust charged r.update else metered

  unfoldable pub feed_entry : TcpEntry A → Segment → FedEntry A
  unfolding feed_limited
  feed_entry e seg =
      let r = feed_stream e.stream seg in
      let plain : FedEntry A = record {
        entry = record e { stream = r.stream };
        update = r.update;
        close_update = none;
        is_done = r.is_done;
      } in
      if e.has_limit then feed_limited e seg else plain

  -- The body of the loop in `ReassembledSG`, on what the entries behind this one have left.
  unfoldable pub feed_into : TcpEntry A → Segment → FedAll A → FedAll A
  unfolding feed_entry process_prop_update
  feed_into e seg later =
      let r = feed_entry e seg in
      let (cpm₁, up₁) = process_prop_update later.cpm e.name r.update in
      let (cpm₂, up₂) = process_prop_update cpm₁ e.name r.close_update in
      record {
        active = if r.is_done then later.active else r.entry ∷ later.active;
        finished = if r.is_done then later.finished ++ (r.entry ∷ []) else later.finished;
        cpm = cpm₂;
        updated = later.updated || up₁ || up₂;
      }

  unfoldable pub feed_entries : List (TcpEntry A) → Segment → CombinedPropMap → FedAll A
  unfolding feed_into
  feed_entries [] seg cpm = record { active = []; finished = []; cpm = cpm; updated = false }
  feed_entries (e ∷ es) seg cpm = feed_into e seg (feed_entries es seg cpm)

  unfoldable pub close_entries : List (TcpEntry A) → CombinedPropMap → Bool → ClosedAll A
  unfolding process_prop_update
  close_entries [] cpm updated = record { closed = []; cpm = cpm; updated = updated }
  close_entries (e ∷ es) cpm updated =
      let (closed, update) = close_stream e.stream false in
      let (cpm', up) = process_prop_update cpm e.name update in
      let rest = close_entries es cpm' (updated || up) in
      record {
        closed = record e { stream = closed } ∷ rest.closed;
        cpm = rest.cpm;
        updated = rest.updated;
      }

  unfoldable pub close_active_entries : TcpStream A → TcpStream A
  unfolding close_entries
  close_active_entries s =
      let r = close_entries s.active_entries s.info.properties false in
      let t = set_props s r.cpm in
      let logged = if r.updated then write_log (prop_update true) t else t in
      record logged { done_entries = s.done_entries ++ r.closed; active_entries = [] }

  -- `ReassemblyComplete`, which answers true.
  unfoldable pub reassembly_complete : TcpStream A → TcpStream A × Bool
  unfolding close_active_entries
  reassembly_complete s = (close_active_entries s, true)

  -- The verdict of an action: "maybe" and "modify" issue none.
  unfoldable pub issue : Action → TcpStream A → Verdict → TcpStream A × Verdict
  unfolding action_to_tcp_verdict close_active_entries
  issue maybe s verdict = (s, verdict)
  issue modify s verdict = (s, verdict)
  issue a s verdict =
      let v = action_to_tcp_verdict a in
      (close_active_entries (write_log (stream_action a false) (record s { last_verdict = v })), v)

  unfoldable pub match_rules : Match → TcpStream A → Verdict → TcpStream A × Verdict
  unfolding issue
  match_rules rules s verdict =
      let t = write_log (prop_update false) (record s { virgin = false }) in
      issue (rules t.info).action t verdict

  -- The last part of `ReassembledSG`: with no entry left and no verdict, the stream is accepted.
  unfoldable pub settle : TcpStream A → Verdict → TcpStream A × Verdict
  settle s verdict = elim (s.active_entries) [
    | _ ∷ _ ↦ (s, verdict)
    | [] ↦ elim verdict [
      | accept ↦ (
        write_log (stream_action allow true) (record s { last_verdict = accept_stream }),
        accept_stream,
      )
      | v ↦ (s, v)
    ]
  ]

  unfoldable pub feed_active : Segment → TcpStream A → TcpStream A × Bool
  unfolding feed_entries
  feed_active seg s =
      let r = feed_entries s.active_entries seg s.info.properties in
      (
        record (set_props s r.cpm) {
          active_entries = r.active;
          done_entries = s.done_entries ++ r.finished;
        },
        r.updated,
      )

  unfoldable pub reassembled_sg : Match → Segment → TcpStream A → Verdict → TcpStream A × Verdict
  unfolding feed_active match_rules settle
  reassembled_sg rules seg s verdict =
      let (t, updated) = feed_active seg s in
      let matched = match_rules rules t verdict in
      let (u, verdict') = if updated || t.virgin then matched else (t, verdict) in settle u verdict'
