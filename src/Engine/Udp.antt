-- ===== src/Engine/Udp.antt =====
-- The streams of engine/udp.go. An analyzer's stream is an interface in the source: here a type `A`
-- with the operations of `UdpStreams`. The calls of the logger are kept as a list of events, newest
-- first. A quota that falls below 0 is kept as 0: it belongs to an entry that is done, and is not
-- read again.
pub mod Entries
pub mod Verdicts
pub mod Offload
use open_gfw_for_frp_integra.Prelude.{
  leb, if◌then◌else◌, length, ℕ, ◌-◌, String, Bool, true, false, ◌||◌, Option, none, List, [], ◌∷◌,
  ◌++◌,
}
use open_gfw_for_frp_integra.Analyzer.{PropUpdate, CombinedPropMap}
use open_gfw_for_frp_integra.Ruleset.{
  Action, maybe, allow, block, drop_packet, modify, Verdict, accept, accept_modify, accept_stream,
  drop_one, drop_stream, StreamInfo, ModInstance, udp_modifier, other_instance, MatchResult, Match,
}
use open_gfw_for_frp_integra.Engine.PropUpdates.{process_prop_update}

-- analyzer.UDPStream: what `Feed` returns, and the operations.
pub record Fed (A : Type 0) : Type 0 where
  pub stream : A
  pub update : Option PropUpdate
  pub is_done : Bool

pub record UdpStreams (A : Type 0) : Type 0 where
  pub feed_stream : A → Bool → List ℕ → Fed A
  pub close_stream : A → Bool → A × Option PropUpdate

pub record UdpContext : Type 0 where
  pub verdict : Verdict
  pub packet : Option (List ℕ)

pub record UdpEntry (A : Type 0) : Type 0 where
  pub name : String
  pub stream : A
  pub has_limit : Bool
  pub quota : ℕ

pub data LogEvent : Type 0 where
  prop_update : Bool → LogEvent
  modify_error : LogEvent
  stream_action : Action → Bool → LogEvent

pub record UdpStream (A : Type 0) : Type 0 where
  pub info : StreamInfo
  pub virgin : Bool
  pub active_entries : List (UdpEntry A)
  pub done_entries : List (UdpEntry A)
  pub last_verdict : Verdict
  pub log : List LogEvent

unfoldable pub action_to_udp_verdict : Action → Verdict × Bool
action_to_udp_verdict maybe = (accept, false)
action_to_udp_verdict allow = (accept_stream, true)
action_to_udp_verdict block = (drop_stream, true)
action_to_udp_verdict drop_packet = (drop_one, false)
action_to_udp_verdict modify = (accept_modify, false)

module _ {A : Type 0} where
  abbrev pub set_props : UdpStream A → CombinedPropMap → UdpStream A
  set_props s cpm = record s { info = record (s.info) { properties = cpm } }

  abbrev pub write_log : LogEvent → UdpStream A → UdpStream A
  write_log e s = record s { log = e ∷ s.log }

  -- `Accept`: the answer, and the context that it leaves.
  unfoldable pub accept_packet : UdpStream A → UdpContext → Bool × UdpContext
  accept_packet s uc = elim (s.active_entries) [
    | _ ∷ _ ↦ (true, uc)
    | [] ↦ if s.virgin then (true, uc) else (false, record uc { verdict = s.last_verdict })
  ]

-- What `feedEntry` leaves and returns.
pub record FedEntry (A : Type 0) : Type 0 where
  pub entry : UdpEntry A
  pub update : Option PropUpdate
  pub close_update : Option PropUpdate
  pub is_done : Bool

-- What the loop over the active entries leaves.
pub record FedAll (A : Type 0) : Type 0 where
  pub active : List (UdpEntry A)
  pub finished : List (UdpEntry A)
  pub cpm : CombinedPropMap
  pub updated : Bool

-- What closing the active entries leaves.
pub record ClosedAll (A : Type 0) : Type 0 where
  pub closed : List (UdpEntry A)
  pub cpm : CombinedPropMap
  pub updated : Bool

module _ {A : Type 0} (streams : UdpStreams A) where
  open streams use {feed_stream, close_stream}

  -- The `Quota <= 0` branch of `feedEntry`.
  unfoldable pub exhaust : UdpEntry A → Option PropUpdate → FedEntry A
  exhaust e update =
      let (closed, close_update) = close_stream e.stream true in
      record {
        entry = record e { stream = closed };
        update = update;
        close_update = close_update;
        is_done = true;
      }

  unfoldable pub feed_entry : UdpEntry A → Bool → List ℕ → FedEntry A
  unfolding exhaust
  feed_entry e rev payload =
      let r = feed_stream e.stream rev payload in
      let fed = record e { stream = r.stream } in
      let charged = record fed { quota = e.quota - length payload } in
      let plain : FedEntry A = record {
        entry = fed;
        update = r.update;
        close_update = none;
        is_done = r.is_done;
      } in
      let metered : FedEntry A = record {
        entry = charged;
        update = r.update;
        close_update = none;
        is_done = r.is_done;
      } in
      if e.has_limit
      then (if leb e.quota (length payload) then exhaust charged r.update else metered)
      else plain

  -- The body of the loop in `Feed`, on what the entries behind this one have left.
  unfoldable pub feed_into : UdpEntry A → Bool → List ℕ → FedAll A → FedAll A
  unfolding feed_entry process_prop_update
  feed_into e rev payload later =
      let r = feed_entry e rev payload in
      let (cpm₁, up₁) = process_prop_update later.cpm e.name r.update in
      let (cpm₂, up₂) = process_prop_update cpm₁ e.name r.close_update in
      record {
        active = if r.is_done then later.active else r.entry ∷ later.active;
        finished = if r.is_done then later.finished ++ (r.entry ∷ []) else later.finished;
        cpm = cpm₂;
        updated = later.updated || up₁ || up₂;
      }

  -- The loop runs from the last entry to the first, and moves the entries that are done.
  unfoldable pub feed_entries : List (UdpEntry A) → Bool → List ℕ → CombinedPropMap → FedAll A
  unfolding feed_into
  feed_entries [] rev payload cpm = record {
    active = [];
    finished = [];
    cpm = cpm;
    updated = false;
  }
  feed_entries (e ∷ es) rev payload cpm = feed_into e rev payload (feed_entries es rev payload cpm)

  unfoldable pub close_entries : List (UdpEntry A) → CombinedPropMap → Bool → ClosedAll A
  unfolding process_prop_update
  close_entries [] cpm updated = record { closed = []; cpm = cpm; updated = updated }
  close_entries (e ∷ es) cpm updated =
      let (closed, update) = close_stream e.stream false in
      let (cpm', up) = process_prop_update cpm e.name update in
      let rest = close_entries es cpm' (updated || up) in
      record {
        closed = record e { stream = closed } ∷ rest.closed;
        cpm = rest.cpm;
        updated = rest.updated;
      }

  unfoldable pub close_active_entries : UdpStream A → UdpStream A
  unfolding close_entries
  close_active_entries s =
      let r = close_entries s.active_entries s.info.properties false in
      let t = set_props s r.cpm in
      let logged = if r.updated then write_log (prop_update true) t else t in
      record logged { done_entries = s.done_entries ++ r.closed; active_entries = [] }

  -- `Close`
  unfoldable pub close : UdpStream A → UdpStream A
  unfolding close_active_entries
  close s = close_active_entries s

  -- The call of the modifier: the action that remains, the context, and whether it failed.
  unfoldable pub run_modifier : ModInstance → List ℕ → UdpContext → Action × UdpContext × Bool
  run_modifier other_instance payload uc = (maybe, uc, true)
  run_modifier (udp_modifier process) payload uc =
      let r = process payload in
      let uc' = record uc { packet = r.bytes } in
      if r.failed then (maybe, uc', true) else (modify, uc', false)

  unfoldable pub modified : MatchResult → List ℕ → UdpContext → Action × UdpContext × Bool
  unfolding run_modifier
  modified r payload uc = elim (r.action) [
    | modify ↦ run_modifier r.mod_instance payload uc
    | a ↦ (a, uc, false)
  ]

  -- The verdict of an action other than "maybe".
  unfoldable pub issue : Action → UdpStream A → UdpContext → UdpStream A × UdpContext
  unfolding action_to_udp_verdict close_active_entries
  issue maybe s uc = (s, uc)
  issue a s uc =
      let (v, final) = action_to_udp_verdict a in
      let t = write_log (stream_action a false) (record s { last_verdict = v }) in
      (if final then close_active_entries t else t, record uc { verdict = v })

  -- The part of `Feed` that matches the properties against the rule set.
  unfoldable pub match_rules : Match → List ℕ → UdpStream A → UdpContext → UdpStream A × UdpContext
  unfolding modified issue
  match_rules rules payload s uc =
      let t = write_log (prop_update false) (record s { virgin = false }) in
      let (action, uc', failed) = modified (rules t.info) payload uc in
      issue action (if failed then write_log modify_error t else t) uc'

  -- The last part of `Feed`: with no entry left and no verdict, the stream is accepted.
  unfoldable pub settle : UdpStream A → UdpContext → UdpStream A × UdpContext
  settle s uc = elim (s.active_entries) [
    | _ ∷ _ ↦ (s, uc)
    | [] ↦ elim (uc.verdict) [
      | accept ↦ (
        write_log (stream_action allow true) (record s { last_verdict = accept_stream }),
        record uc { verdict = accept_stream },
      )
      | _ ↦ (s, uc)
    ]
  ]

  -- The entries after the loop of `Feed`, and whether a property changed.
  unfoldable pub feed_active : Bool → List ℕ → UdpStream A → UdpStream A × Bool
  unfolding feed_entries
  feed_active rev payload s =
      let r = feed_entries s.active_entries rev payload s.info.properties in
      (
        record (set_props s r.cpm) {
          active_entries = r.active;
          done_entries = s.done_entries ++ r.finished;
        },
        r.updated,
      )

  unfoldable pub feed : Match → Bool → List ℕ → UdpStream A → UdpContext → UdpStream A × UdpContext
  unfolding feed_active match_rules settle
  feed rules rev payload s uc =
      let (t, updated) = feed_active rev payload s in
      let matched = match_rules rules payload t uc in
      let (u, uc') = if updated || t.virgin then matched else (t, uc) in settle u uc'

  -- The end of `MatchWithContext`: a packet is fed to its stream if the stream accepts it.
  unfoldable pub handle_packet :
      Match → Bool → List ℕ → UdpStream A → UdpContext → UdpStream A × UdpContext
  unfolding accept_packet feed
  handle_packet rules rev payload s uc =
      let (wanted, uc') = accept_packet s uc in
      if wanted then feed rules rev payload s uc' else (s, uc')
