-- ===== src/Engine/Udp/Offload.antt =====
-- A UDP stream after its verdict: what the packets that follow get.
use open_gfw_for_frp_integra.Prelude.{
  Bool-cases, length, replicate, ℕ, ◌≡◌, refl, ap, ◌∙◌, ◌≢◌, inl, inr, Bool, true, false, ◌||◌,
  Option, none, some, List, [], ◌∷◌, arith,
}
use open_gfw_for_frp_integra.Ruleset.{
  Action, allow, block, Verdict, accept, accept_stream, drop_stream, MatchResult, Match,
}
use open_gfw_for_frp_integra.Engine.Udp.{
  UdpStreams, UdpContext, prop_update, modify_error, stream_action, UdpStream,
  action_to_udp_verdict, write_log, accept_packet, modified, issue, match_rules, settle,
  feed_active, feed, handle_packet,
}
use open_gfw_for_frp_integra.Engine.Udp.Verdicts.{
  new_context, close_active_entries_lem, feed_decides,
}

module _ {A : Type 0} (streams : UdpStreams A) where
  -- The packets of one stream in the order of arrival, each with the context that `handleUDP` of
  -- engine/worker.go makes for it: the stream that they leave and their verdicts.
  unfoldable pub handle_packets :
      Match → List (Bool × List ℕ) → UdpStream A → UdpStream A × List Verdict
  unfolding handle_packet
  handle_packets rules [] s = (s, [])
  handle_packets rules ((rev, payload) ∷ ps) s =
      let (t, uc) = handle_packet streams rules rev payload s new_context in
      let (u, vs) = handle_packets rules ps t in (u, uc.verdict ∷ vs)

  offloaded_packet :
      (rules : Match) (rev : Bool) (payload : List ℕ) (s : UdpStream A) (uc : UdpContext)
      → s.virgin ≡ false
      → s.active_entries ≡ []
      → handle_packet streams rules rev payload s uc ≡ (s, record uc { verdict = s.last_verdict })
  unfolding handle_packet accept_packet
  offloaded_packet rules rev payload s uc v a = ground arith

  offloaded :
      (rules : Match) (ps : List (Bool × List ℕ)) (s : UdpStream A)
      → s.virgin ≡ false
      → s.active_entries ≡ []
      → handle_packets rules ps s ≡ (s, replicate (length ps) s.last_verdict)
  unfolding handle_packets
  offloaded rules [] s v a = refl
  offloaded rules ((rev, payload) ∷ ps) s v a =
      rw (offloaded_packet rules rev payload s new_context v a, offloaded rules ps s v a)

  -- Once a packet leaves a stream with no active entry, every later packet gets that packet's
  -- verdict, which is not plain "accept", and the stream stays as it is.
  pub verdict_repeats :
      (rules : Match) (rev : Bool) (payload : List ℕ) (ps : List (Bool × List ℕ)) (s : UdpStream A)
      → (feed streams rules rev payload s new_context).0.active_entries ≡ []
      → let (t, uc) = feed streams rules rev payload s new_context in
        (handle_packets rules ps t ≡ (t, replicate (length ps) uc.verdict)) × (uc.verdict ≢ accept)
  verdict_repeats rules rev payload ps s none_left =
      let (old, decided) = feed_decides streams rules rev payload s new_context refl in
      let (not_open, remembered) = decided none_left in
      let (t, uc) = feed streams rules rev payload s new_context in
      (
        offloaded rules ps t old none_left ∙ ap (λ v. (t, replicate (length ps) v)) remembered,
        not_open,
      )

  -- The actions that end the inspection of a stream.
  abbrev pub final_verdict : Action → Option Verdict
  final_verdict allow = some accept_stream
  final_verdict block = some drop_stream
  final_verdict a = none

  issue_final :
      (a : Action) (v : Verdict) (s : UdpStream A) (uc : UdpContext)
      → final_verdict a ≡ some v
      → ((issue streams a s uc).0.active_entries ≡ []) × ((issue streams a s uc).1.verdict ≡ v)
  unfolding issue action_to_udp_verdict
  issue_final a v s uc h = ground (
    arith,
    close_active_entries_lem streams
        (write_log (stream_action allow false) (record s { last_verdict = accept_stream })),
    close_active_entries_lem streams
        (write_log (stream_action block false) (record s { last_verdict = drop_stream })),
  )

  modified_final :
      (r : MatchResult) (payload : List ℕ) (uc : UdpContext) (v : Verdict)
      → final_verdict r.action ≡ some v
      → final_verdict (modified streams r payload uc).0 ≡ some v
  unfolding modified
  modified_final r payload uc v h = ground arith

  match_rules_final :
      (rules : Match) (payload : List ℕ) (s : UdpStream A) (uc : UdpContext) (v : Verdict)
      → final_verdict (rules s.info).action ≡ some v
      → ((match_rules streams rules payload s uc).0.active_entries ≡ [])
        × ((match_rules streams rules payload s uc).1.verdict ≡ v)
  unfolding match_rules
  match_rules_final rules payload s uc v h =
      let t = write_log (prop_update false) (record s { virgin = false }) in
      let m = modified streams (rules t.info) payload uc in
      let final = modified_final (rules t.info) payload uc v h in
      elim (Bool-cases m.2) [
        | inl e ↦ rw e (issue_final m.0 v (write_log modify_error t) m.1 final)
        | inr e ↦ rw e (issue_final m.0 v t m.1 final)
      ]

  settle_final :
      (s : UdpStream A) (uc : UdpContext) (a : Action) (v : Verdict)
      → final_verdict a ≡ some v
      → s.active_entries ≡ []
      → uc.verdict ≡ v
      → settle streams s uc ≡ (s, uc)
  unfolding settle
  settle_final s uc a v f e h = ground arith

  feed_final :
      (rules : Match) (rev : Bool) (payload : List ℕ) (s : UdpStream A) (uc : UdpContext)
      (v : Verdict)
      → (feed_active streams rev payload s).1 || (feed_active streams rev payload s).0.virgin ≡ true
      → final_verdict (rules ((feed_active streams rev payload s).0.info)).action ≡ some v
      → ((feed streams rules rev payload s uc).0.active_entries ≡ [])
        × ((feed streams rules rev payload s uc).1.verdict ≡ v)
  unfolding feed
  feed_final rules rev payload s uc v matched final =
      let t = (feed_active streams rev payload s).0 in
      let m = match_rules streams rules payload t uc in
      let (none_left, is_v) = match_rules_final rules payload t uc v final in
      rw (matched, settle_final m.0 m.1 (rules t.info).action v final none_left is_v)
        (none_left, is_v)

  -- If the rule set answers "allow" or "block" when a packet is matched (the stream is new, or a
  -- property changed), then no analyzer stays active, and that packet and all later ones get the
  -- verdict of the action.
  pub final_action_ends :
      (rules : Match) (rev : Bool) (payload : List ℕ) (ps : List (Bool × List ℕ)) (s : UdpStream A)
      (v : Verdict)
      → (feed_active streams rev payload s).1 || (feed_active streams rev payload s).0.virgin ≡ true
      → final_verdict (rules ((feed_active streams rev payload s).0.info)).action ≡ some v
      → let (t, uc) = feed streams rules rev payload s new_context in
        (t.active_entries ≡ [])
        × (uc.verdict ≡ v)
        × (handle_packets rules ps t ≡ (t, replicate (length ps) v))
  final_action_ends rules rev payload ps s v matched final =
      let (none_left, is_v) = feed_final rules rev payload s new_context v matched final in
      let (t, uc) = feed streams rules rev payload s new_context in
      (
        none_left,
        is_v,
        (verdict_repeats rules rev payload ps s none_left).0
            ∙ ap (λ w. (t, replicate (length ps) w)) is_v,
      )
