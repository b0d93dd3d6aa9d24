-- ===== src/Engine/Udp/Verdicts.antt =====
-- The verdict that a packet of a UDP stream gets.
use open_gfw_for_frp_integra.Prelude.{
  Bool-cases, ℕ, ◌≡◌, refl, ◌∙◌, ◌≢◌, ◌⊎◌, inl, inr, Bool, false, ◌||◌, none, List, [], arith,
}
use open_gfw_for_frp_integra.Ruleset.{Action, maybe, accept, MatchResult, Match}
use open_gfw_for_frp_integra.Engine.Udp.{
  UdpStreams, UdpContext, prop_update, modify_error, stream_action, UdpStream,
  action_to_udp_verdict, write_log, close_entries, close_active_entries, run_modifier, modified,
  issue, match_rules, settle, feed_active, feed,
}

-- A context as `handleUDP` of the worker makes it.
abbrev pub new_context : UdpContext
new_context = record { verdict = accept; packet = none }

module _ {A : Type 0} where
  -- The verdict is still open, or it is the one that the stream remembers.
  abbrev pub Agrees : UdpStream A × UdpContext → Type 0
  Agrees r = (r.1.verdict ≡ accept) ⊎ (r.0.last_verdict ≡ r.1.verdict)

  -- A stream that has seen a packet and has no entry left remembers a verdict for the others.
  abbrev pub IsSettled : UdpStream A → Type 0
  IsSettled s = s.virgin ≡ false → s.active_entries ≡ [] → s.last_verdict ≢ accept

module _ {A : Type 0} (streams : UdpStreams A) where
  pub close_active_entries_lem :
      (s : UdpStream A)
      → ((close_active_entries streams s).last_verdict ≡ s.last_verdict)
        × ((close_active_entries streams s).virgin ≡ s.virgin)
        × ((close_active_entries streams s).active_entries ≡ [])
  unfolding close_active_entries
  close_active_entries_lem s =
      let r = close_entries streams s.active_entries s.info.properties false in
      elim (Bool-cases r.updated) [ inl e ↦ (rw e, rw e, refl) | inr e ↦ (rw e, rw e, refl) ]

  issue_lem :
      (a : Action) (s : UdpStream A) (uc : UdpContext)
      → Agrees (s, uc)
      → Agrees (issue streams a s uc) × ((issue streams a s uc).0.virgin ≡ s.virgin)
  unfolding issue
  issue_lem maybe s uc h = (h, refl)
  issue_lem a s uc h =
      let t =
        write_log (stream_action a false)
          (record s { last_verdict = (action_to_udp_verdict a).0 }) in
      ground (arith, close_active_entries_lem t)

  pub modified_lem :
      (r : MatchResult) (payload : List ℕ) (uc : UdpContext)
      → (modified streams r payload uc).1.verdict ≡ uc.verdict
  unfolding modified run_modifier
  modified_lem r payload uc = ground arith

  match_rules_lem :
      (rules : Match) (payload : List ℕ) (s : UdpStream A) (uc : UdpContext)
      → uc.verdict ≡ accept
      → Agrees (match_rules streams rules payload s uc)
        × ((match_rules streams rules payload s uc).0.virgin ≡ false)
  unfolding match_rules
  match_rules_lem rules payload s uc h =
      let t = write_log (prop_update false) (record s { virgin = false }) in
      let m = modified streams (rules t.info) payload uc in
      let open_verdict : m.1.verdict ≡ accept = modified_lem (rules t.info) payload uc ∙ h in
      elim (Bool-cases m.2) [
        | inl e ↦ rw e (issue_lem m.0 (write_log modify_error t) m.1 (inl open_verdict))
        | inr e ↦ rw e (issue_lem m.0 t m.1 (inl open_verdict))
      ]

  pub settle_lem :
      (s : UdpStream A) (uc : UdpContext)
      → Agrees (s, uc)
      → ((settle streams s uc).0.virgin ≡ s.virgin)
        × ((settle streams s uc).0.active_entries ≡ []
            → ((settle streams s uc).1.verdict ≢ accept)
              × ((settle streams s uc).0.last_verdict ≡ (settle streams s uc).1.verdict))
  unfolding settle
  settle_lem s uc h = ground arith

  -- After any packet that is fed with plain "accept" in its context the stream is no longer new;
  -- and if it has no active entry left, the packet got a verdict other than plain "accept", and the
  -- stream remembers just that one.
  pub feed_decides :
      (rules : Match) (rev : Bool) (payload : List ℕ) (s : UdpStream A) (uc : UdpContext)
      → uc.verdict ≡ accept
      → let (t, uc') = feed streams rules rev payload s uc in
        (t.virgin ≡ false)
        × (t.active_entries ≡ [] → (uc'.verdict ≢ accept) × (t.last_verdict ≡ uc'.verdict))
  unfolding feed
  feed_decides rules rev payload s uc h =
      let (t, updated) = feed_active streams rev payload s in
      let m = match_rules streams rules payload t uc in
      let (agrees, old) = match_rules_lem rules payload t uc h in
      let (kept, decided) = settle_lem m.0 m.1 agrees in
      let (kept', decided') = settle_lem t uc (inl h) in
      elim (Bool-cases (updated || t.virgin)) [
        | inl e ↦ rw e (kept ∙ old, decided)
        | inr e ↦ rw e (kept' ∙ ground arith, decided')
      ]
