-- ===== src/Engine/Tcp/Verdicts.antt =====
-- The verdict of the packets of a TCP stream.
use open_gfw_for_frp_integra.Prelude.{
  Bool-cases, ◌≡◌, refl, ◌∙◌, ◌⊎◌, inl, inr, false, ◌||◌, [], arith,
}
use open_gfw_for_frp_integra.Ruleset.{
  Action, maybe, modify, Verdict, accept, accept_stream, drop_stream, Match,
}
use open_gfw_for_frp_integra.Engine.Udp.{prop_update, stream_action}
use open_gfw_for_frp_integra.Engine.Tcp.{
  Segment, TcpStreams, TcpStream, action_to_tcp_verdict, write_log, accept_packet, close_entries,
  close_active_entries, issue, match_rules, settle, feed_active, reassembled_sg,
}

-- The verdicts that end a TCP stream.
abbrev pub IsFinal : Verdict → Type 0
IsFinal v = (v ≡ accept_stream) ⊎ (v ≡ drop_stream)

module _ {A : Type 0} where
  -- The verdict is still open, or it is final and the stream remembers it.
  abbrev pub Agrees : TcpStream A × Verdict → Type 0
  Agrees r = (r.1 ≡ accept) ⊎ (IsFinal r.1 × (r.0.last_verdict ≡ r.1))

module _ {A : Type 0} (streams : TcpStreams A) where
  pub close_active_entries_lem :
      (s : TcpStream A)
      → ((close_active_entries streams s).last_verdict ≡ s.last_verdict)
        × ((close_active_entries streams s).virgin ≡ s.virgin)
        × ((close_active_entries streams s).active_entries ≡ [])
  unfolding close_active_entries
  close_active_entries_lem s =
      let r = close_entries streams s.active_entries s.info.properties false in
      elim (Bool-cases r.updated) [ inl e ↦ (rw e, rw e, refl) | inr e ↦ (rw e, rw e, refl) ]

  issue_lem :
      (a : Action) (s : TcpStream A) (verdict : Verdict)
      → verdict ≡ accept
      → Agrees (issue streams a s verdict) × ((issue streams a s verdict).0.virgin ≡ s.virgin)
  unfolding issue
  issue_lem maybe s verdict h = (inl h, refl)
  issue_lem modify s verdict h = (inl h, refl)
  issue_lem a s verdict h = ground (
    arith,
    close_active_entries_lem
        (write_log (stream_action a false) (record s { last_verdict = action_to_tcp_verdict a })),
  )

  settle_lem :
      (s : TcpStream A) (verdict : Verdict)
      → Agrees (s, verdict)
      → ((settle streams s verdict).0.virgin ≡ s.virgin)
        × ((settle streams s verdict).0.active_entries ≡ []
            → IsFinal (settle streams s verdict).1
              × ((settle streams s verdict).0.last_verdict ≡ (settle streams s verdict).1))
        × Agrees (settle streams s verdict)
  unfolding settle
  settle_lem s verdict h = ground arith

  -- Reassembled data leaves the packet with plain "accept" or with a final verdict, never one that
  -- modifies it or drops it alone. If no analyzer stays active the verdict is final, and every later
  -- packet of the stream is refused by `Accept` with that verdict.
  pub reassembled_sg_decides :
      (rules : Match) (seg : Segment) (s : TcpStream A)
      → let (t, v) = reassembled_sg streams rules seg s accept in
        ((v ≡ accept) ⊎ IsFinal v)
        × (t.virgin ≡ false)
        × (t.active_entries ≡ [] → IsFinal v × (accept_packet t accept ≡ (false, v)))
  unfolding reassembled_sg match_rules
  reassembled_sg_decides rules seg s =
      let (t, updated) = feed_active streams seg s in
      let t' = write_log (prop_update false) (record t { virgin = false }) in
      let m = issue streams (rules t'.info).action t' accept in
      let (agrees, old) = issue_lem (rules t'.info).action t' accept refl in
      elim (Bool-cases (updated || t.virgin)) [
        | inl e ↦ rw e (assemble m.0 m.1 agrees old)
        | inr e ↦ rw e (assemble t accept (inl refl) (ground arith))
      ]
    where
      refuses :
          (u : TcpStream A) (w : Verdict)
          → u.virgin ≡ false
          → u.active_entries ≡ []
          → u.last_verdict ≡ w
          → accept_packet u accept ≡ (false, w)
      refuses u w h a l = unfold accept_packet in ground arith

      assemble :
          (t : TcpStream A) (v : Verdict)
          → Agrees (t, v)
          → t.virgin ≡ false
          → let (u, w) = settle streams t v in
            ((w ≡ accept) ⊎ IsFinal w)
            × (u.virgin ≡ false)
            × (u.active_entries ≡ [] → IsFinal w × (accept_packet u accept ≡ (false, w)))
      assemble t v agrees old =
          let (kept, decided, agrees') = settle_lem t v agrees in
          let (u, w) = settle streams t v in
          let is_old : u.virgin ≡ false = kept ∙ old in
          (
            ground (arith, agrees'),
            is_old,
            λ none_left.
                ((decided none_left).0, refuses u w is_old none_left (decided none_left).1),
          )
