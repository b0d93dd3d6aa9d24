-- ===== src/Engine/Tcp/Actions.antt =====
-- What the actions of the rule set do to a TCP stream: `ReassembledSG` of engine/tcp.go on all of its
-- branches.
use open_gfw_for_frp_integra.Prelude.{
  Bool-cases, Option-cases, ◌≡◌, refl, ◌≢◌, ◌⊎◌, inl, inr, Bool, true, false, ◌||◌, Option, none,
  some, [], arith,
}
use open_gfw_for_frp_integra.Ruleset.{
  Action, maybe, allow, block, drop_packet, modify, Verdict, accept, accept_stream, drop_stream,
  Match,
}
use open_gfw_for_frp_integra.Engine.Udp.{prop_update, stream_action}
use open_gfw_for_frp_integra.Engine.Tcp.{
  Segment, TcpStreams, TcpStream, action_to_tcp_verdict, write_log, accept_packet, issue,
  match_rules, settle, feed_active, reassembled_sg,
}
use open_gfw_for_frp_integra.Engine.Tcp.Verdicts.{close_active_entries_lem}

-- The actions that end the inspection of a stream, and the verdicts that they stand for.
abbrev pub final_verdict : Action → Option Verdict
final_verdict allow = some accept_stream
final_verdict block = some drop_stream
final_verdict drop_packet = some drop_stream
final_verdict maybe = none
final_verdict modify = none

module _ {A : Type 0} where
  -- No entry is active, and `Accept` refuses all that follows with the verdict.
  abbrev pub HasEnded : TcpStream A → Verdict → Type 0
  HasEnded t v = (t.active_entries ≡ []) × (accept_packet t accept ≡ (false, v))

  -- The stream goes on with the entries that the data has left active, or it is accepted if there is
  -- none.
  abbrev pub GoesOn : TcpStream A → TcpStream A × Verdict → Type 0
  GoesOn s (t, v) =
      ((s.active_entries ≡ []) × (v ≡ accept_stream) × HasEnded t accept_stream)
      ⊎ ((s.active_entries ≢ [])
          × (v ≡ accept)
          × (t.active_entries ≡ s.active_entries)
          × (accept_packet t accept ≡ (true, accept)))

module _ {A : Type 0} (streams : TcpStreams A) where
  issue_final :
      (a : Action) (v : Verdict) (s : TcpStream A)
      → final_verdict a ≡ some v
      → s.virgin ≡ false
      → HasEnded (settle streams (issue streams a s accept).0 (issue streams a s accept).1).0 v
        × ((settle streams (issue streams a s accept).0 (issue streams a s accept).1).1 ≡ v)
  unfolding issue settle action_to_tcp_verdict accept_packet
  issue_final a v s e h = ground (
    arith,
    close_active_entries_lem streams
        (write_log (stream_action a false) (record s { last_verdict = v })),
  )

  issue_open :
      (a : Action) (s : TcpStream A)
      → final_verdict a ≡ none
      → issue streams a s accept ≡ (s, accept)
  unfolding issue
  issue_open a s e = ground arith

  settle_open : (s : TcpStream A) → s.virgin ≡ false → GoesOn s (settle streams s accept)
  unfolding settle accept_packet
  settle_open s h = ground arith

  -- What the data of a segment does, for the stream that the analyzers have left.
  abbrev pub IsActedOn : Match → TcpStream A → Bool → TcpStream A → Verdict → Type 0
  IsActedOn rules s updated t v =
      ((updated || s.virgin ≡ true) × (final_verdict (rules s.info).action ≡ some v) × HasEnded t v)
      ⊎ (((updated || s.virgin ≡ false) ⊎ (final_verdict (rules s.info).action ≡ none))
          × GoesOn s (t, v))

  -- If the data is matched (the stream is new, or a property changed) and the action of the rule set
  -- ends the inspection ("allow", "block" and "drop"), the packet gets the verdict of the action, no
  -- entry is active, and `Accept` refuses all that follows with that verdict. In every other case the
  -- active entries are those that the data has left: with one or more the packet is accepted and the
  -- stream goes on, with none it is accepted for good.
  pub reassembled_sg-IsActedOn :
      (rules : Match) (seg : Segment) (s : TcpStream A)
      → (let (t, updated) = feed_active streams seg s in
          let (u, v) = reassembled_sg streams rules seg s accept in IsActedOn rules t updated u v)
  unfolding reassembled_sg match_rules
  reassembled_sg-IsActedOn rules seg s =
      let (t, updated) = feed_active streams seg s in
      let t' = write_log (prop_update false) (record t { virgin = false }) in
      elim (Bool-cases (updated || t.virgin)) [
        | inl e ↦ rw e (matched rules t)
        | inr e ↦ rw e (inr (inl refl, settle_open t (ground (arith, e))))
      ]
    where
      matched :
          (rules : Match) (t : TcpStream A)
          → (let t' = write_log (prop_update false) (record t { virgin = false }) in
              let (u, v) = issue streams (rules t.info).action t' accept in
              let r = settle streams u v in
              ((true ≡ true) × (final_verdict (rules t.info).action ≡ some r.1) × HasEnded r.0 r.1)
              ⊎ (((true ≡ false) ⊎ (final_verdict (rules t.info).action ≡ none)) × GoesOn t r))
      matched rules t =
          let t' = write_log (prop_update false) (record t { virgin = false }) in
          elim (Option-cases (final_verdict (rules t.info).action)) [
            | inl q ↦ inr (inr q, rw (issue_open (rules t.info).action t' q) (settle_open t' refl))
            | inr q ↦
                let (ended, same) = issue_final (rules t.info).action q.0 t' q.1 refl in
                inl (rw same (refl, q.1, ended))
          ]
