-- ===== src/Engine/Manager/Replies.antt =====
-- What the worker answers for a packet.
use open_gfw_for_frp_integra.Prelude.{
  length, ok, ℕ, ◌<◌, ◌≡◌, refl, ◌≢◌, ◌⊎◌, inl, inr, true, Option, none, some, List,
}
use open_gfw_for_frp_integra.Ruleset.{
  Verdict, accept, accept_modify, accept_stream, drop_one, drop_stream,
}
use open_gfw_for_frp_integra.Engine.Udp.{UdpStreams, UdpContext}
use open_gfw_for_frp_integra.Engine.Manager.{
  Flows, Cache, Ruleset, Manager, Transport, tcp_layer, udp_layer, other_layer, Packet, Worker,
  reply, new_context, match_with_context, handle_udp, handle_transport, handle,
}
use open_gfw_for_frp_integra.Engine.Manager.Routing.{match_with_context-IsDelivered}

-- What is answered for the context of a packet: the verdict alone, unless it is "modify" with a
-- payload; then the bytes of the payload serialized, or "accept" where it cannot be.
abbrev pub IsReply : (List ℕ → Option (List ℕ)) → UdpContext → Verdict × Option (List ℕ) → Type 0
IsReply serialize uc a =
    ((uc.verdict ≢ accept_modify) × (a ≡ (uc.verdict, none)))
    ⊎ ((uc.verdict ≡ accept_modify) × (uc.packet ≡ none) × (a ≡ (accept_modify, none)))
    ⊎ ((uc.verdict ≡ accept_modify)
        × ((payload : List ℕ) × (uc.packet ≡ some payload)
            × (((bytes : List ℕ) × (serialize payload ≡ some bytes)
                  × (a ≡ (accept_modify, some bytes)))
                ⊎ ((serialize payload ≡ none) × (a ≡ (accept, none))))))

reply-IsReply :
    (serialize : List ℕ → Option (List ℕ)) (v : Verdict) (packet : Option (List ℕ))
    → (let uc : UdpContext = record { verdict = v; packet = packet } in
        IsReply serialize uc (reply serialize uc))
unfolding reply
reply-IsReply serialize accept packet = inl ((λ e. cc), refl)
reply-IsReply serialize accept_stream packet = inl ((λ e. cc), refl)
reply-IsReply serialize drop_one packet = inl ((λ e. cc), refl)
reply-IsReply serialize drop_stream packet = inl ((λ e. cc), refl)
reply-IsReply serialize accept_modify none = inr (inl (refl, refl, refl))
reply-IsReply serialize accept_modify (some payload) =
    inr (inr (refl, (payload, refl, serialized (serialize payload) refl)))
  where
    answer : Option (List ℕ) → Verdict × Option (List ℕ)
    answer o = elim o as (λ x. Verdict × Option (List ℕ)) [
      | none ↦ (accept, none)
      | some bytes ↦ (accept_modify, some bytes)
    ]

    serialized :
        (o : Option (List ℕ))
        → serialize payload ≡ o
        → ((bytes : List ℕ) × (serialize payload ≡ some bytes)
            × (answer o ≡ (accept_modify, some bytes)))
          ⊎ ((serialize payload ≡ none) × (answer o ≡ (accept, none)))
    serialized none e = inr (e, refl)
    serialized (some bytes) e = inl (bytes, e, refl)

module _ {F C N A T W : Type 0} (flows : Flows F) (lru : Cache C) (generate : N → ℕ × N)
    (streams : UdpStreams A) (rs : Ruleset A) (assemble : F → T → W → Verdict × W)
    (serialize : Packet F T → List ℕ → Option (List ℕ)) where
  -- What `handle` leaves and answers for a packet of each kind.
  abbrev pub IsAnswer :
      ℕ
      → Packet F T
      → Worker F C N A W
      → Option F
      → Option (Transport F T)
      → Worker F C N A W × Verdict × Option (List ℕ)
      → Type 0
  IsAnswer stream_id p w (some flow) (some (tcp_layer t)) r =
      let (v, assembler') = assemble flow t w.assembler in
      r ≡ (record w { assembler = assembler' }, v, none)
  IsAnswer stream_id p w (some flow) (some (udp_layer d)) r =
      (m' : Manager F C N A) × (uc : UdpContext) × (match_with_context flows lru generate streams rs
          stream_id (record d { ip_flow = flow }) w.manager new_context
        ≡ ok (m', uc))
      × (r.0 ≡ record w { manager = m' })
      × IsReply (serialize p) uc (r.1, r.2)
  IsAnswer stream_id p w _ _ r = r ≡ (w, accept, none)

  -- Where the cache points into the heap and flows are compared faithfully, `handle` returns. A packet
  -- without a network layer, or of a transport that is neither TCP nor UDP, is accepted and changes
  -- nothing. A TCP segment gets the assembler's verdict. A UDP packet gets the verdict that
  -- `MatchWithContext` leaves; but if that is "modify" with a payload of the modifier, the payload goes
  -- back serialized, or the packet is accepted as it is where serializing fails.
  pub handle-IsAnswer :
      ((a b : F) → flows.same a b ≡ true → a ≡ b)
      → (stream_id : ℕ) (p : Packet F T) (w : Worker F C N A W)
      → ((i : ℕ) → (lru.get_key stream_id w.manager.cache).0 ≡ some i → i < length w.manager.heap)
      → (r : Worker F C N A W × Verdict × Option (List ℕ)) × (handle flows lru generate streams rs
            assemble serialize stream_id p w
          ≡ ok r)
        × IsAnswer stream_id p w p.network p.transport r
  unfolding handle handle_transport handle_udp
  handle-IsAnswer same→≡ stream_id p w h = by_layers p.network p.transport
    where
      by_layers :
          (n : Option F) (t : Option (Transport F T))
          → (r : Worker F C N A W × Verdict × Option (List ℕ)) × ((elim n [
            | none ↦ ok (w, accept, none)
            | some flow ↦ elim t [
              | none ↦ ok (w, accept, none)
              | some layer ↦
                  handle_transport flows lru generate streams rs assemble serialize stream_id p flow
                    layer w
            ]
          ])
              ≡ ok r)
            × IsAnswer stream_id p w n t r
      by_layers none t = ((w, accept, none), refl, refl)
      by_layers (some flow) none = ((w, accept, none), refl, refl)
      by_layers (some flow) (some (tcp_layer t)) = (_, refl, refl)
      by_layers (some flow) (some other_layer) = ((w, accept, none), refl, refl)
      by_layers (some flow) (some (udp_layer d)) =
          let (m', uc, e, sent) =
            match_with_context-IsDelivered flows lru generate streams rs same→≡ stream_id
              (record d { ip_flow = flow }) w.manager new_context h in
          (
            (record w { manager = m' }, (reply (serialize p) uc).0, (reply (serialize p) uc).1),
            rw e refl,
            (m', uc, e, refl, reply-IsReply (serialize p) uc.verdict uc.packet),
          )
