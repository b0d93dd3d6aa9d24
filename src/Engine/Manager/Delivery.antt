-- ===== src/Engine/Manager/Delivery.antt =====
-- engine/udp.go: the delivery of a UDP packet to one stream, and the steps that add and close streams.
use mathlib.Core.Option
use open_gfw_for_frp_integra.Prelude.{
  ◌==◌, Bool-cases, get_elem?, set, get_elem?-length_append, get_elem?-append, get_elem?-set,
  get_elem?-set_other, ok, ℕ, ◌≡◌, refl, sym, ap, ◌∙◌, subst, ◌≢◌, ◌⊎◌, inl, inr, Bool, true, false,
  Option, some, List, [], ◌∷◌, ◌++◌, arith,
}
use open_gfw_for_frp_integra.Engine.Udp.{UdpStreams, UdpContext, UdpStream, handle_packet, close}
use open_gfw_for_frp_integra.Engine.Manager.{
  Flows, Cache, Datagram, Ruleset, UdpValue, Manager, new_udp_stream, stream_info, add_stream,
  hand_over, deliver,
}

module _ {F C N A : Type 0} (flows : Flows F) (lru : Cache C) (generate : N → ℕ × N)
    (streams : UdpStreams A) (rs : Ruleset A) where
  -- The packet belongs to the flow of the value, in the direction given.
  abbrev pub IsOwn : Bool → UdpValue F A → Datagram F → Type 0
  IsOwn false v d = (v.ip_flow ≡ d.ip_flow) × (v.udp_flow ≡ d.udp_flow)
  IsOwn true v d = (v.ip_flow ≡ flows.reverse d.ip_flow) × (v.udp_flow ≡ flows.reverse d.udp_flow)

  abbrev pub handed : Bool → Datagram F → UdpValue F A → UdpContext → UdpStream A × UdpContext
  handed rev d v uc = handle_packet streams rs.match rev d.payload v.stream uc

  -- A value that stands unchanged or closed.
  abbrev pub IsKeptOrClosed : UdpValue F A → Option (UdpValue F A) → Type 0
  IsKeptOrClosed v o = (o ≡ some v) ⊎ (o ≡ some (record v { stream = close streams v.stream }))

  -- The stream of the manager, or one that the factory has just made, got the packet, and no other
  -- stream did.
  pub record IsDelivered (d : Datagram F) (uc : UdpContext) (m m' : Manager F C N A)
      (uc' : UdpContext) : Type 0 where
    pub place : ℕ
    pub rev : Bool
    pub value : UdpValue F A
    pub own : IsOwn rev value d
    pub known :
        (get_elem? m.heap place ≡ some value)
        ⊎ (value.stream
            ≡ new_udp_stream rs (stream_info flows lru generate streams rs (generate m.node).0 d))
    pub stored :
        get_elem? m'.heap place ≡ some (record value { stream = (handed rev d value uc).0 })
    pub answered : uc' ≡ (handed rev d value uc).1
    pub others :
        (j : ℕ) (v : UdpValue F A)
        → get_elem? m.heap j ≡ some v
        → j ≢ place
        → IsKeptOrClosed v (get_elem? m'.heap j)

  -- What is ready to be delivered.
  pub record IsReady (d : Datagram F) (m m1 : Manager F C N A) (rev : Bool) (place : ℕ)
      : Type 0 where
    pub value : UdpValue F A
    pub own : IsOwn rev value d
    pub known :
        (get_elem? m.heap place ≡ some value)
        ⊎ (value.stream
            ≡ new_udp_stream rs (stream_info flows lru generate streams rs (generate m.node).0 d))
    pub stands : get_elem? m1.heap place ≡ some value
    pub others :
        (j : ℕ) (v : UdpValue F A)
        → get_elem? m.heap j ≡ some v
        → j ≢ place
        → IsKeptOrClosed v (get_elem? m1.heap j)

  pub deliver-IsDelivered :
      (d : Datagram F) (uc : UdpContext) (m m1 : Manager F C N A) (rev : Bool) (place : ℕ)
      → IsReady d m m1 rev place
      → (r : Manager F C N A × UdpContext) × (deliver flows lru generate streams rs d uc
            (rev, place, m1)
          ≡ ok r)
        × IsDelivered d uc m r.0 r.1
  deliver-IsDelivered d uc m m1 rev place w =
      let s = handed rev d w.value uc in
      let v = record (w.value) { stream = s.0 } in
      (
        (record m1 { heap = set m1.heap place v }, s.1),
        ap (hand_over flows lru generate streams rs d uc rev place m1) w.stands,
        record {
          place = place;
          rev = rev;
          value = w.value;
          own = w.own;
          known = w.known;
          stored = get_elem?-set m1.heap place w.value v w.stands;
          answered = refl;
          others = λ j x h n.
              subst (IsKeptOrClosed x)
                (sym (get_elem?-set_other m1.heap place j v (λ e. n (sym e)))) (w.others j x h n);
        },
      )

  -- The heap where every stream stands unchanged or closed.
  abbrev pub IsCovered : Manager F C N A → List (UdpValue F A) → Type 0
  IsCovered m h =
      (j : ℕ) (v : UdpValue F A) → get_elem? m.heap j ≡ some v → IsKeptOrClosed v (get_elem? h j)

  pub add_stream-IsReady :
      (stream_id : ℕ) (d : Datagram F) (m m2 : Manager F C N A)
      → m2.node ≡ m.node
      → IsCovered m m2.heap
      → IsReady d m
          (add_stream flows lru generate streams rs stream_id d m2).1
          false
          (add_stream flows lru generate streams rs stream_id d m2).0
  unfolding add_stream
  add_stream-IsReady stream_id d m m2 e c = record {
    value = record {
      stream = new_udp_stream rs (stream_info flows lru generate streams rs (generate m2.node).0 d);
      ip_flow = d.ip_flow;
      udp_flow = d.udp_flow;
    };
    own = (refl, refl);
    known = inr (
        ap (λ n. new_udp_stream rs (stream_info flows lru generate streams rs (generate n).0 d)) e);
    stands = get_elem?-length_append m2.heap _;
    others = λ j v h n. appended m2.heap _ j v (c j v h);
  }
    where
      appended :
          (xs : List (UdpValue F A)) (y : UdpValue F A) (j : ℕ) (v : UdpValue F A)
          → IsKeptOrClosed v (get_elem? xs j)
          → IsKeptOrClosed v (get_elem? (xs ++ y ∷ []) j)
      appended xs y j v (inl h) = inl (get_elem?-append xs (y ∷ []) j v h)
      appended xs y j v (inr h) = inr (get_elem?-append xs (y ∷ []) j _ h)

  pub close_place-IsCovered :
      (m : Manager F C N A) (place : ℕ) (v : UdpValue F A)
      → get_elem? m.heap place ≡ some v
      → IsCovered m (set m.heap place (record v { stream = close streams v.stream }))
  close_place-IsCovered m place v e j w h = elim (Bool-cases (place == j)) [
    | inl here ↦ inr (at_place (ground arith))
    | inr away ↦ inl (get_elem?-set_other m.heap place j _ (λ q. ground (arith, q)) ∙ h)
  ]
    where
      at_place :
          place ≡ j
          → get_elem? (set m.heap place (record v { stream = close streams v.stream })) j
            ≡ some (record w { stream = close streams w.stream })
      at_place q =
          subst
            (λ k.
              get_elem? (set m.heap place (record v { stream = close streams v.stream })) k
              ≡ some (record w { stream = close streams w.stream }))
            q
            (get_elem?-set m.heap place v _ e
              ∙ ap (Option.map (λ (x : UdpValue F A). record x { stream = close streams x.stream }))
                  (sym e ∙ ap (get_elem? m.heap) q ∙ h))
