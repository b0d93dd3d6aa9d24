-- ===== src/Engine/Manager/Routing.antt =====
-- engine/udp.go: which stream a UDP packet reaches.
use open_gfw_for_frp_integra.Prelude.{
  length, get_elem?, set, get_elem?-lt, ok, ◌>>=◌, ℕ, ◌<◌, ◌≡◌, refl, ap, ◌∙◌, inl, Bool, true,
  false, ◌&&◌, ◌||◌, Option, none, some,
}
use open_gfw_for_frp_integra.Engine.Udp.{UdpStreams, UdpContext, close}
use open_gfw_for_frp_integra.Engine.Manager.{
  Flows, Cache, Datagram, Ruleset, UdpValue, Manager, match_flows, add_stream, use_if,
  use_or_replace, check_value, find_value, deliver, match_with_context,
}
use open_gfw_for_frp_integra.Engine.Manager.Delivery.{
  IsOwn, IsReady, IsDelivered, deliver-IsDelivered, add_stream-IsReady, close_place-IsCovered,
}

both : (a b : Bool) → (a && b) ≡ true → (a ≡ true) × (b ≡ true)
both true b h = (refl, h)
both false b h = cc

module _ {F C N A : Type 0} (flows : Flows F) (lru : Cache C) (generate : N → ℕ × N)
    (streams : UdpStreams A) (rs : Ruleset A)
    (same→≡ : (a b : F) → flows.same a b ≡ true → a ≡ b) where
  own_flow : (a b c e : F) → (flows.same a b && flows.same c e) ≡ true → (a ≡ b) × (c ≡ e)
  own_flow a b c e h =
      let (p, q) = both (flows.same a b) (flows.same c e) h in (same→≡ a b p, same→≡ c e q)

  abbrev Chosen : ℕ → Datagram F → ℕ → UdpValue F A → Manager F C N A → Bool × Bool → Type 0
  Chosen stream_id d place v m found =
      let r = use_if flows lru generate streams rs stream_id d place v m found in
      IsReady flows lru generate streams rs d m r.2 r.0 r.1

  use_if-Chosen :
      (stream_id : ℕ) (d : Datagram F) (place : ℕ) (v : UdpValue F A) (m : Manager F C N A)
      (fwd rev : Bool)
      → get_elem? m.heap place ≡ some v
      → (fwd ≡ true → IsOwn flows lru generate streams rs false v d)
      → (rev ≡ true → IsOwn flows lru generate streams rs true v d)
      → Chosen stream_id d place v m (fwd || rev, rev)
  use_if-Chosen stream_id d place v m true true e f r = record {
    value = v;
    own = r refl;
    known = inl e;
    stands = e;
    others = λ j w h n. inl h;
  }
  use_if-Chosen stream_id d place v m true false e f r = record {
    value = v;
    own = f refl;
    known = inl e;
    stands = e;
    others = λ j w h n. inl h;
  }
  use_if-Chosen stream_id d place v m false true e f r = record {
    value = v;
    own = r refl;
    known = inl e;
    stands = e;
    others = λ j w h n. inl h;
  }
  use_if-Chosen stream_id d place v m false false e f r =
      add_stream-IsReady flows lru generate streams rs stream_id d m
        (record m { heap = set m.heap place (record v { stream = close streams v.stream }) }) refl
        (close_place-IsCovered flows lru generate streams rs m place v e)

  use_or_replace-IsReady :
      (stream_id : ℕ) (d : Datagram F) (place : ℕ) (v : UdpValue F A) (m : Manager F C N A)
      → get_elem? m.heap place ≡ some v
      → (let r = use_or_replace flows lru generate streams rs stream_id d place v m in
          IsReady flows lru generate streams rs d m r.2 r.0 r.1)
  unfolding use_or_replace match_flows
  use_or_replace-IsReady stream_id d place v m e =
      use_if-Chosen stream_id d place v m _ _ e (own_flow v.ip_flow d.ip_flow v.udp_flow d.udp_flow)
        (own_flow v.ip_flow (flows.reverse d.ip_flow) v.udp_flow (flows.reverse d.udp_flow))

  abbrev Delivers : ℕ → Datagram F → Manager F C N A → UdpContext → Option ℕ → Type 0
  Delivers stream_id d m uc found =
      (r : Manager F C N A × UdpContext) × ((find_value flows lru generate streams rs stream_id d
            found m
          >>= deliver flows lru generate streams rs d uc)
        ≡ ok r)
      × IsDelivered flows lru generate streams rs d uc m r.0 r.1

  find_value-Delivers :
      (stream_id : ℕ) (d : Datagram F) (m : Manager F C N A) (uc : UdpContext) (found : Option ℕ)
      → ((i : ℕ) → found ≡ some i → i < length m.heap)
      → Delivers stream_id d m uc found
  find_value-Delivers stream_id d m uc none h =
      let r = add_stream flows lru generate streams rs stream_id d m in
      deliver-IsDelivered flows lru generate streams rs d uc m r.1 false r.0
        (add_stream-IsReady flows lru generate streams rs stream_id d m m refl (λ j w q. inl q))
  find_value-Delivers stream_id d m uc (some place) h =
      let (v, e) = get_elem?-lt m.heap place (h place refl) in
      let r = use_or_replace flows lru generate streams rs stream_id d place v m in
      let (u, sent, w) =
        deliver-IsDelivered flows lru generate streams rs d uc m r.2 r.0 r.1
          (use_or_replace-IsReady stream_id d place v m e) in
      (
        u,
        ap
              (λ o.
                check_value flows lru generate streams rs stream_id d place m o
                >>= deliver flows lru generate streams rs d uc)
              e
            ∙ sent,
        w,
      )

  -- Only the heap and the node of the manager matter.
  recached :
      (d : Datagram F) (uc uc' : UdpContext) (m m' : Manager F C N A) (c : C)
      → IsDelivered flows lru generate streams rs d uc (record m { cache = c }) m' uc'
      → IsDelivered flows lru generate streams rs d uc m m' uc'
  recached d uc uc' m m' c w = record {
    place = w.place;
    rev = w.rev;
    value = w.value;
    own = w.own;
    known = w.known;
    stored = w.stored;
    answered = w.answered;
    others = w.others;
  }

  -- Where the cache points into the heap and flows are compared faithfully, `MatchWithContext`
  -- returns. It hands the packet to one stream, of the packet's own flow in the direction told: the
  -- stream that stood at its place, or a new one of the packet's addresses. The verdict is that
  -- stream's, and every other stream stays as it was or is closed.
  pub match_with_context-IsDelivered :
      (stream_id : ℕ) (d : Datagram F) (m : Manager F C N A) (uc : UdpContext)
      → ((i : ℕ) → (lru.get_key stream_id m.cache).0 ≡ some i → i < length m.heap)
      → (m' : Manager F C N A) × (uc' : UdpContext) × (match_with_context flows lru generate streams
            rs stream_id d m uc
          ≡ ok (m', uc'))
        × IsDelivered flows lru generate streams rs d uc m m' uc'
  unfolding match_with_context
  match_with_context-IsDelivered stream_id d m uc h =
      let (found, c) = lru.get_key stream_id m.cache in
      let (r, e, w) = find_value-Delivers stream_id d (record m { cache = c }) uc found h in
      (r.0, r.1, e, recached d uc r.1 m r.0 c w)
