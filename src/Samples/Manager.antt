-- ===== src/Samples/Manager.antt =====
-- Tests of the stream manager of engine/udp.go and of engine/worker.go.
use open_gfw_for_frp_integra.Prelude.{
  ◌==◌, if◌then◌else◌, ==_iff, ok, ℕ, ◌+◌, ◌<◌, ◌≡◌, subst, Bool, true, false, ◌&&◌, Option, none,
  some, List, [], ◌∷◌, arith,
}
use open_gfw_for_frp_integra.Ruleset.{Verdict, drop_stream, maybe, other_instance, udp}
use open_gfw_for_frp_integra.Engine.Udp.{UdpStreams, UdpContext}
use open_gfw_for_frp_integra.Engine.Manager.{
  Flows, Cache, Datagram, Ruleset, UdpValue, Manager, new_udp_stream, match_with_context, udp_layer,
  Packet, Worker, new_context, handle,
}
use open_gfw_for_frp_integra.Engine.Manager.Delivery.{IsDelivered}
use open_gfw_for_frp_integra.Engine.Manager.Routing.{match_with_context-IsDelivered}
use open_gfw_for_frp_integra.Engine.Manager.Replies.{IsAnswer, handle-IsAnswer}

-- A flow is its two ends.
abbrev Ends : Type 0
Ends = ℕ × ℕ

abbrev same_ends : Ends → Ends → Bool
same_ends (a, b) (c, e) = (a == c) && (b == e)

abbrev ends : Flows Ends
ends = record {
  same = same_ends;
  reverse = λ e. (e.1, e.0);
  src_raw = λ e. e.0 ∷ [];
  dst_raw = λ e. e.1 ∷ [];
}

abbrev find_key : ℕ → List (ℕ × ℕ) → Option ℕ
find_key k [] = none
find_key k ((j, v) ∷ c) = if j == k then some v else find_key k c

abbrev keys : Cache (List (ℕ × ℕ))
keys = record { get_key = λ k c. (find_key k c, c); add_key = λ k v c. (k, v) ∷ c }

abbrev counter : ℕ → ℕ × ℕ
counter n = (n, n + 1)

-- An analyzer that counts its packets.
abbrev counting : UdpStreams ℕ
counting = record {
  feed_stream = λ n rev bytes. record { stream = n + 1; update = none; is_done = false };
  close_stream = λ n limited. (n, none);
}

abbrev rules : Ruleset ℕ
rules = record {
  analyzers = λ info. record { name = "counting"; limit = 0; new_udp = λ i. 0 } ∷ [];
  match = λ info. record { action = maybe; mod_instance = other_instance };
}

same_ends→≡ : (a b : Ends) → same_ends a b ≡ true → a ≡ b
same_ends→≡ (a, b) (c, e) h = ground (arith, ==_iff a c, ==_iff b e)

abbrev datagram : Ends → Datagram Ends
datagram e = record {
  ip_flow = e;
  udp_flow = (10, 20);
  src_port = 10;
  dst_port = 20;
  payload = 5 ∷ [];
}

abbrev known : UdpValue Ends ℕ
known = record {
  stream = new_udp_stream rules (record {
    id = 0;
    protocol = udp;
    src_ip = 1 ∷ [];
    dst_ip = 2 ∷ [];
    src_port = 10;
    dst_port = 20;
    properties = [];
  });
  ip_flow = (1, 2);
  udp_flow = (10, 20);
}

-- The identifier 7 is of the flow from 1 to 2.
abbrev manager : Manager Ends (List (ℕ × ℕ)) ℕ ℕ
manager = record { cache = (7, 0) ∷ []; heap = known ∷ []; node = 1; created = [] }

points : (i : ℕ) → some 0 ≡ some i → i < 1
points i e = subst (λ o. elim o as (λ x. Type 0) [ none ↦ ⊥ | some j ↦ j < 1 ]) e (omega arith)

-- A packet of another flow under the identifier 7.
match_with_context-IsDelivered_example :
    (m' : Manager Ends (List (ℕ × ℕ)) ℕ ℕ) × (uc' : UdpContext) × (match_with_context ends keys
        counter counting rules 7
        (datagram (3, 4))
        manager
        new_context
      ≡ ok (m', uc'))
    × IsDelivered ends keys counter counting rules (datagram (3, 4)) new_context manager m' uc'
match_with_context-IsDelivered_example =
    match_with_context-IsDelivered ends keys counter counting rules same_ends→≡ 7 (datagram (3, 4))
      manager new_context points

abbrev no_tcp : Ends → ℕ → ℕ → Verdict × ℕ
no_tcp flow t w = (drop_stream, w)

abbrev echo : Packet Ends ℕ → List ℕ → Option (List ℕ)
echo p bytes = some bytes

abbrev packet : Packet Ends ℕ
packet = record { network = some (1, 2); transport = some (udp_layer (datagram (0, 0))) }

abbrev worker : Worker Ends (List (ℕ × ℕ)) ℕ ℕ ℕ
worker = record { manager = manager; assembler = 0 }

handle-IsAnswer_example :
    (r : Worker Ends (List (ℕ × ℕ)) ℕ ℕ ℕ × Verdict × Option (List ℕ)) × (handle ends keys counter
        counting rules no_tcp echo 7 packet worker
      ≡ ok r)
    × IsAnswer ends keys counter counting rules no_tcp echo 7 packet worker packet.network
        packet.transport r
handle-IsAnswer_example =
    handle-IsAnswer ends keys counter counting rules no_tcp echo same_ends→≡ 7 packet worker points
