-- ===== src/Engine/Manager.antt =====
-- engine/udp.go: the factory and the manager of the UDP streams, and engine/worker.go: `handle`. The
-- types of other packages are parameters: `F` is gopacket.Flow, `C` the LRU cache, `N` the node that
-- generates identifiers. The cache holds pointers, here places of the list `heap`, since a value is
-- changed in place after it was found.
pub mod Delivery
pub mod Routing
pub mod Replies
use open_gfw_for_frp_integra.Prelude.{
  ltb, ◌==◌, length, get_elem?, set, Outcome, ok, panic, ◌>>=◌, ℕ, ◌+◌, ◌-◌, ◌/◌, String, Bool,
  true, false, ◌&&◌, ◌||◌, Option, none, some, List, [], ◌∷◌, ◌++◌, map,
}
use open_gfw_for_frp_integra.Ruleset.{Verdict, accept, accept_modify, udp, StreamInfo, Match}
use open_gfw_for_frp_integra.Engine.Udp.{
  UdpStreams, UdpContext, UdpEntry, UdpStream, handle_packet, close,
}

-- gopacket.Flow: `==`, `Reverse`, and the raw bytes of both ends.
pub record Flows (F : Type 0) : Type 0 where
  pub same : F → F → Bool
  pub reverse : F → F
  pub src_raw : F → List ℕ
  pub dst_raw : F → List ℕ

-- lru.Cache from stream identifiers to pointers.
pub record Cache (C : Type 0) : Type 0 where
  pub get_key : ℕ → C → Option ℕ × C
  pub add_key : ℕ → ℕ → C → C

-- layers.UDP with the flow of its network layer.
pub record Datagram (F : Type 0) : Type 0 where
  pub ip_flow : F
  pub udp_flow : F
  pub src_port : ℕ
  pub dst_port : ℕ
  pub payload : List ℕ

pub record UdpInfo : Type 0 where
  pub src_ip : List ℕ
  pub dst_ip : List ℕ
  pub src_port : ℕ
  pub dst_port : ℕ

-- analyzer.UDPAnalyzer
pub record UdpAnalyzer (A : Type 0) : Type 0 where
  pub name : String
  pub limit : ℕ
  pub new_udp : UdpInfo → A

pub record Ruleset (A : Type 0) : Type 0 where
  pub analyzers : StreamInfo → List (UdpAnalyzer A)
  pub match : Match

pub record UdpValue (F A : Type 0) : Type 0 where
  pub stream : UdpStream A
  pub ip_flow : F
  pub udp_flow : F

pub record Manager (F C N A : Type 0) : Type 0 where
  pub cache : C
  pub heap : List (UdpValue F A)
  pub node : N
  -- The calls of UDPStreamNew, newest first.
  pub created : List StreamInfo

module _ {A : Type 0} where
  unfoldable pub new_entry : UdpInfo → UdpAnalyzer A → UdpEntry A
  new_entry info a = record {
    name = a.name;
    stream = a.new_udp info;
    has_limit = ltb 0 a.limit;
    quota = a.limit;
  }

  -- The stream that the factory makes, for what it has read off the packet.
  unfoldable pub new_udp_stream : Ruleset A → StreamInfo → UdpStream A
  unfolding new_entry
  new_udp_stream rs info =
      let ends : UdpInfo = record {
        src_ip = info.src_ip;
        dst_ip = info.dst_ip;
        src_port = info.src_port;
        dst_port = info.dst_port;
      } in
      record {
        info = info;
        virgin = true;
        active_entries = map (new_entry ends) (rs.analyzers info);
        done_entries = [];
        last_verdict = accept;
        log = [];
      }

module _ {F C N A : Type 0} (flows : Flows F) (lru : Cache C) (generate : N → ℕ × N)
    (streams : UdpStreams A) (rs : Ruleset A) where
  -- `udpStreamValue.Match`: whether the flows match, and whether the packet goes the other way.
  unfoldable pub match_flows : UdpValue F A → Datagram F → Bool × Bool
  match_flows v d =
      let fwd = flows.same v.ip_flow d.ip_flow && flows.same v.udp_flow d.udp_flow in
      let rev =
        flows.same v.ip_flow (flows.reverse d.ip_flow)
        && flows.same v.udp_flow (flows.reverse d.udp_flow) in
      (fwd || rev, rev)

  unfoldable pub stream_info : ℕ → Datagram F → StreamInfo
  stream_info id d = record {
    id = id;
    protocol = udp;
    src_ip = flows.src_raw d.ip_flow;
    dst_ip = flows.dst_raw d.ip_flow;
    src_port = d.src_port;
    dst_port = d.dst_port;
    properties = [];
  }

  -- A new value under the identifier, and its place.
  unfoldable pub add_stream : ℕ → Datagram F → Manager F C N A → ℕ × Manager F C N A
  unfolding new_udp_stream stream_info
  add_stream stream_id d m =
      let (id, node') = generate m.node in
      let info = stream_info id d in
      let v : UdpValue F A = record {
        stream = new_udp_stream rs info;
        ip_flow = d.ip_flow;
        udp_flow = d.udp_flow;
      } in
      let place = length m.heap in
      (
        place,
        record {
          cache = lru.add_key stream_id place m.cache;
          heap = m.heap ++ v ∷ [];
          node = node';
          created = info ∷ m.created;
        },
      )

  abbrev pub use_if :
      ℕ → Datagram F → ℕ → UdpValue F A → Manager F C N A → Bool × Bool → Bool × ℕ × Manager F C N A
  use_if stream_id d place v m (true, rev) = (rev, place, m)
  use_if stream_id d place v m (false, rev) =
      let closed = record v { stream = close streams v.stream } in
      let (place', m') = add_stream stream_id d (record m { heap = set m.heap place closed }) in
      (rev, place', m')

  -- The value that stands under the identifier is used if its flows match, and is else closed and
  -- replaced.
  unfoldable pub use_or_replace :
      ℕ → Datagram F → ℕ → UdpValue F A → Manager F C N A → Bool × ℕ × Manager F C N A
  unfolding match_flows add_stream close
  use_or_replace stream_id d place v m = use_if stream_id d place v m (match_flows v d)

  abbrev pub check_value :
      ℕ
      → Datagram F
      → ℕ
      → Manager F C N A
      → Option (UdpValue F A)
      → Outcome (Bool × ℕ × Manager F C N A)
  check_value stream_id d place m none = panic
  check_value stream_id d place m (some v) = ok (use_or_replace stream_id d place v m)

  abbrev pub find_value :
      ℕ → Datagram F → Option ℕ → Manager F C N A → Outcome (Bool × ℕ × Manager F C N A)
  find_value stream_id d none m =
      let (place, m') = add_stream stream_id d m in ok (false, place, m')
  find_value stream_id d (some place) m = check_value stream_id d place m (get_elem? m.heap place)

  abbrev pub hand_over :
      Datagram F
      → UdpContext
      → Bool
      → ℕ
      → Manager F C N A
      → Option (UdpValue F A)
      → Outcome (Manager F C N A × UdpContext)
  hand_over d uc rev place m none = panic
  hand_over d uc rev place m (some v) =
      let (s, uc') = handle_packet streams rs.match rev d.payload v.stream uc in
      ok (record m { heap = set m.heap place (record v { stream = s }) }, uc')

  -- The packet is handed to the stream at the place.
  abbrev pub deliver :
      Datagram F → UdpContext → Bool × ℕ × Manager F C N A → Outcome (Manager F C N A × UdpContext)
  deliver d uc (rev, place, m) = hand_over d uc rev place m (get_elem? m.heap place)

  unfoldable pub match_with_context :
      ℕ → Datagram F → Manager F C N A → UdpContext → Outcome (Manager F C N A × UdpContext)
  unfolding use_or_replace add_stream handle_packet
  match_with_context stream_id d m uc =
      let (found, cache') = lru.get_key stream_id m.cache in
      find_value stream_id d found (record m { cache = cache' }) >>= deliver d uc

-- A packet as the worker meets it: its network layer's flow, and its transport layer of a type `T`
-- for TCP.
pub data Transport (F T : Type 0) : Type 0 where
  tcp_layer : T → Transport F T
  udp_layer : Datagram F → Transport F T
  other_layer : Transport F T

pub record Packet (F T : Type 0) : Type 0 where
  pub network : Option F
  pub transport : Option (Transport F T)

pub record Worker (F C N A W : Type 0) : Type 0 where
  pub manager : Manager F C N A
  pub assembler : W

-- `handle` after `handleUDP`: the bytes that are serialized with the payload of the modifier.
unfoldable pub reply : (List ℕ → Option (List ℕ)) → UdpContext → Verdict × Option (List ℕ)
reply serialize uc = elim (uc.verdict) [
  | accept_modify ↦ elim (uc.packet) [
    | none ↦ (accept_modify, none)
    | some payload ↦ elim (serialize payload) [
      | none ↦ (accept, none)
      | some bytes ↦ (accept_modify, some bytes)
    ]
  ]
  | v ↦ (v, none)
]

abbrev pub new_context : UdpContext
new_context = record { verdict = accept; packet = none }

module _ {F C N A T W : Type 0} (flows : Flows F) (lru : Cache C) (generate : N → ℕ × N)
    (streams : UdpStreams A) (rs : Ruleset A) (assemble : F → T → W → Verdict × W)
    (serialize : Packet F T → List ℕ → Option (List ℕ)) where
  abbrev pub Handled : Type 0
  Handled = Worker F C N A W × Verdict × Option (List ℕ)

  unfoldable pub handle_udp :
      ℕ → Datagram F → Manager F C N A → Outcome (Manager F C N A × UdpContext)
  unfolding match_with_context
  handle_udp stream_id d m =
      match_with_context flows lru generate streams rs stream_id d m new_context

  -- The switch on the transport layer.
  unfoldable pub handle_transport :
      ℕ → Packet F T → F → Transport F T → Worker F C N A W → Outcome Handled
  unfolding handle_udp reply
  handle_transport stream_id p flow (tcp_layer t) w =
      let (v, assembler') = assemble flow t w.assembler in
      ok (record w { assembler = assembler' }, v, none)
  handle_transport stream_id p flow (udp_layer d) w =
      handle_udp stream_id (record d { ip_flow = flow }) w.manager >>= λ r.
      let (v, bytes) = reply (serialize p) r.1 in ok (record w { manager = r.0 }, v, bytes)
  handle_transport stream_id p flow other_layer w = ok (w, accept, none)

  unfoldable pub handle : ℕ → Packet F T → Worker F C N A W → Outcome Handled
  unfolding handle_transport
  handle stream_id p w = elim (p.network) [
    | none ↦ ok (w, accept, none)
    | some flow ↦ elim (p.transport) [
      | none ↦ ok (w, accept, none)
      | some layer ↦ handle_transport stream_id p flow layer w
    ]
  ]
