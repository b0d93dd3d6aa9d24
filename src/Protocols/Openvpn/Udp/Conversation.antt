-- ===== src/Protocols/Openvpn/Udp/Conversation.antt =====
-- The OpenVPN conversation that the UDP analyzer follows, as an abstract automaton, and the proof
-- that `feed` implements it.
use open_gfw_for_frp_integra.Prelude.{
  ltb, if◌then◌else◌, Bool-cases, Outcome, ok, panic, stuck, ◌>>=◌, ℕ, ◌+◌, ◌/◌, ◌≡◌, refl, sym,
  subst, inl, inr, Bool, true, false, ◌&&◌, Option, none, some, List, [], ◌∷◌, arith,
}
use open_gfw_for_frp_integra.Utils.Lsm.{Lsm, reset}
use open_gfw_for_frp_integra.Protocols.Openvpn.{
  openvpn_pkt_default_limit, is_client_reset, is_server_reset, is_traffic, check_for_valid_opcode,
  Step, ctl_hard_reset_client, ctl_hard_reset_server, parse_req, parse_resp, OpenvpnStream, Fed,
}
use open_gfw_for_frp_integra.Protocols.Openvpn.Udp.{CurPkt, parse_pkt, new_openvpn_udp_stream, feed}

-- What has been seen of a conversation: the two hard resets, and the packets after them.
pub record Conversation : Type 0 where
  pub client_seen : Bool
  pub server_seen : Bool
  pub sent : ℕ
  pub received : ℕ

abbrev pub nothing_seen : Conversation
nothing_seen = record { client_seen = false; server_seen = false; sent = 0; received = 0 }

-- One packet of the server (`true`) or the client with an opcode; `none` where it does not belong.
-- Each side opens by its hard reset, the server after the client, and sends traffic then.
unfoldable pub follow : Bool → ℕ → Conversation → Option Conversation
follow false op c =
    if c.client_seen
    then (if is_traffic op then some (record c { sent = c.sent + 1 }) else none)
    else (if is_client_reset op then some (record c { client_seen = true }) else none)
follow true op c =
    if c.server_seen
    then (if is_traffic op then some (record c { received = c.received + 1 }) else none)
    else (if c.client_seen && is_server_reset op
        then some (record c { server_seen = true })
        else none)

abbrev machine_at : Step → Step → Bool → Lsm Step
machine_at reset traffic opened = record {
  steps = reset ∷ traffic ∷ [];
  index = if opened then 1 else 0;
  cancelled = false;
}

-- The stream between two packets, given what it has seen.
abbrev pub embed : Conversation → ℕ → CurPkt → OpenvpnStream CurPkt
embed c last cur = record {
  state = record {
    req_updated = false;
    resp_updated = false;
    rx_pkt_cnt = c.received;
    tx_pkt_cnt = c.sent;
    last_opcode = last;
    source = cur;
  };
  req_lsm = machine_at ctl_hard_reset_client parse_req c.client_seen;
  req_done = false;
  resp_lsm = machine_at ctl_hard_reset_server parse_resp c.server_seen;
  resp_done = false;
  pkt_limit = openvpn_pkt_default_limit;
}

-- `lastOpcode` is that of the client's reset until the server's reset comes.
abbrev pub IsLast : Conversation → ℕ → Type 0
IsLast c last = c.server_seen ≡ false → is_client_reset last ≡ c.client_seen

pub record Represents (o : OpenvpnStream CurPkt) (c : Conversation) : Type 0 where
  pub last : ℕ
  pub cur : CurPkt
  pub is_last : IsLast c last
  pub embedded : o ≡ embed c last cur

-- A result of `feed` follows the automaton: a packet that does not belong ends the stream; one
-- that does ends it only by the limit on packets.
abbrev pub Follows : Outcome (Fed (OpenvpnStream CurPkt)) → Option Conversation → Type 0
Follows (ok r) none = r.is_done ≡ true
Follows (ok r) (some c) =
    Represents r.stream c × (r.is_done ≡ ltb openvpn_pkt_default_limit (c.received + c.sent))
Follows panic o = ⊥
Follows stuck o = ⊥

client_reset_valid : (op : ℕ) → is_client_reset op ≡ true → check_for_valid_opcode op ≡ true
unfolding is_client_reset check_for_valid_opcode
client_reset_valid op h = ground arith

server_reset_valid : (op : ℕ) → is_server_reset op ≡ true → check_for_valid_opcode op ≡ true
unfolding is_server_reset check_for_valid_opcode
server_reset_valid op h = ground arith

traffic_valid : (op : ℕ) → is_traffic op ≡ true → check_for_valid_opcode op ≡ true
unfolding is_traffic check_for_valid_opcode
traffic_valid op h = ground arith

abbrev seen : Bool → Bool → ℕ → ℕ → Conversation
seen cs ss tx rx = record { client_seen = cs; server_seen = ss; sent = tx; received = rx }

feed_client_opening :
    (b : ℕ) (bs : List ℕ) (ss : Bool) (tx rx last : ℕ) (cur : CurPkt)
    → Follows
        (feed false (b ∷ bs) (embed (seen false ss tx rx) last cur))
        (follow false (b / 8) (seen false ss tx rx))
unfolding feed parse_pkt follow
feed_client_opening b bs ss tx rx last cur = elim (Bool-cases (is_client_reset (b / 8))) [
  | inl e ↦
      rw (client_reset_valid (b / 8) e, e)
        (record { last = b / 8; cur = none; is_last = λ _. e; embedded = refl }, refl)
  | inr e ↦ elim (Bool-cases (check_for_valid_opcode (b / 8))) [
    | inl v ↦ rw (v, e) refl
    | inr v ↦ rw (v, e) refl
  ]
]

feed_client_traffic :
    (b : ℕ) (bs : List ℕ) (ss : Bool) (tx rx last : ℕ) (cur : CurPkt)
    → IsLast (seen true ss tx rx) last
    → Follows
        (feed false (b ∷ bs) (embed (seen true ss tx rx) last cur))
        (follow false (b / 8) (seen true ss tx rx))
unfolding feed parse_pkt follow
feed_client_traffic b bs ss tx rx last cur l = elim (Bool-cases (is_traffic (b / 8))) [
  | inl e ↦
      rw (traffic_valid (b / 8) e, e)
        (record { last = last; cur = none; is_last = l; embedded = refl }, refl)
  | inr e ↦ elim (Bool-cases (check_for_valid_opcode (b / 8))) [
    | inl v ↦ rw (v, e) refl
    | inr v ↦ rw (v, e) refl
  ]
]

feed_server_opening :
    (b : ℕ) (bs : List ℕ) (cs : Bool) (tx rx last : ℕ) (cur : CurPkt)
    → IsLast (seen cs false tx rx) last
    → Follows
        (feed true (b ∷ bs) (embed (seen cs false tx rx) last cur))
        (follow true (b / 8) (seen cs false tx rx))
unfolding feed parse_pkt follow
feed_server_opening b bs false tx rx last cur l = rw (l refl) refl
feed_server_opening b bs true tx rx last cur l = elim (Bool-cases (is_server_reset (b / 8))) [
  | inl e ↦
      rw (l refl, server_reset_valid (b / 8) e, e)
        (record { last = b / 8; cur = none; is_last = λ q. cc; embedded = refl }, refl)
  | inr e ↦ elim (Bool-cases (check_for_valid_opcode (b / 8))) [
    | inl v ↦ rw (l refl, v, e) refl
    | inr v ↦ rw (l refl, v, e) refl
  ]
]

feed_server_traffic :
    (b : ℕ) (bs : List ℕ) (cs : Bool) (tx rx last : ℕ) (cur : CurPkt)
    → Follows
        (feed true (b ∷ bs) (embed (seen cs true tx rx) last cur))
        (follow true (b / 8) (seen cs true tx rx))
unfolding feed parse_pkt follow
feed_server_traffic b bs cs tx rx last cur = elim (Bool-cases (is_traffic (b / 8))) [
  | inl e ↦
      rw (traffic_valid (b / 8) e, e)
        (record { last = last; cur = none; is_last = λ q. cc; embedded = refl }, refl)
  | inr e ↦ elim (Bool-cases (check_for_valid_opcode (b / 8))) [
    | inl v ↦ rw (v, e) refl
    | inr v ↦ rw (v, e) refl
  ]
]

feed-embed :
    (rev : Bool) (b : ℕ) (bs : List ℕ) (cs ss : Bool) (tx rx last : ℕ) (cur : CurPkt)
    → IsLast (seen cs ss tx rx) last
    → Follows
        (feed rev (b ∷ bs) (embed (seen cs ss tx rx) last cur))
        (follow rev (b / 8) (seen cs ss tx rx))
feed-embed false b bs false ss tx rx last cur l = feed_client_opening b bs ss tx rx last cur
feed-embed false b bs true ss tx rx last cur l = feed_client_traffic b bs ss tx rx last cur l
feed-embed true b bs cs false tx rx last cur l = feed_server_opening b bs cs tx rx last cur l
feed-embed true b bs cs true tx rx last cur l = feed_server_traffic b bs cs tx rx last cur

-- On a stream that represents a conversation, `Feed` of a packet with a first byte does not panic,
-- its machines end, and it does what the automaton does with the packet's opcode.
pub feed-Follows :
    (rev : Bool) (b : ℕ) (bs : List ℕ) (o : OpenvpnStream CurPkt) (c : Conversation)
    → Represents o c
    → Follows (feed rev (b ∷ bs) o) (follow rev (b / 8) c)
feed-Follows rev b bs o c r =
    subst (λ p. Follows (feed rev (b ∷ bs) p) (follow rev (b / 8) c)) (sym r.embedded)
      (feed-embed rev b bs c.client_seen c.server_seen c.sent c.received r.last r.cur r.is_last)

pub new_openvpn_udp_stream-Represents : Represents new_openvpn_udp_stream nothing_seen
unfolding new_openvpn_udp_stream is_client_reset
new_openvpn_udp_stream-Represents = record {
  last = 0;
  cur = none;
  is_last = λ _. refl;
  embedded = refl;
}

-- A packet: its direction, its first byte and the bytes behind.
abbrev pub Packet : Type 0
Packet = Bool × ℕ × List ℕ

-- The engine feeds packets until the stream is done.
unfoldable pub feed_all : List Packet → OpenvpnStream CurPkt → Outcome (Fed (OpenvpnStream CurPkt))
unfolding feed
feed_all [] o = ok (record { stream = o; update = none; is_done = false })
feed_all ((rev, b, bs) ∷ ps) o =
    feed rev (b ∷ bs) o >>= λ r. if r.is_done then ok r else feed_all ps r.stream

-- The automaton over packets: over at the first that does not belong, or past the limit.
unfoldable pub follow_all : List Packet → Conversation → Option Conversation
unfolding follow
follow_all [] c = some c
follow_all ((rev, b, bs) ∷ ps) c = elim (follow rev (b / 8) c) [
  | none ↦ none
  | some d ↦ if ltb openvpn_pkt_default_limit (d.received + d.sent) then none else follow_all ps d
]

-- After packets the stream represents what the automaton has seen, or both are over.
abbrev pub FollowsAll : Outcome (Fed (OpenvpnStream CurPkt)) → Option Conversation → Type 0
FollowsAll (ok r) none = r.is_done ≡ true
FollowsAll (ok r) (some c) = Represents r.stream c × (r.is_done ≡ false)
FollowsAll panic o = ⊥
FollowsAll stuck o = ⊥
