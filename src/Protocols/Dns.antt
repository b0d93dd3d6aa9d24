-- ===== src/Protocols/Dns.antt =====
-- analyzer/udp/dns.go, over UDP and over TCP. The decoder of messages (gopacket's layers.DNS) is a
-- parameter; the records hold the fields of its result that the source reads. Over TCP the stream is
-- a `Duplex`, whose `msg_len` is `reqMsgLen` or `respMsgLen`.
pub mod Messages
pub mod Segments
pub mod Frames
use Prim.Native.Nat.{bit_or}
use mathlib.Core.Option
use open_gfw_for_frp_integra.Prelude.{
  leb, ◌==◌, if◌then◌else◌, get_or, Outcome, ok, ℕ, ◌+◌, ◌-◌, ◌*◌, ◌/◌, ◌^◌, ◌<◌, String, Bool,
  true, false, Option, none, some, List, [], ◌∷◌, map,
}
use open_gfw_for_frp_integra.Analyzer.{
  PropMap, entries, Fields, field, flag, text, texts, num, ip, end, prop_list, PropList, no_more,
  also, replace, PropUpdate, insert_field,
}
use open_gfw_for_frp_integra.Utils.ByteBuffer.{ByteBuffer, get}
use open_gfw_for_frp_integra.Utils.Lsm.{LsmAction, pause, next, restart, cancel}
use open_gfw_for_frp_integra.Protocols.Duplex.{
  close, Side, Duplex, Fed, new_duplex, close, Behaviour, feed,
}

abbrev pub dns_udp_invalid_count_threshold : ℕ
dns_udp_invalid_count_threshold = 4

pub record Question : Type 0 where
  pub name : List ℕ
  pub type : ℕ
  pub class : ℕ

pub record ResourceRecord : Type 0 where
  pub name : List ℕ
  pub type : ℕ
  pub class : ℕ
  pub ttl : ℕ
  pub ip : List ℕ
  pub ns : List ℕ
  pub cname : List ℕ
  pub ptr : List ℕ
  pub txts : List (List ℕ)
  pub mx_name : List ℕ

pub record Dns : Type 0 where
  pub id : ℕ
  pub qr : Bool
  pub op_code : ℕ
  pub aa : Bool
  pub tc : Bool
  pub rd : Bool
  pub ra : Bool
  pub z : ℕ
  pub response_code : ℕ
  pub questions : List Question
  pub answers : List ResourceRecord
  pub authorities : List ResourceRecord
  pub additionals : List ResourceRecord

-- layers.DNSTypeA and the other types that are told apart.
abbrev pub type_a : ℕ
type_a = 1

abbrev pub type_ns : ℕ
type_ns = 2

abbrev pub type_cname : ℕ
type_cname = 5

abbrev pub type_ptr : ℕ
type_ptr = 12

abbrev pub type_mx : ℕ
type_mx = 15

abbrev pub type_txt : ℕ
type_txt = 16

abbrev pub type_aaaa : ℕ
type_aaaa = 28

-- What the type of a record adds to its fields.
unfoldable pub typed_field : ResourceRecord → Fields
typed_field rr =
    if rr.type == type_a
    then field "a" (ip rr.ip) end
    else if rr.type == type_aaaa
    then field "aaaa" (ip rr.ip) end
    else if rr.type == type_ns
    then field "ns" (text rr.ns) end
    else if rr.type == type_cname
    then field "cname" (text rr.cname) end
    else if rr.type == type_ptr
    then field "ptr" (text rr.ptr) end
    else if rr.type == type_txt
    then field "txt" (texts rr.txts) end
    else if rr.type == type_mx
    then field "mx" (text rr.mx_name) end
    else end

unfoldable pub dns_rr_to_prop_map : ResourceRecord → PropMap
unfolding typed_field
dns_rr_to_prop_map rr = entries (
    field "name" (text rr.name) (
      field "type" (num rr.type)
        (field "class" (num rr.class) (field "ttl" (num rr.ttl) (typed_field rr)))))

unfoldable pub question_map : Question → PropMap
question_map q =
    entries
      (field "name" (text q.name) (field "type" (num q.type) (field "class" (num q.class) end)))

abbrev pub to_list : {A : Type 0} → (A → PropMap) → List A → PropList
to_list f [] = no_more
to_list f (x ∷ xs) = also (f x) (to_list f xs)

-- `if len(…) > 0 { m[…] = … }`
abbrev pub put_list : {A : Type 0} → String → (A → PropMap) → List A → Fields → Fields
put_list key f [] m = m
put_list key f (x ∷ xs) m = insert_field key (prop_list (to_list f (x ∷ xs))) m

unfoldable pub header_fields : Dns → Fields
header_fields d = field "id" (num d.id) (
    field "qr" (flag d.qr) (
      field "opcode" (num d.op_code) (
        field "aa" (flag d.aa) (
          field "tc" (flag d.tc) (
            field "rd" (flag d.rd) (
              field "ra" (flag d.ra)
                (field "z" (num d.z) (field "rcode" (num d.response_code) end))))))))

-- The map of a decoded message.
unfoldable pub message_map : Dns → Fields
unfolding header_fields question_map dns_rr_to_prop_map insert_field
message_map d = put_list "additionals" dns_rr_to_prop_map d.additionals (
    put_list "authorities" dns_rr_to_prop_map d.authorities (
      put_list "answers" dns_rr_to_prop_map d.answers
        (put_list "questions" question_map d.questions (header_fields d))))

abbrev pub Decoder : Type 0
Decoder = List ℕ → Option Dns

pub data DnsStep : Type 0 where
  get_req_message_length get_req_message get_resp_message_length get_resp_message : DnsStep

abbrev pub DnsTcpStream : Type 0
DnsTcpStream = Duplex DnsStep

-- `dnsUDPStream` is its count of invalid packets.
pub record FedUdp : Type 0 where
  pub invalid_count : ℕ
  pub update : Option PropUpdate
  pub is_done : Bool

-- `int(bs[0])<<8 | int(bs[1])`
abbrev pub message_len : List ℕ → ℕ
message_len bs = bit_or (get_or bs 0 0 * 2 ^ 8) (get_or bs 1 0)

-- `x, ok := …; if !ok { return Pause }`
abbrev pub on_bytes :
    Side → (List ℕ → Side → LsmAction × Side) → Option (List ℕ) × ByteBuffer → LsmAction × Side
on_bytes s rest (none, b) = (pause, s)
on_bytes s rest (some bs, b) = rest bs (record s { buf = b })

unfoldable pub get_message_length : Side → LsmAction × Side
unfolding get
get_message_length s =
    on_bytes s (λ bs t. (next, record t { msg_len = message_len bs })) (get 2 true s.buf)

module _ (decode : Decoder) where
  unfoldable pub parse_dns_message : List ℕ → Option Fields
  unfolding message_map
  parse_dns_message msg = Option.map message_map (decode msg)

  abbrev pub conclude : ℕ → Option Fields → FedUdp
  conclude n none = record {
    invalid_count = n + 1;
    update = none;
    is_done = leb dns_udp_invalid_count_threshold (n + 1);
  }
  conclude n (some m) = record {
    invalid_count = 0;
    update = some (record { type = replace; m = entries m });
    is_done = false;
  }

  unfoldable pub feed_udp : List ℕ → ℕ → FedUdp
  unfolding parse_dns_message
  feed_udp bytes n = conclude n (parse_dns_message bytes)

  -- A message that is no DNS message cancels; after another the machine starts anew.
  abbrev pub accept : Option Fields → Side → LsmAction × Side
  accept none s = (cancel, s)
  accept (some m) s = (restart, record s { found = entries m; updated = true })

  unfoldable pub get_message : Side → LsmAction × Side
  unfolding get parse_dns_message
  get_message s = on_bytes s (λ bs t. accept (parse_dns_message bs) t) (get s.msg_len true s.buf)

  unfoldable pub exec : DnsStep → Side → Outcome (LsmAction × Side)
  unfolding get_message_length get_message
  exec get_req_message_length s = ok (get_message_length s)
  exec get_req_message s = ok (get_message s)
  exec get_resp_message_length s = ok (get_message_length s)
  exec get_resp_message s = ok (get_message s)

unfoldable pub update_of : Bool → PropMap → PropUpdate
update_of rev m = record { type = replace; m = m }

abbrev pub req_steps : List DnsStep
req_steps = get_req_message_length ∷ get_req_message ∷ []

abbrev pub resp_steps : List DnsStep
resp_steps = get_resp_message_length ∷ get_resp_message ∷ []

unfoldable pub new_dns_tcp_stream : DnsTcpStream
unfolding new_duplex
new_dns_tcp_stream = new_duplex req_steps resp_steps

unfoldable pub dns_tcp : Decoder → Behaviour DnsStep
unfolding exec update_of
dns_tcp decode = record { exec = exec decode; update_of = update_of }

unfoldable pub feed_tcp : Decoder → Bool → ℕ → List ℕ → DnsTcpStream → Outcome (Fed DnsStep)
unfolding feed dns_tcp
feed_tcp decode rev skip bytes o = feed (dns_tcp decode) rev skip bytes o

unfoldable pub close_tcp : DnsTcpStream → DnsTcpStream
unfolding close
close_tcp o = close o
