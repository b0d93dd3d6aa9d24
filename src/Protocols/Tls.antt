-- ===== src/Protocols/Tls.antt =====
-- analyzer/tcp/tls.go. The stream is a `Duplex`: `clientHelloLen` and `serverHelloLen` are the
-- `msg_len` of the sides, and `reqMap` and `respMap` their `found`.
pub mod Total
pub mod Hellos
use Prim.Native.Nat.{bit_or}
use open_gfw_for_frp_integra.Prelude.{
  ltb, ◌==◌, if◌then◌else◌, length, get_or, Outcome, ok, ◌>>=◌, ℕ, ◌-◌, ◌*◌, ◌/◌, ◌^◌, ◌<◌, Bool,
  true, false, not, ◌||◌, Option, none, some, List, [], ◌∷◌,
}
use open_gfw_for_frp_integra.Analyzer.{
  PropMap, entries, field, props, end, Fields, merge, PropUpdate,
}
use open_gfw_for_frp_integra.Utils.ByteBuffer.{get, get_sub_buffer}
use open_gfw_for_frp_integra.Utils.Lsm.{LsmAction, pause, next, cancel}
use open_gfw_for_frp_integra.Protocols.Duplex.{
  close, Side, Duplex, Fed, new_duplex, close, Behaviour, feed,
}
use open_gfw_for_frp_integra.Protocols.TlsHello.{
  record_type_handshake, type_client_hello, type_server_hello, read,
  parse_tls_client_hello_msg_data, parse_tls_server_hello_msg_data,
}

pub data TlsStep : Type 0 where
  client_hello_preprocess parse_client_hello server_hello_preprocess parse_server_hello : TlsStep

abbrev pub TlsStream : Type 0
TlsStream = Duplex TlsStep

abbrev pub headers_size : ℕ
headers_size = 9

abbrev pub client_min_data_size : ℕ
client_min_data_size = 41

abbrev pub server_min_data_size : ℕ
server_min_data_size = 38

-- `int(header[6])<<16 | int(header[7])<<8 | int(header[8])`
unfoldable pub hello_len : List ℕ → ℕ
hello_len header =
    bit_or (bit_or (get_or header 6 0 * 2 ^ 16) (get_or header 7 0 * 2 ^ 8)) (get_or header 8 0)

-- The two preprocess methods, which differ in the type of the message and the least length.
unfoldable pub preprocess : ℕ → ℕ → Side → LsmAction × Side
unfolding get hello_len
preprocess type least s =
    read (pause, s) (get headers_size true s.buf)
      λ header rest.
        let t = record s { buf = rest } in
        let n = hello_len header in
        if not (get_or header 0 0 == record_type_handshake) || not (get_or header 5 0 == type)
        then (cancel, t)
        else if ltb n least
        then (cancel, record t { msg_len = n })
        else (next, record t { msg_len = n })

unfoldable pub tls_client_hello_preprocess : Side → LsmAction × Side
unfolding preprocess
tls_client_hello_preprocess s = preprocess type_client_hello client_min_data_size s

unfoldable pub tls_server_hello_preprocess : Side → LsmAction × Side
unfolding preprocess
tls_server_hello_preprocess s = preprocess type_server_hello server_min_data_size s

-- What a parsed message does to the side that it came from; nil cancels.
abbrev pub store : Side → Option Fields → LsmAction × Side
store s none = (cancel, s)
store s (some m) = (next, record s { updated = true; found = entries m })

unfoldable pub parse_client_hello_data : Side → Outcome (LsmAction × Side)
unfolding get_sub_buffer
parse_client_hello_data s = read (ok (pause, s)) (get_sub_buffer s.msg_len true s.buf) λ hello rest.
    parse_tls_client_hello_msg_data hello >>= λ m. ok (store (record s { buf = rest }) m)

unfoldable pub parse_server_hello_data : Side → Outcome (LsmAction × Side)
unfolding get_sub_buffer
parse_server_hello_data s = read (ok (pause, s)) (get_sub_buffer s.msg_len true s.buf) λ hello rest.
    parse_tls_server_hello_msg_data hello >>= λ m. ok (store (record s { buf = rest }) m)

unfoldable pub exec : TlsStep → Side → Outcome (LsmAction × Side)
unfolding tls_client_hello_preprocess tls_server_hello_preprocess parse_client_hello_data
    parse_server_hello_data
exec client_hello_preprocess s = ok (tls_client_hello_preprocess s)
exec parse_client_hello s = parse_client_hello_data s
exec server_hello_preprocess s = ok (tls_server_hello_preprocess s)
exec parse_server_hello s = parse_server_hello_data s

unfoldable pub update_of : Bool → PropMap → PropUpdate
update_of true m = record { type = merge; m = entries (field "resp" (props m) end) }
update_of false m = record { type = merge; m = entries (field "req" (props m) end) }

unfoldable pub tls : Behaviour TlsStep
unfolding exec update_of
tls = record { exec = exec; update_of = update_of }

unfoldable pub new_tls_stream : TlsStream
unfolding new_duplex
new_tls_stream =
    new_duplex (client_hello_preprocess ∷ parse_client_hello ∷ [])
      (server_hello_preprocess ∷ parse_server_hello ∷ [])

unfoldable pub feed_tls : Bool → ℕ → List ℕ → TlsStream → Outcome (Fed TlsStep)
unfolding feed tls
feed_tls rev skip bytes o = feed tls rev skip bytes o

unfoldable pub close_tls : TlsStream → TlsStream
unfolding close
close_tls o = close o
