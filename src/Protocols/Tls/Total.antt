-- ===== src/Protocols/Tls/Total.antt =====
-- `Feed` of a TLS stream returns on every segment of a stream that it has itself left.
use open_gfw_for_frp_integra.Prelude.{
  ltb, ◌==◌, if◌then◌else◌, Bool-cases, get_or, Outcome, ok, ◌>>=◌, Gives, Gives-ok, ℕ, ◌≡◌, inl,
  inr, Bool, true, not, ◌||◌, Option, none, some, List, arith,
}
use open_gfw_for_frp_integra.Analyzer.{Fields}
use open_gfw_for_frp_integra.Utils.ByteBuffer.{ByteBuffer, get, get_sub_buffer, skip}
use open_gfw_for_frp_integra.Utils.Lsm.{LsmAction, pause, next, cancel, Lsm}
use open_gfw_for_frp_integra.Protocols.Duplex.{Side, Fed, new_duplex, feed}
use open_gfw_for_frp_integra.Protocols.Duplex.Total.{
  IsLive, feed-IsLive, Goes, IsForward, IsForward-IsSteady,
}
use open_gfw_for_frp_integra.Protocols.TlsHello.{
  record_type_handshake, type_client_hello, type_server_hello, read,
  parse_tls_client_hello_msg_data, parse_tls_server_hello_msg_data,
}
use open_gfw_for_frp_integra.Protocols.TlsHello.Returns.{
  parse_tls_client_hello_msg_data-ok, parse_tls_server_hello_msg_data-ok,
}
use open_gfw_for_frp_integra.Protocols.Tls.{
  TlsStep, client_hello_preprocess, parse_client_hello, server_hello_preprocess, parse_server_hello,
  TlsStream, headers_size, client_min_data_size, server_min_data_size, hello_len, preprocess,
  tls_client_hello_preprocess, tls_server_hello_preprocess, store, parse_client_hello_data,
  parse_server_hello_data, exec, tls, new_tls_stream, feed_tls,
}

-- The steps rely on nothing.
abbrev Free : Lsm TlsStep → Side → Type 0
Free m s = Unit

abbrev Moves : Lsm TlsStep → LsmAction × Side → Type 0
Moves m r = Goes Free r.0 m r.1

preprocess-Moves : (m : Lsm TlsStep) (type least : ℕ) (s : Side) → Moves m (preprocess type least s)
unfolding preprocess
preprocess-Moves m type least s = either (get headers_size true s.buf)
  where
    either :
        (r : Option (List ℕ) × ByteBuffer)
        → Moves m (
            read
              (pause, s)
              r
              λ header rest.
                let t = record s { buf = rest } in
                let n = hello_len header in
                if not (get_or header 0 0 == record_type_handshake)
                  || not (get_or header 5 0 == type)
                then (cancel, t)
                else if ltb n least
                then (cancel, record t { msg_len = n })
                else (next, record t { msg_len = n }))
    either (none, rest) = tt
    either (some header, rest) =
        elim (Bool-cases
          (not (get_or header 0 0 == record_type_handshake) || not (get_or header 5 0 == type))) [
            | inl other ↦ rw other tt
            | inr hello ↦ elim (Bool-cases (ltb (hello_len header) least)) [
              | inl short ↦ rw (hello, short) tt
              | inr enough ↦ rw (hello, enough) tt
            ]
          ]

store-Moves : (m : Lsm TlsStep) (s : Side) (r : Option Fields) → Moves m (store s r)
store-Moves m s none = tt
store-Moves m s (some f) = tt

module _ (parse : ByteBuffer → Outcome (Option Fields))
    (returns : (b : ByteBuffer) → (r : Option Fields) × (parse b ≡ ok r)) where
  parse-Moves :
      (m : Lsm TlsStep) (s : Side) (r : Option ByteBuffer × ByteBuffer)
      → Gives (Moves m) (
          read
            (ok (pause, s))
            r
            λ hello rest. parse hello >>= λ f. ok (store (record s { buf = rest }) f))
  parse-Moves m s (none, rest) = tt
  parse-Moves m s (some hello, rest) =
      let (f, e) = returns hello in rw e (store-Moves m (record s { buf = rest }) f)

exec-Moves : (t : TlsStep) (m : Lsm TlsStep) (s : Side) → Gives (Moves m) (exec t s)
unfolding exec tls_client_hello_preprocess tls_server_hello_preprocess parse_client_hello_data
    parse_server_hello_data
exec-Moves client_hello_preprocess m s = preprocess-Moves m type_client_hello client_min_data_size s
exec-Moves parse_client_hello m s =
    parse-Moves parse_tls_client_hello_msg_data parse_tls_client_hello_msg_data-ok m s
      (get_sub_buffer s.msg_len true s.buf)
exec-Moves server_hello_preprocess m s = preprocess-Moves m type_server_hello server_min_data_size s
exec-Moves parse_server_hello m s =
    parse-Moves parse_tls_server_hello_msg_data parse_tls_server_hello_msg_data-ok m s
      (get_sub_buffer s.msg_len true s.buf)

tls-IsForward : IsForward tls Free
unfolding tls
tls-IsForward = record {
  receives = λ m s bytes g. tt;
  reports = λ m s g. tt;
  moves = λ t m s e g. exec-Moves t m s;
}

-- The streams that `feed_tls` leaves: two steps at most for a direction.
pub IsTlsStream : TlsStream → Type 0
IsTlsStream o = IsLive (IsForward-IsSteady tls Free tls-IsForward) o

pub new_tls_stream-IsTlsStream : IsTlsStream new_tls_stream
unfolding IsTlsStream new_tls_stream new_duplex
new_tls_stream-IsTlsStream = ((omega arith, tt), (omega arith, tt))

-- On every segment of either direction, whatever its bytes, `Feed` of such a TLS stream returns:
-- no read panics and no loop runs out of fuel. It leaves such a stream again.
pub feed_tls-IsTlsStream :
    (rev : Bool) (skip : ℕ) (bytes : List ℕ) (o : TlsStream)
    → IsTlsStream o
    → (f : Fed TlsStep) × (feed_tls rev skip bytes o ≡ ok f) × IsTlsStream f.stream
unfolding feed_tls IsTlsStream
feed_tls-IsTlsStream rev skip bytes o l =
    Gives-ok (λ f. IsTlsStream f.stream) (feed tls rev skip bytes o)
      (feed-IsLive (IsForward-IsSteady tls Free tls-IsForward) rev skip bytes o l)
