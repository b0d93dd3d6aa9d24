-- ===== src/Samples/Tls.antt =====
-- Tests of analyzer/tcp/tls.go and analyzer/internal/tls.go.
use open_gfw_for_frp_integra.Prelude.{
  replicate, ok, ◌≡◌, refl, true, false, ◌&&◌, none, some, [], ◌∷◌, ◌++◌, arith,
}
use open_gfw_for_frp_integra.Analyzer.{field, entries, props, end, merge}
use open_gfw_for_frp_integra.Protocols.Duplex.{Fed, new_duplex}
use open_gfw_for_frp_integra.Protocols.TlsHello.{
  type_client_hello, type_server_hello, parse_tls_client_hello_msg_data,
}
use open_gfw_for_frp_integra.Protocols.TlsHello.Print.{
  server_name, protocols, versions, selected_version, other, Hello, ClientHello, ServerHello,
  print_client_hello, print_server_hello, client_fields, server_fields, IsHello, IsClientHello,
  IsServerHello,
}
use open_gfw_for_frp_integra.Protocols.TlsHello.RoundTrip.{parse_tls_client_hello-print}
use open_gfw_for_frp_integra.Protocols.Tls.{TlsStep, new_tls_stream, feed_tls}
use open_gfw_for_frp_integra.Protocols.Tls.Total.{
  IsTlsStream, new_tls_stream-IsTlsStream, feed_tls-IsTlsStream,
}
use open_gfw_for_frp_integra.Protocols.Tls.Hellos.{
  segment, feed_tls-client_hello, feed_tls-server_hello,
}

abbrev begin : Hello
begin = record { version = 771; random = replicate 32 7; session = [] }

-- A client that asks for "ab" and speaks "h2" and TLS 1.3.
abbrev hello : ClientHello
hello = record {
  start = begin;
  ciphers = 4865 ∷ 4866 ∷ [];
  compression = 0 ∷ [];
  extensions =
      server_name (97 ∷ 98 ∷ []) ∷ protocols ((104 ∷ 50 ∷ []) ∷ []) ∷ versions (772 ∷ []) ∷ [];
}

abbrev answer : ServerHello
answer = record {
  start = begin;
  cipher = 4865;
  compression = 0;
  extensions = selected_version 772 ∷ other 51 (1 ∷ 2 ∷ []) ∷ [];
}

begin-IsHello : IsHello begin
begin-IsHello = (omega arith, refl, omega arith)

hello-IsClientHello : IsClientHello hello
hello-IsClientHello = (
  begin-IsHello,
  omega arith,
  (omega arith, (omega arith, tt)),
  omega arith,
  (
    ((tt, omega arith), (((omega arith, tt), omega arith), (((omega arith, tt), omega arith), tt))),
    omega arith,
  ),
)

answer-IsServerHello : IsServerHello answer
answer-IsServerHello = (
  begin-IsHello,
  omega arith,
  omega arith,
  (((omega arith, omega arith), (((omega arith, refl), omega arith), tt)), omega arith),
)

parse_tls_client_hello-print_example :
    parse_tls_client_hello_msg_data (print_client_hello hello) ≡ ok (some (client_fields hello))
parse_tls_client_hello-print_example = parse_tls_client_hello-print hello hello-IsClientHello

feed_tls-client_hello_example :
    (f : Fed TlsStep) × (feed_tls false 0
        (segment type_client_hello 3 1 0 90 (print_client_hello hello) (9 ∷ []))
        new_tls_stream
      ≡ ok f)
    × (f.update
        ≡ some (record {
          type = merge;
          m = entries (field "req" (props (entries (client_fields hello))) end);
        }))
    × (f.is_done ≡ new_tls_stream.resp_done)
unfolding new_tls_stream new_duplex
feed_tls-client_hello_example =
    feed_tls-client_hello new_tls_stream hello 3 1 0 90 (9 ∷ []) hello-IsClientHello (omega arith)
      refl refl

feed_tls-server_hello_example :
    (f : Fed TlsStep) × (feed_tls true 0
        (segment type_server_hello 3 3 0 60 (print_server_hello answer) [])
        new_tls_stream
      ≡ ok f)
    × (f.update
        ≡ some (record {
          type = merge;
          m = entries (field "resp" (props (entries (server_fields answer))) end);
        }))
    × (f.is_done ≡ (new_tls_stream.req_done && true))
unfolding new_tls_stream new_duplex
feed_tls-server_hello_example =
    feed_tls-server_hello new_tls_stream answer 3 3 0 60 [] answer-IsServerHello (omega arith) refl
      refl

feed_tls-IsTlsStream_example :
    (f : Fed TlsStep) × (feed_tls true 0 (22 ∷ 3 ∷ []) new_tls_stream ≡ ok f) × IsTlsStream f.stream
feed_tls-IsTlsStream_example =
    feed_tls-IsTlsStream true 0 (22 ∷ 3 ∷ []) new_tls_stream new_tls_stream-IsTlsStream

-- Cipher suites of an odd number of bytes are refused.
odd_suites :
    parse_tls_client_hello_msg_data (replicate 34 0 ++ 0 ∷ 0 ∷ 1 ∷ 5 ∷ 1 ∷ 0 ∷ []) ≡ ok none
unfolding parse_tls_client_hello_msg_data
odd_suites = refl
