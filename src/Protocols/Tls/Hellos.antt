-- ===== src/Protocols/Tls/Hellos.antt =====
-- A TLS stream that is handed a whole hello message reports its parts.
use Prim.Native.Nat.{bit_or}
use open_gfw_for_frp_integra.Prelude.{
  ltb, ==_refl, length, Outcome, ok, ◌>>=◌, ℕ, ◌+◌, ◌*◌, ◌/◌, ◌%◌, ◌^◌, ◌≤◌, ◌<◌, ◌≡◌, refl, sym,
  ap, subst, true, false, ◌&&◌, Option, some, List, [], ◌∷◌, ◌++◌, arith,
}
use open_gfw_for_frp_integra.Utils.Bits.{bit_or-shift, bit_or_comm}
use open_gfw_for_frp_integra.Analyzer.{props, entries, Fields, end, field, merge}
use open_gfw_for_frp_integra.Utils.ByteBuffer.{ByteBuffer, append, get, get_sub_buffer}
use open_gfw_for_frp_integra.Utils.ByteBuffer.Laws.{get-length_append}
use open_gfw_for_frp_integra.Utils.Lsm.{pause, next, new_lsm}
use open_gfw_for_frp_integra.Protocols.Duplex.{Side, Fed, new_side, update_if, finish}
use open_gfw_for_frp_integra.Protocols.Duplex.Steps.{ended, feed-req_two, feed-resp_two}
use open_gfw_for_frp_integra.Protocols.TlsHello.{
  record_type_handshake, type_client_hello, type_server_hello, read,
  parse_tls_client_hello_msg_data, parse_tls_server_hello_msg_data,
}
use open_gfw_for_frp_integra.Protocols.TlsHello.Print.{
  ClientHello, ServerHello, print_client_hello, print_server_hello, client_fields, server_fields,
  IsClientHello, IsServerHello,
}
use open_gfw_for_frp_integra.Protocols.TlsHello.RoundTrip.{
  parse_tls_client_hello-print, parse_tls_server_hello-print,
}
use open_gfw_for_frp_integra.Protocols.Tls.{
  TlsStep, client_hello_preprocess, parse_client_hello, server_hello_preprocess, parse_server_hello,
  TlsStream, headers_size, client_min_data_size, server_min_data_size, hello_len, preprocess,
  tls_client_hello_preprocess, tls_server_hello_preprocess, store, parse_client_hello_data,
  parse_server_hello_data, exec, update_of, tls, feed_tls,
}

hello_len_lem :
    (h0 h1 h2 h3 h4 h5 a b c : ℕ)
    → b < 256
    → c < 256
    → hello_len (h0 ∷ h1 ∷ h2 ∷ h3 ∷ h4 ∷ h5 ∷ a ∷ b ∷ c ∷ []) ≡ a * 65536 + b * 256 + c
unfolding hello_len
hello_len_lem h0 h1 h2 h3 h4 h5 a b c hb hc =
    let high : bit_or (a * 2 ^ 16) (b * 2 ^ 8) ≡ (a * 256 + b) * 2 ^ 8 =
      omega (arith, bit_or_comm (a * 2 ^ 16) (b * 2 ^ 8), bit_or-shift 16 (b * 2 ^ 8) a) in
    rw high (omega (arith, bit_or_comm ((a * 256 + b) * 2 ^ 8) c, bit_or-shift 8 c (a * 256 + b)))

-- The header of a record, whose version and length the stream passes over, and of a handshake
-- message of the type and the length given.
abbrev pub hello_header : ℕ → ℕ → ℕ → ℕ → ℕ → ℕ → List ℕ
hello_header type n v w x y =
    record_type_handshake ∷ v ∷ w ∷ x ∷ y ∷ type ∷ n / 65536 ∷ n / 256 % 256 ∷ n % 256 ∷ []

preprocess-hello_header :
    (type least n v w x y : ℕ) (s : Side) (rest : List ℕ)
    → least ≤ n
    → s.buf ≡ hello_header type n v w x y ++ rest
    → preprocess type least s ≡ (next, record s { buf = rest; msg_len = n })
unfolding preprocess
preprocess-hello_header type least n v w x y s rest l e =
    let header = hello_header type n v w x y in
    let cut : get headers_size true s.buf ≡ (some header, rest) =
      subst (λ b. get headers_size true b ≡ (some header, rest)) (sym e)
        (get-length_append header rest) in
    let whole : hello_len header ≡ n = omega (
      arith,
      hello_len_lem record_type_handshake v w x y type (n / 65536) (n / 256 % 256) (n % 256)
          (omega arith) (omega arith),
    ) in
    let long : ltb n least ≡ false = ground arith in rw (cut, whole, ==_refl type, long) refl

store-parsed :
    (parse : ByteBuffer → Outcome (Option Fields)) (s : Side) (body rest : List ℕ) (m : Fields)
    → parse body ≡ ok (some m)
    → s.buf ≡ body ++ rest
    → s.msg_len ≡ length body
    → read
        (ok (pause, s))
        (get_sub_buffer s.msg_len true s.buf)
        (λ hello left. parse hello >>= λ f. ok (store (record s { buf = left }) f))
      ≡ ok (next, record s { buf = rest; updated = true; found = entries m })
unfolding get_sub_buffer
store-parsed parse s body rest m p e l =
    let cut : get s.msg_len true s.buf ≡ (some body, rest) =
      rw (e, l) (get-length_append body rest) in
    rw (cut, p) refl

abbrev pub client_steps : List TlsStep
client_steps = client_hello_preprocess ∷ parse_client_hello ∷ []

abbrev pub server_steps : List TlsStep
server_steps = server_hello_preprocess ∷ parse_server_hello ∷ []

-- A segment that holds a record's header, a message and what comes after it.
abbrev pub segment : ℕ → ℕ → ℕ → ℕ → ℕ → List ℕ → List ℕ → List ℕ
segment type v w x y body rest = hello_header type (length body) v w x y ++ (body ++ rest)

-- Where the client's side of a TLS stream has seen nothing, a segment with a whole ClientHello of 41
-- bytes at least makes `Feed` report all its parts as the request, whatever stands behind it; the
-- stream is then done if the server's side was.
pub feed_tls-client_hello :
    (o : TlsStream) (c : ClientHello) (v w x y : ℕ) (rest : List ℕ)
    → IsClientHello c
    → client_min_data_size ≤ length (print_client_hello c)
    → o.req ≡ new_side
    → o.req_lsm ≡ new_lsm client_steps
    → (f : Fed TlsStep) × (feed_tls false 0
          (segment type_client_hello v w x y (print_client_hello c) rest)
          o
        ≡ ok f)
      × (f.update
          ≡ some (record {
            type = merge;
            m = entries (field "req" (props (entries (client_fields c))) end);
          }))
      × (f.is_done ≡ o.resp_done)
unfolding feed_tls tls exec tls_client_hello_preprocess parse_client_hello_data finish update_if
    update_of append
feed_tls-client_hello o c v w x y rest h l e m =
    let body = print_client_hello c in
    let bytes = hello_header type_client_hello (length body) v w x y ++ (body ++ rest) in
    let s0 = record new_side { buf = bytes } in
    let s1 = record s0 { buf = body ++ rest; msg_len = length body } in
    let s2 = record s1 { buf = rest; updated = true; found = entries (client_fields c) } in
    (
      finish tls false o (ended tls client_hello_preprocess parse_client_hello s2),
      feed-req_two tls client_hello_preprocess parse_client_hello o new_side s1 s2 bytes
          (omega arith)
          (ap ok (
            preprocess-hello_header type_client_hello client_min_data_size (length body) v w x y s0
              (body ++ rest) l refl))
          (store-parsed parse_tls_client_hello_msg_data s1 body rest (client_fields c)
            (parse_tls_client_hello-print c h) refl refl)
          e m,
      refl,
      refl,
    )

-- Where the server's side of a TLS stream has seen nothing, a segment with a whole ServerHello of 38
-- bytes at least makes `Feed` report all its parts as the response, whatever stands behind it; the
-- stream is then done if the client's side was.
pub feed_tls-server_hello :
    (o : TlsStream) (c : ServerHello) (v w x y : ℕ) (rest : List ℕ)
    → IsServerHello c
    → server_min_data_size ≤ length (print_server_hello c)
    → o.resp ≡ new_side
    → o.resp_lsm ≡ new_lsm server_steps
    → (f : Fed TlsStep) × (feed_tls true 0
          (segment type_server_hello v w x y (print_server_hello c) rest)
          o
        ≡ ok f)
      × (f.update
          ≡ some (record {
            type = merge;
            m = entries (field "resp" (props (entries (server_fields c))) end);
          }))
      × (f.is_done ≡ (o.req_done && true))
unfolding feed_tls tls exec tls_server_hello_preprocess parse_server_hello_data finish update_if
    update_of append
feed_tls-server_hello o c v w x y rest h l e m =
    let body = print_server_hello c in
    let bytes = hello_header type_server_hello (length body) v w x y ++ (body ++ rest) in
    let s0 = record new_side { buf = bytes } in
    let s1 = record s0 { buf = body ++ rest; msg_len = length body } in
    let s2 = record s1 { buf = rest; updated = true; found = entries (server_fields c) } in
    (
      finish tls true o (ended tls server_hello_preprocess parse_server_hello s2),
      feed-resp_two tls server_hello_preprocess parse_server_hello o new_side s1 s2 bytes
          (omega arith)
          (ap ok (
            preprocess-hello_header type_server_hello server_min_data_size (length body) v w x y s0
              (body ++ rest) l refl))
          (store-parsed parse_tls_server_hello_msg_data s1 body rest (server_fields c)
            (parse_tls_server_hello-print c h) refl refl)
          e m,
      refl,
      refl,
    )
