-- ===== src/Protocols/TlsHello/RoundTrip.antt =====
-- The parsers read back the hello messages that are printed.
use open_gfw_for_frp_integra.Prelude.{
  ◌==◌, length, All, Outcome, ok, ℕ, ◌*◌, ◌/◌, ◌%◌, ◌≡◌, refl, ap, ◌∙◌, subst, true, Option, none,
  some, List, [], ◌∷◌, ◌++◌, arith,
}
use open_gfw_for_frp_integra.Analyzer.{num, nums, Fields, end, field, insert_field}
use open_gfw_for_frp_integra.Utils.ByteBuffer.{ByteBuffer, get}
use open_gfw_for_frp_integra.Utils.ByteBuffer.Laws.{get-length_append}
use open_gfw_for_frp_integra.Protocols.TlsHello.{
  parse_extensions, parse_start, read_ciphers, parse_suites, parse_choice, parse_rest,
  parse_tls_client_hello_msg_data, parse_tls_server_hello_msg_data,
}
use open_gfw_for_frp_integra.Protocols.TlsHello.Print.{
  Hello, ClientHello, ServerHello, word, concat_map, print_extensions, print_start,
  print_client_hello, print_server_hello, start_fields, client_fields, server_fields, IsWord,
  IsShort, IsHello, IsClientHello, IsServerHello,
}
use open_gfw_for_frp_integra.Protocols.TlsHello.Extensions.{
  get_byte-cons, get_uint16-word, parse_extensions-print,
}

get-prefix :
    (n : ℕ) (bytes rest : List ℕ)
    → length bytes ≡ n
    → get n true (bytes ++ rest) ≡ (some bytes, rest)
get-prefix n bytes rest e =
    subst (λ k. get k true (bytes ++ rest) ≡ (some bytes, rest)) e (get-length_append bytes rest)

parse_start-print :
    (h : Hello) (rest : List ℕ)
    → IsHello h
    → parse_start (print_start h rest) ≡ some (start_fields h end, rest)
unfolding parse_start insert_field
parse_start-print h rest w =
    let tail = length h.session ∷ (h.session ++ rest) in
    rw
      (
        get_uint16-word h.version (h.random ++ tail) w.0,
        get-prefix 32 h.random tail w.1,
        get_byte-cons (length h.session) (h.session ++ rest),
        get-length_append h.session rest,
      )
      refl

read_ciphers-print :
    (cs : List ℕ) (rest : List ℕ)
    → All IsWord cs
    → read_ciphers (length cs) (concat_map word cs ++ rest) ≡ (some cs, rest)
unfolding read_ciphers
read_ciphers-print [] rest h = refl
read_ciphers-print (c ∷ cs) rest h =
    rw (get_uint16-word c (concat_map word cs ++ rest) h.0, read_ciphers-print cs rest h.1) refl

parse_suites-print :
    (h : Hello) (ciphers compression : List ℕ) (rest : List ℕ)
    → IsWord (length ciphers * 2)
    → All IsWord ciphers
    → IsShort compression
    → parse_suites (start_fields h end) (
        word (length ciphers * 2)
        ++ (concat_map word ciphers ++ (length compression ∷ (compression ++ rest))))
      ≡ some (
        start_fields h
            (field "ciphers" (nums ciphers) (field "compression" (nums compression) end)),
        rest,
      )
unfolding parse_suites insert_field
parse_suites-print h ciphers compression rest l a c =
    let tail = length compression ∷ (compression ++ rest) in
    let even : (length ciphers * 2 % 2 == 0) ≡ true = ground arith in
    let half : length ciphers * 2 / 2 ≡ length ciphers = omega arith in
    rw
      (
        get_uint16-word (length ciphers * 2) (concat_map word ciphers ++ tail) l,
        even,
        half,
        read_ciphers-print ciphers tail a,
        get_byte-cons (length compression) (compression ++ rest),
        get-length_append compression rest,
      )
      refl

parse_choice-print :
    (h : Hello) (cipher compression : ℕ) (rest : List ℕ)
    → IsWord cipher
    → parse_choice (start_fields h end) (word cipher ++ (compression ∷ rest))
      ≡ some (
        start_fields h (field "cipher" (num cipher) (field "compression" (num compression) end)),
        rest,
      )
unfolding parse_choice insert_field
parse_choice-print h cipher compression rest l =
    rw (get_uint16-word cipher (compression ∷ rest) l, get_byte-cons compression rest) refl

parse_rest-some :
    (suites : Fields → ByteBuffer → Option (Fields × ByteBuffer)) (m m' : Fields)
    (b b' : ByteBuffer)
    → suites m b ≡ some (m', b')
    → parse_rest suites (some (m, b)) ≡ parse_extensions m' b'
parse_rest-some suites m m' b b' e =
    ap
      (λ (r : Option (Fields × ByteBuffer)). elim r as (λ x. Outcome (Option Fields)) [
        | none ↦ ok none
        | some (m', b') ↦ parse_extensions m' b'
      ])
      e

-- Of a ClientHello as it is written, with a random of 32 bytes, lengths and numbers that fit their
-- fields and extensions in any order, the parser makes the map of all its parts.
pub parse_tls_client_hello-print :
    (c : ClientHello)
    → IsClientHello c
    → parse_tls_client_hello_msg_data (print_client_hello c) ≡ ok (some (client_fields c))
unfolding parse_tls_client_hello_msg_data
parse_tls_client_hello-print c w =
    let exts = print_extensions c.extensions in
    let compressions = length c.compression ∷ (c.compression ++ exts) in
    let suites = word (length c.ciphers * 2) ++ (concat_map word c.ciphers ++ compressions) in
    rw (parse_start-print c.start suites w.0) (
      parse_rest-some parse_suites (start_fields c.start end) _ suites exts
        (parse_suites-print c.start c.ciphers c.compression exts w.1 w.2 w.3)
      ∙ parse_extensions-print _ c.extensions w.4)

-- Of a ServerHello as it is written, with a random of 32 bytes, lengths and numbers that fit their
-- fields and extensions in any order, the parser makes the map of all its parts.
pub parse_tls_server_hello-print :
    (c : ServerHello)
    → IsServerHello c
    → parse_tls_server_hello_msg_data (print_server_hello c) ≡ ok (some (server_fields c))
unfolding parse_tls_server_hello_msg_data
parse_tls_server_hello-print c w =
    let exts = print_extensions c.extensions in
    let choice = word c.cipher ++ (c.compression ∷ exts) in
    rw (parse_start-print c.start choice w.0) (
      parse_rest-some parse_choice (start_fields c.start end) _ choice exts
        (parse_choice-print c.start c.cipher c.compression exts w.1)
      ∙ parse_extensions-print _ c.extensions w.3)
