-- ===== src/Protocols/TlsHello.antt =====
-- analyzer/internal/tls.go: the ClientHello and ServerHello messages of TLS. A nil map is `none`; a
-- slice of bytes or of uint16 is `nums`. The loops run on fuel, a round for each byte.
pub mod Returns
pub mod Print
pub mod Extensions
pub mod RoundTrip
use mathlib.Core.Option
use open_gfw_for_frp_integra.Prelude.{
  ◌==◌, if◌then◌else◌, length, Outcome, ok, stuck, ◌>>=◌, ℕ, zero, suc, ◌+◌, ◌-◌, ◌/◌, ◌%◌, Bool,
  true, false, not, Option, none, some, List, [], ◌∷◌, ◌++◌, map,
}
use open_gfw_for_frp_integra.Analyzer.{num, flag, text, texts, nums, Fields, end, insert_field}
use open_gfw_for_frp_integra.Utils.ByteBuffer.{
  ByteBuffer, len, get, get_string, get_byte, get_uint16, get_sub_buffer, skip,
}

abbrev pub record_type_handshake : ℕ
record_type_handshake = 22

abbrev pub type_client_hello : ℕ
type_client_hello = 1

abbrev pub type_server_hello : ℕ
type_server_hello = 2

abbrev pub ext_server_name : ℕ
ext_server_name = 0

abbrev pub ext_alpn : ℕ
ext_alpn = 16

abbrev pub ext_supported_versions : ℕ
ext_supported_versions = 43

abbrev pub ext_encrypted_client_hello : ℕ
ext_encrypted_client_hello = 65037

-- `x, ok := …; if !ok { return … }`, and the rest with the buffer that is left.
abbrev pub read : {A B : Type 0} → B → Option A × ByteBuffer → (A → ByteBuffer → B) → B
read fail (none, b) rest = fail
read fail (some a, b) rest = rest a b

-- `ok := buf.Skip(n); if !ok { return … }`
abbrev pub skipping : {B : Type 0} → B → Bool × ByteBuffer → (ByteBuffer → B) → B
skipping fail (false, b) rest = fail
skipping fail (true, b) rest = rest b

-- `x, _ := …`
abbrev pub or_zero : {A : Type 0} → A → Option A × ByteBuffer → A × ByteBuffer
or_zero z (none, b) = (z, b)
or_zero z (some a, b) = (a, b)

-- `for buf.Len() > 0`: a round changes what is collected, or makes the function return.
module _ {S : Type 0} (body : S → ByteBuffer → Outcome (Option (S × ByteBuffer))) where
  unfoldable pub drain : ℕ → S → ByteBuffer → Outcome (Option S)
  drain zero s b = stuck
  drain (suc fuel) s [] = ok (some s)
  drain (suc fuel) s (x ∷ b) =
      body s (x ∷ b) >>= λ r. elim r [ none ↦ ok none | some (s', b') ↦ drain fuel s' b' ]

-- The case of the server's name: its first entry.
unfoldable pub parse_server_name : ByteBuffer → Fields → Option Fields
unfolding skip get_byte get_uint16 get_string insert_field
parse_server_name b0 m = skipping none (skip 2 b0) λ b1. read none (get_byte true b1) λ type b2.
    if not (type == 0)
    then none
    else read none (get_uint16 false true b2)
        λ n b3. read none (get_string n true b3) λ name b4. some (insert_field "sni" (text name) m)

unfoldable pub next_alpn :
    List (List ℕ) → ByteBuffer → Outcome (Option (List (List ℕ) × ByteBuffer))
unfolding get_byte get_string
next_alpn found b = ok (
    read none (get_byte true b)
      λ n b1. read none (get_string n true b1) λ name b2. some (found ++ name ∷ [], b2))

unfoldable pub parse_alpn : ByteBuffer → Fields → Outcome (Option Fields)
unfolding skip drain next_alpn insert_field
parse_alpn b0 m = skipping (ok none) (skip 2 b0) λ b1.
    drain next_alpn (length b1 + 1) [] b1 >>= λ r.
    ok (Option.map (λ found. insert_field "alpn" (texts found) m) r)

unfoldable pub next_version : List ℕ → ByteBuffer → Outcome (Option (List ℕ × ByteBuffer))
unfolding get_uint16
next_version found b = ok (read none (get_uint16 false true b) λ v b1. some (found ++ v ∷ [], b1))

-- A server selects one version, a client sends a list.
unfoldable pub parse_supported_versions : ByteBuffer → Fields → Outcome (Option Fields)
unfolding len get_uint16 skip drain next_version insert_field
parse_supported_versions b0 m =
    if len b0 == 2
    then (let (v, b1) = or_zero 0 (get_uint16 false true b0) in
        ok (some (insert_field "supported_versions" (num v) m)))
    else skipping (ok none) (skip 1 b0) λ b1. drain next_version (length b1 + 1) [] b1 >>= λ r.
        ok (Option.map (λ found. insert_field "supported_versions" (nums found) m) r)

unfoldable pub parse_tls_extensions : ℕ → ByteBuffer → Fields → Outcome (Option Fields)
unfolding parse_server_name parse_alpn parse_supported_versions insert_field
parse_tls_extensions type b m =
    if type == ext_server_name
    then ok (parse_server_name b m)
    else if type == ext_alpn
    then parse_alpn b m
    else if type == ext_supported_versions
    then parse_supported_versions b m
    else if type == ext_encrypted_client_hello
    then ok (some (insert_field "ech" (flag true) m))
    else ok (some m)

-- One round of the loop over the extensions.
unfoldable pub next_extension : Fields → ByteBuffer → Outcome (Option (Fields × ByteBuffer))
unfolding get_uint16 get_sub_buffer parse_tls_extensions
next_extension m b = read (ok none) (get_uint16 false true b) λ type b1.
    read (ok none) (get_uint16 false true b1) λ n b2.
      read (ok none) (get_sub_buffer n true b2) λ content b3.
        parse_tls_extensions type content m >>= λ r. ok (Option.map (λ m'. (m', b3)) r)

-- From the length of the extensions to the end; without that length there are none.
unfoldable pub parse_extensions : Fields → ByteBuffer → Outcome (Option Fields)
unfolding get_uint16 get_sub_buffer drain next_extension
parse_extensions m b = read (ok (some m)) (get_uint16 false true b) λ n b1.
    read (ok none) (get_sub_buffer n true b1)
      λ exts b2. drain next_extension (length exts + 1) m exts

-- The version, the random bytes and the session, with which both messages begin.
unfoldable pub parse_start : ByteBuffer → Option (Fields × ByteBuffer)
unfolding get get_byte get_uint16 insert_field
parse_start b0 =
    let (version, b1) = or_zero 0 (get_uint16 false true b0) in
    let (random, b2) = or_zero [] (get 32 true b1) in
    let (n, b3) = or_zero 0 (get_byte true b2) in
    read none (get n true b3) λ session b4. some (
      insert_field "session" (nums session)
          (insert_field "random" (nums random) (insert_field "version" (num version) end)),
      b4,
    )

-- `for i := range ciphers`
unfoldable pub read_ciphers : ℕ → ByteBuffer → Option (List ℕ) × ByteBuffer
unfolding get_uint16
read_ciphers zero b = (some [], b)
read_ciphers (suc n) b =
    read (none, b) (get_uint16 false true b)
      λ c b1. let (cs, b2) = read_ciphers n b1 in (Option.map (λ cs'. c ∷ cs') cs, b2)

-- The cipher suites and the compression methods of a client.
unfoldable pub parse_suites : Fields → ByteBuffer → Option (Fields × ByteBuffer)
unfolding get get_byte get_uint16 read_ciphers insert_field
parse_suites m b = read none (get_uint16 false true b) λ n b1.
    if not (n % 2 == 0)
    then none
    else read none (read_ciphers (n / 2) b1) λ ciphers b2. read none (get_byte true b2) λ k b3.
      read none (get k true b3) λ compression b4. some (
        insert_field "compression" (nums compression) (insert_field "ciphers" (nums ciphers) m),
        b4,
      )

-- The cipher suite and the compression method of a server.
unfoldable pub parse_choice : Fields → ByteBuffer → Option (Fields × ByteBuffer)
unfolding get_byte get_uint16 insert_field
parse_choice m b = read none (get_uint16 false true b) λ cipher b1.
    read none (get_byte true b1) λ compression b2.
      some (insert_field "compression" (num compression) (insert_field "cipher" (num cipher) m), b2)

abbrev pub parse_rest :
    (Fields → ByteBuffer → Option (Fields × ByteBuffer))
    → Option (Fields × ByteBuffer)
    → Outcome (Option Fields)
parse_rest suites none = ok none
parse_rest suites (some (m, b)) = elim (suites m b) [
  | none ↦ ok none
  | some (m', b') ↦ parse_extensions m' b'
]

unfoldable pub parse_tls_client_hello_msg_data : ByteBuffer → Outcome (Option Fields)
unfolding parse_start parse_suites parse_extensions
parse_tls_client_hello_msg_data b = parse_rest parse_suites (parse_start b)

unfoldable pub parse_tls_server_hello_msg_data : ByteBuffer → Outcome (Option Fields)
unfolding parse_start parse_choice parse_extensions
parse_tls_server_hello_msg_data b = parse_rest parse_choice (parse_start b)
