-- ===== src/Protocols/TlsHello/Returns.antt =====
-- The parsers of the two hello messages return on every buffer: no loop runs out of fuel.
use mathlib.Core.Option
use open_gfw_for_frp_integra.Prelude.{
  ltb, ◌==◌, if◌then◌else◌, Bool-cases, length, get_or, length-drop, Outcome, ok, Gives, >>=-Gives,
  Gives-ok, ℕ, zero, suc, ◌+◌, ◌≤◌, ◌<◌, ◌≡◌, inl, inr, Bool, true, false, Option, none, some, List,
  [], ◌∷◌, arith,
}
use open_gfw_for_frp_integra.Analyzer.{Fields}
use open_gfw_for_frp_integra.Utils.ByteBuffer.{
  ByteBuffer, len, get, get_string, get_byte, uint16_of, get_uint16, get_sub_buffer, skip,
}
use open_gfw_for_frp_integra.Protocols.TlsHello.{
  ext_server_name, ext_alpn, ext_supported_versions, ext_encrypted_client_hello, read, skipping,
  drain, next_alpn, parse_alpn, next_version, parse_supported_versions, parse_tls_extensions,
  next_extension, parse_extensions, parse_start, parse_suites, parse_choice, parse_rest,
  parse_tls_client_hello_msg_data, parse_tls_server_hello_msg_data,
}

-- What is read, if anything, leaves a buffer that is shorter by `k` bytes.
abbrev pub Lowers : {A : Type 0} → ℕ → ByteBuffer → Option A × ByteBuffer → Type 0
Lowers k b (none, rest) = Unit
Lowers k b (some a, rest) = length rest + k ≤ length b

pub get-Lowers : (n : ℕ) (b : ByteBuffer) → Lowers n b (get n true b)
unfolding get
get-Lowers n b = elim (Bool-cases (ltb (length b) n)) [
  | inl short ↦ rw short tt
  | inr enough ↦ rw enough (ground (arith, length-drop n b))
]

map-Lowers :
    {A B : Type 0} (k : ℕ) (b : ByteBuffer) (f : A → B) (r : Option A × ByteBuffer)
    → Lowers k b r
    → Lowers k b (Option.map f r.0, r.1)
map-Lowers k b f (none, rest) l = l
map-Lowers k b f (some a, rest) l = l

pub get_byte-Lowers : (b : ByteBuffer) → Lowers 1 b (get_byte true b)
unfolding get_byte
get_byte-Lowers b = map-Lowers 1 b (λ d. get_or d 0 0) (get 1 true b) (get-Lowers 1 b)

pub get_uint16-Lowers : (b : ByteBuffer) → Lowers 2 b (get_uint16 false true b)
unfolding get_uint16
get_uint16-Lowers b = map-Lowers 2 b (uint16_of false) (get 2 true b) (get-Lowers 2 b)

-- What holds of the result where nothing is read and where something is, holds of it.
read-Lowers :
    {A B : Type 0} (P : B → Type 0) (k : ℕ) (b : ByteBuffer) (fail : B) (r : Option A × ByteBuffer)
    (rest : A → ByteBuffer → B)
    → P fail
    → Lowers k b r
    → ((a : A) (c : ByteBuffer) → length c + k ≤ length b → P (rest a c))
    → P (read fail r rest)
read-Lowers P k b fail (none, c) rest f l h = f
read-Lowers P k b fail (some a, c) rest f l h = h a c l

abbrev Shorter : {S : Type 0} → ByteBuffer → Option (S × ByteBuffer) → Type 0
Shorter b none = Unit
Shorter b (some (s, c)) = length c < length b

abbrev Any : {A : Type 0} → A → Type 0
Any a = Unit

-- A loop whose rounds return and read a byte at least returns, on more fuel than bytes.
module _ {S : Type 0} (body : S → ByteBuffer → Outcome (Option (S × ByteBuffer)))
    (h : (s : S) (b : ByteBuffer) → 0 < length b → Gives (Shorter b) (body s b)) where
  drain-Gives :
      (fuel : ℕ) (s : S) (b : ByteBuffer) → length b < fuel → Gives Any (drain body fuel s b)
  unfolding drain
  drain-Gives zero s b l = absurd (omega arith)
  drain-Gives (suc fuel) s [] l = tt
  drain-Gives (suc fuel) s (x ∷ b) l =
      >>=-Gives (Shorter (x ∷ b)) Any (body s (x ∷ b)) _ (h s (x ∷ b) (omega arith))
        (goes_on (λ s' b' l'. drain-Gives fuel s' b' (omega arith)))
    where
      goes_on :
          ((s' : S) (b' : ByteBuffer)
            → length b' < length (x ∷ b)
            → Gives Any (drain body fuel s' b'))
          → (r : Option (S × ByteBuffer)) → Shorter (x ∷ b) r
          → Gives Any (elim r [ none ↦ ok none | some (s', b') ↦ drain body fuel s' b' ])
      goes_on k none g = tt
      goes_on k (some (s', b')) g = k s' b' g

next_alpn-Shorter :
    (found : List (List ℕ)) (b : ByteBuffer) → 0 < length b → Gives (Shorter b) (next_alpn found b)
unfolding next_alpn get_string
next_alpn-Shorter found b l =
    read-Lowers (Shorter b) 1 b none (get_byte true b) _ tt (get_byte-Lowers b) λ n b1 l1.
      read-Lowers (Shorter b) n b1 none (get n true b1) _ tt (get-Lowers n b1)
        λ name b2 l2. omega arith

next_version-Shorter :
    (found : List ℕ) (b : ByteBuffer) → 0 < length b → Gives (Shorter b) (next_version found b)
unfolding next_version
next_version-Shorter found b l =
    read-Lowers (Shorter b) 2 b none (get_uint16 false true b) _ tt (get_uint16-Lowers b)
      λ v b1 l1. omega arith

skipping-Gives :
    {A : Type 0} (fail : Outcome A) (r : Bool × ByteBuffer) (rest : ByteBuffer → Outcome A)
    → Gives Any fail
    → ((b : ByteBuffer) → Gives Any (rest b))
    → Gives Any (skipping fail r rest)
skipping-Gives fail (false, b) rest f h = f
skipping-Gives fail (true, b) rest f h = h b

parse_alpn-Gives : (b : ByteBuffer) (m : Fields) → Gives Any (parse_alpn b m)
unfolding parse_alpn
parse_alpn-Gives b m = skipping-Gives (ok none) (skip 2 b) _ tt λ b1.
    >>=-Gives Any Any (drain next_alpn (length b1 + 1) [] b1) _
      (drain-Gives next_alpn next_alpn-Shorter (length b1 + 1) [] b1 (omega arith)) λ r g. tt

parse_supported_versions-Gives :
    (b : ByteBuffer) (m : Fields) → Gives Any (parse_supported_versions b m)
unfolding parse_supported_versions
parse_supported_versions-Gives b m = elim (Bool-cases (len b == 2)) [
  | inl one ↦ rw one tt
  | inr more ↦ rw more (
      skipping-Gives (ok none) (skip 1 b) _ tt λ b1.
        >>=-Gives Any Any (drain next_version (length b1 + 1) [] b1) _
          (drain-Gives next_version next_version-Shorter (length b1 + 1) [] b1 (omega arith))
          λ r g. tt)
]

if-Gives :
    {A : Type 0} (c : Bool) (x y : Outcome A)
    → Gives Any x
    → Gives Any y
    → Gives Any (if c then x else y)
if-Gives true x y g h = g
if-Gives false x y g h = h

parse_tls_extensions-Gives :
    (type : ℕ) (b : ByteBuffer) (m : Fields) → Gives Any (parse_tls_extensions type b m)
unfolding parse_tls_extensions
parse_tls_extensions-Gives type b m = if-Gives (type == ext_server_name) _ _ tt (
    if-Gives (type == ext_alpn) _ _ (parse_alpn-Gives b m) (
      if-Gives (type == ext_supported_versions) _ _ (parse_supported_versions-Gives b m)
        (if-Gives (type == ext_encrypted_client_hello) _ _ tt tt)))

next_extension-Shorter :
    (m : Fields) (b : ByteBuffer) → 0 < length b → Gives (Shorter b) (next_extension m b)
unfolding next_extension get_sub_buffer
next_extension-Shorter m b l =
    read-Lowers (Gives (Shorter b)) 2 b (ok none) (get_uint16 false true b) _ tt
      (get_uint16-Lowers b)
      λ type b1 l1.
        read-Lowers (Gives (Shorter b)) 2 b1 (ok none) (get_uint16 false true b1) _ tt
          (get_uint16-Lowers b1)
          λ n b2 l2.
            read-Lowers (Gives (Shorter b)) n b2 (ok none) (get n true b2) _ tt (get-Lowers n b2)
              λ content b3 l3.
                >>=-Gives Any (Shorter b) (parse_tls_extensions type content m) _
                  (parse_tls_extensions-Gives type content m) λ r g. shorter b3 (omega arith) r
  where
    shorter :
        (b3 : ByteBuffer)
        → length b3 < length b
        → (r : Option Fields) → Shorter b (Option.map (λ m'. (m', b3)) r)
    shorter b3 h none = tt
    shorter b3 h (some m') = h

parse_extensions-Gives : (m : Fields) (b : ByteBuffer) → Gives Any (parse_extensions m b)
unfolding parse_extensions get_sub_buffer
parse_extensions-Gives m b =
    read-Lowers (Gives Any) 2 b (ok (some m)) (get_uint16 false true b) _ tt (get_uint16-Lowers b)
      λ n b1 l1.
        read-Lowers (Gives Any) n b1 (ok none) (get n true b1) _ tt (get-Lowers n b1) λ exts b2 l2.
          drain-Gives next_extension next_extension-Shorter (length exts + 1) m exts (omega arith)

parse_rest-Gives :
    (suites : Fields → ByteBuffer → Option (Fields × ByteBuffer)) (r : Option (Fields × ByteBuffer))
    → Gives Any (parse_rest suites r)
parse_rest-Gives suites none = tt
parse_rest-Gives suites (some (m, b)) = either (suites m b)
  where
    either :
        (r : Option (Fields × ByteBuffer))
        → Gives Any (elim r [ none ↦ ok none | some (m', b') ↦ parse_extensions m' b' ])
    either none = tt
    either (some (m', b')) = parse_extensions-Gives m' b'

-- Of every buffer, the parser of a ClientHello makes a map or nil.
pub parse_tls_client_hello_msg_data-ok :
    (b : ByteBuffer) → (r : Option Fields) × (parse_tls_client_hello_msg_data b ≡ ok r)
unfolding parse_tls_client_hello_msg_data
parse_tls_client_hello_msg_data-ok b =
    let (r, e, _) =
      Gives-ok Any (parse_rest parse_suites (parse_start b))
        (parse_rest-Gives parse_suites (parse_start b)) in
    (r, e)

-- Of every buffer, the parser of a ServerHello makes a map or nil.
pub parse_tls_server_hello_msg_data-ok :
    (b : ByteBuffer) → (r : Option Fields) × (parse_tls_server_hello_msg_data b ≡ ok r)
unfolding parse_tls_server_hello_msg_data
parse_tls_server_hello_msg_data-ok b =
    let (r, e, _) =
      Gives-ok Any (parse_rest parse_choice (parse_start b))
        (parse_rest-Gives parse_choice (parse_start b)) in
    (r, e)
