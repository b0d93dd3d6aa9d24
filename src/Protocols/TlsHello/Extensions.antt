-- ===== src/Protocols/TlsHello/Extensions.antt =====
-- The loop over the extensions of a hello message reads back those that are printed.
use open_gfw_for_frp_integra.Prelude.{
  ◌==◌, length, All, length-append, Outcome, ok, ℕ, zero, suc, ◌+◌, ◌*◌, ◌/◌, ◌%◌, ◌<◌, ◌≡◌, refl,
  sym, ap, ◌∙◌, subst, true, false, Option, some, List, [], ◌∷◌, ◌++◌, append-nil, append_assoc,
  arith,
}
use open_gfw_for_frp_integra.Analyzer.{num, text, texts, nums, Fields, insert_field}
use open_gfw_for_frp_integra.Utils.ByteBuffer.{
  ByteBuffer, len, get, get_string, get_byte, get_uint16, get_sub_buffer, skip,
}
use open_gfw_for_frp_integra.Utils.ByteBuffer.Laws.{get-length_append}
use open_gfw_for_frp_integra.Utils.ByteBuffer.Words.{get_uint16-bytes16}
use open_gfw_for_frp_integra.Protocols.TlsHello.{
  or_zero, drain, parse_server_name, next_alpn, parse_alpn, next_version, parse_supported_versions,
  parse_tls_extensions, next_extension, parse_extensions,
}
use open_gfw_for_frp_integra.Protocols.TlsHello.Print.{
  Extension, server_name, protocols, versions, selected_version, encrypted_hello, other, word,
  concat_map, print_name, extension_type, extension_data, print_extension, print_extensions,
  put_extension, put_extensions, IsWord, IsShort, IsContent, IsExtension, IsExtensions,
}

pub get_byte-cons : (x : ℕ) (rest : List ℕ) → get_byte true (x ∷ rest) ≡ (some x, rest)
unfolding get_byte
get_byte-cons x rest = rw (get-length_append (x ∷ []) rest) refl

get-exact : (bytes : List ℕ) → get (length bytes) true bytes ≡ (some bytes, [])
get-exact bytes =
    subst (λ b. get (length bytes) true b ≡ (some bytes, [])) (append-nil bytes)
      (get-length_append bytes [])

skip-one : (x : ℕ) (rest : List ℕ) → skip 1 (x ∷ rest) ≡ (true, rest)
unfolding skip
skip-one x rest = ground arith

skip-two : (x y : ℕ) (rest : List ℕ) → skip 2 (x ∷ y ∷ rest) ≡ (true, rest)
unfolding skip
skip-two x y rest = ground arith

pub get_uint16-word :
    (v : ℕ) (rest : List ℕ) → IsWord v → get_uint16 false true (word v ++ rest) ≡ (some v, rest)
get_uint16-word v rest h = get_uint16-bytes16 false v rest h

abbrev fold : {S X : Type 0} → (S → X → S) → S → List X → S
fold step s [] = s
fold step s (x ∷ xs) = fold step (step s x) xs

-- A loop reads back a list whose elements its rounds read back.
module _ {S X : Type 0} (body : S → ByteBuffer → Outcome (Option (S × ByteBuffer)))
    (print : X → List ℕ) (step : S → X → S) (P : X → Type 0) where
  abbrev ReadsBack : Type 0
  ReadsBack =
      (s : S) (x : X) (rest : List ℕ)
      → P x
      → (0 < length (print x)) × (body s (print x ++ rest) ≡ ok (some (step s x, rest)))

  drain-round :
      (fuel : ℕ) (s s' : S) (b b' : ByteBuffer)
      → 0 < length b
      → body s b ≡ ok (some (s', b'))
      → drain body (suc fuel) s b ≡ drain body fuel s' b'
  unfolding drain
  drain-round fuel s s' [] b' l e = absurd (omega arith)
  drain-round fuel s s' (x ∷ b) b' l e = rw e refl

  drain-concat_map :
      (fuel : ℕ) (s : S) (xs : List X)
      → ReadsBack
      → All P xs
      → length (concat_map print xs) < fuel
      → drain body fuel s (concat_map print xs) ≡ ok (some (fold step s xs))
  unfolding drain
  drain-concat_map zero s xs h p l = absurd (omega arith)
  drain-concat_map (suc fuel) s [] h p l = refl
  drain-concat_map (suc fuel) s (x ∷ xs) h p l =
      let (long, e) = h s x (concat_map print xs) p.0 in
      let len = length-append (print x) (concat_map print xs) in
      drain-round fuel s (step s x) (print x ++ concat_map print xs) (concat_map print xs)
        (omega (arith, len)) e
      ∙ drain-concat_map fuel (step s x) xs h p.1 (omega (arith, len))

fold-snoc : {A : Type 0} (xs ys : List A) → fold (λ s x. s ++ x ∷ []) xs ys ≡ xs ++ ys
fold-snoc xs [] = sym (append-nil xs)
fold-snoc xs (y ∷ ys) = fold-snoc (xs ++ y ∷ []) ys ∙ append_assoc xs (y ∷ []) ys

parse_server_name-print :
    (name : List ℕ) (m : Fields)
    → IsWord (length name)
    → parse_server_name (extension_data (server_name name)) m
      ≡ some (insert_field "sni" (text name) m)
unfolding parse_server_name get_string
parse_server_name-print name m h =
    rw
      (
        skip-two ((length name + 3) / 256) ((length name + 3) % 256)
            (0 ∷ (word (length name) ++ name)),
        get_byte-cons 0 (word (length name) ++ name),
        get_uint16-word (length name) name h,
        get-exact name,
      )
      refl

next_alpn-print :
    (found : List (List ℕ)) (name rest : List ℕ)
    → IsShort name
    → (0 < length (print_name name))
      × (next_alpn found (print_name name ++ rest) ≡ ok (some (found ++ name ∷ [], rest)))
unfolding next_alpn get_string
next_alpn-print found name rest h =
    (omega arith, rw (get_byte-cons (length name) (name ++ rest), get-length_append name rest) refl)

parse_alpn-print :
    (names : List (List ℕ)) (m : Fields)
    → All IsShort names
    → parse_alpn (extension_data (protocols names)) m
      ≡ ok (some (insert_field "alpn" (texts names) m))
unfolding parse_alpn
parse_alpn-print names m h =
    let body = concat_map print_name names in
    rw
      (
        skip-two (length body / 256) (length body % 256) body,
        drain-concat_map next_alpn print_name (λ s x. s ++ x ∷ []) IsShort (length body + 1) []
            names next_alpn-print h (omega arith),
        fold-snoc [] names,
      )
      refl

next_version-print :
    (found : List ℕ) (v : ℕ) (rest : List ℕ)
    → IsWord v
    → (0 < length (word v))
      × (next_version found (word v ++ rest) ≡ ok (some (found ++ v ∷ [], rest)))
unfolding next_version
next_version-print found v rest h = (omega arith, rw (get_uint16-word v rest h) refl)

length-concat_words : (vs : List ℕ) → length (concat_map word vs) ≡ length vs * 2
length-concat_words [] = refl
length-concat_words (v ∷ vs) = omega (arith, length-concat_words vs)

parse_versions-print :
    (vs : List ℕ) (m : Fields)
    → All IsWord vs
    → parse_supported_versions (extension_data (versions vs)) m
      ≡ ok (some (insert_field "supported_versions" (nums vs) m))
unfolding parse_supported_versions len
parse_versions-print vs m h =
    let body = concat_map word vs in
    let two : (len (length vs * 2 ∷ body) == 2) ≡ false = ground (arith, length-concat_words vs) in
    rw
      (
        two,
        skip-one (length vs * 2) body,
        drain-concat_map next_version word (λ s x. s ++ x ∷ []) IsWord (length body + 1) [] vs
            next_version-print h (omega arith),
        fold-snoc [] vs,
      )
      refl

parse_version-print :
    (v : ℕ) (m : Fields)
    → IsWord v
    → parse_supported_versions (extension_data (selected_version v)) m
      ≡ ok (some (insert_field "supported_versions" (num v) m))
unfolding parse_supported_versions len
parse_version-print v m h =
    ap (λ r. ok (some (insert_field "supported_versions" (num (or_zero 0 r).0) m)))
      (get_uint16-word v [] h)

parse_tls_extensions-print :
    (e : Extension) (m : Fields)
    → IsExtension e
    → parse_tls_extensions (extension_type e) (extension_data e) m ≡ ok (some (put_extension e m))
unfolding parse_tls_extensions
parse_tls_extensions-print (server_name name) m h =
    rw (parse_server_name-print name m (omega (arith, h.1))) refl
parse_tls_extensions-print (protocols names) m h = parse_alpn-print names m h.0
parse_tls_extensions-print (versions vs) m h = parse_versions-print vs m h.0
parse_tls_extensions-print (selected_version v) m h = parse_version-print v m h.0
parse_tls_extensions-print (encrypted_hello bytes) m h = refl
parse_tls_extensions-print (other type bytes) m h = ground (arith, h.0.1)

extension_type-IsWord : (e : Extension) → IsContent e → IsWord (extension_type e)
extension_type-IsWord (server_name name) h = omega arith
extension_type-IsWord (protocols names) h = omega arith
extension_type-IsWord (versions vs) h = omega arith
extension_type-IsWord (selected_version v) h = omega arith
extension_type-IsWord (encrypted_hello bytes) h = omega arith
extension_type-IsWord (other type bytes) h = h.0

next_extension-print :
    (m : Fields) (e : Extension) (rest : List ℕ)
    → IsExtension e
    → (0 < length (print_extension e))
      × (next_extension m (print_extension e ++ rest) ≡ ok (some (put_extension e m, rest)))
unfolding next_extension get_sub_buffer
next_extension-print m e rest h = (
  omega arith,
  rw
      (
        get_uint16-word (extension_type e)
            (word (length (extension_data e)) ++ (extension_data e ++ rest))
            (extension_type-IsWord e h.0),
        get_uint16-word (length (extension_data e)) (extension_data e ++ rest) h.1,
        get-length_append (extension_data e) rest,
        parse_tls_extensions-print e m h,
      )
      refl,
)

fold-put_extension :
    (m : Fields) (es : List Extension) → fold (λ m e. put_extension e m) m es ≡ put_extensions es m
fold-put_extension m [] = refl
fold-put_extension m (e ∷ es) = fold-put_extension (put_extension e m) es

pub parse_extensions-print :
    (m : Fields) (es : List Extension)
    → IsExtensions es
    → parse_extensions m (print_extensions es) ≡ ok (some (put_extensions es m))
unfolding parse_extensions get_sub_buffer
parse_extensions-print m es h =
    let body = concat_map print_extension es in
    rw
      (
        get_uint16-word (length body) body h.1,
        get-exact body,
        drain-concat_map next_extension print_extension (λ m e. put_extension e m) IsExtension
            (length body + 1) m es next_extension-print h.0 (omega arith),
        fold-put_extension m es,
      )
      refl
