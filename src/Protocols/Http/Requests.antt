-- ===== src/Protocols/Http/Requests.antt =====
-- The HTTP analyzer reads the requests that are printed with their headers.
use open_gfw_for_frp_integra.Prelude.{
  length, take, All, length-append, take-length_append, All-append, Outcome, ok, ℕ, ◌-◌, ◌≡◌, refl,
  ap, ◌∙◌, ◌≢◌, true, false, some, List, [], ◌∷◌, ◌++◌, map, arith,
}
use open_gfw_for_frp_integra.Analyzer.{
  entries, Fields, field, props, text, text_map, end, merge, insert_prop, insert_field,
}
use open_gfw_for_frp_integra.Utils.ByteBuffer.{get_until, has_prefix, append}
use open_gfw_for_frp_integra.Utils.ByteBuffer.Lines.{
  crlf, blank, get_until-line, AreLines, get_until-blank,
}
use open_gfw_for_frp_integra.Utils.Strings.{fields, split_lines, trim_space, to_lower}
use open_gfw_for_frp_integra.Utils.Strings.Words.{
  IsGraphic, IsText, join_words, fields-join_words, join_words-Lacks,
}
use open_gfw_for_frp_integra.Utils.Strings.Cuts.{
  Lacks, split_n-two, join_lines, split_lines-join_lines,
}
use open_gfw_for_frp_integra.Utils.Lsm.{LsmAction, next, new_lsm}
use open_gfw_for_frp_integra.Protocols.Duplex.{Side, Fed, new_side, update_if, finish}
use open_gfw_for_frp_integra.Protocols.Duplex.Steps.{ended, feed-req_two}
use open_gfw_for_frp_integra.Protocols.Http.{
  HttpStep, parse_request_line, parse_request_headers, HttpStream, http_prefix, on_found,
  parse_until, request_line, parse_request_line_of, TextMap, put_text, put_header, header_loop,
  store_headers, parse_headers, exec, update_of, request_steps, http, feed_http,
}

pub record Request : Type 0 where
  pub method : List ℕ
  pub path : List ℕ
  pub version : List ℕ

abbrev pub Header : Type 0
Header = List ℕ × List ℕ

-- "key: value"
abbrev pub print_header : Header → List ℕ
print_header h = h.0 ++ 58 ∷ 32 ∷ h.1

abbrev pub print_request_line : Request → List ℕ
print_request_line r = join_words r.method (r.path ∷ (http_prefix ++ r.version) ∷ [])

abbrev pub print_headers : Header → List Header → List ℕ
print_headers h hs = join_lines (print_header h) (map print_header hs)

-- Three words of printable ASCII, of which the last begins with "HTTP/".
abbrev pub IsRequest : Request → Type 0
IsRequest r = IsText r.method × IsText r.path × All IsGraphic r.version

-- No \r, no colon in the key, and no white space at the ends.
abbrev pub IsHeader : Header → Type 0
IsHeader h =
    Lacks 13 h.0 × Lacks 58 h.0 × Lacks 13 h.1 × (trim_space h.0 ≡ h.0) × (trim_space h.1 ≡ h.1)

module _ (unicode_lower : List ℕ → List ℕ) where
  -- What the headers say: a later one of the same key, in lower case, replaces an earlier one.
  abbrev pub header_map : List Header → TextMap → TextMap
  header_map [] m = m
  header_map (h ∷ hs) m = header_map hs (put_text (to_lower unicode_lower h.0) h.1 m)

  abbrev pub request_fields : Request → List Header → Fields
  request_fields r hs = field "method" (text r.method) (
      field "path" (text r.path) (
        field "version" (text (http_prefix ++ r.version))
          (field "headers" (text_map (header_map hs [])) end)))

take-strip : (n : ℕ) (l sep : List ℕ) → length sep ≡ n → take (length (l ++ sep) - n) (l ++ sep) ≡ l
take-strip n l sep e =
    let shorter : length (l ++ sep) - n ≡ length l = omega (arith, length-append l sep, e) in
    rw shorter (take-length_append l sep)

trim_space-space : (s : List ℕ) → trim_space (32 ∷ s) ≡ trim_space s
unfolding trim_space
trim_space-space [] = refl
trim_space-space (x ∷ []) = refl
trim_space-space (x ∷ y ∷ s) = refl

header_loop-print :
    (unicode_lower : List ℕ → List ℕ) (hs : List Header) (m : TextMap)
    → All IsHeader hs
    → header_loop unicode_lower (map print_header hs) m ≡ some (header_map unicode_lower hs m)
unfolding header_loop put_header
header_loop-print unicode_lower [] m p = refl
header_loop-print unicode_lower (h ∷ hs) m p =
    rw (split_n-two 58 h.0 (32 ∷ h.1) p.0.1, put_header, trim_space-space h.1, p.0.3, p.0.4)
      (header_loop-print unicode_lower hs (put_text (to_lower unicode_lower h.0) h.1 m) p.1)

header-Lacks : (h : Header) → IsHeader h → Lacks 13 (print_header h)
header-Lacks h p =
    All-append (λ x. x ≢ 13) h.0 (58 ∷ 32 ∷ h.1) p.0 (omega arith, (omega arith, p.2))

headers-AreLines : (hs : List Header) → All IsHeader hs → AreLines (map print_header hs)
headers-AreLines [] p = tt
headers-AreLines (h ∷ hs) p = (
  (omega (arith, length-append h.0 (58 ∷ 32 ∷ h.1)), header-Lacks h p.0),
  headers-AreLines hs p.1,
)

headers-Lacks : (hs : List Header) → All IsHeader hs → All (Lacks 13) (map print_header hs)
headers-Lacks [] p = tt
headers-Lacks (h ∷ hs) p = (header-Lacks h p.0, headers-Lacks hs p.1)

parse_until-found :
    (parse : List ℕ → Side → Outcome (LsmAction × Side)) (sep : List ℕ) (s : Side)
    (line rest : List ℕ)
    → get_until sep true true s.buf ≡ (some line, rest)
    → parse_until parse sep s ≡ parse line (record s { buf = rest })
unfolding parse_until
parse_until-found parse sep s line rest e = ap (on_found parse s) e

request_words : (r : Request) → IsRequest r → All IsText (r.path ∷ (http_prefix ++ r.version) ∷ [])
request_words r h = (
  h.1,
  (
    (omega arith, (omega arith, (omega arith, (omega arith, (omega arith, (omega arith, h.2)))))),
    tt,
  ),
)

parse_request_line_of-print :
    (r : Request) (s : Side) (rest : List ℕ)
    → IsRequest r
    → s.buf ≡ print_request_line r ++ (crlf ++ rest)
    → parse_request_line_of s
      ≡ ok (
        next,
        record s {
          buf = rest;
          found = entries (
              field "method" (text r.method) (
                field "path"
                  (text r.path)
                  (field "version" (text (http_prefix ++ r.version)) end)));
          updated = true;
        },
      )
unfolding parse_request_line_of request_line has_prefix
parse_request_line_of-print r s rest h e =
    let l = print_request_line r in
    let words = r.path ∷ (http_prefix ++ r.version) ∷ [] in
    let texts = request_words r h in
    parse_until-found (λ line t. ok (request_line (fields (take (length line - 2) line)) t)) crlf s
      (l ++ crlf) rest (rw e (get_until-line l rest (join_words-Lacks r.method words h.0.1 texts)))
    ∙ rw (take-strip 2 l crlf refl, fields-join_words r.method words h.0 texts) refl

parse_headers-print :
    (unicode_lower : List ℕ → List ℕ) (h : Header) (hs : List Header) (s : Side) (rest : List ℕ)
    → All IsHeader (h ∷ hs)
    → s.buf ≡ print_headers h hs ++ (blank ++ rest)
    → parse_headers unicode_lower s
      ≡ store_headers unicode_lower
          (some (header_map unicode_lower (h ∷ hs) []))
          (record s { buf = rest })
unfolding parse_headers
parse_headers-print unicode_lower h hs s rest p e =
    let l = print_headers h hs in
    parse_until-found
      (λ headers t.
        store_headers unicode_lower
          (header_loop unicode_lower (split_lines (take (length headers - 4) headers)) []) t)
      blank s (l ++ blank) rest
      (rw e (
        get_until-blank (print_header h) (map print_header hs) rest (header-Lacks h p.0)
          (headers-AreLines hs p.1)))
    ∙ rw
        (
          take-strip 4 l blank refl,
          split_lines-join_lines (print_header h) (map print_header hs) (header-Lacks h p.0)
              (headers-Lacks hs p.1),
          header_loop-print unicode_lower (h ∷ hs) [] p,
        )
        refl

-- Where the client's side of an HTTP stream has seen nothing, a segment with a whole request line
-- and its headers, one at least, makes `Feed` report the method, the path, the version and every
-- header, with the keys in lower case; the stream is then done if the server's side was.
pub feed_http-print_request :
    (unicode_lower : List ℕ → List ℕ) (o : HttpStream) (r : Request) (h : Header) (hs : List Header)
    (rest : List ℕ)
    → IsRequest r
    → All IsHeader (h ∷ hs)
    → o.req ≡ new_side
    → o.req_lsm ≡ new_lsm request_steps
    → (f : Fed HttpStep) × (feed_http unicode_lower false 0
          (print_request_line r ++ (crlf ++ (print_headers h hs ++ (blank ++ rest))))
          o
        ≡ ok f)
      × (f.update
          ≡ some (record {
            type = merge;
            m =
                entries
                  (field "req" (props (entries (request_fields unicode_lower r (h ∷ hs)))) end);
          }))
      × (f.is_done ≡ o.resp_done)
unfolding feed_http http exec finish update_if update_of append insert_prop insert_field
feed_http-print_request unicode_lower o r h hs rest p q e m =
    let body = print_headers h hs ++ (blank ++ rest) in
    let bytes = print_request_line r ++ (crlf ++ body) in
    let b = http unicode_lower in
    let line =
      field "method" (text r.method)
        (field "path" (text r.path) (field "version" (text (http_prefix ++ r.version)) end)) in
    let s0 = record new_side { buf = bytes } in
    let s1 = record s0 { buf = body; found = entries line; updated = true } in
    let s2 = record s1 { buf = rest; found = entries (request_fields unicode_lower r (h ∷ hs)) } in
    (
      finish b false o (ended b parse_request_line parse_request_headers s2),
      feed-req_two b parse_request_line parse_request_headers o new_side s1 s2 bytes
          (omega (arith, length-append (print_request_line r) (crlf ++ body)))
          (parse_request_line_of-print r s0 body p refl)
          (parse_headers-print unicode_lower h hs s1 rest q refl) e m,
      refl,
      refl,
    )
