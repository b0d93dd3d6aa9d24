-- ===== src/Protocols/Http/Total.antt =====
-- `Feed` of the HTTP analyzer returns on every segment. The headers are written to the map that the
-- first line has made, so the write never meets a nil map.
use open_gfw_for_frp_integra.Prelude.{
  ◌==◌, Bool-cases, length, get_elem?, take, Outcome, ok, ◌>>=◌, Gives, Gives-ok, Gives-map, ℕ,
  zero, suc, ◌+◌, ◌-◌, ◌≡◌, refl, sym, subst, ◌⊎◌, inl, inr, Bool, true, not, ◌||◌, Option, none,
  some, List, [], ◌∷◌, arith,
}
use open_gfw_for_frp_integra.Analyzer.{PropMap, null, entries, text_map, insert_prop}
use open_gfw_for_frp_integra.Utils.ByteBuffer.{ByteBuffer, get_until, has_prefix}
use open_gfw_for_frp_integra.Utils.Strings.{fields, split_lines, atoi}
use open_gfw_for_frp_integra.Utils.Lsm.{LsmAction, Lsm, pause, next, restart, cancel}
use open_gfw_for_frp_integra.Protocols.Duplex.{Side, Fed, new_duplex, feed}
use open_gfw_for_frp_integra.Protocols.Duplex.Total.{
  IsLive, feed-IsLive, Goes, IsForward, IsForward-IsSteady,
}
use open_gfw_for_frp_integra.Protocols.Http.{
  HttpStep, parse_request_line, parse_request_headers, parse_response_line, parse_response_headers,
  HttpStream, http_prefix, on_found, parse_until, store, request_line, parse_request_line_of,
  response_line, parse_response_line_of, TextMap, header_loop, store_headers, parse_headers, exec,
  request_steps, response_steps, new_http_stream, http, feed_http,
}

abbrev IsMade : PropMap → Type 0
IsMade null = ⊥
IsMade (entries m) = Unit

-- The second step finds a map.
abbrev Ready : ℕ → Side → Type 0
Ready zero s = Unit
Ready (suc i) s = IsMade s.found

abbrev Places : List HttpStep → Type 0
Places steps = (steps ≡ request_steps) ⊎ (steps ≡ response_steps)

abbrev Orderly : Lsm HttpStep → Side → Type 0
Orderly m s = Places m.steps × Ready m.index s

Ready-same : (i : ℕ) (s t : Side) → t.found ≡ s.found → Ready i s → Ready i t
Ready-same zero s t e g = tt
Ready-same (suc i) s t e g = subst IsMade (sym e) g

-- What a step may leave: a map, or no change of the map.
abbrev Leaves : Side → LsmAction × Side → Type 0
Leaves s (next, t) = IsMade t.found
Leaves s (pause, t) = t.found ≡ s.found
Leaves s (restart, t) = ⊥
Leaves s (cancel, t) = t.found ≡ s.found

parse_until-Leaves :
    (parse : List ℕ → Side → Outcome (LsmAction × Side)) (sep : List ℕ) (s : Side)
    → ((line : List ℕ) (t : Side) → t.found ≡ s.found → Gives (Leaves s) (parse line t))
    → Gives (Leaves s) (parse_until parse sep s)
unfolding parse_until
parse_until-Leaves parse sep s h = either (get_until sep true true s.buf)
  where
    either : (r : Option (List ℕ) × ByteBuffer) → Gives (Leaves s) (on_found parse s r)
    either (none, rest) = refl
    either (some line, rest) = h line (record s { buf = rest }) refl

request_line-Leaves :
    (ws : List (List ℕ)) (s t : Side) → t.found ≡ s.found → Leaves s (request_line ws t)
unfolding request_line
request_line-Leaves [] s t e = e
request_line-Leaves (a ∷ []) s t e = e
request_line-Leaves (a ∷ b ∷ []) s t e = e
request_line-Leaves (a ∷ b ∷ v ∷ []) s t e = elim (Bool-cases (not (has_prefix http_prefix v))) [
  | inl other ↦ rw other e
  | inr ours ↦ rw ours tt
]
request_line-Leaves (a ∷ b ∷ v ∷ c ∷ ws) s t e = e

response_line-Leaves :
    (ws : List (List ℕ)) (s t : Side) → t.found ≡ s.found → Leaves s (response_line ws t)
unfolding response_line
response_line-Leaves [] s t e = e
response_line-Leaves (v ∷ []) s t e = e
response_line-Leaves (v ∷ c ∷ ws) s t e =
    elim (Bool-cases (not (has_prefix http_prefix v) || ((atoi c).1 == 0))) [
      | inl other ↦ rw other e
      | inr ours ↦ rw ours tt
    ]

abbrev IsHeaders : Option HttpStep → Type 0
IsHeaders (some parse_request_headers) = Unit
IsHeaders (some parse_response_headers) = Unit
IsHeaders (some parse_request_line) = ⊥
IsHeaders (some parse_response_line) = ⊥
IsHeaders none = ⊥

-- A step that reads headers is the second one.
headers-IsMade :
    (steps : List HttpStep) (i : ℕ) (s : Side)
    → Places steps
    → IsHeaders (get_elem? steps i)
    → Ready i s
    → IsMade s.found
headers-IsMade steps zero s (inl e) h g = absurd (subst (λ l. IsHeaders (get_elem? l 0)) e h)
headers-IsMade steps zero s (inr e) h g = absurd (subst (λ l. IsHeaders (get_elem? l 0)) e h)
headers-IsMade steps (suc i) s p h g = g

module _ (unicode_lower : List ℕ → List ℕ) where
  store_headers-Leaves :
      (r : Option TextMap) (s t : Side)
      → IsMade s.found
      → t.found ≡ s.found
      → Gives (Leaves s) (store_headers unicode_lower r t)
  unfolding insert_prop
  store_headers-Leaves none s t i e = e
  store_headers-Leaves (some m) s t i e = made t.found (subst IsMade (sym e) i)
    where
      made :
          (p : PropMap)
          → IsMade p
          → Gives (Leaves s) (insert_prop "headers" (text_map m) p >>= λ found. ok (store found t))
      made null i = absurd i
      made (entries f) i = tt

  headers-Leaves : (s : Side) → IsMade s.found → Gives (Leaves s) (parse_headers unicode_lower s)
  unfolding parse_headers
  headers-Leaves s i =
      parse_until-Leaves
        (λ headers t.
          store_headers unicode_lower
            (header_loop unicode_lower (split_lines (take (length headers - 4) headers)) []) t)
        (13 ∷ 10 ∷ 13 ∷ 10 ∷ []) s
        λ headers t.
          store_headers-Leaves
            (header_loop unicode_lower (split_lines (take (length headers - 4) headers)) []) s t i

  exec-Leaves :
      (t : HttpStep) (m : Lsm HttpStep) (s : Side)
      → get_elem? m.steps m.index ≡ some t
      → Orderly m s
      → Gives (Leaves s) (exec unicode_lower t s)
  unfolding exec parse_request_line_of parse_response_line_of
  exec-Leaves parse_request_line m s e g =
      parse_until-Leaves (λ line t. ok (request_line (fields (take (length line - 2) line)) t))
        (13 ∷ 10 ∷ []) s λ line t. request_line-Leaves (fields (take (length line - 2) line)) s t
  exec-Leaves parse_response_line m s e g =
      parse_until-Leaves (λ line t. ok (response_line (fields (take (length line - 2) line)) t))
        (13 ∷ 10 ∷ []) s λ line t. response_line-Leaves (fields (take (length line - 2) line)) s t
  exec-Leaves parse_request_headers m s e g =
      headers-Leaves s (headers-IsMade m.steps m.index s g.0 (subst IsHeaders (sym e) tt) g.1)
  exec-Leaves parse_response_headers m s e g =
      headers-Leaves s (headers-IsMade m.steps m.index s g.0 (subst IsHeaders (sym e) tt) g.1)

  Leaves-Goes :
      (m : Lsm HttpStep) (s : Side) (r : LsmAction × Side)
      → Orderly m s
      → Leaves s r
      → Goes Orderly r.0 m r.1
  Leaves-Goes m s (pause, t) g l = (g.0, Ready-same m.index s t l g.1)
  Leaves-Goes m s (next, t) g l = (g.0, subst (λ i. Ready i t) suc_form l)
    where
      suc_form : suc m.index ≡ m.index + 1
      suc_form = omega arith
  Leaves-Goes m s (restart, t) g l = l
  Leaves-Goes m s (cancel, t) g l = (g.0, Ready-same m.index s t l g.1)

  http-IsForward : IsForward (http unicode_lower) Orderly
  unfolding http
  http-IsForward = record {
    receives = λ m s bytes g. (g.0, Ready-same m.index s _ refl g.1);
    reports = λ m s g. (g.0, Ready-same m.index s _ refl g.1);
    moves = λ t m s e g.
        Gives-map (Leaves s) (λ r. Goes Orderly r.0 m r.1) (exec unicode_lower t s)
          (exec-Leaves t m s e g) (λ r l. Leaves-Goes m s r g l);
  }

-- The streams that `feed_http` leaves: the steps in their order, and a map where one has been made.
pub IsHttpStream : (List ℕ → List ℕ) → HttpStream → Type 0
IsHttpStream unicode_lower o =
    IsLive (IsForward-IsSteady (http unicode_lower) Orderly (http-IsForward unicode_lower)) o

pub new_http_stream-IsHttpStream :
    (unicode_lower : List ℕ → List ℕ) → IsHttpStream unicode_lower new_http_stream
unfolding IsHttpStream new_http_stream new_duplex
new_http_stream-IsHttpStream unicode_lower =
    ((omega arith, (inl refl, tt)), (omega arith, (inr refl, tt)))

-- On every segment of either direction, whatever its bytes, `Feed` of such an HTTP stream returns,
-- however strings.ToLower treats keys that are not ASCII: the headers are never written to a nil
-- map. It leaves such a stream again.
pub feed_http-IsHttpStream :
    (unicode_lower : List ℕ → List ℕ) (rev : Bool) (skip : ℕ) (bytes : List ℕ) (o : HttpStream)
    → IsHttpStream unicode_lower o
    → (f : Fed HttpStep) × (feed_http unicode_lower rev skip bytes o ≡ ok f)
      × IsHttpStream unicode_lower f.stream
unfolding feed_http IsHttpStream
feed_http-IsHttpStream unicode_lower rev skip bytes o l =
    Gives-ok (λ f. IsHttpStream unicode_lower f.stream) (feed (http unicode_lower) rev skip bytes o)
      (feed-IsLive (IsForward-IsSteady (http unicode_lower) Orderly (http-IsForward unicode_lower))
        rev skip bytes o l)
