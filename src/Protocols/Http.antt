-- ===== src/Protocols/Http.antt =====
-- analyzer/tcp/http.go. The stream is a `Duplex`. strings.ToLower of a key that is not ASCII is a
-- parameter.
pub mod Total
pub mod Requests
use open_gfw_for_frp_integra.Prelude.{
  ◌==◌, if◌then◌else◌, length, take, Outcome, ok, ◌>>=◌, ℕ, ◌-◌, ◌/◌, Bool, true, false, not, ◌||◌,
  Option, none, some, List, [], ◌∷◌, map,
}
use open_gfw_for_frp_integra.Analyzer.{
  Value, PropMap, entries, field, props, text, num, minus, text_map, end, merge, PropUpdate,
  insert_prop,
}
use open_gfw_for_frp_integra.Utils.ByteBuffer.{ByteBuffer, get_until, has_prefix}
use open_gfw_for_frp_integra.Utils.Strings.{
  same_text, SignedInt, fields, split_n, split_lines, trim_space, to_lower, atoi,
}
use open_gfw_for_frp_integra.Utils.Lsm.{LsmAction, pause, next, cancel}
use open_gfw_for_frp_integra.Protocols.Duplex.{
  close, Side, Duplex, Fed, new_duplex, close, Behaviour, feed,
}

pub data HttpStep : Type 0 where
  parse_request_line parse_request_headers parse_response_line parse_response_headers : HttpStep

abbrev pub HttpStream : Type 0
HttpStream = Duplex HttpStep

-- "HTTP/"
abbrev pub http_prefix : List ℕ
http_prefix = 72 ∷ 84 ∷ 84 ∷ 80 ∷ 47 ∷ []

-- `x, ok := …GetUntil(…); if !ok { return Pause }`
abbrev pub on_found :
    (List ℕ → Side → Outcome (LsmAction × Side))
    → Side
    → Option (List ℕ) × ByteBuffer
    → Outcome (LsmAction × Side)
on_found parse s (none, rest) = ok (pause, s)
on_found parse s (some line, rest) = parse line (record s { buf = rest })

unfoldable pub parse_until :
    (List ℕ → Side → Outcome (LsmAction × Side)) → List ℕ → Side → Outcome (LsmAction × Side)
unfolding get_until
parse_until parse sep s = on_found parse s (get_until sep true true s.buf)

abbrev pub store : PropMap → Side → LsmAction × Side
store m s = (next, record s { found = m; updated = true })

unfoldable pub request_line : List (List ℕ) → Side → LsmAction × Side
unfolding has_prefix
request_line (method ∷ path ∷ version ∷ []) s =
    if not (has_prefix http_prefix version)
    then (cancel, s)
    else store
        (entries (
          field "method" (text method)
            (field "path" (text path) (field "version" (text version) end))))
        s
request_line _ s = (cancel, s)

unfoldable pub parse_request_line_of : Side → Outcome (LsmAction × Side)
unfolding parse_until request_line fields
parse_request_line_of s =
    parse_until (λ line t. ok (request_line (fields (take (length line - 2) line)) t))
      (13 ∷ 10 ∷ []) s

abbrev pub status_value : SignedInt → Value
status_value (true, n) = minus n
status_value (false, n) = num n

unfoldable pub response_line : List (List ℕ) → Side → LsmAction × Side
unfolding has_prefix atoi
response_line (version ∷ status ∷ more) s =
    let code = atoi status in
    if not (has_prefix http_prefix version) || (code.1 == 0)
    then (cancel, s)
    else store (entries (field "version" (text version) (field "status" (status_value code) end))) s
response_line _ s = (cancel, s)

unfoldable pub parse_response_line_of : Side → Outcome (LsmAction × Side)
unfolding parse_until response_line fields
parse_response_line_of s =
    parse_until (λ line t. ok (response_line (fields (take (length line - 2) line)) t))
      (13 ∷ 10 ∷ []) s

abbrev pub TextMap : Type 0
TextMap = List (List ℕ × List ℕ)

-- `headerMap[key] = value`
unfoldable pub put_text : List ℕ → List ℕ → TextMap → TextMap
put_text k v [] = (k, v) ∷ []
put_text k v ((j, w) ∷ m) = if same_text j k then (k, v) ∷ m else (j, w) ∷ put_text k v m

module _ (unicode_lower : List ℕ → List ℕ) where
  -- A line that was cut at its first colon.
  unfoldable pub put_header : List (List ℕ) → TextMap → Option TextMap
  unfolding put_text to_lower trim_space
  put_header (key ∷ value ∷ []) m =
      some (put_text (to_lower unicode_lower (trim_space key)) (trim_space value) m)
  put_header _ m = none

  -- `nil` ends the loop.
  abbrev and_then : Option TextMap → (TextMap → Option TextMap) → Option TextMap
  and_then none rest = none
  and_then (some m) rest = rest m

  -- The loop over the lines.
  unfoldable pub header_loop : List (List ℕ) → TextMap → Option TextMap
  unfolding put_header split_n
  header_loop [] m = some m
  header_loop (line ∷ lines) m = and_then (put_header (split_n 58 2 line) m) (header_loop lines)

  -- What the headers do to the map that the first line made; nil cancels.
  abbrev pub store_headers : Option TextMap → Side → Outcome (LsmAction × Side)
  store_headers none s = ok (cancel, s)
  store_headers (some m) s =
      insert_prop "headers" (text_map m) s.found >>= λ found. ok (store found s)

  -- `parseHeaders`, with what parseRequestHeaders and parseResponseHeaders do with its result.
  unfoldable pub parse_headers : Side → Outcome (LsmAction × Side)
  unfolding parse_until header_loop split_lines insert_prop
  parse_headers s =
      parse_until
        (λ headers t.
          store_headers (header_loop (split_lines (take (length headers - 4) headers)) []) t)
        (13 ∷ 10 ∷ 13 ∷ 10 ∷ []) s

  unfoldable pub exec : HttpStep → Side → Outcome (LsmAction × Side)
  unfolding parse_request_line_of parse_response_line_of parse_headers
  exec parse_request_line s = parse_request_line_of s
  exec parse_request_headers s = parse_headers s
  exec parse_response_line s = parse_response_line_of s
  exec parse_response_headers s = parse_headers s

unfoldable pub update_of : Bool → PropMap → PropUpdate
update_of true m = record { type = merge; m = entries (field "resp" (props m) end) }
update_of false m = record { type = merge; m = entries (field "req" (props m) end) }

abbrev pub request_steps : List HttpStep
request_steps = parse_request_line ∷ parse_request_headers ∷ []

abbrev pub response_steps : List HttpStep
response_steps = parse_response_line ∷ parse_response_headers ∷ []

unfoldable pub new_http_stream : HttpStream
unfolding new_duplex
new_http_stream = new_duplex request_steps response_steps

unfoldable pub http : (List ℕ → List ℕ) → Behaviour HttpStep
unfolding exec update_of
http unicode_lower = record { exec = exec unicode_lower; update_of = update_of }

unfoldable pub feed_http :
    (List ℕ → List ℕ) → Bool → ℕ → List ℕ → HttpStream → Outcome (Fed HttpStep)
unfolding feed http
feed_http unicode_lower rev skip bytes o = feed (http unicode_lower) rev skip bytes o

unfoldable pub close_http : HttpStream → HttpStream
unfolding close
close_http o = close o
