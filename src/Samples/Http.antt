-- ===== src/Samples/Http.antt =====
-- Tests of analyzer/tcp/http.go.
use open_gfw_for_frp_integra.Prelude.{
  replicate, ok, ℕ, ◌-◌, ◌^◌, ◌≡◌, refl, true, false, some, List, [], ◌∷◌, ◌++◌, arith,
}
use open_gfw_for_frp_integra.Analyzer.{field, entries, props, end, merge}
use open_gfw_for_frp_integra.Utils.ByteBuffer.Lines.{crlf, blank}
use open_gfw_for_frp_integra.Utils.Strings.{atoi, fields, trim_space}
use open_gfw_for_frp_integra.Protocols.Duplex.{Fed, new_duplex}
use open_gfw_for_frp_integra.Protocols.Http.{HttpStep, new_http_stream, feed_http}
use open_gfw_for_frp_integra.Protocols.Http.Total.{
  IsHttpStream, new_http_stream-IsHttpStream, feed_http-IsHttpStream,
}
use open_gfw_for_frp_integra.Protocols.Http.Requests.{
  Request, Header, print_request_line, print_headers, IsRequest, IsHeader, request_fields,
  feed_http-print_request,
}

abbrev same : List ℕ → List ℕ
same s = s

-- "GET / HTTP/1"
abbrev request : Request
request = record { method = 71 ∷ 69 ∷ 84 ∷ []; path = 47 ∷ []; version = 49 ∷ [] }

-- "H: b c"
abbrev host : Header
host = (72 ∷ [], 98 ∷ 32 ∷ 99 ∷ [])

request-IsRequest : IsRequest request
request-IsRequest = (
  (
    omega arith,
    ((omega arith, omega arith), ((omega arith, omega arith), ((omega arith, omega arith), tt))),
  ),
  (omega arith, ((omega arith, omega arith), tt)),
  ((omega arith, omega arith), tt),
)

host-IsHeader : IsHeader host
unfolding trim_space
host-IsHeader = (
  (omega arith, tt),
  (omega arith, tt),
  (omega arith, (omega arith, (omega arith, tt))),
  refl,
  refl,
)

feed_http-print_request_example :
    (f : Fed HttpStep) × (feed_http same false 0
        (print_request_line request ++ (crlf ++ (print_headers host [] ++ (blank ++ 5 ∷ []))))
        new_http_stream
      ≡ ok f)
    × (f.update
        ≡ some (record {
          type = merge;
          m = entries (field "req" (props (entries (request_fields same request (host ∷ [])))) end);
        }))
    × (f.is_done ≡ new_http_stream.resp_done)
unfolding new_http_stream new_duplex
feed_http-print_request_example =
    feed_http-print_request same new_http_stream request host [] (5 ∷ []) request-IsRequest
      (host-IsHeader, tt) refl refl

feed_http-IsHttpStream_example :
    (f : Fed HttpStep) × (feed_http same true 0 (72 ∷ 13 ∷ 10 ∷ []) new_http_stream ≡ ok f)
    × IsHttpStream same f.stream
feed_http-IsHttpStream_example =
    feed_http-IsHttpStream same true 0 (72 ∷ 13 ∷ 10 ∷ []) new_http_stream
      (new_http_stream-IsHttpStream same)

-- "404", "-7", "+x", and a number that overflows before its last byte is read.
numbers :
    (atoi (52 ∷ 48 ∷ 52 ∷ []) ≡ (false, 404))
    × (atoi (45 ∷ 55 ∷ []) ≡ (true, 7))
    × (atoi (43 ∷ 120 ∷ []) ≡ (false, 0))
    × (atoi (replicate 21 57 ++ 120 ∷ []) ≡ (false, 2 ^ 63 - 1))
unfolding atoi
numbers = (refl, refl, refl, refl)

-- A no-break space, as the bytes 194 and 160, is white space.
spaces : fields (97 ∷ 194 ∷ 160 ∷ 98 ∷ []) ≡ (97 ∷ []) ∷ (98 ∷ []) ∷ []
unfolding fields
spaces = refl

-- Of "GET / HTTP/1" without headers the first line is reported, and the end is never found.
no_headers :
    (f : Fed HttpStep) × (feed_http same false 0
        (print_request_line request ++ blank)
        new_http_stream
      ≡ ok f)
    × (f.stream.req_done ≡ false)
unfolding feed_http new_http_stream
no_headers = (_, refl, refl)
