-- ===== src/Protocols/Fet.antt =====
-- analyzer/tcp/fet.go. Its two float32 quotients are compared with constants: the type of the
-- comparisons is a parameter, `Thresholds`, and the quotients stay the pairs of integers that are
-- divided. The loops over `range bytes` are recursions on the list.
pub mod Metrics
use Prim.Native.Nat.{bit_and}
use open_gfw_for_frp_integra.Prelude.{
  ltb, leb, ◌==◌, if◌then◌else◌, length, take, Outcome, ok, stuck, ℕ, zero, suc, ◌+◌, ◌/◌, Bool,
  true, false, not, ◌&&◌, ◌||◌, Option, none, some, List, [], ◌∷◌,
}
use open_gfw_for_frp_integra.Analyzer.{num, flag, ratio, entries, end, field, replace, PropUpdate}
use open_gfw_for_frp_integra.Utils.ByteBuffer.{has_prefix}

-- float32(a) / float32(b) against 3.4, 4.6 and 0.5.
pub record Thresholds : Type 0 where
  pub at_most_3_4 : ℕ → ℕ → Bool
  pub at_least_4_6 : ℕ → ℕ → Bool
  pub above_half : ℕ → ℕ → Bool

unfoldable pub is_printable : ℕ → Bool
is_printable b = leb 0x20 b && leb b 0x7e

-- The loop of `popCount` halves the byte: `b >>= 1` is `b / 2`, and fuel 8 is enough for a byte.
unfoldable pub pop_count_loop : ℕ → ℕ → ℕ → Option ℕ
pop_count_loop zero b count = if b == 0 then some count else none
pop_count_loop (suc fuel) b count =
    let rest = pop_count_loop fuel (b / 2) (count + bit_and b 1) in
    if b == 0 then some count else rest

unfoldable pub pop_count : ℕ → Option ℕ
unfolding pop_count_loop
pop_count b = pop_count_loop 8 b 0

-- `total` of `averagePopCount`; the metric is `total` over the number of bytes.
unfoldable pub total_pop_count : List ℕ → ℕ → Option ℕ
total_pop_count [] total = some total
total_pop_count (b ∷ bs) total = elim (pop_count b) [
  | none ↦ none
  | some n ↦ total_pop_count bs (total + n)
]

unfoldable pub all_printable : List ℕ → Bool
unfolding is_printable
all_printable [] = true
all_printable (b ∷ bs) = is_printable b && all_printable bs

unfoldable pub is_first_six_printable : List ℕ → Bool
unfolding all_printable
is_first_six_printable bytes = if ltb (length bytes) 6 then false else all_printable (take 6 bytes)

-- `count` of `printablePercentage`.
unfoldable pub count_printable : List ℕ → ℕ → ℕ
unfolding is_printable
count_printable [] count = count
count_printable (b ∷ bs) count = count_printable bs (if is_printable b then count + 1 else count)

-- The loop of `contiguousPrintable`, over `maxCount` and `current`.
unfoldable pub contiguous_loop : List ℕ → ℕ → ℕ → ℕ
unfolding is_printable
contiguous_loop [] max_count current = if ltb max_count current then current else max_count
contiguous_loop (b ∷ bs) max_count current =
    contiguous_loop bs
      (if is_printable b then max_count else (if ltb max_count current then current else max_count))
      (if is_printable b then current + 1 else 0)

unfoldable pub contiguous_printable : List ℕ → ℕ
unfolding contiguous_loop
contiguous_printable bytes = contiguous_loop bytes 0 0

-- The nine methods, by their first three letters: GET HEA POS PUT DEL CON OPT TRA PAT.
abbrev pub methods : List (List ℕ)
methods =
    (b'G' ∷ b'E' ∷ b'T' ∷ [])
    ∷ (b'H' ∷ b'E' ∷ b'A' ∷ [])
    ∷ (b'P' ∷ b'O' ∷ b'S' ∷ [])
    ∷ (b'P' ∷ b'U' ∷ b'T' ∷ [])
    ∷ (b'D' ∷ b'E' ∷ b'L' ∷ [])
    ∷ (b'C' ∷ b'O' ∷ b'N' ∷ [])
    ∷ (b'O' ∷ b'P' ∷ b'T' ∷ [])
    ∷ (b'T' ∷ b'R' ∷ b'A' ∷ [])
    ∷ (b'P' ∷ b'A' ∷ b'T' ∷ [])
    ∷ []

unfoldable pub starts_with_any : List (List ℕ) → List ℕ → Bool
unfolding has_prefix
starts_with_any [] bytes = false
starts_with_any (m ∷ ms) bytes = has_prefix m bytes || starts_with_any ms bytes

unfoldable pub is_tls_or_http : List ℕ → Bool
unfolding starts_with_any
is_tls_or_http (a ∷ b ∷ c ∷ bytes) =
    (leb 0x16 a && leb a 0x17 && (b == 0x03) && leb c 0x09)
    || starts_with_any methods (a ∷ b ∷ c ∷ bytes)
is_tls_or_http _ = false

-- The update of `Feed`, given the total of the bits. `yes` is the negation of `exempt`.
unfoldable pub judge : Thresholds → List ℕ → ℕ → PropUpdate
unfolding is_first_six_printable count_printable contiguous_printable is_tls_or_http
judge t bytes total =
    let n = length bytes in
    let printable = count_printable bytes 0 in
    let ex1 = t.at_most_3_4 total n || t.at_least_4_6 total n in
    let ex2 = is_first_six_printable bytes in
    let ex3 = t.above_half printable n in
    let ex4 = contiguous_printable bytes in
    let ex5 = is_tls_or_http bytes in
    let exempt = ex1 || ex2 || ex3 || ltb 20 ex4 || ex5 in
    record {
      type = replace;
      m = entries (
          field "ex1" (ratio total n) (
            field "ex2" (flag ex2) (
              field "ex3" (ratio printable n) (
                field "ex4" (num ex4)
                  (field "ex5" (flag ex5) (field "yes" (flag (not exempt)) end))))));
    }

unfoldable pub feed_data : Thresholds → List ℕ → Outcome (Option PropUpdate × Bool)
unfolding total_pop_count judge
feed_data t bytes = elim (total_pop_count bytes 0) [
  | none ↦ stuck
  | some total ↦ ok (some (judge t bytes total), true)
]

-- `Feed`; the stream has no state.
unfoldable pub feed : Thresholds → ℕ → List ℕ → Outcome (Option PropUpdate × Bool)
unfolding feed_data
feed t skip [] = ok (none, not (skip == 0))
feed t skip (b ∷ bytes) = if skip == 0 then feed_data t (b ∷ bytes) else ok (none, true)
