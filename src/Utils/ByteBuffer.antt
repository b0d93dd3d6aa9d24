-- ===== src/Utils/ByteBuffer.antt =====
-- analyzer/utils/bytebuffer.go. A `*ByteBuffer` is the list of the bytes left in its `Buf`; a
-- method that takes the buffer returns its result and the buffer that it leaves. Go's second result
-- `ok` is the Option. Lengths are never negative at a call in the source, so they are numbers.
pub mod Laws
pub mod Words
pub mod Lines
use Prim.Native.Nat.{bit_or}
use mathlib.Core.Option
use open_gfw_for_frp_integra.Prelude.{
  ℕ, suc, ◌+◌, ◌*◌, ◌%◌, ◌^◌, Bool, true, false, List, [], ◌∷◌, ◌++◌, Option, none, some, ltb,
  if◌then◌else◌, length, take, drop, get_or, ◌==◌, ◌&&◌,
}

abbrev pub ByteBuffer : Type 0
ByteBuffer = List ℕ

unfoldable pub append : ByteBuffer → List ℕ → ByteBuffer
append b bytes = b ++ bytes

unfoldable pub len : ByteBuffer → ℕ
len b = length b

-- bytes.HasPrefix
unfoldable pub has_prefix : List ℕ → List ℕ → Bool
has_prefix [] bs = true
has_prefix (p ∷ ps) [] = false
has_prefix (p ∷ ps) (b ∷ bs) = (p == b) && has_prefix ps bs

-- bytes.Index: the first position at which `sep` stands; Go's -1 is `none`.
unfoldable pub index : List ℕ → ByteBuffer → Option ℕ
unfolding has_prefix
index sep [] = if has_prefix sep [] then some 0 else none
index sep (b ∷ bs) = if has_prefix sep (b ∷ bs) then some 0 else Option.map suc (index sep bs)

unfoldable pub get : ℕ → Bool → ByteBuffer → Option (List ℕ) × ByteBuffer
get n consume b =
    if ltb (length b) n then (none, b) else (some (take n b), if consume then drop n b else b)

-- `string(data)` keeps the bytes.
unfoldable pub get_string : ℕ → Bool → ByteBuffer → Option (List ℕ) × ByteBuffer
unfolding get
get_string n consume b = get n consume b

unfoldable pub get_byte : Bool → ByteBuffer → Option ℕ × ByteBuffer
unfolding get
get_byte consume b =
    let (bytes, rest) = get 1 consume b in (Option.map (λ d. get_or d 0 0) bytes, rest)

-- Two bytes of a slice as a uint16; a shift of a uint16 wraps.
unfoldable pub uint16_of : Bool → List ℕ → ℕ
uint16_of little d =
    if little
    then bit_or (get_or d 0 0) (get_or d 1 0 * 2 ^ 8 % 2 ^ 16)
    else bit_or (get_or d 1 0) (get_or d 0 0 * 2 ^ 8 % 2 ^ 16)

unfoldable pub get_uint16 : Bool → Bool → ByteBuffer → Option ℕ × ByteBuffer
unfolding get uint16_of
get_uint16 little consume b =
    let (bytes, rest) = get 2 consume b in (Option.map (uint16_of little) bytes, rest)

-- d₀ | d₁ << 8 | d₂ << 16 | d₃ << 24, as uint32.
abbrev join32 : ℕ → ℕ → ℕ → ℕ → ℕ
join32 a b c d =
    bit_or (bit_or (bit_or a (b * 2 ^ 8 % 2 ^ 32)) (c * 2 ^ 16 % 2 ^ 32)) (d * 2 ^ 24 % 2 ^ 32)

unfoldable pub uint32_of : Bool → List ℕ → ℕ
uint32_of little d =
    if little
    then join32 (get_or d 0 0) (get_or d 1 0) (get_or d 2 0) (get_or d 3 0)
    else join32 (get_or d 3 0) (get_or d 2 0) (get_or d 1 0) (get_or d 0 0)

unfoldable pub get_uint32 : Bool → Bool → ByteBuffer → Option ℕ × ByteBuffer
unfolding get uint32_of
get_uint32 little consume b =
    let (bytes, rest) = get 4 consume b in (Option.map (uint32_of little) bytes, rest)

-- `Get` up to an index that was found.
get_found : Option ℕ → ℕ → Bool → ByteBuffer → Option (List ℕ) × ByteBuffer
unfolding get
get_found none extra consume b = (none, b)
get_found (some i) extra consume b = get (i + extra) consume b

unfoldable pub get_until : List ℕ → Bool → Bool → ByteBuffer → Option (List ℕ) × ByteBuffer
unfolding index get_found
get_until sep include_sep consume b =
    get_found (index sep b) (if include_sep then length sep else 0) consume b

unfoldable pub get_sub_buffer : ℕ → Bool → ByteBuffer → Option ByteBuffer × ByteBuffer
unfolding get
get_sub_buffer n consume b = get n consume b

-- The result is the buffer left, or `none` where the source answers false and leaves it.
unfoldable pub skip : ℕ → ByteBuffer → Bool × ByteBuffer
skip n b = if ltb (length b) n then (false, b) else (true, drop n b)

unfoldable pub reset : ByteBuffer → ByteBuffer
reset b = []
