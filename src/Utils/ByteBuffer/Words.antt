-- ===== src/Utils/ByteBuffer/Words.antt =====
-- The integers that the buffer reads: `get_uint16` and `get_uint32` read back what an encoder wrote.
use open_gfw_for_frp_integra.Prelude.{
  if◌then◌else◌, ℕ, ◌+◌, ◌*◌, ◌/◌, ◌%◌, ◌^◌, ◌<◌, ◌≡◌, Bool, true, false, some, List, [], ◌∷◌, ◌++◌,
  arith,
}
use open_gfw_for_frp_integra.Utils.Bits.{bit_or-shift}
use open_gfw_for_frp_integra.Utils.ByteBuffer.{uint16_of, get_uint16, join32, uint32_of, get_uint32}

-- The bytes of a number, lowest first or highest first.
abbrev pub bytes16 : Bool → ℕ → List ℕ
bytes16 little v = if little then v % 256 ∷ v / 256 ∷ [] else v / 256 ∷ v % 256 ∷ []

abbrev pub bytes32 : Bool → ℕ → List ℕ
bytes32 little v =
    if little
    then v % 256 ∷ v / 256 % 256 ∷ v / 65536 % 256 ∷ v / 16777216 ∷ []
    else v / 16777216 ∷ v / 65536 % 256 ∷ v / 256 % 256 ∷ v % 256 ∷ []

-- Two bytes joined are the number that they spell.
pub uint16_of_lem :
    (a b : ℕ)
    → a < 256
    → b < 256
    → (uint16_of false (a ∷ b ∷ []) ≡ a * 256 + b) × (uint16_of true (a ∷ b ∷ []) ≡ b * 256 + a)
unfolding uint16_of
uint16_of_lem a b ha hb =
    let big : b * 1 + a * 256 ≡ a * 256 + b = omega arith in
    (ground (arith, bit_or-shift 8 b a), ground (arith, bit_or-shift 8 a b))

-- `GetUint16` reads back a uint16 that stands in front, in either byte order.
pub get_uint16-bytes16 :
    (little : Bool) (v : ℕ) (rest : List ℕ)
    → v < 2 ^ 16
    → get_uint16 little true (bytes16 little v ++ rest) ≡ (some v, rest)
unfolding get_uint16
get_uint16-bytes16 true v rest h = ground (arith, bit_or-shift 8 (v % 256) (v / 256))
get_uint16-bytes16 false v rest h = ground (arith, bit_or-shift 8 (v % 256) (v / 256))

join32_lem :
    (a b c d : ℕ)
    → a < 256
    → b < 256
    → c < 256
    → d < 256
    → (uint32_of true (a ∷ b ∷ c ∷ d ∷ []) ≡ a + b * 256 + c * 65536 + d * 16777216)
      × (uint32_of false (d ∷ c ∷ b ∷ a ∷ []) ≡ a + b * 256 + c * 65536 + d * 16777216)
unfolding uint32_of
join32_lem a b c d ha hb hc hd = (joined, joined)
  where
    joined : join32 a b c d ≡ a + b * 256 + c * 65536 + d * 16777216
    joined = ground (
      arith,
      bit_or-shift 8 a b,
      bit_or-shift 16 (a + b * 256) c,
      bit_or-shift 24 (a + b * 256 + c * 65536) d,
    )

-- `GetUint32` reads back a uint32 that stands in front, in either byte order.
pub get_uint32-bytes32 :
    (little : Bool) (v : ℕ) (rest : List ℕ)
    → v < 2 ^ 32
    → get_uint32 little true (bytes32 little v ++ rest) ≡ (some v, rest)
unfolding get_uint32
get_uint32-bytes32 true v rest h = ground (
  arith,
  join32_lem (v % 256) (v / 256 % 256) (v / 65536 % 256) (v / 16777216) (omega arith) (omega arith)
      (omega arith) (omega arith),
)
get_uint32-bytes32 false v rest h = ground (
  arith,
  join32_lem (v % 256) (v / 256 % 256) (v / 65536 % 256) (v / 16777216) (omega arith) (omega arith)
      (omega arith) (omega arith),
)
