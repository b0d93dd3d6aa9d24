-- ===== src/Utils/Strings.antt =====
-- What the analyzers of text use of Go's packages strings, bytes and strconv. A string is its bytes.
-- The white space of unicode.IsSpace is read off the bytes of its UTF-8 encodings: a lead byte
-- always begins a rune, so no encoding is met in the midst of another.
pub mod Words
pub mod Cuts
use open_gfw_for_frp_integra.Prelude.{
  ltb, leb, ◌==◌, if◌then◌else◌, ℕ, zero, suc, ◌+◌, ◌-◌, ◌*◌, ◌^◌, min, Bool, true, false, not,
  ◌&&◌, ◌||◌, Option, none, some, List, [], ◌∷◌, ◌++◌, map,
}

-- The white space at the front of a string, as the number of its bytes: \t \n \v \f \r and the
-- space, U+0085, U+00A0, U+1680, U+2000 to U+200A, U+2028, U+2029, U+202F, U+205F and U+3000.
abbrev is_ascii_space : ℕ → Bool
is_ascii_space x = (x == 32) || (leb 9 x && leb x 13)

abbrev is_space3 : ℕ → ℕ → ℕ → Bool
is_space3 x y z =
    ((x == 225) && (y == 154) && (z == 128))
    || ((x == 226)
        && (y == 128)
        && ((leb 128 z && leb z 138) || (z == 168) || (z == 169) || (z == 175)))
    || ((x == 226) && (y == 129) && (z == 159))
    || ((x == 227) && (y == 128) && (z == 128))

abbrev is_space2 : ℕ → ℕ → Bool
is_space2 x y = (x == 194) && ((y == 133) || (y == 160))

unfoldable pub space_width : List ℕ → ℕ
space_width [] = 0
space_width (x ∷ []) = if is_ascii_space x then 1 else 0
space_width (x ∷ y ∷ []) = if is_ascii_space x then 1 else if is_space2 x y then 2 else 0
space_width (x ∷ y ∷ z ∷ s) =
    if is_ascii_space x then 1 else if is_space2 x y then 2 else if is_space3 x y z then 3 else 0

-- The same at the end, of a string that is reversed.
unfoldable pub space_width_back : List ℕ → ℕ
space_width_back [] = 0
space_width_back (x ∷ []) = if is_ascii_space x then 1 else 0
space_width_back (x ∷ y ∷ []) = if is_ascii_space x then 1 else if is_space2 y x then 2 else 0
space_width_back (x ∷ y ∷ z ∷ s) =
    if is_ascii_space x then 1 else if is_space2 y x then 2 else if is_space3 z y x then 3 else 0

-- strings.Fields: the words between white space. The number is of the bytes of a white space that
-- are still to be passed, and the first list is the word so far.
abbrev pub flush : List ℕ → List (List ℕ) → List (List ℕ)
flush [] ws = ws
flush (x ∷ w) ws = (x ∷ w) ∷ ws

unfoldable pub fields_from : ℕ → List ℕ → List ℕ → List (List ℕ)
unfolding space_width
fields_from n word [] = flush word []
fields_from (suc n) word (x ∷ s) = fields_from n word s
fields_from zero word (x ∷ s) = elim (space_width (x ∷ s)) [
  | zero ↦ fields_from 0 (word ++ x ∷ []) s
  | suc n ↦ flush word (fields_from n [] s)
]

unfoldable pub fields : List ℕ → List (List ℕ)
unfolding fields_from
fields s = fields_from 0 [] s

-- bytes.TrimSpace
unfoldable pub trim_by : (List ℕ → ℕ) → ℕ → List ℕ → List ℕ
trim_by width n [] = []
trim_by width (suc n) (x ∷ s) = trim_by width n s
trim_by width zero (x ∷ s) = elim (width (x ∷ s)) [ zero ↦ x ∷ s | suc n ↦ trim_by width n s ]

abbrev pub reversed : List ℕ → List ℕ → List ℕ
reversed done [] = done
reversed done (x ∷ s) = reversed (x ∷ done) s

unfoldable pub trim_space : List ℕ → List ℕ
unfolding trim_by space_width space_width_back
trim_space s = reversed [] (trim_by space_width_back 0 (reversed [] (trim_by space_width 0 s)))

-- strings.SplitN for a separator of one byte, with the number of cuts that are left.
unfoldable pub split_from : ℕ → ℕ → List ℕ → List ℕ → List (List ℕ)
split_from sep n word [] = word ∷ []
split_from sep zero word (x ∷ s) = (word ++ (x ∷ s)) ∷ []
split_from sep (suc n) word (x ∷ s) =
    if x == sep then word ∷ split_from sep n [] s else split_from sep (suc n) (word ++ x ∷ []) s

unfoldable pub split_n : ℕ → ℕ → List ℕ → List (List ℕ)
unfolding split_from
split_n sep n s = split_from sep (n - 1) [] s

-- bytes.Split for the separator \r\n.
unfoldable pub split_lines_from : List ℕ → List ℕ → List (List ℕ)
split_lines_from word [] = word ∷ []
split_lines_from word (x ∷ []) = (word ++ x ∷ []) ∷ []
split_lines_from word (x ∷ y ∷ s) =
    if (x == 13) && (y == 10)
    then word ∷ split_lines_from [] s
    else split_lines_from (word ++ x ∷ []) (y ∷ s)

unfoldable pub split_lines : List ℕ → List (List ℕ)
unfolding split_lines_from
split_lines s = split_lines_from [] s

-- strings.ToLower: a string with a byte above ASCII goes through `unicode_lower`.
abbrev lower_byte : ℕ → ℕ
lower_byte x = if leb 65 x && leb x 90 then x + 32 else x

abbrev is_ascii : List ℕ → Bool
is_ascii [] = true
is_ascii (x ∷ s) = ltb x 128 && is_ascii s

unfoldable pub to_lower : (List ℕ → List ℕ) → List ℕ → List ℕ
to_lower unicode_lower s = if is_ascii s then map lower_byte s else unicode_lower s

-- strconv.ParseUint to the base ten: a digit that overflows ends it with the largest number.
unfoldable pub parse_uint_from : ℕ → List ℕ → Option ℕ
parse_uint_from n [] = some n
parse_uint_from n (x ∷ s) =
    if not (leb 48 x && leb x 57)
    then none
    else if ltb (2 ^ 64 - 1) (n * 10 + (x - 48))
    then some (2 ^ 64 - 1)
    else parse_uint_from (n * 10 + (x - 48)) s

abbrev parse_uint : List ℕ → Option ℕ
parse_uint [] = none
parse_uint (x ∷ s) = parse_uint_from 0 (x ∷ s)

-- An int of 64 bits, as its sign and its magnitude.
abbrev pub SignedInt : Type 0
SignedInt = Bool × ℕ

abbrev clamp : Bool → Option ℕ → SignedInt
clamp negative none = (false, 0)
clamp true (some n) = (true, min n (2 ^ 63))
clamp false (some n) = (false, min n (2 ^ 63 - 1))

-- The first result of strconv.Atoi: zero for a syntax error, the nearest int for a range error.
unfoldable pub atoi : List ℕ → SignedInt
unfolding parse_uint_from
atoi [] = (false, 0)
atoi (x ∷ s) =
    if x == 45
    then clamp true (parse_uint s)
    else if x == 43
    then clamp false (parse_uint s)
    else clamp false (parse_uint (x ∷ s))

-- `==` on strings.
abbrev pub same_text : List ℕ → List ℕ → Bool
same_text [] [] = true
same_text [] (y ∷ t) = false
same_text (x ∷ s) [] = false
same_text (x ∷ s) (y ∷ t) = (x == y) && same_text s t
