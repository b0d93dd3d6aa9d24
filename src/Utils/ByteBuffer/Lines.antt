-- ===== src/Utils/ByteBuffer/Lines.antt =====
-- `GetUntil` of a line, and of a block of lines that ends with an empty one.
use open_gfw_for_frp_integra.Prelude.{
  length, All, length-append, ℕ, suc, ◌+◌, ◌<◌, ◌≡◌, refl, sym, ap, ◌∙◌, ◌≢◌, true, false, some,
  List, [], ◌∷◌, ◌++◌, append_assoc, arith,
}
use open_gfw_for_frp_integra.Utils.ByteBuffer.{index, has_prefix, get_until, get_found}
use open_gfw_for_frp_integra.Utils.ByteBuffer.Laws.{get-length_two}
use open_gfw_for_frp_integra.Utils.Strings.Cuts.{Lacks, ne→==, join_lines}

index-next :
    (sep bs : List ℕ) (b i : ℕ)
    → has_prefix sep (b ∷ bs) ≡ false
    → index sep bs ≡ some i
    → index sep (b ∷ bs) ≡ some (suc i)
unfolding index
index-next sep bs b i h e = rw (h, e) refl

index-here :
    (sep bs : List ℕ) (b : ℕ) → has_prefix sep (b ∷ bs) ≡ true → index sep (b ∷ bs) ≡ some 0
unfolding index
index-here sep bs b h = rw h refl

other_start : (p s : List ℕ) (x : ℕ) → x ≢ 13 → has_prefix (13 ∷ p) (x ∷ s) ≡ false
unfolding has_prefix
other_start p s x h = rw (ne→== 13 x (λ e. h (sym e))) refl

-- Bytes without \r are passed in the search for something that begins with it.
index-Lacks :
    (p l rest : List ℕ) (i n : ℕ)
    → Lacks 13 l
    → index (13 ∷ p) rest ≡ some i
    → length l + i ≡ n
    → index (13 ∷ p) (l ++ rest) ≡ some n
index-Lacks p [] rest i n h e s = e ∙ ap some (omega arith)
index-Lacks p (x ∷ l) rest i n h e s =
    index-next (13 ∷ p) (l ++ rest) x (length l + i) (other_start p (l ++ rest) x h.0)
      (index-Lacks p l rest i (length l + i) h.1 e refl)
    ∙ ap some (omega arith)

abbrev pub crlf : List ℕ
crlf = 13 ∷ 10 ∷ []

abbrev pub blank : List ℕ
blank = 13 ∷ 10 ∷ 13 ∷ 10 ∷ []

get_until-found :
    (sep front rest : List ℕ)
    → index sep (front ++ (sep ++ rest)) ≡ some (length front)
    → get_until sep true true (front ++ (sep ++ rest)) ≡ (some (front ++ sep), rest)
unfolding get_until get_found
get_until-found sep front rest e = rw (e, get_found) (get-length_two front sep rest)

-- `GetUntil` cuts a line without \r off, its end included.
pub get_until-line :
    (l rest : List ℕ)
    → Lacks 13 l
    → get_until crlf true true (l ++ (crlf ++ rest)) ≡ (some (l ++ crlf), rest)
unfolding has_prefix
get_until-line l rest h = get_until-found crlf l rest (
    index-Lacks (10 ∷ []) l (crlf ++ rest) 0 (length l) h (index-here crlf (10 ∷ rest) 13 refl)
      (omega arith))

-- Lines that are not empty and have no \r.
abbrev pub AreLines : List (List ℕ) → Type 0
AreLines ls = All (λ m. (0 < length m) × Lacks 13 m) ls

-- At the end of a line the search goes on in the next.
past_end :
    (s : List ℕ) (x i : ℕ)
    → x ≢ 13
    → index blank (x ∷ s) ≡ some i
    → index blank (13 ∷ 10 ∷ x ∷ s) ≡ some (suc (suc i))
unfolding has_prefix
past_end s x i h e =
    index-next blank (10 ∷ x ∷ s) 13 (suc i) (rw (ne→== 13 x (λ q. h (sym q))) refl)
      (index-next blank (x ∷ s) 10 i refl e)

past_line_end :
    (m : List ℕ) (ls : List (List ℕ)) (t : List ℕ) (i : ℕ)
    → (0 < length m) × Lacks 13 m
    → index blank (join_lines m ls ++ t) ≡ some i
    → index blank (13 ∷ 10 ∷ (join_lines m ls ++ t)) ≡ some (suc (suc i))
past_line_end [] ls t i h e = absurd (omega (arith, h.0))
past_line_end (x ∷ m) [] t i h e = past_end (m ++ t) x i h.1.0 e
past_line_end (x ∷ m) (k ∷ ls) t i h e = past_end _ x i h.1.0 e

index-blank :
    (l : List ℕ) (ls : List (List ℕ)) (rest : List ℕ)
    → Lacks 13 l
    → AreLines ls
    → index blank (join_lines l ls ++ (blank ++ rest)) ≡ some (length (join_lines l ls))
unfolding has_prefix
index-blank l [] rest h hs =
    index-Lacks (10 ∷ 13 ∷ 10 ∷ []) l (blank ++ rest) 0 (length l) h
      (index-here blank (10 ∷ 13 ∷ 10 ∷ rest) 13 refl) (omega arith)
index-blank l (m ∷ ls) rest h hs =
    let block = join_lines m ls in
    ap (index blank) (append_assoc l (13 ∷ 10 ∷ block) (blank ++ rest))
    ∙ index-Lacks (10 ∷ 13 ∷ 10 ∷ []) l (13 ∷ 10 ∷ (block ++ (blank ++ rest)))
        (suc (suc (length block))) (length (l ++ 13 ∷ 10 ∷ block)) h
        (past_line_end m ls (blank ++ rest) (length block) hs.0 (index-blank m ls rest hs.0.1 hs.1))
        (omega (arith, length-append l (13 ∷ 10 ∷ block)))

-- `GetUntil` cuts a block of lines off, up to the empty line behind them; no line behind the first
-- is empty, and none has a \r.
pub get_until-blank :
    (l : List ℕ) (ls : List (List ℕ)) (rest : List ℕ)
    → Lacks 13 l
    → AreLines ls
    → get_until blank true true (join_lines l ls ++ (blank ++ rest))
      ≡ (some (join_lines l ls ++ blank), rest)
get_until-blank l ls rest h hs =
    get_until-found blank (join_lines l ls) rest (index-blank l ls rest h hs)
