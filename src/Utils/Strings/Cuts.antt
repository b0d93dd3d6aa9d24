-- ===== src/Utils/Strings/Cuts.antt =====
-- Strings that are cut at a separator: `SplitN` and `Split`.
use open_gfw_for_frp_integra.Prelude.{
  ◌==◌, ==_refl, Bool-cases, All, ℕ, suc, ◌≡◌, refl, ap, ◌∙◌, ◌≢◌, inl, inr, false, List, [], ◌∷◌,
  ◌++◌, append-nil, append_assoc, arith,
}
use open_gfw_for_frp_integra.Utils.Strings.{split_from, split_n, split_lines_from, split_lines}

abbrev pub Lacks : ℕ → List ℕ → Type 0
Lacks sep s = All (λ x. x ≢ sep) s

pub ne→== : (x y : ℕ) → x ≢ y → (x == y) ≡ false
ne→== x y h = elim (Bool-cases (x == y)) [ inl e ↦ absurd (h (ground arith)) | inr e ↦ e ]

-- A string without the separator is passed to the separator behind it.
split_from-Lacks :
    (sep n : ℕ) (word w rest : List ℕ)
    → Lacks sep w
    → split_from sep (suc n) word (w ++ sep ∷ rest) ≡ (word ++ w) ∷ split_from sep n [] rest
unfolding split_from
split_from-Lacks sep n word [] rest h = rw (==_refl sep, append-nil word) refl
split_from-Lacks sep n word (x ∷ w) rest h = rw (ne→== x sep h.0) (
    split_from-Lacks sep n (word ++ x ∷ []) w rest h.1
    ∙ ap (λ u. u ∷ split_from sep n [] rest) (append_assoc word (x ∷ []) w))

-- Where no cut is left, the rest is one string.
split_from-last : (sep : ℕ) (s : List ℕ) → split_from sep 0 [] s ≡ s ∷ []
unfolding split_from
split_from-last sep [] = refl
split_from-last sep (x ∷ s) = refl

-- `SplitN` to two parts cuts at the first separator.
pub split_n-two : (sep : ℕ) (v w : List ℕ) → Lacks sep v → split_n sep 2 (v ++ sep ∷ w) ≡ v ∷ w ∷ []
unfolding split_n
split_n-two sep v w h =
    split_from-Lacks sep 0 [] v w h ∙ ap (λ rest. v ∷ rest) (split_from-last sep w)

-- `SplitN` to three parts cuts at the first two separators.
pub split_n-three :
    (sep : ℕ) (u v w : List ℕ)
    → Lacks sep u
    → Lacks sep v
    → split_n sep 3 (u ++ sep ∷ (v ++ sep ∷ w)) ≡ u ∷ v ∷ w ∷ []
unfolding split_n
split_n-three sep u v w hu hv =
    split_from-Lacks sep 1 [] u (v ++ sep ∷ w) hu
    ∙ ap (λ rest. u ∷ rest)
        (split_from-Lacks sep 0 [] v w hv ∙ ap (λ rest. v ∷ rest) (split_from-last sep w))

-- The lines with \r\n between them.
abbrev pub join_lines : List ℕ → List (List ℕ) → List ℕ
join_lines l [] = l
join_lines l (m ∷ ls) = l ++ 13 ∷ 10 ∷ join_lines m ls

split_lines_from-cut :
    (word l rest : List ℕ)
    → Lacks 13 l
    → split_lines_from word (l ++ 13 ∷ 10 ∷ rest) ≡ (word ++ l) ∷ split_lines_from [] rest
unfolding split_lines_from
split_lines_from-cut word [] rest h = rw (append-nil word) refl
split_lines_from-cut word (x ∷ []) rest h = rw (ne→== x 13 h.0) refl
split_lines_from-cut word (x ∷ y ∷ l) rest h = rw (ne→== x 13 h.0) (
    split_lines_from-cut (word ++ x ∷ []) (y ∷ l) rest h.1
    ∙ ap (λ u. u ∷ split_lines_from [] rest) (append_assoc word (x ∷ []) (y ∷ l)))

split_lines_from-end : (word l : List ℕ) → Lacks 13 l → split_lines_from word l ≡ (word ++ l) ∷ []
unfolding split_lines_from
split_lines_from-end word [] h = rw (append-nil word) refl
split_lines_from-end word (x ∷ []) h = refl
split_lines_from-end word (x ∷ y ∷ l) h = rw (ne→== x 13 h.0) (
    split_lines_from-end (word ++ x ∷ []) (y ∷ l) h.1
    ∙ ap (λ u. u ∷ []) (append_assoc word (x ∷ []) (y ∷ l)))

-- `Split` at \r\n takes apart the lines that are joined with it, where no line has a \r.
pub split_lines-join_lines :
    (l : List ℕ) (ls : List (List ℕ))
    → Lacks 13 l
    → All (Lacks 13) ls
    → split_lines (join_lines l ls) ≡ l ∷ ls
unfolding split_lines
split_lines-join_lines l [] h hs = split_lines_from-end [] l h
split_lines-join_lines l (m ∷ ls) h hs =
    split_lines_from-cut [] l (join_lines m ls) h
    ∙ ap (λ rest. l ∷ rest) (split_lines-join_lines m ls hs.0 hs.1)
