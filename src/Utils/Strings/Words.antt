-- ===== src/Utils/Strings/Words.antt =====
-- Words of printable ASCII in `Fields`, and strings that are cut at a separator.
use open_gfw_for_frp_integra.Prelude.{
  length, All, All-append, All-map, ℕ, ◌≤◌, ◌<◌, ◌≡◌, refl, sym, ap, ◌∙◌, ◌≢◌, List, [], ◌∷◌, ◌++◌,
  append-nil, append_assoc, arith,
}
use open_gfw_for_frp_integra.Utils.Strings.Cuts.{Lacks}
use open_gfw_for_frp_integra.Utils.Strings.{space_width, flush, fields_from, fields}

-- Printable and no space.
abbrev pub IsGraphic : ℕ → Type 0
IsGraphic x = (33 ≤ x) × (x < 127)

space_width-graphic : (x : ℕ) (s : List ℕ) → IsGraphic x → space_width (x ∷ s) ≡ 0
unfolding space_width
space_width-graphic x [] h = ground arith
space_width-graphic x (y ∷ []) h = ground arith
space_width-graphic x (y ∷ z ∷ s) h = ground arith

fields_from-graphic :
    (word s : List ℕ) (x : ℕ)
    → IsGraphic x
    → fields_from 0 word (x ∷ s) ≡ fields_from 0 (word ++ x ∷ []) s
unfolding fields_from
fields_from-graphic word s x h = rw (fields_from, space_width-graphic x s h) refl

-- A word goes on to the next white space.
fields_from-word :
    (word w rest : List ℕ)
    → All IsGraphic w
    → fields_from 0 word (w ++ rest) ≡ fields_from 0 (word ++ w) rest
fields_from-word word [] rest h = ap (λ u. fields_from 0 u rest) (sym (append-nil word))
fields_from-word word (x ∷ w) rest h =
    fields_from-graphic word (w ++ rest) x h.0
    ∙ fields_from-word (word ++ x ∷ []) w rest h.1
    ∙ ap (λ u. fields_from 0 u rest) (append_assoc word (x ∷ []) w)

fields_from-space :
    (word s : List ℕ) → fields_from 0 word (32 ∷ s) ≡ flush word (fields_from 0 [] s)
unfolding fields_from space_width
fields_from-space word [] = refl
fields_from-space word (x ∷ []) = refl
fields_from-space word (x ∷ y ∷ s) = refl

fields_from-end : (word : List ℕ) → fields_from 0 word [] ≡ flush word []
unfolding fields_from
fields_from-end word = refl

-- A word, not empty, without white space.
abbrev pub IsText : List ℕ → Type 0
IsText w = (0 < length w) × All IsGraphic w

-- The words with a space between them.
abbrev pub join_words : List ℕ → List (List ℕ) → List ℕ
join_words w [] = w
join_words w (v ∷ ws) = w ++ 32 ∷ join_words v ws

flush-text : (w : List ℕ) (ws : List (List ℕ)) → 0 < length w → flush w ws ≡ w ∷ ws
flush-text [] ws h = absurd (omega arith)
flush-text (x ∷ w) ws h = refl

-- `Fields` takes words apart that a space keeps apart.
pub fields-join_words :
    (w : List ℕ) (ws : List (List ℕ)) → IsText w → All IsText ws → fields (join_words w ws) ≡ w ∷ ws
unfolding fields
fields-join_words w [] h hs =
    ap (fields_from 0 []) (sym (append-nil w))
    ∙ fields_from-word [] w [] h.1
    ∙ fields_from-end w
    ∙ flush-text w [] h.0
fields-join_words w (v ∷ ws) h hs =
    fields_from-word [] w (32 ∷ join_words v ws) h.1
    ∙ fields_from-space w (join_words v ws)
    ∙ flush-text w _ h.0
    ∙ ap (λ rest. w ∷ rest) (fields-join_words v ws hs.0 hs.1)

graphic-Lacks : (w : List ℕ) → All IsGraphic w → Lacks 13 w
graphic-Lacks w h = All-map w (λ x g. omega arith) h

-- Words of printable ASCII have no \r.
pub join_words-Lacks :
    (w : List ℕ) (ws : List (List ℕ)) → All IsGraphic w → All IsText ws → Lacks 13 (join_words w ws)
join_words-Lacks w [] h hs = graphic-Lacks w h
join_words-Lacks w (v ∷ ws) h hs =
    All-append (λ x. x ≢ 13) w (32 ∷ join_words v ws) (graphic-Lacks w h)
      (omega arith, join_words-Lacks v ws hs.0.1 hs.1)
