-- ===== src/Protocols/Wireguard/Memory.antt =====
-- What the ring of sender indexes remembers.
use open_gfw_for_frp_integra.Prelude.{
  take, ℕ, zero, suc, ◌≡◌, refl, ap, ◌∙◌, Bool, false, ◌||◌, Option, none, some, List, [], ◌∷◌,
  ◌++◌,
}
use open_gfw_for_frp_integra.Protocols.Wireguard.{
  WireGuardIndex, Ring, new_ring, init, last, prev, WireGuardStream, new_wire_guard_stream,
  put_sender_index, answers, find_index, match_receiver_index,
}

-- The indexes that were put, the latest first, into a new stream.
unfoldable pub put_all : List WireGuardIndex → WireGuardStream
unfolding put_sender_index new_wire_guard_stream
put_all [] = new_wire_guard_stream
put_all (i ∷ h) = put_sender_index i.reverse i.sender_index (put_all h)

-- `n` slots: the latest indexes, then nils.
abbrev slots : ℕ → List WireGuardIndex → Ring
slots zero h = []
slots (suc n) [] = none ∷ slots n []
slots (suc n) (i ∷ h) = some i ∷ slots n h

init-slots : (n : ℕ) (h : List WireGuardIndex) → init (slots (suc n) h) ≡ slots n h
unfolding init
init-slots zero [] = refl
init-slots zero (i ∷ h) = refl
init-slots (suc n) [] = ap (λ r. none ∷ r) (init-slots n [])
init-slots (suc n) (i ∷ []) = ap (λ r. some i ∷ r) (init-slots n [])
init-slots (suc n) (i ∷ j ∷ h) = ap (λ r. some i ∷ r) (init-slots n (j ∷ h))

last-slots :
    (n : ℕ) (h : List WireGuardIndex)
    → (v : Option WireGuardIndex) × (last (slots (suc n) h) ≡ v ∷ [])
unfolding last
last-slots zero [] = (none, refl)
last-slots zero (i ∷ h) = (some i, refl)
last-slots (suc n) [] = last-slots n []
last-slots (suc n) (i ∷ []) = last-slots n []
last-slots (suc n) (i ∷ j ∷ h) = last-slots n (j ∷ h)

prev-slots :
    (n : ℕ) (i : WireGuardIndex) (h : List WireGuardIndex)
    → (v : Option WireGuardIndex) × (prev (some i ∷ slots (suc n) h) ≡ v ∷ slots (suc n) (i ∷ h))
unfolding prev
prev-slots n i h =
    let (v, e) = last-slots (suc n) (i ∷ h) in
    (
      v,
      ap (λ r. r ++ init (some i ∷ slots (suc n) h)) e
          ∙ ap (λ r. v ∷ r) (init-slots (suc n) (i ∷ h)),
    )

-- The pointer's own slot, and five slots of the latest indexes.
put_all-slots :
    (h : List WireGuardIndex)
    → (v : Option WireGuardIndex) × ((put_all h).remembered_indexes ≡ v ∷ slots 5 h)
unfolding put_all put_sender_index new_wire_guard_stream new_ring
put_all-slots [] = (none, refl)
put_all-slots (i ∷ h) = let (v, e) = put_all-slots h in let (w, p) = prev-slots 4 i h in (w, rw e p)

abbrev pub any_answers : Bool → ℕ → List WireGuardIndex → Bool
any_answers rev receiver [] = false
any_answers rev receiver (i ∷ h) = answers rev receiver i || any_answers rev receiver h

find_index-slots :
    (n : ℕ) (rev : Bool) (receiver : ℕ) (h : List WireGuardIndex)
    → find_index rev receiver (slots n h) ≡ any_answers rev receiver (take n h)
unfolding find_index
find_index-slots zero rev receiver h = refl
find_index-slots (suc n) rev receiver [] = refl
find_index-slots (suc n) rev receiver (i ∷ h) =
    ap (λ b. answers rev receiver i || b) (find_index-slots n rev receiver h)

-- A receiver index is matched exactly if one of the last five sender indexes that were remembered
-- came from the other side and is that index: of the six slots of the ring, the one under the
-- pointer is never looked at.
pub match_receiver_index_recent :
    (rev : Bool) (receiver : ℕ) (h : List WireGuardIndex)
    → match_receiver_index rev receiver (put_all h) ≡ any_answers rev receiver (take 5 h)
unfolding match_receiver_index
match_receiver_index_recent rev receiver h =
    let (v, e) = put_all-slots h in rw e (find_index-slots 5 rev receiver h)
