-- ===== src/Samples/Bytes.antt =====
-- Tests of analyzer/utils and of the property updates.
use open_gfw_for_frp_integra.Prelude.{
  length, drop, ℕ, ◌<◌, str_eq, ◌≡◌, refl, ◌↔◌, ◌⊎◌, true, false, none, some, List, [], ◌∷◌, ◌++◌,
}
use open_gfw_for_frp_integra.Analyzer.{
  num, entries, end, field, merge, update_none, PropUpdate, CombinedPropMap, insert, lookup,
  insert_field, lookup_field,
}
use open_gfw_for_frp_integra.Utils.ByteBuffer.{ByteBuffer, has_prefix, get_until}
use open_gfw_for_frp_integra.Utils.ByteBuffer.Laws.{get_until_split}
use open_gfw_for_frp_integra.Engine.PropUpdates.{merge_into, process_prop_update}
use open_gfw_for_frp_integra.Engine.PropUpdates.Laws.{read, updated_value, process_prop_update-read}

abbrev line : List ℕ
line = 71 ∷ 69 ∷ 84 ∷ 13 ∷ 10 ∷ 72 ∷ []

get_until-line :
    get_until (13 ∷ 10 ∷ []) true true line ≡ (some (71 ∷ 69 ∷ 84 ∷ 13 ∷ 10 ∷ []), 72 ∷ [])
unfolding get_until
get_until-line = refl

get_until_split_example :
    ((front : List ℕ) × (rest : ByteBuffer) × (get_until (13 ∷ 10 ∷ []) true true line
        ≡ (some (front ++ (13 ∷ 10 ∷ [])), rest))
      × (front ++ ((13 ∷ 10 ∷ []) ++ rest) ≡ line)
      × ((j : ℕ) → j < length front → has_prefix (13 ∷ 10 ∷ []) (drop j line) ≡ false))
    ⊎ ((get_until (13 ∷ 10 ∷ []) true true line ≡ (none, line))
        × ((j : ℕ) → has_prefix (13 ∷ 10 ∷ []) (drop j line) ≡ false))
get_until_split_example = get_until_split (13 ∷ 10 ∷ []) line

abbrev stored : CombinedPropMap
stored = ("tls", entries (field "a" (num 1) end)) ∷ []

abbrev change : PropUpdate
change = record { type = merge; m = entries (field "b" (num 2) (field "a" (num 3) end)) }

merged :
    (process_prop_update stored "tls" (some change)).0
    ≡ (("tls", entries (field "a" (num 3) (field "b" (num 2) end))) ∷ [])
unfolding process_prop_update insert merge_into lookup insert_field
merged = refl

process_prop_update-read_example :
    (read "tls" "a" (process_prop_update stored "tls" (some change)).0
      ≡ updated_value merge (str_eq "tls" "tls") "a" change.m (read "tls" "a" stored))
    × (((process_prop_update stored "tls" (some change)).1 ≡ false) ↔ (merge ≡ update_none))
unfolding lookup_field
process_prop_update-read_example =
    process_prop_update-read stored "tls" "tls" "a" change (refl, (refl, tt))
