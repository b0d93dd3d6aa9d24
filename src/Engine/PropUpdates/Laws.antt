-- ===== src/Engine/PropUpdates/Laws.antt =====
-- What the properties of an analyzer are after an update.
use open_gfw_for_frp_integra.Prelude.{
  Bool-cases, String, str_eq, eq_iff, ◌≡◌, refl, ◌↔◌, inl, inr, Bool, true, false, Option, none,
  some, arith,
}
use open_gfw_for_frp_integra.Analyzer.{
  Value, PropMap, null, entries, Fields, end, field, lookup_field, insert_field, lookup_prop,
  PropUpdateType, update_none, merge, replace, delete, PropUpdate, CombinedPropMap, lookup,
}
use open_gfw_for_frp_integra.Analyzer.Laws.{lookup_field-insert_field, lookup-insert, lookup-remove}
use open_gfw_for_frp_integra.Engine.PropUpdates.{
  put_all, fields_of, merge_into, process_type, process_prop_update,
}

-- No key stands twice, as in a Go map.
abbrev pub IsDistinct : Fields → Type 0
IsDistinct end = Unit
IsDistinct (field k v m) = (lookup_field k m ≡ none) × IsDistinct m

abbrev pub or_else : Option Value → Option Value → Option Value
or_else (some v) w = some v
or_else none w = w

pub lookup_field-put_all :
    (k : String) (m u : Fields)
    → IsDistinct u
    → lookup_field k (put_all m u) ≡ or_else (lookup_field k u) (lookup_field k m)
unfolding lookup_field put_all
lookup_field-put_all k m end d = refl
lookup_field-put_all k m (field j v u) d = ground (
  arith,
  eq_iff j k,
  lookup_field-put_all k (insert_field j v m) u d.1,
  lookup_field-insert_field j k v m,
)

abbrev pub read : String → String → CombinedPropMap → Option Value
read an k cpm = elim (lookup an cpm) [ none ↦ none | some m ↦ lookup_prop k m ]

-- The property `k` of analyzer `an` after an update of analyzer `name`, as a specification.
abbrev pub updated_value : PropUpdateType → Bool → String → PropMap → Option Value → Option Value
updated_value t false k u old = old
updated_value update_none true k u old = old
updated_value merge true k u old = or_else (lookup_prop k u) old
updated_value replace true k u old = lookup_prop k u
updated_value delete true k u old = none

lookup_prop-merge_into :
    (k : String) (o : Option PropMap) (u : PropMap)
    → IsDistinct (fields_of u)
    → lookup_prop k (merge_into o u)
      ≡ or_else (lookup_prop k u) (elim o [ none ↦ none | some m ↦ lookup_prop k m ])
unfolding lookup_prop merge_into
lookup_prop-merge_into k none null d = refl
lookup_prop-merge_into k (some null) null d = refl
lookup_prop-merge_into k (some (entries m)) null d = lookup_field-put_all k m end d
lookup_prop-merge_into k none (entries u) d = lookup_field-put_all k end u d
lookup_prop-merge_into k (some null) (entries u) d = lookup_field-put_all k end u d
lookup_prop-merge_into k (some (entries m)) (entries u) d = lookup_field-put_all k m u d

process_type-read :
    (t : PropUpdateType) (cpm : CombinedPropMap) (name an k : String) (u : PropMap)
    → IsDistinct (fields_of u)
    → read an k (process_type t cpm name u).0 ≡ updated_value t (str_eq name an) k u (read an k cpm)
unfolding process_type
process_type-read update_none cpm name an k u d = elim (Bool-cases (str_eq name an)) [
  | inl e ↦ rw e
  | inr e ↦ rw e
]
process_type-read merge cpm name an k u d = ground (
  arith,
  lookup-insert name an (merge_into (lookup name cpm) u) cpm,
  eq_iff name an,
  lookup_prop-merge_into k (lookup name cpm) u d,
)
process_type-read replace cpm name an k u d = ground (arith, lookup-insert name an u cpm)
process_type-read delete cpm name an k u d = ground (arith, lookup-remove name an cpm)

-- For an update whose keys are distinct: merging puts its keys over those that are there, replacing
-- leaves only its keys, deleting leaves none, and no update touches another analyzer's properties.
-- It counts as a change unless its type is "none".
pub process_prop_update-read :
    (cpm : CombinedPropMap) (name an k : String) (u : PropUpdate)
    → IsDistinct (fields_of u.m)
    → (read an k (process_prop_update cpm name (some u)).0
        ≡ updated_value u.type (str_eq name an) k u.m (read an k cpm))
      × (((process_prop_update cpm name (some u)).1 ≡ false) ↔ (u.type ≡ update_none))
unfolding process_prop_update
process_prop_update-read cpm name an k u d =
    (process_type-read u.type cpm name an k u.m d, flagged u.type)
  where
    flagged : (t : PropUpdateType) → ((process_type t cpm name u.m).1 ≡ false) ↔ (t ≡ update_none)
    flagged update_none = (λ e. refl, λ e. refl)
    flagged merge = (λ e. cc, λ e. cc)
    flagged replace = (λ e. cc, λ e. cc)
    flagged delete = (λ e. cc, λ e. cc)
