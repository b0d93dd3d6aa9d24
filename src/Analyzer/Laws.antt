-- ===== src/Analyzer/Laws.antt =====
-- Reading a property map after a write.
use open_gfw_for_frp_integra.Prelude.{
  if◌then◌else◌, Bool-cases, String, str_eq, eq_iff, ◌≡◌, refl, inl, inr, none, some, [], ◌∷◌,
  arith,
}
use open_gfw_for_frp_integra.Analyzer.{
  Value, PropMap, Fields, end, field, lookup_field, insert_field, CombinedPropMap, lookup, insert,
  remove,
}

pub lookup_field-insert_field :
    (k j : String) (v : Value) (m : Fields)
    → lookup_field j (insert_field k v m) ≡ (if str_eq k j then some v else lookup_field j m)
unfolding lookup_field insert_field
lookup_field-insert_field k j v end = refl
lookup_field-insert_field k j v (field i w m) =
    ground (arith, eq_iff k j, eq_iff i k, eq_iff i j, lookup_field-insert_field k j v m)

pub lookup-insert :
    (an name : String) (m : PropMap) (cpm : CombinedPropMap)
    → lookup name (insert an m cpm) ≡ (if str_eq an name then some m else lookup name cpm)
unfolding lookup insert
lookup-insert an name m [] = refl
lookup-insert an name m ((other, w) ∷ cpm) =
    let ih = lookup-insert an name m cpm in
    ground (arith, ih, eq_iff other name, eq_iff other an, eq_iff an name)

pub lookup-remove :
    (k j : String) (m : CombinedPropMap)
    → lookup j (remove k m) ≡ (if str_eq k j then none else lookup j m)
unfolding lookup remove
lookup-remove k j [] = elim (Bool-cases (str_eq k j)) [ inl e ↦ rw e | inr e ↦ rw e ]
lookup-remove k j ((i, w) ∷ m) =
    ground (arith, eq_iff k j, eq_iff i k, eq_iff i j, lookup-remove k j m)
