-- ===== src/Analyzer.antt =====
-- analyzer/interface.go: the values that an analyzer reports, and the updates that carry them. A
-- `PropMap` is Go's nil map or a list of entries; `interface{}` is the type of the values that the
-- analyzers store. Text is its bytes. An IP address stands for the text that net.IP.String makes of
-- its bytes, and a float32 for the quotient of the two integers that the source divides. `minus n`
-- is the integer -n, and a `text_map` is a `PropMap` from texts that are read to texts.
pub mod Laws
use open_gfw_for_frp_integra.Prelude.{
  if◌then◌else◌, Outcome, ok, panic, ℕ, String, str_eq, Bool, Option, none, some, List, [], ◌∷◌,
}

mutual
  pub data Value : Type 0 where
    num : ℕ → Value
    flag : Bool → Value
    text : List ℕ → Value
    texts : List (List ℕ) → Value
    nums : List ℕ → Value
    ip : List ℕ → Value
    ratio : ℕ → ℕ → Value
    props : PropMap → Value
    minus : ℕ → Value
    text_map : List (List ℕ × List ℕ) → Value
    prop_list : PropList → Value

  -- []PropMap
  pub data PropList : Type 0 where
    no_more : PropList
    also : PropMap → PropList → PropList

  pub data PropMap : Type 0 where
    null : PropMap
    entries : Fields → PropMap

  pub data Fields : Type 0 where
    end : Fields
    field : String → Value → Fields → Fields

unfoldable pub lookup_field : String → Fields → Option Value
lookup_field k end = none
lookup_field k (field j v m) = if str_eq j k then some v else lookup_field k m

unfoldable pub insert_field : String → Value → Fields → Fields
insert_field k v end = field k v end
insert_field k v (field j w m) = if str_eq j k then field k v m else field j w (insert_field k v m)

-- `m[k]`: a missing key, or a nil map, reads as nil.
unfoldable pub lookup_prop : String → PropMap → Option Value
unfolding lookup_field
lookup_prop k null = none
lookup_prop k (entries m) = lookup_field k m

-- `m[k] = v`: a write to a nil map panics.
unfoldable pub insert_prop : String → Value → PropMap → Outcome PropMap
unfolding insert_field
insert_prop k v null = panic
insert_prop k v (entries m) = ok (entries (insert_field k v m))

-- The loop of `PropMap.Get` over the parts of the key, which strings.Split has cut at the dots.
-- Only a `PropMap` can be looked into.
unfoldable pub get_path : List String → Option Value → Option Value
unfolding lookup_prop
get_path [] current = current
get_path (k ∷ ks) (some (props m)) = get_path ks (lookup_prop k m)
get_path (k ∷ ks) _ = none

pub data PropUpdateType : Type 0 where
  update_none merge replace delete : PropUpdateType

pub record PropUpdate : Type 0 where
  pub type : PropUpdateType
  pub m : PropMap

-- CombinedPropMap: analyzer name to its properties.
abbrev pub CombinedPropMap : Type 0
CombinedPropMap = List (String × PropMap)

unfoldable pub lookup : String → CombinedPropMap → Option PropMap
lookup k [] = none
lookup k ((j, m) ∷ cm) = if str_eq j k then some m else lookup k cm

unfoldable pub insert : String → PropMap → CombinedPropMap → CombinedPropMap
insert k v [] = (k, v) ∷ []
insert k v ((j, w) ∷ cm) = if str_eq j k then (k, v) ∷ cm else (j, w) ∷ insert k v cm

unfoldable pub remove : String → CombinedPropMap → CombinedPropMap
remove k [] = []
remove k ((j, w) ∷ cm) = let rest = remove k cm in if str_eq j k then rest else (j, w) ∷ rest

-- CombinedPropMap.Get
unfoldable pub get_prop : CombinedPropMap → String → List String → Option Value
unfolding lookup get_path
get_prop cm an keys = elim (lookup an cm) [ none ↦ none | some m ↦ get_path keys (some (props m)) ]
