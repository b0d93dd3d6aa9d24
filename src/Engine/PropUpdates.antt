-- ===== src/Engine/PropUpdates.antt =====
-- processPropUpdate of engine/utils.go.
pub mod Laws
use open_gfw_for_frp_integra.Prelude.{String, Bool, true, false, Option, none, some}
use open_gfw_for_frp_integra.Analyzer.{
  PropMap, null, entries, Fields, end, field, insert_field, PropUpdateType, update_none, merge,
  replace, delete, PropUpdate, CombinedPropMap, lookup, insert, remove,
}

-- The loop `for k, v := range update.M`.
unfoldable pub put_all : Fields → Fields → Fields
put_all m end = m
put_all m (field k v more) = put_all (insert_field k v m) more

abbrev pub fields_of : PropMap → Fields
fields_of null = end
fields_of (entries m) = m

-- `m := cpm[name]`: a missing or nil map is made anew, so the writes of the loop do not panic.
unfoldable pub merge_into : Option PropMap → PropMap → PropMap
unfolding put_all
merge_into none u = entries (put_all end (fields_of u))
merge_into (some m) u = entries (put_all (fields_of m) (fields_of u))

unfoldable pub process_type :
    PropUpdateType → CombinedPropMap → String → PropMap → CombinedPropMap × Bool
process_type update_none cpm name u = (cpm, false)
process_type merge cpm name u = (insert name (merge_into (lookup name cpm) u) cpm, true)
process_type replace cpm name u = (insert name u cpm, true)
process_type delete cpm name u = (remove name cpm, true)

unfoldable pub process_prop_update :
    CombinedPropMap → String → Option PropUpdate → CombinedPropMap × Bool
unfolding process_type
process_prop_update cpm name none = (cpm, false)
process_prop_update cpm name (some u) = process_type u.type cpm name u.m
