-- ===== src/Samples/Geo.antt =====
-- Tests of ruleset/builtins/geo/matchers_v2geo.go.
use open_gfw_for_frp_integra.Prelude.{
  get_elem?, ok, ℕ, zero, suc, ◌<◌, ◌≡◌, refl, sym, ap, ◌∙◌, Bool, true, false, Option, none, some,
  List, [], ◌∷◌, arith,
}
use open_gfw_for_frp_integra.Ruleset.Geo.{
  IpNet, to4, contains, less, GeoipMatcher, match_ip, root, match_name,
}
use open_gfw_for_frp_integra.Ruleset.Geo.Search.{IsOrdered, IsVerdict, match_ip-IsVerdict}

abbrev ten : IpNet
ten = record { ip = 10 ∷ 0 ∷ 0 ∷ 0 ∷ []; mask = 255 ∷ 0 ∷ 0 ∷ 0 ∷ [] }

abbrev local : IpNet
local = record { ip = 192 ∷ 168 ∷ 0 ∷ 0 ∷ []; mask = 255 ∷ 255 ∷ 0 ∷ 0 ∷ [] }

abbrev address : List ℕ
address = 192 ∷ 168 ∷ 3 ∷ 4 ∷ []

abbrev matcher : GeoipMatcher
matcher = record { n4 = ten ∷ local ∷ []; n6 = []; inverse = false }

abbrev or_true : (IpNet → Bool) → Option IpNet → Bool
or_true f none = true
or_true f (some n) = f n

abbrev or_false : (IpNet → Bool) → Option IpNet → Bool
or_false f none = false
or_false f (some n) = f n

matcher-IsOrdered : IsOrdered (ten ∷ local ∷ []) address
unfolding less contains
matcher-IsOrdered = record { begins_after = after; ends_before = before }
  where
    after :
        (i j : ℕ) (n m : IpNet)
        → i < j
        → get_elem? (ten ∷ local ∷ []) i ≡ some n
        → get_elem? (ten ∷ local ∷ []) j ≡ some m
        → contains m address ≡ true
        → less n.ip address ≡ true
    after zero j n m l e f c = sym (ap (or_true (λ x. less x.ip address)) e)
    after (suc zero) j n m l e f c = sym (ap (or_true (λ x. less x.ip address)) e)
    after (suc (suc i)) j n m l e f c = cc

    before :
        (i j : ℕ) (n m : IpNet)
        → i < j
        → get_elem? (ten ∷ local ∷ []) i ≡ some n
        → get_elem? (ten ∷ local ∷ []) j ≡ some m
        → contains n address ≡ true
        → less m.ip address ≡ false
    before zero j n m l e f c =
        let h : false ≡ true = ap (or_false (λ x. contains x address)) e ∙ c in cc
    before (suc zero) zero n m l e f c = absurd (omega arith)
    before (suc zero) (suc zero) n m l e f c = absurd (omega arith)
    before (suc zero) (suc (suc j)) n m l e f c = cc
    before (suc (suc i)) j n m l e f c = cc

match_ip-IsVerdict_example :
    (r : Bool) × (match_ip matcher address ≡ ok r) × IsVerdict (ten ∷ local ∷ []) address r
unfolding to4
match_ip-IsVerdict_example = match_ip-IsVerdict matcher address matcher-IsOrdered

-- Networks that overlap are not ordered: the search misses 10.3.0.0, which the first contains.
missed :
    (match_ip
        (record {
          n4 =
              ten
              ∷ record { ip = 10 ∷ 1 ∷ 0 ∷ 0 ∷ []; mask = 255 ∷ 255 ∷ 0 ∷ 0 ∷ [] }
              ∷ record { ip = 10 ∷ 2 ∷ 0 ∷ 0 ∷ []; mask = 255 ∷ 255 ∷ 0 ∷ 0 ∷ [] }
              ∷ [];
          n6 = [];
          inverse = false;
        })
        (10 ∷ 3 ∷ 0 ∷ 0 ∷ [])
      ≡ ok false)
    × (contains ten (10 ∷ 3 ∷ 0 ∷ 0 ∷ []) ≡ true)
unfolding match_ip
missed = (refl, refl)

-- "a.b" is below the root "b", and "ab" is not.
roots :
    (match_name (root (98 ∷ [])) (97 ∷ 46 ∷ 98 ∷ []) ≡ true)
    × (match_name (root (98 ∷ [])) (97 ∷ 98 ∷ []) ≡ false)
unfolding match_name
roots = (refl, refl)
