-- ===== src/Ruleset/Geo.antt =====
-- ruleset/builtins/geo/matchers_v2geo.go: the matchers of addresses and of host names. An address and
-- a mask are their bytes; net.IP.To4 and net.IPNet.Contains are written out. A compiled regular
-- expression is what it answers. A set of attributes is the list of its keys.
pub mod Search
use Prim.Native.Nat.{bit_and}
use open_gfw_for_frp_integra.Prelude.{
  ltb, leb, ◌==◌, if◌then◌else◌, length, get_elem?, set, drop, replicate, Outcome, ok, panic, stuck,
  ◌>>=◌, ℕ, zero, suc, ◌+◌, ◌-◌, ◌/◌, ◌<◌, String, str_eq, Bool, true, false, not, ◌&&◌, ◌||◌,
  Option, none, some, List, [], ◌∷◌, ◌++◌,
}
use open_gfw_for_frp_integra.Utils.ByteBuffer.{has_prefix, index}
use open_gfw_for_frp_integra.Utils.Strings.{same_text}

pub record IpNet : Type 0 where
  pub ip : List ℕ
  pub mask : List ℕ

-- net.IP.To4
unfoldable pub to4 : List ℕ → Option (List ℕ)
unfolding has_prefix
to4 ip =
    if length ip == 4
    then some ip
    else if (length ip == 16) && has_prefix (replicate 10 0 ++ 255 ∷ 255 ∷ []) ip
    then some (drop 12 ip)
    else none

abbrev short_form : List ℕ → List ℕ
short_form ip = elim (to4 ip) [ none ↦ ip | some v4 ↦ v4 ]

abbrev masked_eq : List ℕ → List ℕ → List ℕ → Bool
masked_eq (x ∷ xs) (m ∷ ms) (y ∷ ys) = (bit_and x m == bit_and y m) && masked_eq xs ms ys
masked_eq _ _ _ = true

-- net.IPNet.Contains: a mask of 16 bytes is cut for an address of 4.
unfoldable pub contains : IpNet → List ℕ → Bool
unfolding to4
contains n ip =
    let base = short_form n.ip in
    let mask = if (length n.mask == 16) && (length base == 4) then drop 12 n.mask else n.mask in
    let x = short_form ip in
    (length mask == length base) && (length x == length base) && masked_eq base mask x

-- `bytes.Compare(a, b) < 0`
unfoldable pub less : List ℕ → List ℕ → Bool
less [] [] = false
less [] (y ∷ b) = true
less (x ∷ a) [] = false
less (x ∷ a) (y ∷ b) = ltb x y || ((x == y) && less a b)

pub record GeoipMatcher : Type 0 where
  pub n4 : List IpNet
  pub n6 : List IpNet
  pub inverse : Bool

module _ (nets : List IpNet) (ip : List ℕ) where
  -- Where the search goes on, if the network in the middle does not contain the address. The end is
  -- one past `right`.
  abbrev pub narrow : ℕ → ℕ → ℕ → IpNet → ℕ × ℕ
  narrow left stop mid n = if less n.ip ip then (mid + 1, stop) else (left, mid)

  abbrev probe : (ℕ × ℕ → Outcome Bool) → ℕ → ℕ → ℕ → Option IpNet → Outcome Bool
  probe again left stop mid none = panic
  probe again left stop mid (some n) = elim (contains n ip) as (λ x. Outcome Bool) [
    | true ↦ ok true
    | false ↦ again (narrow left stop mid n)
  ]

  -- The loop of `matchIP`, on fuel.
  unfoldable pub search : ℕ → ℕ × ℕ → Outcome Bool
  unfolding contains less
  search zero bounds = stuck
  search (suc fuel) (left, stop) = elim (leb stop left) as (λ x. Outcome Bool) [
    | true ↦ ok false
    | false ↦
        (let mid = (left + stop - 1) / 2 in probe (search fuel) left stop mid (get_elem? nets mid))
  ]

abbrev pub search_all : List IpNet → List ℕ → Outcome Bool
search_all nets ip = search nets ip (length nets + 1) (0, length nets)

unfoldable pub match_ip : GeoipMatcher → List ℕ → Outcome Bool
unfolding search to4
match_ip m ip = elim (to4 ip) as (λ x. Outcome Bool) [
  | some v4 ↦ search_all m.n4 v4
  | none ↦ search_all m.n6 ip
]

pub record HostInfo : Type 0 where
  pub name : List ℕ
  pub ipv4 : Option (List ℕ)
  pub ipv6 : Option (List ℕ)

abbrev match_optional : GeoipMatcher → Option (List ℕ) → Outcome Bool
match_optional m none = ok false
match_optional m (some ip) = match_ip m ip

-- `geoipMatcher.Match`
unfoldable pub match_geoip : GeoipMatcher → HostInfo → Outcome Bool
unfolding match_ip
match_geoip m host = match_optional m host.ipv4 >>= λ found4. elim found4 as (λ x. Outcome Bool) [
  | true ↦ ok (not m.inverse)
  | false ↦
      match_optional m host.ipv6 >>= λ found6. ok (if found6 then not m.inverse else m.inverse)
]

pub data GeositeDomain : Type 0 where
  plain root full : List ℕ → GeositeDomain
  regex : Option (List ℕ → Bool) → GeositeDomain

-- strings.HasSuffix
abbrev has_suffix : List ℕ → List ℕ → Bool
has_suffix suffix s =
    leb (length suffix) (length s) && same_text (drop (length s - length suffix) s) suffix

-- strings.Contains
abbrev has_part : List ℕ → List ℕ → Bool
has_part part s = elim (index part s) [ none ↦ false | some i ↦ true ]

-- The switch of `matchDomain`.
unfoldable pub match_name : GeositeDomain → List ℕ → Bool
unfolding index
match_name (plain value) name = has_part value name
match_name (regex none) name = false
match_name (regex (some r)) name = r name
match_name (full value) name = same_text name value
match_name (root value) name = same_text name value || has_suffix (46 ∷ value) name

pub record Domain : Type 0 where
  pub pattern : GeositeDomain
  pub attrs : List String

abbrev has_attr : List String → String → Bool
has_attr [] attr = false
has_attr (a ∷ attrs) attr = str_eq a attr || has_attr attrs attr

abbrev has_attrs : List String → List String → Bool
has_attrs attrs [] = true
has_attrs attrs (a ∷ wanted) = has_attr attrs a && has_attrs attrs wanted

unfoldable pub match_domain : List String → Domain → List ℕ → Bool
unfolding match_name
match_domain wanted d name = has_attrs d.attrs wanted && match_name d.pattern name

-- `geositeMatcher.Match`
unfoldable pub match_geosite : List String → List Domain → List ℕ → Bool
unfolding match_domain
match_geosite wanted [] name = false
match_geosite wanted (d ∷ ds) name = match_domain wanted d name || match_geosite wanted ds name
