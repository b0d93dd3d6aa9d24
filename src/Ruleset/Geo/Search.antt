-- ===== src/Ruleset/Geo/Search.antt =====
-- The binary search of the networks finds an address exactly if a network contains it.
use open_gfw_for_frp_integra.Prelude.{
  ltb, leb, ltb→lt, Bool-cases, length, get_elem?, get_elem?-some, get_elem?-lt, Outcome, ok, Gives,
  Gives-ok, ℕ, zero, suc, ◌+◌, ◌-◌, ◌/◌, ◌≤◌, ◌<◌, ◌≡◌, refl, sym, ap, ◌∙◌, subst, ◌⊎◌, inl, inr,
  Bool, true, false, Option, none, some, List, arith,
}
use open_gfw_for_frp_integra.Ruleset.Geo.{
  IpNet, to4, contains, less, GeoipMatcher, narrow, probe, search, search_all, match_ip,
}

-- The networks lie one behind the other, as far as the address can tell: one that contains it begins
-- behind all earlier networks, and no later network begins below it.
pub record IsOrdered (nets : List IpNet) (ip : List ℕ) : Type 0 where
  pub begins_after :
      (i j : ℕ) (n m : IpNet)
      → i < j
      → get_elem? nets i ≡ some n
      → get_elem? nets j ≡ some m
      → contains m ip ≡ true
      → less n.ip ip ≡ true
  pub ends_before :
      (i j : ℕ) (n m : IpNet)
      → i < j
      → get_elem? nets i ≡ some n
      → get_elem? nets j ≡ some m
      → contains n ip ≡ true
      → less m.ip ip ≡ false

-- A network contains the address.
abbrev pub IsCovered : List IpNet → List ℕ → Type 0
IsCovered nets ip = (k : ℕ) × (n : IpNet) × (get_elem? nets k ≡ some n) × (contains n ip ≡ true)

abbrev pub IsVerdict : List IpNet → List ℕ → Bool → Type 0
IsVerdict nets ip true = IsCovered nets ip
IsVerdict nets ip false = ¬ IsCovered nets ip

compare_places : (k mid : ℕ) → (k < mid) ⊎ ((k ≡ mid) ⊎ (mid < k))
compare_places k mid = elim (Bool-cases (ltb k mid)) [
  | inl e ↦ inl (ltb→lt k mid e)
  | inr e ↦ elim (Bool-cases (ltb mid k)) [
    | inl f ↦ inr (inr (ltb→lt mid k f))
    | inr f ↦ inr (inl (ground arith))
  ]
]

module _ (nets : List IpNet) (ip : List ℕ) (w : IsOrdered nets ip) where
  -- A network that contains the address stands between the bounds.
  abbrev Within : ℕ → ℕ → Type 0
  Within left stop =
      (k : ℕ) (n : IpNet)
      → get_elem? nets k ≡ some n
      → contains n ip ≡ true
      → (left ≤ k) × (k < stop)

  differ : (a : Bool) → a ≡ true → a ≡ false → ⊥
  differ a p q = cc

  same_place :
      (k mid : ℕ) (m n : IpNet)
      → k ≡ mid
      → get_elem? nets k ≡ some m
      → get_elem? nets mid ≡ some n
      → contains m ip ≡ true
      → contains n ip ≡ true
  same_place k mid m n here f e t =
      ap (λ o. elim o as (λ x. Bool) [ none ↦ true | some x ↦ contains x ip ])
        (sym e ∙ ap (get_elem? nets) (sym here) ∙ f)
      ∙ t

  narrow-Within :
      (left stop mid : ℕ) (n : IpNet)
      → get_elem? nets mid ≡ some n
      → contains n ip ≡ false
      → Within left stop
      → (let b = narrow nets ip left stop mid n in Within b.0 b.1)
  narrow-Within left stop mid n e c h = elim (Bool-cases (less n.ip ip)) [
    | inl below ↦ rw below (λ k m f t. elim (compare_places k mid) [
      | inl earlier ↦ absurd (differ (less n.ip ip) below (w.ends_before k mid m n earlier f e t))
      | inr (inl here) ↦ absurd (differ (contains n ip) (same_place k mid m n here f e t) c)
      | inr (inr later) ↦ (omega arith, (h k m f t).1)
    ])
    | inr above ↦ rw above (λ k m f t. elim (compare_places k mid) [
      | inl earlier ↦ ((h k m f t).0, earlier)
      | inr (inl here) ↦ absurd (differ (contains n ip) (same_place k mid m n here f e t) c)
      | inr (inr later) ↦
          absurd (differ (less n.ip ip) (w.begins_after mid k n m later e f t) above)
    ])
  ]

  outside : (left stop : ℕ) → stop ≤ left → Within left stop → ¬ IsCovered nets ip
  outside left stop l h (k, n, e, c) = let (p, q) = h k n e c in omega arith

  -- The bounds are in order and in the list, and there is fuel for what lies between them.
  abbrev Fits : ℕ → ℕ × ℕ → Type 0
  Fits fuel b = (b.1 ≤ length nets) × (b.0 ≤ b.1) × (b.1 < fuel + b.0)

  narrow-Fits :
      (fuel left stop mid : ℕ) (n : IpNet)
      → Fits (suc fuel) (left, stop)
      → left ≤ mid
      → mid < stop
      → Fits fuel (narrow nets ip left stop mid n)
  narrow-Fits fuel left stop mid n f p q = elim (Bool-cases (less n.ip ip)) [
    | inl e ↦ rw e (omega (arith, f), omega (arith, f), omega (arith, f))
    | inr e ↦ rw e (omega (arith, f), omega (arith, f), omega (arith, f))
  ]

  probe-Gives :
      (fuel : ℕ) (again : ℕ × ℕ → Outcome Bool) (left stop mid : ℕ)
      → ((b : ℕ × ℕ) → Fits fuel b → Within b.0 b.1 → Gives (IsVerdict nets ip) (again b))
      → Fits (suc fuel) (left, stop)
      → left ≤ mid
      → mid < stop
      → Within left stop
      → Gives (IsVerdict nets ip) (probe nets ip again left stop mid (get_elem? nets mid))
  probe-Gives fuel again left stop mid go f p q h =
      let (n, e) = get_elem?-lt nets mid (omega (arith, f.0)) in
      subst (λ o. Gives (IsVerdict nets ip) (probe nets ip again left stop mid o)) (sym e)
        (by_test n e (contains n ip) refl)
    where
      by_test :
          (n : IpNet)
          → get_elem? nets mid ≡ some n
          → (c : Bool) → contains n ip ≡ c
          → Gives (IsVerdict nets ip) (elim c as (λ x. Outcome Bool) [
            | true ↦ ok true
            | false ↦ again (narrow nets ip left stop mid n)
          ])
      by_test n e true t = (mid, n, e, t)
      by_test n e false t =
          go (narrow nets ip left stop mid n) (narrow-Fits fuel left stop mid n f p q)
            (narrow-Within left stop mid n e t h)

  search-Gives :
      (fuel : ℕ) (b : ℕ × ℕ)
      → Fits fuel b
      → Within b.0 b.1
      → Gives (IsVerdict nets ip) (search nets ip fuel b)
  unfolding search
  search-Gives zero b f h = absurd (omega (arith, f))
  search-Gives (suc fuel) (left, stop) f h =
      by_bounds (λ b f' h'. search-Gives fuel b f' h') (leb stop left) refl
    where
      by_bounds :
          ((b : ℕ × ℕ)
            → Fits fuel b
            → Within b.0 b.1
            → Gives (IsVerdict nets ip) (search nets ip fuel b))
          → (c : Bool) → leb stop left ≡ c
          → Gives (IsVerdict nets ip) (elim c as (λ x. Outcome Bool) [
            | true ↦ ok false
            | false ↦
                (let mid = (left + stop - 1) / 2 in
                  probe nets ip (search nets ip fuel) left stop mid (get_elem? nets mid))
          ])
      by_bounds go true e = outside left stop (ground arith) h
      by_bounds go false e =
          let l : left < stop = ground arith in
          probe-Gives fuel (search nets ip fuel) left stop ((left + stop - 1) / 2) go f
            (omega arith) (omega arith) h

  search_all-IsVerdict : (r : Bool) × (search_all nets ip ≡ ok r) × IsVerdict nets ip r
  search_all-IsVerdict = Gives-ok (IsVerdict nets ip) (search_all nets ip) (
      search-Gives (length nets + 1) (0, length nets) (omega arith, omega arith, omega arith)
        (λ k n e c. (omega arith, get_elem?-some nets k e)))

-- The networks that are searched, and the form of the address that is searched for.
abbrev pub chosen : GeoipMatcher → List ℕ → Option (List ℕ) → List IpNet × List ℕ
chosen m ip (some v4) = (m.n4, v4)
chosen m ip none = (m.n6, ip)

-- Where the networks of the address's kind are ordered as far as the address can tell, the binary
-- search of `matchIP` ends: with "true" if one of them contains the address, with "false" if none
-- does.
pub match_ip-IsVerdict :
    (m : GeoipMatcher) (ip : List ℕ)
    → IsOrdered (chosen m ip (to4 ip)).0 (chosen m ip (to4 ip)).1
    → (r : Bool) × (match_ip m ip ≡ ok r)
      × IsVerdict (chosen m ip (to4 ip)).0 (chosen m ip (to4 ip)).1 r
unfolding match_ip
match_ip-IsVerdict m ip w = by_form (to4 ip) w
  where
    by_form :
        (o : Option (List ℕ))
        → (let c = chosen m ip o in
            IsOrdered c.0 c.1
            → (r : Bool) × ((elim o as (λ x. Outcome Bool) [
              | some v4 ↦ search_all m.n4 v4
              | none ↦ search_all m.n6 ip
            ])
                ≡ ok r)
              × IsVerdict c.0 c.1 r)
    by_form none w = search_all-IsVerdict m.n6 ip w
    by_form (some v4) w = search_all-IsVerdict m.n4 v4 w
