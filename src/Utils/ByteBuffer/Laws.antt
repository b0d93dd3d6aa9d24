-- ===== src/Utils/ByteBuffer/Laws.antt =====
-- What `get` and `get_until` of the byte buffer return, on every branch.
use open_gfw_for_frp_integra.Prelude.{
  ℕ, zero, suc, ◌+◌, ◌≤◌, ◌<◌, true, false, List, [], ◌∷◌, ◌++◌, none, some, ltb, length, take,
  drop, ◌≡◌, refl, arith, subst, Bool-cases, take-append-drop, length-take, length-append,
  take-append, drop-append, ◌⊎◌, inl, inr, ap, append_assoc, take-length_append, drop-length_append,
}
use open_gfw_for_frp_integra.Utils.ByteBuffer.{
  ByteBuffer, get, get_until, get_found, index, has_prefix,
}

-- A successful consuming `get` cuts the buffer in two, the first part of the length asked for.
-- A failed one leaves the buffer, which was too short.
pub get_split :
    (n : ℕ) (b : ByteBuffer)
    → ((bytes : List ℕ) × (rest : ByteBuffer) × (get n true b ≡ (some bytes, rest))
        × (bytes ++ rest ≡ b)
        × (length bytes ≡ n))
      ⊎ ((get n true b ≡ (none, b)) × (length b < n))
unfolding get
get_split n b = elim (Bool-cases (ltb (length b) n)) [
  | inl short ↦ inr (rw short, ground arith)
  | inr enough ↦
      inl (take n b, drop n b, rw enough, take-append-drop n b, ground (arith, length-take n b))
]

-- More bytes behind do not change what a `get` that succeeded returns.
pub get-append :
    (n : ℕ) (b more bytes : List ℕ) (rest : ByteBuffer)
    → get n true b ≡ (some bytes, rest)
    → get n true (b ++ more) ≡ (some bytes, rest ++ more)
unfolding get
get-append n b more bytes rest h =
    ground (arith, take-append n b more, drop-append n b more, length-append b more)

-- On a buffer that begins with `bytes`, `get` of their number takes just them.
pub get-length_append :
    (bytes rest : List ℕ) → get (length bytes) true (bytes ++ rest) ≡ (some bytes, rest)
unfolding get
get-length_append bytes rest =
    ground (
      arith,
      length-append bytes rest,
      take-length_append bytes rest,
      drop-length_append bytes rest,
    )

has_prefix-append : (sep back : List ℕ) → has_prefix sep (sep ++ back) ≡ true
unfolding has_prefix
has_prefix-append [] back = refl
has_prefix-append (p ∷ ps) back = ground (arith, has_prefix-append ps back)

has_prefix_inv : (sep b : List ℕ) → has_prefix sep b ≡ true → sep ++ drop (length sep) b ≡ b
unfolding has_prefix
has_prefix_inv [] b h = refl
has_prefix_inv (p ∷ ps) [] h = cc
has_prefix_inv (p ∷ ps) (b ∷ bs) h = ground (arith, has_prefix_inv ps bs)

-- `i` is the first position of `sep` in `b`.
pub record IsFirst (sep : List ℕ) (b : List ℕ) (i : ℕ) : Type 0 where
  pub stands : take i b ++ (sep ++ drop (length sep) (drop i b)) ≡ b
  pub within : i ≤ length b
  pub earliest : (j : ℕ) → j < i → has_prefix sep (drop j b) ≡ false

IsFirst-zero : (sep b : List ℕ) → has_prefix sep b ≡ true → IsFirst sep b 0
IsFirst-zero sep b h = record {
  stands = has_prefix_inv sep b h;
  within = omega arith;
  earliest = λ j l. absurd (omega arith);
}

IsFirst-suc :
    (sep bs : List ℕ) (b i : ℕ)
    → has_prefix sep (b ∷ bs) ≡ false
    → IsFirst sep bs i
    → IsFirst sep (b ∷ bs) (suc i)
IsFirst-suc sep bs b i h f = record {
  stands = ap (λ t. b ∷ t) f.stands;
  within = omega (arith, f.within);
  earliest = before;
}
  where
    before : (j : ℕ) → j < suc i → has_prefix sep (drop j (b ∷ bs)) ≡ false
    before zero l = h
    before (suc j) l = f.earliest j (omega arith)

-- `bytes.Index` answers the first position, or that there is none.
pub index-IsFirst :
    (sep b : List ℕ)
    → ((i : ℕ) × (index sep b ≡ some i) × IsFirst sep b i)
      ⊎ ((index sep b ≡ none) × ((j : ℕ) → has_prefix sep (drop j b) ≡ false))
unfolding index
index-IsFirst sep [] = elim (Bool-cases (has_prefix sep [])) [
  | inl here ↦ inl (0, rw here, IsFirst-zero sep [] here)
  | inr no_sep ↦ inr (
    rw no_sep,
    λ j. elim j as (λ k. has_prefix sep (drop k []) ≡ false) [ zero ↦ no_sep | suc k ↦ no_sep ],
  )
]
index-IsFirst sep (b ∷ bs) = elim (Bool-cases (has_prefix sep (b ∷ bs))) [
  | inl here ↦ inl (0, rw here, IsFirst-zero sep (b ∷ bs) here)
  | inr later ↦ elim (index-IsFirst sep bs) [
    | inl (i, e, f) ↦ inl (suc i, rw (later, e), IsFirst-suc sep bs b i later f)
    | inr (e, never) ↦ inr (
      rw (later, e),
      λ j. elim j as (λ k. has_prefix sep (drop k (b ∷ bs)) ≡ false) [
        | zero ↦ later
        | suc k ↦ never k
      ],
    )
  ]
]

pub get-length_two :
    (front sep back : List ℕ)
    → get (length front + length sep) true (front ++ (sep ++ back)) ≡ (some (front ++ sep), back)
get-length_two front sep back =
    rw (← append_assoc front sep back, ← length-append front sep)
      (get-length_append (front ++ sep) back)

-- `GetUntil(sep, true, true)`: where `sep` stands in the buffer, the bytes up to its first
-- occurrence and that occurrence are cut off; where it does not, the buffer stays.
pub get_until_split :
    (sep b : List ℕ)
    → ((front : List ℕ) × (rest : ByteBuffer) × (get_until sep true true b
          ≡ (some (front ++ sep), rest))
        × (front ++ (sep ++ rest) ≡ b)
        × ((j : ℕ) → j < length front → has_prefix sep (drop j b) ≡ false))
      ⊎ ((get_until sep true true b ≡ (none, b)) × ((j : ℕ) → has_prefix sep (drop j b) ≡ false))
unfolding get_until
get_until_split sep b = elim (index-IsFirst sep b) [
  | inl (i, e, f) ↦ inl (found i e f (ground (arith, length-take i b, f.within)))
  | inr (e, never) ↦ inr (rw (e, get_found), never)
]
  where
    found :
        (i : ℕ)
        → index sep b ≡ some i
        → IsFirst sep b i
        → length (take i b) ≡ i
        → (front : List ℕ) × (rest : ByteBuffer) × (get_until sep true true b
            ≡ (some (front ++ sep), rest))
          × (front ++ (sep ++ rest) ≡ b)
          × ((j : ℕ) → j < length front → has_prefix sep (drop j b) ≡ false)
    found i e f l = (
      take i b,
      drop (length sep) (drop i b),
      rw (e, get_found)
          (subst
            (λ c.
              get (i + length sep) true c ≡ (some (take i b ++ sep), drop (length sep) (drop i b)))
            f.stands
            (subst
              (λ k.
                get (k + length sep) true (take i b ++ (sep ++ drop (length sep) (drop i b)))
                ≡ (some (take i b ++ sep), drop (length sep) (drop i b)))
              l (get-length_two (take i b) sep (drop (length sep) (drop i b))))),
      f.stands,
      λ j h. f.earliest j (omega (arith, l)),
    )
