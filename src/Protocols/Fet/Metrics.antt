-- ===== src/Protocols/Fet/Metrics.antt =====
-- The metrics of the analyzer of fully encrypted traffic, against plain descriptions.
use open_gfw_for_frp_integra.Prelude.{
  ltb, leb, ◌==◌, if◌then◌else◌, ==_iff, Bool-cases, Option-cases, length, All, ℕ, zero, suc, ◌+◌,
  ◌*◌, ◌/◌, ◌%◌, ◌≤◌, ◌<◌, max, ◌≡◌, refl, ap, ◌∙◌, subst, inl, inr, Bool, true, false, none, some,
  List, [], ◌∷◌, ◌++◌, arith,
}
use open_gfw_for_frp_integra.Protocols.Fet.{
  is_printable, pop_count, total_pop_count, all_printable, contiguous_loop, contiguous_printable,
}

-- The longest run of printable bytes, from the front: what a run that goes on adds to `current`.
abbrev lead : List ℕ → ℕ
lead [] = 0
lead (b ∷ bs) = if is_printable b then lead bs + 1 else 0

abbrev longest : List ℕ → ℕ
longest [] = 0
longest (b ∷ bs) = max (lead (b ∷ bs)) (longest bs)

lead-le-longest : (bytes : List ℕ) → lead bytes ≤ longest bytes
lead-le-longest [] = omega arith
lead-le-longest (b ∷ bs) = omega arith

contiguous_loop_lem :
    (bytes : List ℕ) (max_count current : ℕ)
    → contiguous_loop bytes max_count current
      ≡ max max_count (max (current + lead bytes) (longest bytes))
unfolding contiguous_loop
contiguous_loop_lem [] m c = ground arith
contiguous_loop_lem (b ∷ bs) m c = elim (Bool-cases (is_printable b)) [
  | inl e ↦ rw e (contiguous_loop_lem bs m (c + 1) ∙ omega arith)
  | inr e ↦
      rw e
        (contiguous_loop_lem bs (if ltb m c then c else m) 0 ∙ ground (arith, lead-le-longest bs))
]

contiguous_printable-longest : (bytes : List ℕ) → contiguous_printable bytes ≡ longest bytes
unfolding contiguous_printable
contiguous_printable-longest bytes =
    contiguous_loop_lem bytes 0 0 ∙ omega (arith, lead-le-longest bytes)

length-le-lead : (run after : List ℕ) → all_printable run ≡ true → length run ≤ lead (run ++ after)
unfolding all_printable
length-le-lead [] after h = omega arith
length-le-lead (b ∷ run) after h = elim (Bool-cases (is_printable b)) [
  | inl e ↦ rw e (omega (arith, length-le-lead run after (rw e at h)))
  | inr e ↦ cc (rw e at h)
]

longest-append : (before bytes : List ℕ) → longest bytes ≤ longest (before ++ bytes)
longest-append [] bytes = omega arith
longest-append (b ∷ before) bytes = omega (arith, longest-append before bytes)

-- A run of printable bytes of a given length that stands somewhere in `bytes`.
pub record Run (bytes : List ℕ) (n : ℕ) : Type 0 where
  pub before : List ℕ
  pub run : List ℕ
  pub after : List ℕ
  pub stands : before ++ (run ++ after) ≡ bytes
  pub printable : all_printable run ≡ true
  pub long : length run ≡ n

lead_run :
    (bytes : List ℕ)
    → (run : List ℕ) × (after : List ℕ) × (run ++ after ≡ bytes)
      × (all_printable run ≡ true)
      × (length run ≡ lead bytes)
unfolding all_printable
lead_run [] = ([], [], refl, refl, refl)
lead_run (b ∷ bs) = elim (Bool-cases (is_printable b)) [
  | inl e ↦
      let (run, after, s, p, l) = lead_run bs in
      (b ∷ run, after, ap (λ t. b ∷ t) s, rw e p, rw e (omega (arith, l)))
  | inr e ↦ ([], b ∷ bs, refl, refl, rw e)
]

longest-Run : (bytes : List ℕ) → Run bytes (longest bytes)
longest-Run [] = record {
  before = [];
  run = [];
  after = [];
  stands = refl;
  printable = unfold all_printable in refl;
  long = refl;
}
longest-Run (b ∷ bs) = elim (Bool-cases (leb (longest bs) (lead (b ∷ bs)))) [
  | inl here ↦
      let (run, after, s, p, l) = lead_run (b ∷ bs) in
      record {
        before = [];
        run = run;
        after = after;
        stands = s;
        printable = p;
        long = l ∙ ground arith;
      }
  | inr later ↦
      let r = longest-Run bs in
      record {
        before = b ∷ r.before;
        run = r.run;
        after = r.after;
        stands = ap (λ t. b ∷ t) r.stands;
        printable = r.printable;
        long = r.long ∙ ground arith;
      }
]

-- `contiguousPrintable` is the length of the longest run of printable bytes: some run has that
-- length, and no run is longer.
pub contiguous_printable_longest :
    (bytes : List ℕ)
    → Run bytes (contiguous_printable bytes)
      × ((n : ℕ) → Run bytes n → n ≤ contiguous_printable bytes)
contiguous_printable_longest bytes =
    rw (contiguous_printable-longest bytes) (longest-Run bytes, no_longer)
  where
    no_longer : (n : ℕ) → Run bytes n → n ≤ longest bytes
    no_longer n r =
        subst (λ t. n ≤ longest t) r.stands
          (omega (
            arith,
            r.long,
            length-le-lead r.run r.after r.printable,
            lead-le-longest (r.run ++ r.after),
            longest-append r.before (r.run ++ r.after),
          ))

-- The sum of the eight binary digits of a byte.
abbrev pub digit_sum : ℕ → ℕ
digit_sum b =
    b % 2 + b / 2 % 2 + b / 4 % 2 + b / 8 % 2 + b / 16 % 2 + b / 32 % 2 + b / 64 % 2 + b / 128 % 2

counts_digits : ℕ → Bool
unfolding pop_count
counts_digits b = elim (pop_count b) [ none ↦ false | some n ↦ n == digit_sum b ]

-- The test holds of the numbers below `n`.
module _ (test : ℕ → Bool) where
  table_holds : ℕ → Bool
  table_holds zero = true
  table_holds (suc n) = if test n then table_holds n else false

  table_holds_lem : (b n : ℕ) → table_holds n ≡ true → b < n → test b ≡ true
  unfolding table_holds
  table_holds_lem b zero t below = absurd (omega arith)
  table_holds_lem b (suc n) t below = ground (arith, table_holds_lem b n)

bytes_hold : table_holds counts_digits 256 ≡ true
unfolding table_holds counts_digits
bytes_hold = refl

counts_digits_inv : (b : ℕ) → counts_digits b ≡ true → pop_count b ≡ some (digit_sum b)
unfolding counts_digits
counts_digits_inv b h = elim (Option-cases (pop_count b)) [
  | inl e ↦ cc (rw (e, counts_digits) at h)
  | inr (n, e) ↦ e ∙ ap some ((==_iff n (digit_sum b)).0 (rw (e, counts_digits) at h))
]

-- `popCount` of a byte is the sum of its binary digits: its loop ends within eight rounds.
pub pop_count-digit_sum : (b : ℕ) → b < 256 → pop_count b ≡ some (digit_sum b)
pop_count-digit_sum b h = counts_digits_inv b (table_holds_lem counts_digits b 256 bytes_hold h)

abbrev pub sum_digits : List ℕ → ℕ
sum_digits [] = 0
sum_digits (b ∷ bs) = digit_sum b + sum_digits bs

-- The total of the metric "Ex1" on bytes is the number of one bits, and at most eight a byte.
pub total_pop_count_sum :
    (bytes : List ℕ) (total : ℕ)
    → All (λ b. b < 256) bytes
    → (total_pop_count bytes total ≡ some (total + sum_digits bytes))
      × (sum_digits bytes ≤ 8 * length bytes)
unfolding total_pop_count
total_pop_count_sum [] total h = (ap some (omega arith), omega arith)
total_pop_count_sum (b ∷ bs) total (hb, h) =
    rw (pop_count-digit_sum b hb, total_pop_count)
      (
        (total_pop_count_sum bs (total + digit_sum b) h).0 ∙ ap some (omega arith),
        omega (arith, (total_pop_count_sum bs total h).1),
      )
