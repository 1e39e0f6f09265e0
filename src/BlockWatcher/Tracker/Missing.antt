-- ===== src/BlockWatcher/Tracker/Missing.antt =====
-- Gap detection: which numbers `detect_missing_blocks` reports, and in which order.
use openzeppelin_monitor.Prelude.{
  ℕ, zero, suc, ◌+◌, ◌-◌, ◌≡◌, refl, Bool, true, false, not, List, [], ◌∷◌, none, some, arith, ◌↔◌,
  ◌≤◌, ◌<◌, ◌&&◌, ltb, leb, ◌==◌, contains, filter, inl, inr, Bool-cases, Option-cases, All, sym,
  ◌∙◌, ap,
}
use openzeppelin_monitor.Prelude.Sorted.{IsAscending}
use openzeppelin_monitor.Models.Block.{BlockType}
use openzeppelin_monitor.BlockWatcher.Tracker.{
  min_of, max_of, range_from, numbers, gaps, detect_missing_blocks,
}

contains-range_from :
    (count first n : ℕ) → contains (range_from count first) n ≡ leb first n && ltb n (first + count)
unfolding range_from
contains-range_from zero first n = ground arith
contains-range_from (suc count) first n = ground (arith, contains-range_from count (suc first) n)

contains-filter :
    (p : ℕ → Bool) (xs : List ℕ) (n : ℕ) → contains (filter p xs) n ≡ contains xs n && p n
contains-filter p [] n = refl
contains-filter p (x ∷ xs) n = elim (Bool-cases (x == n)) [
  | inl e ↦ let same : x ≡ n = ground arith in rw same (ground (arith, contains-filter p xs n))
  | inr e ↦ ground (arith, contains-filter p xs n)
]

min_of-le : (xs : List ℕ) (m n : ℕ) → min_of xs ≡ some m → contains xs n ≡ true → m ≤ n
min_of-le [] m n e h = cc
min_of-le (x ∷ xs) m n e h = elim (Option-cases (min_of xs)) [
  | inl none_left ↦ ground (arith, min_of_none xs none_left)
  | inr (k, rest) ↦ ground (arith, min_of-le xs k n rest)
]
  where
    min_of_none : (ys : List ℕ) → min_of ys ≡ none → ys ≡ []
    min_of_none [] e' = refl
    min_of_none (y ∷ ys) e' = absurd (ground arith)

le-max_of : (xs : List ℕ) (m n : ℕ) → max_of xs ≡ some m → contains xs n ≡ true → n ≤ m
le-max_of [] m n e h = cc
le-max_of (x ∷ xs) m n e h = elim (Option-cases (max_of xs)) [
  | inl none_left ↦ ground (arith, max_of_none xs none_left)
  | inr (k, rest) ↦ ground (arith, le-max_of xs k n rest)
]
  where
    max_of_none : (ys : List ℕ) → max_of ys ≡ none → ys ≡ []
    max_of_none [] e' = refl
    max_of_none (y ∷ ys) e' = absurd (ground arith)

contains-min_of : (xs : List ℕ) (m : ℕ) → min_of xs ≡ some m → contains xs m ≡ true
contains-min_of [] m e = cc
contains-min_of (x ∷ xs) m e = elim (Option-cases (min_of xs)) [
  | inl none_left ↦ ground arith
  | inr (k, rest) ↦ ground (arith, contains-min_of xs k rest)
]

contains-max_of : (xs : List ℕ) (m : ℕ) → max_of xs ≡ some m → contains xs m ≡ true
contains-max_of [] m e = cc
contains-max_of (x ∷ xs) m e = elim (Option-cases (max_of xs)) [
  | inl none_left ↦ ground arith
  | inr (k, rest) ↦ ground (arith, contains-max_of xs k rest)
]

-- A number that lies strictly between two fetched numbers and was not fetched itself.
pub record IsMissed (fetched : List ℕ) (n : ℕ) : Type 0 where
  pub before : ℕ
  pub after : ℕ
  pub before_fetched : contains fetched before ≡ true
  pub after_fetched : contains fetched after ≡ true
  pub above : before < n
  pub below : n < after
  pub not_fetched : contains fetched n ≡ false

-- The membership test of the gaps, by the range and the fetched numbers.
contains-gaps :
    (fetched : List ℕ) (lo hi n : ℕ)
    → min_of fetched ≡ some lo
    → max_of fetched ≡ some hi
    → contains (gaps fetched) n
      ≡ (leb lo n && ltb n (lo + (suc hi - lo))) && not (contains fetched n)
unfolding gaps
contains-gaps fetched lo hi n least greatest =
    rw (least, gaps)
      (rw (greatest, gaps)
        (contains-filter _ _ n
          ∙ ap (λ b. b && not (contains fetched n)) (contains-range_from _ lo n)))

strictly_between :
    (fetched : List ℕ) (lo hi n : ℕ)
    → min_of fetched ≡ some lo
    → max_of fetched ≡ some hi
    → contains (gaps fetched) n ≡ true
    → (lo < n) × (n < hi) × (contains fetched n ≡ false)
strictly_between fetched lo hi n least greatest h = (
  ground (arith, facts, contains-min_of fetched lo least, λ (e : lo ≡ n). moved lo e),
  ground (arith, facts, contains-max_of fetched hi greatest, λ (e : hi ≡ n). moved hi e),
  ground (arith, facts),
)
  where
    facts : ((leb lo n && ltb n (lo + (suc hi - lo))) && not (contains fetched n)) ≡ true
    facts = sym (contains-gaps fetched lo hi n least greatest) ∙ h

    moved : (m : ℕ) → m ≡ n → contains fetched m ≡ contains fetched n
    moved m e = ap (contains fetched) e

IsMissed-of_gaps :
    (fetched : List ℕ) (n : ℕ) → contains (gaps fetched) n ≡ true → IsMissed fetched n
unfolding gaps
IsMissed-of_gaps [] n h = cc
IsMissed-of_gaps (x ∷ xs) n h = elim (Option-cases (min_of (x ∷ xs))) [
  | inl e ↦ absurd (ground arith)
  | inr (lo, least) ↦ elim (Option-cases (max_of (x ∷ xs))) [
    | inl e ↦ absurd (ground arith)
    | inr (hi, greatest) ↦
        let (above, below, missing) = strictly_between (x ∷ xs) lo hi n least greatest h in
        record {
          before = lo;
          after = hi;
          before_fetched = contains-min_of (x ∷ xs) lo least;
          after_fetched = contains-max_of (x ∷ xs) hi greatest;
          above = above;
          below = below;
          not_fetched = missing;
        }
  ]
]

gaps_of_IsMissed :
    (fetched : List ℕ) (n : ℕ) → IsMissed fetched n → contains (gaps fetched) n ≡ true
gaps_of_IsMissed fetched n m = elim (Option-cases (min_of fetched)) [
  | inl e ↦ absurd (empty_min fetched m.before e m.before_fetched)
  | inr (lo, least) ↦ elim (Option-cases (max_of fetched)) [
    | inl e ↦ absurd (empty_max fetched m.before e m.before_fetched)
    | inr (hi, greatest) ↦
        contains-gaps fetched lo hi n least greatest
        ∙ ground (
          arith,
          min_of-le fetched lo m.before least m.before_fetched,
          le-max_of fetched hi m.after greatest m.after_fetched,
        )
  ]
]
  where
    empty_min : (xs : List ℕ) (k : ℕ) → min_of xs ≡ none → contains xs k ≡ true → ⊥
    empty_min [] k e h = cc
    empty_min (x ∷ xs) k e h = ground arith

    empty_max : (xs : List ℕ) (k : ℕ) → max_of xs ≡ none → contains xs k ≡ true → ⊥
    empty_max [] k e h = cc
    empty_max (x ∷ xs) k e h = ground arith

-- A number is reported as missed exactly when it lies strictly between two numbers of the batch
-- and is not in the batch itself. So a block missing at either end of the range that was asked
-- for is never reported.
pub detect_missing_blocks_iff :
    (fetched_blocks : List BlockType) (n : ℕ)
    → (contains (detect_missing_blocks fetched_blocks) n ≡ true)
      ↔ IsMissed (numbers fetched_blocks) n
unfolding detect_missing_blocks
detect_missing_blocks_iff fetched_blocks n =
    (IsMissed-of_gaps (numbers fetched_blocks) n, gaps_of_IsMissed (numbers fetched_blocks) n)

All-range_from :
    (p : ℕ → Bool) (count first k : ℕ)
    → k < first
    → All (λ y. k < y) (filter p (range_from count first))
unfolding range_from
All-range_from p zero first k h = tt
All-range_from p (suc count) first k h = elim (Bool-cases (p first)) [
  | inl e ↦ rw e (h, All-range_from p count (suc first) k (omega arith))
  | inr e ↦ rw e (All-range_from p count (suc first) k (omega arith))
]

filter-range_from-IsAscending :
    (p : ℕ → Bool) (count first : ℕ) → IsAscending (λ n. n) (filter p (range_from count first))
unfolding range_from
filter-range_from-IsAscending p zero first = tt
filter-range_from-IsAscending p (suc count) first = elim (Bool-cases (p first)) [
  | inl e ↦ rw e (
    All-range_from p count (suc first) first (omega arith),
    filter-range_from-IsAscending p count (suc first),
  )
  | inr e ↦ rw e (filter-range_from-IsAscending p count (suc first))
]

-- The missed blocks are reported in ascending order, each one once.
pub detect_missing_blocks-IsAscending :
    (fetched_blocks : List BlockType) → IsAscending (λ n. n) (detect_missing_blocks fetched_blocks)
unfolding detect_missing_blocks gaps
detect_missing_blocks-IsAscending fetched_blocks = elim (Option-cases (min_of fetched)) [
  | inl e ↦ rw (e, gaps) tt
  | inr (lo, least) ↦ elim (Option-cases (max_of fetched)) [
    | inl e ↦ rw (least, gaps) (rw (e, gaps) tt)
    | inr (hi, greatest) ↦
        rw (least, gaps) (rw (greatest, gaps) (filter-range_from-IsAscending _ (suc hi - lo) lo))
  ]
]
  where
    fetched : List ℕ
    fetched = numbers fetched_blocks
