-- ===== src/BlockWatcher/Tracker/History.antt =====
-- The processed history of a network: bounded, free of duplicates, and what a check says of a block.
use openzeppelin_monitor.Prelude.{
  IsDistinct, IsDistinct-push_back, ℕ, ◌≡◌, ◌≢◌, refl, true, false, List, [], ◌∷◌, ◌++◌, some,
  arith, ◌≤◌, ◌<◌, String, ltb, contains, length, ◌⊎◌, inl, inr, Bool-cases, Option-cases,
  contains-append, ==_refl, eq_iff, str_eq,
}
use openzeppelin_monitor.Prelude.Dict.{lookup, insert, lookup-insert, lookup-insert_self}
use openzeppelin_monitor.Models.Block.{unwrap_or}
use openzeppelin_monitor.Models.Network.{Network}
use openzeppelin_monitor.BlockWatcher.Tracker.{
  BlockTracker, duplicate, new, trim, classify, record_block, back, check_processed_block,
}

length-trim : (size : ℕ) (xs : List ℕ) → length (trim size xs) ≤ size
unfolding trim
length-trim size [] = omega arith
length-trim size (x ∷ xs) = ground (arith, length-trim size xs)

pub contains-trim :
    (size n : ℕ) (xs : List ℕ) → contains xs n ≡ false → contains (trim size xs) n ≡ false
unfolding trim
contains-trim size n [] h = refl
contains-trim size n (x ∷ xs) h = ground (arith, contains-trim size n xs)

IsDistinct-trim : (size : ℕ) (xs : List ℕ) → IsDistinct xs → IsDistinct (trim size xs)
unfolding trim
IsDistinct-trim size [] h = tt
IsDistinct-trim size (x ∷ xs) (p, h) = elim (Bool-cases (ltb size (length (x ∷ xs)))) [
  | inl e ↦ rw e (IsDistinct-trim size xs h)
  | inr e ↦ rw e (p, h)
]

-- The newest block stays in a history that has room for one.
contains-trim_last :
    (size : ℕ) (xs : List ℕ) (n : ℕ) → 0 < size → contains (trim size (xs ++ n ∷ [])) n ≡ true
unfolding trim
contains-trim_last size [] n h = ground (arith, ==_refl n)
contains-trim_last size (x ∷ xs) n h = elim (Bool-cases (ltb size (length (x ∷ xs ++ n ∷ [])))) [
  | inl e ↦ rw e (contains-trim_last size xs n h)
  | inr e ↦ rw e (ground (arith, contains-append xs (n ∷ []) n, ==_refl n))
]

length-record_block :
    (size : ℕ) (history : List ℕ) (n : ℕ)
    → length history ≤ size
    → length (record_block size history n) ≤ size
unfolding record_block
length-record_block size history n h = ground (arith, length-trim size (history ++ n ∷ []))

record_block-IsDistinct :
    (size : ℕ) (history : List ℕ) (n : ℕ)
    → IsDistinct history
    → IsDistinct (record_block size history n)
unfolding record_block
record_block-IsDistinct size history n h = elim (Bool-cases (contains history n)) [
  | inl e ↦ rw e h
  | inr e ↦ rw e (IsDistinct-trim size (history ++ n ∷ []) (IsDistinct-push_back history n h e))
]

contains-record_block :
    (size : ℕ) (history : List ℕ) (n : ℕ)
    → 0 < size
    → contains (record_block size history n) n ≡ true
unfolding record_block
contains-record_block size history n h = ground (arith, contains-trim_last size history n h)

-- No network has a history longer than `history_size`, or a block twice in it.
pub record IsSound (t : BlockTracker) : Type 0 where
  pub bounded :
      (slug : String) (history : List ℕ)
      → lookup slug t.processed_history ≡ some history
      → length history ≤ t.history_size
  pub distinct :
      (slug : String) (history : List ℕ)
      → lookup slug t.processed_history ≡ some history
      → IsDistinct history

pub new-IsSound : (history_size : ℕ) → IsSound (new history_size)
unfolding new
new-IsSound history_size = record {
  bounded = λ slug history e. absurd (ground arith);
  distinct = λ slug history e. absurd (ground arith);
}

-- The history that a check starts from.
abbrev pub history_of : BlockTracker → String → List ℕ
history_of t slug = unwrap_or [] (lookup slug t.processed_history)

history_of-bounded :
    (t : BlockTracker) (slug : String) → IsSound t → length (history_of t slug) ≤ t.history_size
history_of-bounded t slug s = elim (Option-cases (lookup slug t.processed_history)) [
  | inl e ↦ rw e (omega arith)
  | inr (history, e) ↦ rw e (s.bounded slug history e)
]

history_of-IsDistinct :
    (t : BlockTracker) (slug : String) → IsSound t → IsDistinct (history_of t slug)
history_of-IsDistinct t slug s = elim (Option-cases (lookup slug t.processed_history)) [
  | inl e ↦ rw e tt
  | inr (history, e) ↦ rw e (s.distinct slug history e)
]

-- What `insert` leaves under a key: the new value for its own, the old one for any other.
inserted {ℓ} :
    {V : Type ℓ} (k slug : String) (v : V) (m : List (String × V)) (w : V)
    → lookup slug (insert k v m) ≡ some w
    → ((k ≡ slug) × (v ≡ w)) ⊎ (lookup slug m ≡ some w)
inserted k slug v m w e = elim (Bool-cases (str_eq k slug)) [
  | inl same ↦ inl ((eq_iff k slug).0 same, ground (arith, lookup-insert k slug v m))
  | inr other ↦ inr (ground (arith, lookup-insert k slug v m))
]

-- A check of a tracker whose histories are within `history_size` and free of duplicates keeps them
-- so.
pub check_processed_block-IsSound :
    (t : BlockTracker) (network : Network) (block_number : ℕ)
    → IsSound t
    → IsSound (check_processed_block t network block_number).0
unfolding check_processed_block
check_processed_block-IsSound t network n s = record {
  bounded = λ slug history e. elim (inserted network.slug slug recorded _ history e) [
    | inl (_, same) ↦
        rw (← same) (length-record_block t.history_size _ n (history_of-bounded t network.slug s))
    | inr old ↦ s.bounded slug history old
  ];
  distinct = λ slug history e. elim (inserted network.slug slug recorded _ history e) [
    | inl (_, same) ↦
        rw (← same)
          (record_block-IsDistinct t.history_size _ n (history_of-IsDistinct t network.slug s))
    | inr old ↦ s.distinct slug history old
  ];
}
  where
    recorded : List ℕ
    recorded = record_block t.history_size (history_of t network.slug) n

-- If the history has room for a block, a block that is checked a second time, whatever came out of
-- the first check, is reported as a duplicate.
pub check_processed_block_twice :
    (t : BlockTracker) (network : Network) (block_number : ℕ)
    → 0 < t.history_size
    → (last_seen : ℕ) × ((check_processed_block
          (check_processed_block t network block_number).0
          network
          block_number).1
        ≡ duplicate last_seen)
unfolding check_processed_block classify
check_processed_block_twice t network n room = (
  unwrap_or n (back (record_block t.history_size (history_of t network.slug) n)),
  rw lookup-insert_self
      (rw (contains-record_block t.history_size (history_of t network.slug) n room) refl),
)

-- A check of one network leaves the history and the expected number of every other network.
pub check_processed_block-other :
    (t : BlockTracker) (network : Network) (block_number : ℕ) (slug : String)
    → network.slug ≢ slug
    → let t' = (check_processed_block t network block_number).0 in
      (lookup slug t'.processed_history ≡ lookup slug t.processed_history)
      × (lookup slug t'.expected_next ≡ lookup slug t.expected_next)
unfolding check_processed_block
check_processed_block-other t network n slug other =
    (lookup-insert_other _ t.processed_history, lookup-insert_other _ t.expected_next)
  where
    lookup-insert_other :
        {V : Type 0} (v : V) (m : List (String × V))
        → lookup slug (insert network.slug v m) ≡ lookup slug m
    lookup-insert_other v m =
        ground (arith, lookup-insert network.slug slug v m, eq_iff network.slug slug)
