-- ===== src/BlockWatcher/Tracker.antt =====
-- src/services/blockwatcher/tracker.rs: the processed history of each network, the next block that
-- is expected, and the search for gaps in a batch. The two mutex-guarded maps are fields of the
-- record, and a method returns the new record. A `HashSet` of numbers is the list it is built
-- from, of which only membership, minimum and maximum are read.
pub mod Missing
pub mod History
pub mod Sequence
use openzeppelin_monitor.Prelude.{
  ℕ, zero, suc, ◌+◌, ◌-◌, ◌≡◌, refl, Bool, true, false, not, List, [], ◌∷◌, ◌++◌, Option, none,
  some, String, min, max, ltb, leb, ◌==◌, if◌then◌else◌, contains, length, filter,
}
use openzeppelin_monitor.Prelude.Dict.{lookup, insert}
use openzeppelin_monitor.Prelude.Word.{u64}
use openzeppelin_monitor.Models.Block.{BlockType, number, unwrap_or}
use openzeppelin_monitor.Models.Network.{Network}

pub data BlockCheckResult : Type 0 where
  ok : BlockCheckResult
  duplicate : (last_seen : ℕ) → BlockCheckResult
  out_of_order : (expected received : ℕ) → BlockCheckResult

pub record BlockTracker : Type 0 where
  pub processed_history : List (String × List ℕ)
  pub expected_next : List (String × ℕ)
  pub history_size : ℕ

unfoldable pub new : ℕ → BlockTracker
new history_size = record {
  processed_history = [];
  expected_next = [];
  history_size = history_size;
}

-- `VecDeque::back`.
abbrev pub back : List ℕ → Option ℕ
back [] = none
back (x ∷ []) = some x
back (x ∷ y ∷ xs) = back (y ∷ xs)

-- `Iterator::max` and `min`.
abbrev pub max_of : List ℕ → Option ℕ
max_of [] = none
max_of (x ∷ xs) = elim (max_of xs) [ none ↦ some x | some m ↦ some (max x m) ]

abbrev pub min_of : List ℕ → Option ℕ
min_of [] = none
min_of (x ∷ xs) = elim (min_of xs) [ none ↦ some x | some m ↦ some (min x m) ]

unfoldable pub get_last_block : BlockTracker → String → Option ℕ
get_last_block t slug = elim (lookup slug t.processed_history) [
  | none ↦ none
  | some history ↦ max_of history
]

-- `while len > history_size { pop_front }`.
unfoldable pub trim : ℕ → List ℕ → List ℕ
trim history_size [] = []
trim history_size (x ∷ xs) =
    let rest = trim history_size xs in if ltb history_size (length (x ∷ xs)) then rest else x ∷ xs

-- The test of one block against the network's history and the expected number.
unfoldable pub classify : List ℕ → ℕ → ℕ → BlockCheckResult
classify history expected block_number =
    if contains history block_number
    then duplicate (unwrap_or block_number (back history))
    else if ltb block_number expected
    then out_of_order expected block_number
    else ok

-- What `push_back` and the loop over `history_size` leave of the history; a duplicate returns
-- before them.
unfoldable pub record_block : ℕ → List ℕ → ℕ → List ℕ
unfolding trim
record_block history_size history block_number =
    if contains history block_number
    then history
    else trim history_size (history ++ block_number ∷ [])

unfoldable pub advance : List ℕ → ℕ → ℕ → ℕ
advance history expected block_number =
    if contains history block_number
    then expected
    else if leb expected block_number
    then u64 (block_number + 1)
    else expected

unfoldable pub check_processed_block : BlockTracker → Network → ℕ → BlockTracker × BlockCheckResult
unfolding classify record_block advance insert
check_processed_block t network block_number =
    let history = unwrap_or [] (lookup network.slug t.processed_history) in
    let expected = unwrap_or block_number (lookup network.slug t.expected_next) in
    (
      record t {
        processed_history =
            insert network.slug (record_block t.history_size history block_number)
              t.processed_history;
        expected_next = insert network.slug (advance history expected block_number) t.expected_next;
      },
      classify history expected block_number,
    )

-- The entry is lowered to the start block, or made.
unfoldable pub reset_expected_next : BlockTracker → Network → ℕ → BlockTracker
unfolding insert
reset_expected_next t network start_block = elim (lookup network.slug t.expected_next) [
  | none ↦ record t { expected_next = insert network.slug start_block t.expected_next }
  | some expected ↦
      if ltb start_block expected
      then record t { expected_next = insert network.slug start_block t.expected_next }
      else t
]

-- The numbers from `first` on, `count` of them.
unfoldable pub range_from : ℕ → ℕ → List ℕ
range_from zero first = []
range_from (suc count) first = first ∷ range_from count (suc first)

-- `first..=last`.
abbrev pub range_inclusive : ℕ → ℕ → List ℕ
range_inclusive first last = range_from (suc last - first) first

-- `filter_map(|block| block.number())`.
unfoldable pub numbers : List BlockType → List ℕ
unfolding number
numbers [] = []
numbers (b ∷ bs) = elim (number b) [ none ↦ numbers bs | some n ↦ n ∷ numbers bs ]

-- The gaps between the least and the greatest number of the batch.
unfoldable pub gaps : List ℕ → List ℕ
unfolding range_from
gaps fetched = elim (min_of fetched) [
  | none ↦ []
  | some first ↦ elim (max_of fetched) [
    | none ↦ []
    | some last ↦ filter (λ num. not (contains fetched num)) (range_inclusive first last)
  ]
]

unfoldable pub detect_missing_blocks : List BlockType → List ℕ
unfolding numbers gaps
detect_missing_blocks fetched_blocks = gaps (numbers fetched_blocks)
