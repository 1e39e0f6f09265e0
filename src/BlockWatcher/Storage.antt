-- ===== src/BlockWatcher/Storage.antt =====
-- src/services/blockwatcher/storage.rs: the entries of missed blocks, what the storage methods do
-- to a network's list of entries, and the trait `BlockStorage` as a record of methods. `File` is
-- the file-based implementation.
pub mod Entries
pub mod File
pub mod Memory
use openzeppelin_monitor.Prelude.{
  ℕ, ◌+◌, ◌-◌, Bool, true, false, not, ◌&&◌, List, [], ◌∷◌, ◌++◌, Option, none, some, String, ltb,
  leb, ◌==◌, if◌then◌else◌, contains, filter, length, ◌≡◌, map,
}
use openzeppelin_monitor.Prelude.Word.{u32, saturating_sub}
use openzeppelin_monitor.Prelude.Result.{Result}
use openzeppelin_monitor.Models.Block.{BlockType}

pub data MissedBlockStatus : Type 0 where
  pending recovering recovered failed : MissedBlockStatus

pub record MissedBlockEntry : Type 0 where
  pub block_number : ℕ  -- u64
  pub first_missed_at : ℕ  -- seconds since the epoch
  pub retry_count : ℕ  -- u32
  pub status : MissedBlockStatus
  pub last_attempt_at : Option ℕ
  pub last_error : Option String

-- `MissedBlockEntry::new`; `now` is `Utc::now().timestamp()`.
unfoldable pub new_entry : ℕ → ℕ → MissedBlockEntry
new_entry now block_number = record {
  block_number = block_number;
  first_missed_at = now;
  retry_count = 0;
  status = pending;
  last_attempt_at = none;
  last_error = none;
}

abbrev pub block_numbers : List MissedBlockEntry → List ℕ
block_numbers [] = []
block_numbers (e ∷ es) = e.block_number ∷ block_numbers es

-- The loop of `save_missed_blocks`: `existing` was taken before it.
unfoldable pub push_missed : ℕ → List ℕ → List ℕ → List MissedBlockEntry → List MissedBlockEntry
unfolding new_entry
push_missed now existing [] entries = entries
push_missed now existing (n ∷ ns) entries =
    push_missed now existing ns
      (if contains existing n then entries else entries ++ new_entry now n ∷ [])

unfoldable pub save_missed : ℕ → List ℕ → List MissedBlockEntry → List MissedBlockEntry
unfolding push_missed
save_missed now blocks entries = push_missed now (block_numbers entries) blocks entries

abbrev pub is_pending : MissedBlockStatus → Bool
is_pending pending = true
is_pending _ = false

-- The test of `get_missed_blocks`.
unfoldable pub is_eligible : ℕ → ℕ → MissedBlockEntry → Bool
is_eligible min_block max_retries e =
    (leb min_block e.block_number && is_pending e.status) && ltb e.retry_count max_retries

unfoldable pub get_missed : ℕ → ℕ → ℕ → List MissedBlockEntry → List MissedBlockEntry
unfolding is_eligible
get_missed max_block_age current_block max_retries entries =
    filter (is_eligible (saturating_sub current_block max_block_age) max_retries) entries

-- A retry is counted when the entry goes back to pending, or is given up.
abbrev pub counts_retry : MissedBlockStatus → Bool
counts_retry pending = true
counts_retry failed = true
counts_retry _ = false

abbrev pub or_error : Option String → Option String → Option String
or_error (some e) old = some e
or_error none old = old

unfoldable pub update_entry :
    ℕ → MissedBlockStatus → Option String → MissedBlockEntry → MissedBlockEntry
update_entry now status error e = record e {
  retry_count = if counts_retry status then u32 (e.retry_count + 1) else e.retry_count;
  status = status;
  last_attempt_at = some now;
  last_error = or_error error e.last_error;
}

-- The first entry with the number is updated.
unfoldable pub update_status :
    ℕ → ℕ → MissedBlockStatus → Option String → List MissedBlockEntry → List MissedBlockEntry
unfolding update_entry
update_status now n status error [] = []
update_status now n status error (e ∷ es) =
    let rest = update_status now n status error es in
    if e.block_number == n then update_entry now status error e ∷ es else e ∷ rest

unfoldable pub remove_recovered : List ℕ → List MissedBlockEntry → List MissedBlockEntry
remove_recovered blocks entries = filter (λ e. not (contains blocks e.block_number)) entries

unfoldable pub prune_old : ℕ → ℕ → List MissedBlockEntry → List MissedBlockEntry
prune_old max_block_age current_block entries =
    filter (λ e. leb (saturating_sub current_block max_block_age) e.block_number) entries

pub data StorageError : Type 0 where
  read_failed parse_failed write_failed serialize_failed delete_failed glob_failed : StorageError

-- A method takes the state of the storage and returns its result with the new state. The clock of
-- the methods that read one is the argument `now`.
pub record BlockStorage (S : Type 0) : Type 0 where
  pub get_last_processed_block : String → S → Result StorageError (Option ℕ) × S
  pub save_last_processed_block : String → ℕ → S → Result StorageError (Unit {0}) × S
  pub save_blocks : ℕ → String → List BlockType → S → Result StorageError (Unit {0}) × S
  pub delete_blocks : String → S → Result StorageError (Unit {0}) × S
  pub save_missed_blocks : ℕ → String → List ℕ → S → Result StorageError (Unit {0}) × S
  pub get_missed_blocks :
      ℕ → String → ℕ → ℕ → ℕ → S → Result StorageError (List MissedBlockEntry) × S
  pub update_missed_block_status :
      ℕ → String → ℕ → MissedBlockStatus → Option String → S → Result StorageError (Unit {0}) × S
  pub remove_recovered_blocks : ℕ → String → List ℕ → S → Result StorageError (Unit {0}) × S
  pub prune_old_missed_blocks : ℕ → String → ℕ → ℕ → S → Result StorageError ℕ × S
