-- ===== src/BlockWatcher/Storage/File.antt =====
-- src/services/blockwatcher/storage.rs, `FileBlockStorage`. The directory is a dictionary from a
-- path to a file's text (a list of code points); `Io` says which files can be read, written and
-- removed, and a refused write or removal leaves the file as it was. serde_json is the parameter
-- `Codec`: its two functions on the list of entries and on the blocks, and its documented round trip. The crate
-- glob is the parameter `glob`, which picks the matching paths of a directory, or refuses the pattern.
pub mod Laws
pub mod LastBlock
pub mod Migration
use Prim.Native.String
use openzeppelin_monitor.Prelude.{
  ℕ, zero, suc, ◌+◌, ◌-◌, ◌*◌, ◌/◌, ◌%◌, Bool, true, false, not, ◌&&◌, ◌||◌, List, [], ◌∷◌, ◌++◌,
  Option, none, some, String, ltb, leb, ◌==◌, if◌then◌else◌, contains, filter, length, ◌≡◌, map,
}
use openzeppelin_monitor.Prelude.Dict.{lookup, insert, remove, contains_key}
use openzeppelin_monitor.Prelude.Result.{Result, ok, err}
use openzeppelin_monitor.Models.Block.{BlockType}
use openzeppelin_monitor.Models.Parse.{from_str_radix}
use openzeppelin_monitor.BlockWatcher.Storage.{
  MissedBlockStatus, MissedBlockEntry, new_entry, block_numbers, save_missed, get_missed,
  update_status, remove_recovered, prune_old, StorageError, read_failed, parse_failed, write_failed,
  serialize_failed, delete_failed, glob_failed, BlockStorage,
}

abbrev pub Text : Type 0
Text = List ℕ

abbrev pub Files : Type 0
Files = List (String × Text)

pub record Io : Type 0 where
  pub can_read : String → Bool
  pub can_write : String → Bool
  pub can_remove : String → Bool

-- `char::is_whitespace`: the characters with the Unicode property `White_Space`.
abbrev pub is_whitespace : ℕ → Bool
is_whitespace c =
    (leb 9 c && leb c 13)
    || c == 32
    || c == 133
    || c == 160
    || c == 5760
    || (leb 8192 c && leb c 8202)
    || c == 8232
    || c == 8233
    || c == 8239
    || c == 8287
    || c == 12288

abbrev pub trim_start : Text → Text
trim_start [] = []
trim_start (c ∷ cs) = let rest = trim_start cs in if is_whitespace c then rest else c ∷ cs

-- Drops trailing whitespace.
abbrev pub trim_end : Text → Text
trim_end [] = []
trim_end (c ∷ cs) = elim (trim_end cs) [
  | [] ↦ if is_whitespace c then [] else c ∷ []
  | d ∷ ds ↦ c ∷ d ∷ ds
]

abbrev pub trim : Text → Text
trim t = trim_end (trim_start t)

abbrev pub is_blank : Text → Bool
is_blank t = elim (trim t) [ [] ↦ true | c ∷ cs ↦ false ]

pub record Codec : Type 0 where
  pub to_string_pretty : List MissedBlockEntry → Option Text
  pub from_str : Text → Option (List MissedBlockEntry)
  pub blocks_to_string : List BlockType → Option Text
  pub from_str-to_string_pretty :
      (es : List MissedBlockEntry) (t : Text) → to_string_pretty es ≡ some t → from_str t ≡ some es
  -- A serialized list begins with its bracket.
  pub not_blank :
      (es : List MissedBlockEntry) (t : Text) → to_string_pretty es ≡ some t → is_blank t ≡ false

-- The lines of a text, without the newlines (and a carriage return before one is whitespace, which
-- the caller trims).
unfoldable pub lines_from : Text → Text → List Text
lines_from line [] = if length line == 0 then [] else line ∷ []
lines_from line (c ∷ cs) =
    let ended = lines_from [] cs in
    let longer = lines_from (line ++ c ∷ []) cs in if c == 10 then line ∷ ended else longer

-- `u64::to_string`; every round drops a digit, so that the number bounds the rounds.
unfoldable pub digits_from : ℕ → ℕ → Text → Text
digits_from zero n acc = acc
digits_from (suc fuel) n acc =
    let rest = digits_from fuel (n / 10) ((b'0' + n % 10) ∷ acc) in
    if ltb n 10 then (b'0' + n) ∷ acc else rest

unfoldable pub to_string : ℕ → Text
unfolding digits_from
to_string n = digits_from (suc n) n []

abbrev pub Op : Type 0 → Type 0
Op A = Files → Result StorageError A × Files

infixl 5 ◌>>=◌ ◌>>◌
abbrev pub ◌>>=◌ : {A B : Type 0} → Op A → (A → Op B) → Op B
◌>>=◌ m f fs = elim (m fs).0 [ ok a ↦ f a (m fs).1 | err e ↦ (err e, (m fs).1) ]

abbrev pub ◌>>◌ : {B : Type 0} → Op (Unit {0}) → Op B → Op B
m >> k = m >>= λ _. k

abbrev pub return : {A : Type 0} → A → Op A
return a fs = (ok a, fs)

abbrev pub fail : {A : Type 0} → StorageError → Op A
fail e fs = (err e, fs)

-- A value that may be missing, with the error of its absence.
abbrev pub get_or_fail : {A : Type 0} → StorageError → Option A → Op A
get_or_fail e none fs = (err e, fs)
get_or_fail e (some a) fs = (ok a, fs)

module _ (io : Io) where
  -- `tokio::fs::read_to_string`.
  unfoldable pub read_file : String → Op Text
  read_file path fs =
      if io.can_read path
      then elim (lookup path fs) [ none ↦ (err read_failed, fs) | some t ↦ (ok t, fs) ]
      else (err read_failed, fs)

  -- `tokio::fs::write`.
  unfoldable pub write_file : String → Text → Op (Unit {0})
  unfolding insert
  write_file path t fs =
      if io.can_write path then (ok tt, insert path t fs) else (err write_failed, fs)

  -- `tokio::fs::remove_file`.
  unfoldable pub remove_file : String → Op (Unit {0})
  unfolding remove
  remove_file path fs =
      if io.can_remove path && contains_key path fs
      then (ok tt, remove path fs)
      else (err delete_failed, fs)

-- `storage_path.join(format!("{}{}", network_id, suffix))`.
abbrev pub path_of : String → String → String → String
path_of dir network_id suffix = String.◌++◌ (String.◌++◌ dir "/") (String.◌++◌ network_id suffix)

abbrev pub last_block_path : String → String → String
last_block_path dir id = path_of dir id "_last_block.txt"

abbrev pub json_path : String → String → String
json_path dir id = path_of dir id "_missed_blocks.json"

abbrev pub txt_path : String → String → String
txt_path dir id = path_of dir id "_missed_blocks.txt"

-- The entries that the migration makes of the lines of the old text file.
unfoldable pub migrate_lines :
    ℕ → List ℕ → List MissedBlockEntry → List Text → List MissedBlockEntry
unfolding from_str_radix new_entry
migrate_lines now seen entries [] = entries
migrate_lines now seen entries (l ∷ ls) = elim (from_str_radix 10 (trim l)) [
  | none ↦ migrate_lines now seen entries ls
  | some n ↦
      migrate_lines now (if contains seen n then seen else n ∷ seen)
        (if contains seen n then entries else entries ++ new_entry now n ∷ []) ls
]

module _ (io : Io) (codec : Codec) (dir : String) where
  unfoldable pub get_last_processed_block : String → Op (Option ℕ)
  unfolding read_file from_str_radix
  get_last_processed_block id fs =
      if contains_key (last_block_path dir id) fs
      then (do
        content ← read_file io (last_block_path dir id)
        n ← get_or_fail parse_failed (from_str_radix 10 (trim content))
        return (some n))
          fs
      else (ok none, fs)

  unfoldable pub save_last_processed_block : String → ℕ → Op (Unit {0})
  unfolding write_file to_string
  save_last_processed_block id block = write_file io (last_block_path dir id) (to_string block)

  unfoldable pub save_missed_blocks_json : String → List MissedBlockEntry → Op (Unit {0})
  unfolding write_file
  save_missed_blocks_json id entries = do
    json ← get_or_fail serialize_failed (codec.to_string_pretty entries)
    write_file io (json_path dir id) json

  -- The text file of an older version is read once, written as JSON and removed; a failure to
  -- remove it is only logged.
  unfoldable pub migrate : ℕ → String → Op (List MissedBlockEntry)
  unfolding read_file remove_file migrate_lines lines_from save_missed_blocks_json
  migrate now id = do
    content ← read_file io (txt_path dir id)
    let entries = migrate_lines now [] [] (lines_from [] content)
    save_missed_blocks_json id entries
    λ fs. (ok entries, (remove_file io (txt_path dir id) fs).1)

  unfoldable pub read_json : String → Op (List MissedBlockEntry)
  unfolding read_file
  read_json id = do
    content ← read_file io (json_path dir id)
    if is_blank content then return [] else get_or_fail parse_failed (codec.from_str content)

  unfoldable pub load_missed_blocks_json : ℕ → String → Op (List MissedBlockEntry)
  unfolding read_json migrate
  load_missed_blocks_json now id fs =
      if contains_key (json_path dir id) fs
      then read_json id fs
      else if contains_key (txt_path dir id) fs
      then migrate now id fs
      else (ok [], fs)

  unfoldable pub save_missed_blocks : ℕ → String → List ℕ → Op (Unit {0})
  unfolding load_missed_blocks_json save_missed_blocks_json save_missed
  save_missed_blocks now id [] = return tt
  save_missed_blocks now id (n ∷ ns) = do
    entries ← load_missed_blocks_json now id
    save_missed_blocks_json id (save_missed now (n ∷ ns) entries)

  unfoldable pub get_missed_blocks : ℕ → String → ℕ → ℕ → ℕ → Op (List MissedBlockEntry)
  unfolding load_missed_blocks_json get_missed
  get_missed_blocks now id max_block_age current_block max_retries = do
    entries ← load_missed_blocks_json now id
    return (get_missed max_block_age current_block max_retries entries)

  unfoldable pub update_missed_block_status :
      ℕ → String → ℕ → MissedBlockStatus → Option String → Op (Unit {0})
  unfolding load_missed_blocks_json save_missed_blocks_json update_status
  update_missed_block_status now id block_number status error = do
    entries ← load_missed_blocks_json now id
    save_missed_blocks_json id (update_status now block_number status error entries)

  unfoldable pub remove_recovered_blocks : ℕ → String → List ℕ → Op (Unit {0})
  unfolding load_missed_blocks_json save_missed_blocks_json remove_recovered
  remove_recovered_blocks now id [] = return tt
  remove_recovered_blocks now id (n ∷ ns) = do
    entries ← load_missed_blocks_json now id
    save_missed_blocks_json id (remove_recovered (n ∷ ns) entries)

  -- The end of `prune_old_missed_blocks`: the list is written only if something was dropped.
  unfoldable pub save_pruned : String → List MissedBlockEntry → ℕ → Op ℕ
  unfolding save_missed_blocks_json
  save_pruned id remaining zero = return 0
  save_pruned id remaining (suc n) = do save_missed_blocks_json id remaining; return (suc n)

  unfoldable pub prune_old_missed_blocks : ℕ → String → ℕ → ℕ → Op ℕ
  unfolding load_missed_blocks_json save_pruned prune_old
  prune_old_missed_blocks now id max_block_age current_block = do
    entries ← load_missed_blocks_json now id
    let remaining = prune_old max_block_age current_block entries
    save_pruned id remaining (length entries - length remaining)

  module _ (glob : String → List String → Option (List String)) (stamp : ℕ → String) where
    -- The paths of the directory.
    abbrev pub paths : Files → List String
    paths [] = []
    paths ((p, t) ∷ fs) = p ∷ paths fs

    unfoldable pub remove_files : List String → Op (Unit {0})
    unfolding remove_file
    remove_files [] = return tt
    remove_files (p ∷ ps) = do remove_file io p; remove_files ps

    -- Every file that the pattern matches is removed; the first failure ends the loop.
    unfoldable pub delete_blocks : String → Op (Unit {0})
    unfolding remove_files
    delete_blocks slug fs =
        (get_or_fail glob_failed (glob (path_of dir slug "_blocks_*.json") (paths fs))
            >>= remove_files)
          fs

    unfoldable pub save_blocks : ℕ → String → List BlockType → Op (Unit {0})
    unfolding write_file
    save_blocks now slug blocks = do
      json ← get_or_fail serialize_failed (codec.blocks_to_string blocks)
      write_file io (path_of dir slug (String.◌++◌ "_blocks_" (String.◌++◌ (stamp now) ".json")))
          json

    -- `impl BlockStorage for FileBlockStorage`.
    abbrev pub file_block_storage : BlockStorage Files
    file_block_storage = record {
      get_last_processed_block = get_last_processed_block;
      save_last_processed_block = save_last_processed_block;
      save_blocks = save_blocks;
      delete_blocks = delete_blocks;
      save_missed_blocks = save_missed_blocks;
      get_missed_blocks = get_missed_blocks;
      update_missed_block_status = update_missed_block_status;
      remove_recovered_blocks = remove_recovered_blocks;
      prune_old_missed_blocks = prune_old_missed_blocks;
    }
