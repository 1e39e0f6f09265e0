-- ===== src/Tests/Storage.antt =====
-- Runs of src/services/blockwatcher/storage.rs.
use openzeppelin_monitor.Prelude.{true, none, arith, ◌≡◌, refl, List, [], ◌∷◌, some}
use openzeppelin_monitor.Prelude.Dict.{lookup}
use openzeppelin_monitor.Prelude.Result.{ok}
use openzeppelin_monitor.BlockWatcher.Storage.File.{
  Io, Codec, get_last_processed_block, save_last_processed_block,
}
use openzeppelin_monitor.BlockWatcher.Storage.File.{Text, migrate_lines}
use openzeppelin_monitor.BlockWatcher.Storage.File.Migration.{
  parsed, Migrates, migrate_lines-Migrates,
}
use openzeppelin_monitor.BlockWatcher.Storage.File.LastBlock.{get_last_processed_block_lem}
use openzeppelin_monitor.BlockWatcher.Storage.{
  MissedBlockEntry, new_entry, block_numbers, save_missed,
}

abbrev pub entries : List MissedBlockEntry
entries = new_entry 1000 7 ∷ new_entry 1000 4 ∷ []

saved_once : block_numbers (save_missed 2000 (4 ∷ 5 ∷ []) entries) ≡ 7 ∷ 4 ∷ 5 ∷ []
unfolding save_missed new_entry
saved_once = refl

-- Every file can be read, written and removed.
abbrev io : Io
io = record { can_read = λ path. true; can_write = λ path. true; can_remove = λ path. true }

-- No list is serialized: the file of the last processed block does not need it.
abbrev no_codec : Codec
no_codec = record {
  to_string_pretty = λ es. none;
  from_str = λ t. none;
  blocks_to_string = λ bs. none;
  from_str-to_string_pretty = λ es t h. cc;
  not_blank = λ es t h. cc;
}

writes_digits :
    lookup "data/stellar_testnet_last_block.txt"
      ((save_last_processed_block io no_codec "data" "stellar_testnet" 1207 []).1)
    ≡ some (49 ∷ 50 ∷ 48 ∷ 55 ∷ [])
unfolding save_last_processed_block
writes_digits = refl

get_last_processed_block_lem_example :
    let saved = save_last_processed_block io no_codec "data" "stellar_testnet" 1207 [] in
    (saved.0 ≡ ok tt)
    × (get_last_processed_block io no_codec "data" "stellar_testnet" saved.1
        ≡ (ok (some 1207), saved.1))
get_last_processed_block_lem_example =
    get_last_processed_block_lem io no_codec "data" "stellar_testnet" 1207 [] refl refl
      (omega arith)

-- The lines "12", " 7 ", "" , "x1" and "12".
abbrev text_lines : List Text
text_lines = (49 ∷ 50 ∷ []) ∷ (32 ∷ 55 ∷ 32 ∷ []) ∷ [] ∷ (120 ∷ 49 ∷ []) ∷ (49 ∷ 50 ∷ []) ∷ []

migrates_two : block_numbers (migrate_lines 2000 [] [] text_lines) ≡ 12 ∷ 7 ∷ []
unfolding migrate_lines
migrates_two = refl

migrate_lines-Migrates_example :
    Migrates [] (parsed text_lines) (migrate_lines 2000 [] [] text_lines)
migrate_lines-Migrates_example = migrate_lines-Migrates 2000 text_lines
