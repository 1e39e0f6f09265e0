-- ===== src/BlockWatcher/Storage/File/Laws.antt =====
-- src/services/blockwatcher/storage.rs: the methods of the file storage, for a network whose files
-- can be read and written, and the functions on lists of entries.
use openzeppelin_monitor.Prelude.{
  ℕ, zero, suc, ◌-◌, ◌≡◌, refl, sym, ap, ◌∙◌, subst, Bool, true, false, List, [], ◌∷◌, Option, some,
  String, filter, length, arith, length-filter_le,
}
use openzeppelin_monitor.Prelude.Dict.{lookup, insert, lookup-insert_self}
use openzeppelin_monitor.Prelude.Result.{Result, ok, err}
use openzeppelin_monitor.BlockWatcher.Storage.{
  MissedBlockStatus, MissedBlockEntry, save_missed, get_missed, update_status, remove_recovered,
  prune_old, StorageError,
}
use openzeppelin_monitor.BlockWatcher.Storage.File.{
  Files, Text, Io, Codec, Op, is_blank, read_file, write_file, json_path, read_json,
  load_missed_blocks_json, save_missed_blocks_json, save_missed_blocks, get_missed_blocks,
  update_missed_block_status, remove_recovered_blocks, save_pruned, prune_old_missed_blocks, ◌>>=◌,
}

module _ (io : Io) (codec : Codec) (dir : String) (id : String) where
  -- The list of missed blocks can be read and written, and every list can be serialized.
  pub record Works : Type 0 where
    pub readable : io.can_read (json_path dir id) ≡ true
    pub writable : io.can_write (json_path dir id) ≡ true
    pub json : List MissedBlockEntry → Text
    pub serializes : (es : List MissedBlockEntry) → codec.to_string_pretty es ≡ some (json es)

  -- At any time the list loads as `es`, and loading changes no file.
  abbrev pub Holds : List MissedBlockEntry → Files → Type 0
  Holds es fs = (now : ℕ) → load_missed_blocks_json io codec dir now id fs ≡ (ok es, fs)

  module _ (w : Works) where
    -- Writing a list makes the storage hold it.
    save_json_lem :
        (es : List MissedBlockEntry) (fs : Files)
        → save_missed_blocks_json io codec dir id es fs
          ≡ (ok tt, insert (json_path dir id) (w.json es) fs)
    unfolding save_missed_blocks_json write_file
    save_json_lem es fs = rw (w.serializes es, w.writable)

    load_stored :
        (fs : Files) (t : Text) (es : List MissedBlockEntry)
        → lookup (json_path dir id) fs ≡ some t
        → is_blank t ≡ false
        → codec.from_str t ≡ some es
        → Holds es fs
    unfolding load_missed_blocks_json read_json read_file
    load_stored fs t es there full parsed now = ground (arith, w.readable)

    Holds-save_json :
        (es : List MissedBlockEntry) (fs : Files)
        → Holds es (insert (json_path dir id) (w.json es) fs)
    Holds-save_json es fs =
        load_stored (insert (json_path dir id) (w.json es) fs) (w.json es) es
          (lookup-insert_self (json_path dir id) (w.json es) fs)
          (codec.not_blank es (w.json es) (w.serializes es))
          (codec.from_str-to_string_pretty es (w.json es) (w.serializes es))

  -- A method succeeded with `a` and left the storage with the list `es`.
  pub record Leaves {A : Type 0} (a : A) (es : List MissedBlockEntry)
      (r : Result StorageError A × Files) : Type 0 where
    pub result : r.0 ≡ ok a
    pub holds : Holds es r.1

  after_load :
      {A : Type 0} (now : ℕ) (es : List MissedBlockEntry) (fs : Files)
      (k : List MissedBlockEntry → Op A)
      → Holds es fs
      → (load_missed_blocks_json io codec dir now id >>= k) fs ≡ k es fs
  after_load now es fs k h = ap (λ r. elim r.0 [ ok a ↦ k a r.1 | err e ↦ (err e, r.1) ]) (h now)

  module _ (w : Works) where
    Leaves-save_json :
        (es : List MissedBlockEntry) (fs : Files) (r : Result StorageError (Unit {0}) × Files)
        → r ≡ save_missed_blocks_json io codec dir id es fs
        → Leaves tt es r
    Leaves-save_json es fs r e =
        subst (Leaves tt es) (sym (e ∙ save_json_lem w es fs))
          (record { result = refl; holds = Holds-save_json w es fs })

    -- Saving missed blocks adds those that are not stored yet.
    pub save_missed_blocks_lem :
        (now : ℕ) (ns : List ℕ) (es : List MissedBlockEntry) (fs : Files)
        → Holds es fs
        → Leaves tt (save_missed now ns es) (save_missed_blocks io codec dir now id ns fs)
    unfolding save_missed_blocks
    save_missed_blocks_lem now [] es fs h = record {
      result = refl;
      holds = unfold save_missed in h;
    }
    save_missed_blocks_lem now (n ∷ ns) es fs h =
        Leaves-save_json (save_missed now (n ∷ ns) es) fs _ (
          after_load now es fs
            (λ entries. save_missed_blocks_json io codec dir id (save_missed now (n ∷ ns) entries))
            h)

    pub get_missed_blocks_lem :
        (now age current retries : ℕ) (es : List MissedBlockEntry) (fs : Files)
        → Holds es fs
        → get_missed_blocks io codec dir now id age current retries fs
          ≡ (ok (get_missed age current retries es), fs)
    unfolding get_missed_blocks
    get_missed_blocks_lem now age current retries es fs h =
        after_load now es fs (λ entries s. (ok (get_missed age current retries entries), s)) h

    pub update_missed_block_status_lem :
        (now n : ℕ) (status : MissedBlockStatus) (error : Option String)
        (es : List MissedBlockEntry) (fs : Files)
        → Holds es fs
        → Leaves tt
            (update_status now n status error es)
            (update_missed_block_status io codec dir now id n status error fs)
    unfolding update_missed_block_status
    update_missed_block_status_lem now n status error es fs h =
        Leaves-save_json (update_status now n status error es) fs _ (
          after_load now es fs
            (λ entries.
              save_missed_blocks_json io codec dir id (update_status now n status error entries))
            h)

    remove_recovered-nil : (es : List MissedBlockEntry) → remove_recovered [] es ≡ es
    unfolding remove_recovered
    remove_recovered-nil [] = refl
    remove_recovered-nil (e ∷ es) = rw (remove_recovered-nil es)

    pub remove_recovered_blocks_lem :
        (now : ℕ) (ns : List ℕ) (es : List MissedBlockEntry) (fs : Files)
        → Holds es fs
        → Leaves tt (remove_recovered ns es) (remove_recovered_blocks io codec dir now id ns fs)
    unfolding remove_recovered_blocks
    remove_recovered_blocks_lem now [] es fs h = record {
      result = refl;
      holds = rw (remove_recovered-nil es) h;
    }
    remove_recovered_blocks_lem now (n ∷ ns) es fs h =
        Leaves-save_json (remove_recovered (n ∷ ns) es) fs _ (
          after_load now es fs
            (λ entries. save_missed_blocks_json io codec dir id (remove_recovered (n ∷ ns) entries))
            h)

    filter_all :
        (p : MissedBlockEntry → Bool) (es : List MissedBlockEntry)
        → length es - length (filter p es) ≡ 0
        → filter p es ≡ es
    filter_all p [] h = refl
    filter_all p (e ∷ es) h = ground (arith, filter_all p es, length-filter_le p es)

    save_pruned_lem :
        (n : ℕ) (rest es : List MissedBlockEntry) (fs : Files)
        → Holds es fs
        → (n ≡ 0 → rest ≡ es)
        → Leaves n rest (save_pruned io codec dir id rest n fs)
    unfolding save_pruned
    save_pruned_lem zero rest es fs h same = record { result = refl; holds = rw (same refl) h }
    save_pruned_lem (suc n) rest es fs h same =
        subst (Leaves (suc n) rest)
          (sym (
            ap (λ r. elim r.0 [ ok a ↦ (ok (suc n), r.1) | err e ↦ (err e, r.1) ])
              (save_json_lem w rest fs)))
          (record { result = refl; holds = Holds-save_json w rest fs })

    -- Pruning drops the entries below the age limit and returns how many they were.
    pub prune_old_missed_blocks_lem :
        (now age current : ℕ) (es : List MissedBlockEntry) (fs : Files)
        → Holds es fs
        → Leaves
            (length es - length (prune_old age current es))
            (prune_old age current es)
            (prune_old_missed_blocks io codec dir now id age current fs)
    unfolding prune_old_missed_blocks prune_old
    prune_old_missed_blocks_lem now age current es fs h =
        subst (Leaves (length es - length (prune_old age current es)) (prune_old age current es))
          (sym (
            after_load now es fs
              (λ entries.
                save_pruned io codec dir id (prune_old age current entries)
                  (length entries - length (prune_old age current entries)))
              h))
          (save_pruned_lem (length es - length (prune_old age current es))
            (prune_old age current es) es fs h (filter_all _ es))
