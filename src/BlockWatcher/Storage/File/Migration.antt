-- ===== src/BlockWatcher/Storage/File/Migration.antt =====
-- src/services/blockwatcher/storage.rs, `load_missed_blocks_json`: the entries that are made of the text
-- file of an older version.
use openzeppelin_monitor.Prelude.{
  ℕ, ◌≡◌, refl, sym, ap, ◌∙◌, true, false, ◌||◌, List, [], ◌∷◌, ◌++◌, none, some, arith, ◌==◌,
  contains, contains-append, IsDistinct, IsDistinct-push_back, Bool-cases, Option-cases, inl, inr,
  ==_iff,
}
use openzeppelin_monitor.Models.Parse.{from_str_radix}
use openzeppelin_monitor.BlockWatcher.Storage.{MissedBlockEntry, new_entry, block_numbers}
use openzeppelin_monitor.BlockWatcher.Storage.Entries.{block_numbers-append}
use openzeppelin_monitor.BlockWatcher.Storage.File.{Text, trim, migrate_lines}

-- The numbers that the lines hold.
abbrev pub parsed : List Text → List ℕ
parsed [] = []
parsed (l ∷ ls) = elim (from_str_radix 10 (trim l)) [ none ↦ parsed ls | some n ↦ n ∷ parsed ls ]

-- The numbers seen are those of the entries, which are distinct.
record IsSeen (seen : List ℕ) (entries : List MissedBlockEntry) : Type 0 where
  same : (n : ℕ) → contains seen n ≡ contains (block_numbers entries) n
  distinct : IsDistinct (block_numbers entries)

-- What the migration makes of more lines.
pub record Migrates (before lines : List ℕ) (after : List MissedBlockEntry) : Type 0 where
  pub members : (n : ℕ) → contains (block_numbers after) n ≡ contains before n || contains lines n
  pub distinct : IsDistinct (block_numbers after)

push-IsSeen :
    (now m : ℕ) (seen : List ℕ) (entries : List MissedBlockEntry)
    → IsSeen seen entries
    → contains seen m ≡ false
    → IsSeen (m ∷ seen) (entries ++ new_entry now m ∷ [])
unfolding new_entry
push-IsSeen now m seen entries h fresh = record {
  same = λ n. ground (
    arith,
    h.same n,
    ap (λ l. contains l n) (block_numbers-append entries (new_entry now m ∷ [])),
    contains-append (block_numbers entries) (m ∷ []) n,
  );
  distinct =
      rw (block_numbers-append entries (new_entry now m ∷ []))
        (IsDistinct-push_back (block_numbers entries) m h.distinct (sym (h.same m) ∙ fresh));
}

Migrates-old :
    (m : ℕ) (lines seen : List ℕ) (entries after : List MissedBlockEntry)
    → IsSeen seen entries
    → contains seen m ≡ true
    → Migrates (block_numbers entries) lines after
    → Migrates (block_numbers entries) (m ∷ lines) after
Migrates-old m lines seen entries after h old rest = record {
  members = λ n. elim (Bool-cases (m == n)) [
    | inl e ↦
        rest.members n
        ∙ ground (arith, ap (contains (block_numbers entries)) ((==_iff m n).0 e), h.same m, old)
    | inr e ↦ rest.members n ∙ ground (arith, e)
  ];
  distinct = rest.distinct;
}

Migrates-new :
    (now m : ℕ) (lines : List ℕ) (entries after : List MissedBlockEntry)
    → Migrates (block_numbers (entries ++ new_entry now m ∷ [])) lines after
    → Migrates (block_numbers entries) (m ∷ lines) after
unfolding new_entry
Migrates-new now m lines entries after rest = record {
  members = λ n. ground (
    arith,
    rest.members n,
    ap (λ l. contains l n) (block_numbers-append entries (new_entry now m ∷ [])),
    contains-append (block_numbers entries) (m ∷ []) n,
  );
  distinct = rest.distinct;
}

module _ (now : ℕ) (l : Text) (ls : List Text) where
  parsed-none : from_str_radix 10 (trim l) ≡ none → parsed (l ∷ ls) ≡ parsed ls
  parsed-none h = rw (h, parsed) refl

  parsed-some : (m : ℕ) → from_str_radix 10 (trim l) ≡ some m → parsed (l ∷ ls) ≡ m ∷ parsed ls
  parsed-some m h = rw (h, parsed) refl

  migrate_lines-none :
      (seen : List ℕ) (entries : List MissedBlockEntry)
      → from_str_radix 10 (trim l) ≡ none
      → migrate_lines now seen entries (l ∷ ls) ≡ migrate_lines now seen entries ls
  unfolding migrate_lines
  migrate_lines-none seen entries h = rw (h, migrate_lines) refl

  migrate_lines_old :
      (m : ℕ) (seen : List ℕ) (entries : List MissedBlockEntry)
      → from_str_radix 10 (trim l) ≡ some m
      → contains seen m ≡ true
      → migrate_lines now seen entries (l ∷ ls) ≡ migrate_lines now seen entries ls
  unfolding migrate_lines
  migrate_lines_old m seen entries h old = rw (h, migrate_lines) (rw old refl)

  migrate_lines_new :
      (m : ℕ) (seen : List ℕ) (entries : List MissedBlockEntry)
      → from_str_radix 10 (trim l) ≡ some m
      → contains seen m ≡ false
      → migrate_lines now seen entries (l ∷ ls)
        ≡ migrate_lines now (m ∷ seen) (entries ++ new_entry now m ∷ []) ls
  unfolding migrate_lines
  migrate_lines_new m seen entries h new = rw (h, migrate_lines) (rw new refl)

migrate_lines-from :
    (now : ℕ) (ls : List Text) (seen : List ℕ) (entries : List MissedBlockEntry)
    → IsSeen seen entries
    → Migrates (block_numbers entries) (parsed ls) (migrate_lines now seen entries ls)
migrate_lines-from now [] seen entries h =
    unfold migrate_lines in record { members = λ n. ground arith; distinct = h.distinct }
migrate_lines-from now (l ∷ ls) seen entries h = elim (Option-cases (from_str_radix 10 (trim l))) [
  | inl no_number ↦
      rw (parsed-none now l ls no_number, migrate_lines-none now l ls seen entries no_number)
        (migrate_lines-from now ls seen entries h)
  | inr (m, number) ↦ elim (Bool-cases (contains seen m)) [
    | inl old ↦
        rw (parsed-some now l ls m number, migrate_lines_old now l ls m seen entries number old)
          (Migrates-old m (parsed ls) seen entries _ h old
            (migrate_lines-from now ls seen entries h))
    | inr new ↦
        rw (parsed-some now l ls m number, migrate_lines_new now l ls m seen entries number new)
          (Migrates-new now m (parsed ls) entries _ (
            migrate_lines-from now ls (m ∷ seen) (entries ++ new_entry now m ∷ [])
              (push-IsSeen now m seen entries h new)))
  ]
]

-- The migration makes an entry for each number that a line holds, and none twice.
pub migrate_lines-Migrates :
    (now : ℕ) (ls : List Text) → Migrates [] (parsed ls) (migrate_lines now [] [] ls)
migrate_lines-Migrates now ls =
    migrate_lines-from now ls [] [] (record { same = λ n. refl; distinct = tt })
