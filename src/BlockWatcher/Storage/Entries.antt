-- ===== src/BlockWatcher/Storage/Entries.antt =====
-- src/services/blockwatcher/storage.rs: what the storage methods do to the list of missed blocks.
use openzeppelin_monitor.Prelude.{
  IsDistinct, IsDistinct-push_back, ℕ, ◌≡◌, ◌⊎◌, inl, inr, refl, sym, ap, ◌∙◌, Bool, true, false,
  not, ◌&&◌, ◌||◌, List, [], ◌∷◌, ◌++◌, Option, none, some, String, leb, ◌==◌, if◌then◌else◌,
  contains, filter, arith, Bool-cases, contains-append, ==_iff, ==_refl,
}
use openzeppelin_monitor.Prelude.Word.{saturating_sub}
use openzeppelin_monitor.BlockWatcher.Storage.{
  MissedBlockStatus, MissedBlockEntry, new_entry, block_numbers, push_missed, save_missed,
  update_entry, update_status, remove_recovered, prune_old,
}

pub block_numbers-append :
    (es fs : List MissedBlockEntry)
    → block_numbers (es ++ fs) ≡ block_numbers es ++ block_numbers fs
block_numbers-append [] fs = refl
block_numbers-append (e ∷ es) fs = rw (block_numbers-append es fs)

contains-push_missed :
    (now : ℕ) (existing ns : List ℕ) (es : List MissedBlockEntry) (n : ℕ)
    → contains (block_numbers (push_missed now existing ns es)) n
      ≡ contains (block_numbers es) n || (contains ns n && not (contains existing n))
unfolding push_missed
contains-push_missed now existing [] es n = ground arith
contains-push_missed now existing (m ∷ ns) es n = elim (Bool-cases (contains existing m)) [
  | inl old ↦ rw old (contains-push_missed now existing ns es n ∙ known (==_iff m n).0 old)
  | inr new ↦ rw new (
      contains-push_missed now existing ns (es ++ new_entry now m ∷ []) n
      ∙ pushed
          (ap (λ l. contains l n) (block_numbers-append es (new_entry now m ∷ []))
            ∙ contains-append (block_numbers es) (m ∷ []) n)
          (==_iff m n).0 new)
]
  where
    known :
        ((m == n) ≡ true → m ≡ n)
        → contains existing m ≡ true
        → (contains (block_numbers es) n || (contains ns n && not (contains existing n)))
          ≡ contains (block_numbers es) n
            || ((m == n || contains ns n) && not (contains existing n))
    known same old = elim (Bool-cases (m == n)) [
      | inl e ↦ ground (arith, ap (contains existing) (same e))
      | inr e ↦ rw e refl
    ]

    pushed :
        contains (block_numbers (es ++ new_entry now m ∷ [])) n
          ≡ contains (block_numbers es) n || (m == n || false)
        → ((m == n) ≡ true → m ≡ n)
        → contains existing m ≡ false
        → (contains (block_numbers (es ++ new_entry now m ∷ [])) n
            || (contains ns n && not (contains existing n)))
          ≡ contains (block_numbers es) n
            || ((m == n || contains ns n) && not (contains existing n))
    pushed step same new = elim (Bool-cases (m == n)) [
      | inl e ↦ ground (arith, ap (contains existing) (same e), step)
      | inr e ↦ ground (arith, step)
    ]

-- After `save_missed` a number is stored exactly if it was stored before or is one of the missed
-- blocks.
pub contains-save_missed :
    (now : ℕ) (blocks : List ℕ) (entries : List MissedBlockEntry) (n : ℕ)
    → contains (block_numbers (save_missed now blocks entries)) n
      ≡ contains (block_numbers entries) n || contains blocks n
unfolding save_missed
contains-save_missed now blocks entries n =
    contains-push_missed now (block_numbers entries) blocks entries n ∙ ground arith

push_missed-IsDistinct :
    (now : ℕ) (existing ns : List ℕ) (es : List MissedBlockEntry)
    → IsDistinct ns
    → IsDistinct (block_numbers es)
    → ((n : ℕ)
        → contains (block_numbers es) n ≡ true
        → (contains existing n ≡ true) ⊎ (contains ns n ≡ false))
    → IsDistinct (block_numbers (push_missed now existing ns es))
unfolding push_missed
push_missed-IsDistinct now existing [] es d h k = h
push_missed-IsDistinct now existing (m ∷ ns) es (fresh, d) h k =
    elim (Bool-cases (contains existing m)) [
      | inl old ↦
          rw old (push_missed-IsDistinct now existing ns es d h (λ n c. ground (arith, k n c)))
      | inr new ↦ rw new (
          push_missed-IsDistinct now existing ns (es ++ new_entry now m ∷ []) d (pushed new)
            (later new))
    ]
  where
    absent : contains existing m ≡ false → contains (block_numbers es) m ≡ false
    absent new = elim (Bool-cases (contains (block_numbers es) m)) [
      | inl there ↦ ground (arith, k m there, ==_refl m)
      | inr e ↦ e
    ]

    pushed : contains existing m ≡ false → IsDistinct (block_numbers (es ++ new_entry now m ∷ []))
    pushed new =
        rw (block_numbers-append es (new_entry now m ∷ []))
          (IsDistinct-push_back (block_numbers es) m h (absent new))

    later :
        contains existing m ≡ false
        → (n : ℕ) → contains (block_numbers (es ++ new_entry now m ∷ [])) n ≡ true
        → (contains existing n ≡ true) ⊎ (contains ns n ≡ false)
    later new n c = elim (Bool-cases (m == n)) [
      | inl e ↦ inr (ap (contains ns) (sym ((==_iff m n).0 e)) ∙ fresh)
      | inr e ↦ ground (
        arith,
        k n,
        ap (λ l. contains l n) (block_numbers-append es (new_entry now m ∷ [])),
        contains-append (block_numbers es) (m ∷ []) n,
      )
    ]

-- Saving missed blocks without a repetition keeps the stored numbers distinct.
pub save_missed-IsDistinct :
    (now : ℕ) (blocks : List ℕ) (entries : List MissedBlockEntry)
    → IsDistinct blocks
    → IsDistinct (block_numbers entries)
    → IsDistinct (block_numbers (save_missed now blocks entries))
unfolding save_missed
save_missed-IsDistinct now blocks entries d h =
    push_missed-IsDistinct now (block_numbers entries) blocks entries d h (λ n c. inl c)

-- The first entry of a block number.
abbrev pub entry_of : ℕ → List MissedBlockEntry → Option MissedBlockEntry
entry_of n [] = none
entry_of n (e ∷ es) = let rest = entry_of n es in if e.block_number == n then some e else rest

pub map_option {ℓ κ} : {A : Type ℓ} {B : Type κ} → (A → B) → Option A → Option B
map_option f none = none
map_option f (some a) = some (f a)

pub block_numbers-update_status :
    (now n : ℕ) (status : MissedBlockStatus) (error : Option String) (es : List MissedBlockEntry)
    → block_numbers (update_status now n status error es) ≡ block_numbers es
unfolding update_status
block_numbers-update_status now n status error [] = refl
block_numbers-update_status now n status error (e ∷ es) =
    ground (arith, block_numbers-update_status now n status error es)

-- An update changes the entry of its number, and no other.
pub entry_of-update_status :
    (now m n : ℕ) (status : MissedBlockStatus) (error : Option String) (es : List MissedBlockEntry)
    → entry_of n (update_status now m status error es) ≡ (
        if m == n
        then map_option (update_entry now status error) (entry_of n es)
        else entry_of n es)
unfolding update_status map_option
entry_of-update_status now m n status error [] = ground arith
entry_of-update_status now m n status error (e ∷ es) =
    ground (arith, entry_of-update_status now m n status error es)

-- A filter on the block number keeps the entries of the numbers that pass.
pub entry_of-filter :
    (p : ℕ → Bool) (n : ℕ) (es : List MissedBlockEntry)
    → entry_of n (filter (λ e. p e.block_number) es) ≡ (if p n then entry_of n es else none)
entry_of-filter p n [] = ground arith
entry_of-filter p n (e ∷ es) = elim (Bool-cases (e.block_number == n)) [
  | inl here ↦ ground (arith, entry_of-filter p n es, ap p ((==_iff e.block_number n).0 here))
  | inr other ↦ elim (Bool-cases (p e.block_number)) [
    | inl kept ↦ rw kept (rw other (entry_of-filter p n es))
    | inr dropped ↦ rw dropped (rw other (entry_of-filter p n es))
  ]
]

pub entry_of-remove_recovered :
    (blocks : List ℕ) (n : ℕ) (es : List MissedBlockEntry)
    → entry_of n (remove_recovered blocks es) ≡ (if contains blocks n then none else entry_of n es)
unfolding remove_recovered
entry_of-remove_recovered blocks n es =
    entry_of-filter (λ k. not (contains blocks k)) n es ∙ ground arith

pub entry_of-prune_old :
    (age current n : ℕ) (es : List MissedBlockEntry)
    → entry_of n (prune_old age current es)
      ≡ (if leb (saturating_sub current age) n then entry_of n es else none)
unfolding prune_old
entry_of-prune_old age current n es = entry_of-filter (λ k. leb (saturating_sub current age) k) n es
