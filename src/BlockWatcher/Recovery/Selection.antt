-- ===== src/BlockWatcher/Recovery/Selection.antt =====
-- The entries that a run of src/services/blockwatcher/recovery.rs selects.
use openzeppelin_monitor.Prelude.{
  ℕ, zero, suc, ◌≡◌, ◌≤◌, refl, sym, subst, ap, false, List, [], ◌∷◌, ◌++◌, leb, length, take,
  is_empty, arith, All, All-impl, Bool-cases, inl, inr,
}
use mathlib.Core.List.{Perm}
use mathlib.Core.List.Perm
use openzeppelin_monitor.Models.Network.{BlockRecoveryConfig}
use openzeppelin_monitor.BlockWatcher.Storage.{MissedBlockEntry}
use openzeppelin_monitor.BlockWatcher.Recovery.{insert_by_number, sort_by_number, select}

abbrev pub IsOrdered : List MissedBlockEntry → Type 0
IsOrdered [] = Unit
IsOrdered (e ∷ es) =
    All (λ (f : MissedBlockEntry). e.block_number ≤ f.block_number) es × IsOrdered es

-- The selected entries are the oldest of those that are eligible: with the rest they are all of them in
-- ascending order, and they are as many as a run may take if there is a rest.
pub record IsSelection (config : BlockRecoveryConfig) (missed selected : List MissedBlockEntry)
    : Type 0 where
  pub rest : List MissedBlockEntry
  pub all_of : Perm (selected ++ rest) missed
  pub in_order : IsOrdered (selected ++ rest)
  pub bounded : length selected ≤ config.max_blocks_per_run
  pub full : is_empty rest ≡ false → length selected ≡ config.max_blocks_per_run

insert_by_number-perm :
    (e : MissedBlockEntry) (es : List MissedBlockEntry) → Perm (insert_by_number e es) (e ∷ es)
unfolding insert_by_number
insert_by_number-perm e [] = Perm.refl (e ∷ [])
insert_by_number-perm e (f ∷ fs) = elim (Bool-cases (leb e.block_number f.block_number)) [
  | inl h ↦ rw h (Perm.refl (e ∷ f ∷ fs))
  | inr h ↦ rw h (Perm.trans (Perm.cons f (insert_by_number-perm e fs)) (Perm.swap e f fs))
]

sort_by_number-perm : (es : List MissedBlockEntry) → Perm (sort_by_number es) es
unfolding sort_by_number
sort_by_number-perm [] = Perm.refl []
sort_by_number-perm (e ∷ es) =
    Perm.trans (insert_by_number-perm e (sort_by_number es)) (Perm.cons e (sort_by_number-perm es))

All-insert_by_number :
    (P : MissedBlockEntry → Type 0) (e : MissedBlockEntry) (es : List MissedBlockEntry)
    → P e
    → All P es
    → All P (insert_by_number e es)
unfolding insert_by_number
All-insert_by_number P e [] p h = (p, tt)
All-insert_by_number P e (f ∷ fs) p (q, h) = elim (Bool-cases (leb e.block_number f.block_number)) [
  | inl k ↦ rw k (p, (q, h))
  | inr k ↦ rw k (q, All-insert_by_number P e fs p h)
]

insert_by_number-IsOrdered :
    (e : MissedBlockEntry) (es : List MissedBlockEntry)
    → IsOrdered es
    → IsOrdered (insert_by_number e es)
unfolding insert_by_number
insert_by_number-IsOrdered e [] h = (tt, tt)
insert_by_number-IsOrdered e (f ∷ fs) (above, h) =
    elim (Bool-cases (leb e.block_number f.block_number)) [
      | inl k ↦
          let less : e.block_number ≤ f.block_number = ground (arith, k) in
          rw k (
            (
              less,
              All-impl _ _ fs
                  (λ (g : MissedBlockEntry) (l : f.block_number ≤ g.block_number). omega arith)
                  above,
            ),
            (above, h),
          )
      | inr k ↦ rw k (
        All-insert_by_number (λ (g : MissedBlockEntry). f.block_number ≤ g.block_number) e fs
            (ground (arith, k)) above,
        insert_by_number-IsOrdered e fs h,
      )
    ]

sort_by_number-IsOrdered : (es : List MissedBlockEntry) → IsOrdered (sort_by_number es)
unfolding sort_by_number
sort_by_number-IsOrdered [] = tt
sort_by_number-IsOrdered (e ∷ es) =
    insert_by_number-IsOrdered e (sort_by_number es) (sort_by_number-IsOrdered es)

-- What `take` leaves.
abbrev left_by : ℕ → List MissedBlockEntry → List MissedBlockEntry
left_by zero es = es
left_by (suc n) [] = []
left_by (suc n) (e ∷ es) = left_by n es

take-left_by : (n : ℕ) (es : List MissedBlockEntry) → take n es ++ left_by n es ≡ es
take-left_by zero es = refl
take-left_by (suc n) [] = refl
take-left_by (suc n) (e ∷ es) = ap (λ l. e ∷ l) (take-left_by n es)

length-take_le : (n : ℕ) (es : List MissedBlockEntry) → length (take n es) ≤ n
length-take_le zero es = omega arith
length-take_le (suc n) [] = omega arith
length-take_le (suc n) (e ∷ es) = omega (arith, length-take_le n es)

length-take_full :
    (n : ℕ) (es : List MissedBlockEntry) → is_empty (left_by n es) ≡ false → length (take n es) ≡ n
length-take_full zero es h = refl
length-take_full (suc n) [] h = absurd (cc)
length-take_full (suc n) (e ∷ es) h = ap (λ m. suc m) (length-take_full n es h)

pub select-IsSelection :
    (config : BlockRecoveryConfig) (missed : List MissedBlockEntry)
    → IsSelection config missed (select config missed)
unfolding select
select-IsSelection config missed =
    let n = config.max_blocks_per_run in
    let same = sym (take-left_by n (sort_by_number missed)) in
    record {
      rest = left_by n (sort_by_number missed);
      all_of = subst (λ l. Perm l missed) same (sort_by_number-perm missed);
      in_order = subst IsOrdered same (sort_by_number-IsOrdered missed);
      bounded = length-take_le n (sort_by_number missed);
      full = length-take_full n (sort_by_number missed);
    }
