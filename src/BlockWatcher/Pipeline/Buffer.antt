-- ===== src/BlockWatcher/Pipeline/Buffer.antt =====
-- src/services/blockwatcher/service.rs: the buffer of processed blocks, insertion and removal.
use mathlib.Core.List.{Perm}
use mathlib.Core.List.Perm
use openzeppelin_monitor.Prelude.{
  ℕ, suc, ◌≡◌, ◌⊎◌, inl, inr, refl, false, List, [], ◌∷◌, ◌++◌, none, some, ltb, ◌==◌, length, All,
  ◌<◌, ◌≤◌, arith, contains, Bool-cases, Option-cases, ◌||◌,
}
use openzeppelin_monitor.Prelude.Sorted.{IsAscending}
use openzeppelin_monitor.Models.Block.{ProcessedBlock}
use openzeppelin_monitor.BlockWatcher.Pipeline.{insert_pending, remove_pending}

module _ {M : Type 0} where
  abbrev pub key : ProcessedBlock M → ℕ
  key b = b.block_number

  abbrev pub keys : List (ProcessedBlock M) → List ℕ
  keys [] = []
  keys (b ∷ bs) = b.block_number ∷ keys bs

  pub keys-append : (xs ys : List (ProcessedBlock M)) → keys (xs ++ ys) ≡ keys xs ++ keys ys
  keys-append [] ys = refl
  keys-append (x ∷ xs) ys = rw (keys-append xs ys)

  pub insert_pending-All {κ} :
      (P : ProcessedBlock M → Type κ) (b : ProcessedBlock M) (bs : List (ProcessedBlock M))
      → P b
      → All P bs
      → All P (insert_pending b bs)
  unfolding insert_pending
  insert_pending-All P b [] p h = (p, tt)
  insert_pending-All P b (c ∷ cs) p (q, h) = elim (Bool-cases (ltb b.block_number c.block_number)) [
    | inl lt ↦ rw lt (p, (q, h))
    | inr ge ↦ elim (Bool-cases (b.block_number == c.block_number)) [
      | inl e ↦ rw (ge, e) (p, h)
      | inr ne ↦ rw (ge, ne) (q, insert_pending-All P b cs p h)
    ]
  ]

  All-lt_trans :
      (j k : ℕ) (bs : List (ProcessedBlock M))
      → j < k
      → All (λ b. k < key b) bs
      → All (λ b. j < key b) bs
  All-lt_trans j k [] h a = tt
  All-lt_trans j k (b ∷ bs) h (p, a) = (omega arith, All-lt_trans j k bs h a)

  pub insert_pending-IsAscending :
      (b : ProcessedBlock M) (bs : List (ProcessedBlock M))
      → IsAscending key bs
      → IsAscending key (insert_pending b bs)
  unfolding insert_pending
  insert_pending-IsAscending b [] h = (tt, tt)
  insert_pending-IsAscending b (c ∷ cs) (lt, h) =
      elim (Bool-cases (ltb b.block_number c.block_number)) [
        | inl less ↦ rw less (
          (ground arith, All-lt_trans b.block_number c.block_number cs (ground arith) lt),
          (lt, h),
        )
        | inr ge ↦ elim (Bool-cases (b.block_number == c.block_number)) [
          | inl e ↦
              let same : b.block_number ≡ c.block_number = ground arith in
              rw (ge, e) (rw same lt, h)
          | inr ne ↦
              rw (ge, ne)
                (
                  insert_pending-All (λ y. key c < key y) b cs (ground arith) lt,
                  insert_pending-IsAscending b cs h,
                )
        ]
      ]

  -- A new key adds its block and keeps the others.
  pub insert_pending-perm :
      (b : ProcessedBlock M) (bs : List (ProcessedBlock M))
      → contains (keys bs) b.block_number ≡ false
      → Perm (insert_pending b bs) (b ∷ bs)
  unfolding insert_pending
  insert_pending-perm b [] h = Perm.refl (b ∷ [])
  insert_pending-perm b (c ∷ cs) h = elim (Bool-cases (ltb b.block_number c.block_number)) [
    | inl less ↦ rw less (Perm.refl (b ∷ c ∷ cs))
    | inr ge ↦ elim (Bool-cases (b.block_number == c.block_number)) [
      | inl e ↦ absurd (ground arith)
      | inr ne ↦
          rw (ge, ne)
            (Perm.trans (Perm.cons c (insert_pending-perm b cs (ground arith))) (Perm.swap b c cs))
    ]
  ]

  pub contains-insert_pending :
      (b : ProcessedBlock M) (bs : List (ProcessedBlock M)) (k : ℕ)
      → contains (keys (insert_pending b bs)) k ≡ b.block_number == k || contains (keys bs) k
  unfolding insert_pending
  contains-insert_pending b [] k = refl
  contains-insert_pending b (c ∷ cs) k = ground (arith, contains-insert_pending b cs k)

  pub remove_pending_above :
      (n : ℕ) (bs : List (ProcessedBlock M)) → All (λ b. n < key b) bs → remove_pending n bs ≡ none
  unfolding remove_pending
  remove_pending_above n [] h = refl
  remove_pending_above n (b ∷ bs) (p, h) = ground (arith, remove_pending_above n bs h)

  -- Removal of a number that no block lies below: the first block, or none.
  pub remove_pending_least :
      (n : ℕ) (b : ProcessedBlock M) (bs : List (ProcessedBlock M))
      → n ≤ b.block_number
      → IsAscending key (b ∷ bs)
      → ((b.block_number ≡ n) × (remove_pending n (b ∷ bs) ≡ some (b, bs)))
        ⊎ ((n < b.block_number) × (remove_pending n (b ∷ bs) ≡ none))
  unfolding remove_pending
  remove_pending_least n b bs le (lt, h) = elim (Bool-cases (b.block_number == n)) [
    | inl e ↦ inl (ground arith, rw (e, remove_pending))
    | inr ne ↦
        let above : n < b.block_number = ground arith in
        inr (
          above,
          ground (arith, remove_pending_above n bs (All-lt_trans n b.block_number bs above lt)),
        )
  ]

  -- Removal takes one block out.
  pub remove_pending-length :
      (n : ℕ) (bs : List (ProcessedBlock M)) (c : ProcessedBlock M) (cs : List (ProcessedBlock M))
      → remove_pending n bs ≡ some (c, cs)
      → length bs ≡ suc (length cs)
  unfolding remove_pending
  remove_pending-length n [] c cs e = cc
  remove_pending-length n (b ∷ bs) c cs e = elim (Bool-cases (b.block_number == n)) [
    | inl here ↦ ground arith
    | inr later ↦ elim (Option-cases (remove_pending n bs)) [
      | inl missing ↦ absurd (ground arith)
      | inr ((d, ds), found) ↦ ground (arith, remove_pending-length n bs d ds found)
    ]
  ]
