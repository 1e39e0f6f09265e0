-- ===== src/BlockWatcher/Pipeline/Ready.antt =====
-- src/services/blockwatcher/service.rs: the invariant of the trigger stage, and the loop over the
-- blocks that are ready.
use mathlib.Core.List.{append_assoc}
use openzeppelin_monitor.Prelude.{
  ℕ, zero, suc, ◌+◌, ◌≡◌, ◌⊎◌, inl, inr, refl, sym, ap, ◌∙◌, ◌≢◌, subst, true, false, List, [], ◌∷◌,
  ◌++◌, none, some, ◌==◌, length, All, ◌<◌, ◌≤◌, arith, contains, Option-cases, Bool-cases, ◌||◌,
  All-append, contains-append,
}
use openzeppelin_monitor.Prelude.Word.{u64}
use openzeppelin_monitor.Prelude.Sorted.{IsAscending}
use openzeppelin_monitor.Models.Block.{ProcessedBlock}
use openzeppelin_monitor.Models.Network.{Network}
use openzeppelin_monitor.BlockWatcher.Pipeline.{Stage, remove_pending, execute, run_ready}
use openzeppelin_monitor.BlockWatcher.Pipeline.Buffer.{
  key, keys, keys-append, remove_pending_least, remove_pending-length,
}

module _ {M : Type 0} where
  -- Every block that was received and not lost: the executed ones, then the buffered ones.
  abbrev pub held : Stage M → List (ProcessedBlock M)
  held s = s.triggered ++ s.pending

  -- Between two arrivals: what was executed lies below the expected number and fills the range from
  -- the start block, what is buffered lies at or above it, and both are in ascending order.
  pub record IsInOrder (start_block : ℕ) (s : Stage M) : Type 0 where
    pub executed : IsAscending key s.triggered
    pub buffered : IsAscending key s.pending
    pub behind : All (λ b. key b < s.next_block_number) s.triggered
    pub ahead : All (λ b. s.next_block_number ≤ key b) s.pending
    pub filled :
        (k : ℕ) → start_block ≤ k → k < s.next_block_number → contains (keys s.triggered) k ≡ true
    pub no_wrap : All (λ b. key b < 18446744073709551615) s.pending

  All-le :
      (n : ℕ) (bs : List (ProcessedBlock M)) → All (λ b. key b < n) bs → All (λ b. key b < suc n) bs
  All-le n [] h = tt
  All-le n (b ∷ bs) (p, h) = (omega arith, All-le n bs h)

  IsAscending-push :
      (bs : List (ProcessedBlock M)) (b : ProcessedBlock M)
      → IsAscending key bs
      → All (λ c. key c < key b) bs
      → IsAscending key (bs ++ b ∷ [])
  IsAscending-push [] b h a = (tt, tt)
  IsAscending-push (c ∷ cs) b (lt, h) (p, a) =
      (All-append (λ y. key c < key y) cs (b ∷ []) lt (p, tt), IsAscending-push cs b h a)

  -- The stage after the first buffered block was executed.
  abbrev pub executed_first :
      Network → ProcessedBlock M → List (ProcessedBlock M) → Stage M → Stage M
  executed_first network c cs s = record (execute network s.next_block_number c s) {
    pending = cs;
    next_block_number = u64 (s.next_block_number + 1);
  }

  executed_first-IsInOrder :
      (network : Network) (start_block : ℕ) (s : Stage M) (c : ProcessedBlock M)
      (cs : List (ProcessedBlock M))
      → IsInOrder start_block s
      → s.pending ≡ c ∷ cs
      → key c ≡ s.next_block_number
      → IsInOrder start_block (executed_first network c cs s)
  unfolding execute
  executed_first-IsInOrder network start s c cs inv shape here =
      let sorted : IsAscending key (c ∷ cs) = subst (λ l. IsAscending key l) shape inv.buffered in
      let room : All (λ b. key b < 18446744073709551615) (c ∷ cs) =
        subst (λ l. All (λ b. key b < 18446744073709551615) l) shape inv.no_wrap in
      let next : u64 (s.next_block_number + 1) ≡ suc s.next_block_number = omega (arith, room.0) in
      record {
        executed =
            IsAscending-push s.triggered c inv.executed
              (subst (λ n. All (λ b. key b < n) s.triggered) (sym here) inv.behind);
        buffered = sorted.1;
        behind = rw next (
            All-append (λ b. key b < suc s.next_block_number) s.triggered (c ∷ [])
              (All-le s.next_block_number s.triggered inv.behind) (omega arith, tt));
        ahead = rw next (subst (λ n. All (λ b. n < key b) cs) here sorted.0);
        filled = λ k from to.
            keys_pushed k (rw keys-append (contains-append (keys s.triggered) (key c ∷ []) k))
              (elim (Bool-cases (key c == k)) [
                | inl e ↦ inr e
                | inr ne ↦ inl (inv.filled k from (omega (arith, next, differs k ne)))
              ]);
        no_wrap = room.1;
      }
    where
      differs : (k : ℕ) → (key c == k) ≡ false → k ≢ key c
      differs k e = ground arith

      keys_pushed :
          (k : ℕ)
          → contains (keys (s.triggered ++ c ∷ [])) k
            ≡ contains (keys s.triggered) k || contains (key c ∷ []) k
          → (contains (keys s.triggered) k ≡ true) ⊎ ((key c == k) ≡ true)
          → contains (keys (s.triggered ++ c ∷ [])) k ≡ true
      keys_pushed k e (inl h) = e ∙ ground arith
      keys_pushed k e (inr h) = e ∙ ground arith

  -- The first block of an ordered buffer is the next one, or the next one is not there.
  next_cases :
      (n : ℕ) (l : List (ProcessedBlock M))
      → All (λ b. n ≤ key b) l
      → IsAscending key l
      → (remove_pending n l ≡ none)
        ⊎ ((c : ProcessedBlock M) × (cs : List (ProcessedBlock M)) × (l ≡ c ∷ cs)
            × (key c ≡ n)
            × (remove_pending n l ≡ some (c, cs)))
  unfolding remove_pending
  next_cases n [] le asc = inl refl
  next_cases n (c ∷ cs) (le, les) asc = elim (remove_pending_least n c cs le asc) [
    | inl (here, found) ↦ inr (c, cs, refl, here, found)
    | inr (above, missing) ↦ inl missing
  ]

  module _ (network : Network) where
    pub run_ready_stop :
        (fuel : ℕ) (s : Stage M)
        → remove_pending s.next_block_number s.pending ≡ none
        → run_ready network fuel s ≡ s
    unfolding run_ready
    run_ready_stop zero s e = refl
    run_ready_stop (suc fuel) s e = ground arith

    pub run_ready_step :
        (fuel : ℕ) (s : Stage M) (c : ProcessedBlock M) (cs : List (ProcessedBlock M))
        → remove_pending s.next_block_number s.pending ≡ some (c, cs)
        → run_ready network (suc fuel) s ≡ run_ready network fuel (executed_first network c cs s)
    unfolding run_ready
    run_ready_step fuel s c cs e = ground arith

    -- `run_ready` keeps the order, and moves blocks from the buffer without losing one.
    pub run_ready-IsInOrder :
        (start_block fuel : ℕ) (s : Stage M)
        → IsInOrder start_block s
        → IsInOrder start_block (run_ready network fuel s)
          × (held (run_ready network fuel s) ≡ held s)
    run_ready-IsInOrder start zero s inv = unfold run_ready in (inv, refl)
    run_ready-IsInOrder start (suc fuel) s inv =
        elim (next_cases s.next_block_number s.pending inv.ahead inv.buffered) [
          | inl missing ↦ rw (run_ready_stop (suc fuel) s missing) (inv, refl)
          | inr (c, cs, shape, here, found) ↦
              let (after, same) =
                run_ready-IsInOrder start fuel (executed_first network c cs s)
                  (executed_first-IsInOrder network start s c cs inv shape here) in
              rw (run_ready_step fuel s c cs found) (after, same ∙ moved c cs s shape)
        ]
      where
        moved :
            (c : ProcessedBlock M) (cs : List (ProcessedBlock M)) (t : Stage M)
            → t.pending ≡ c ∷ cs
            → held (executed_first network c cs t) ≡ held t
        moved c cs t shape =
            unfold execute in
            append_assoc t.triggered (c ∷ []) cs ∙ ap (λ l. t.triggered ++ l) (sym shape)

    -- With at least the size of the buffer as fuel, the loop ends because the next block is not
    -- there.
    pub run_ready_settled :
        (fuel : ℕ) (s : Stage M)
        → length s.pending ≤ fuel
        → remove_pending
            (run_ready network fuel s).next_block_number
            (run_ready network fuel s).pending
          ≡ none
    unfolding run_ready execute
    run_ready_settled zero s h = empty_pending s.next_block_number s.pending (omega arith)
      where
        empty_pending :
            (n : ℕ) (l : List (ProcessedBlock M)) → length l ≤ 0 → remove_pending n l ≡ none
        empty_pending n [] h' = unfold remove_pending in refl
        empty_pending n (c ∷ cs) h' = absurd (omega arith)
    run_ready_settled (suc fuel) s h =
        elim (Option-cases (remove_pending s.next_block_number s.pending)) [
          | inl missing ↦ rw (run_ready_stop (suc fuel) s missing) missing
          | inr ((c, cs), found) ↦ rw (run_ready_step fuel s c cs found) (
              run_ready_settled fuel (executed_first network c cs s)
                (omega (arith, remove_pending-length s.next_block_number s.pending c cs found)))
        ]
