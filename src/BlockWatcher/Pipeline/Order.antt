-- ===== src/BlockWatcher/Pipeline/Order.antt =====
-- src/services/blockwatcher/service.rs: the trigger stage as a whole, from the arrivals to the
-- calls of the trigger handler.
use mathlib.Core.List.{Perm, append_assoc, append-nil, perm_middle}
use mathlib.Core.List.Perm
use openzeppelin_monitor.Prelude.{
  IsDistinct, ℕ, ◌≡◌, inl, inr, sym, ap, ◌∙◌, false, List, [], ◌∷◌, ◌++◌, ltb, ◌==◌, length, All,
  ◌<◌, ◌≤◌, arith, contains, Bool-cases, ◌||◌, All-append, contains-append,
}
use openzeppelin_monitor.Prelude.Sorted.{IsAscending}
use openzeppelin_monitor.Models.Block.{ProcessedBlock}
use openzeppelin_monitor.Models.Network.{Network}
use openzeppelin_monitor.BlockWatcher.Tracker.{BlockTracker}
use openzeppelin_monitor.BlockWatcher.Pipeline.{
  Stage, insert_pending, execute, receive, receive_all, flush_from, trigger_stage,
}
use openzeppelin_monitor.BlockWatcher.Pipeline.Buffer.{
  key, keys, keys-append, insert_pending-All, insert_pending-IsAscending, insert_pending-perm,
  contains-insert_pending,
}
use openzeppelin_monitor.BlockWatcher.Pipeline.Ready.{held, IsInOrder, run_ready-IsInOrder}

module _ {M : Type 0} where
  -- Blocks that can still arrive: none has the number of a block that is held or of another one to
  -- come, or lies below the start block, or has the last 64-bit number.
  pub record IsExpected (start_block : ℕ) (known : List ℕ) (b : ProcessedBlock M) : Type 0 where
    pub is_new : contains known (key b) ≡ false
    pub from_start : start_block ≤ key b
    pub no_wrap : key b < 18446744073709551615

  contains-held :
      (s : Stage M) (k : ℕ)
      → contains (keys (held s)) k ≡ contains (keys s.triggered) k || contains (keys s.pending) k
  contains-held s k =
      ap (λ l. contains l k) (keys-append s.triggered s.pending)
      ∙ contains-append (keys s.triggered) (keys s.pending) k

  -- A new block is not below the expected number: the range from the start block is filled.
  ahead_of_new :
      (start : ℕ) (s : Stage M) (b : ProcessedBlock M)
      → IsInOrder start s
      → IsExpected start (keys (held s)) b
      → s.next_block_number ≤ key b
  ahead_of_new start s b inv x = elim (Bool-cases (ltb (key b) s.next_block_number)) [
    | inl below ↦ absurd (
        ground (
          arith,
          inv.filled (key b) x.from_start (ground arith),
          contains-held s (key b),
          x.is_new,
        ))
    | inr above ↦ ground arith
  ]

  abbrev buffered_block : ProcessedBlock M → Stage M → Stage M
  buffered_block b s = record s { pending = insert_pending b s.pending }

  buffered_block-IsInOrder :
      (start : ℕ) (s : Stage M) (b : ProcessedBlock M)
      → IsInOrder start s
      → IsExpected start (keys (held s)) b
      → IsInOrder start (buffered_block b s)
  buffered_block-IsInOrder start s b inv x = record {
    executed = inv.executed;
    buffered = insert_pending-IsAscending b s.pending inv.buffered;
    behind = inv.behind;
    ahead =
        insert_pending-All (λ c. s.next_block_number ≤ key c) b s.pending
          (ahead_of_new start s b inv x) inv.ahead;
    filled = inv.filled;
    no_wrap =
        insert_pending-All (λ c. key c < 18446744073709551615) b s.pending x.no_wrap inv.no_wrap;
  }

  module _ (network : Network) where
    receive-IsInOrder :
        (start : ℕ) (s : Stage M) (b : ProcessedBlock M)
        → IsInOrder start s
        → IsExpected start (keys (held s)) b
        → IsInOrder start (receive network b s)
          × (held (receive network b s) ≡ s.triggered ++ insert_pending b s.pending)
    unfolding receive
    receive-IsInOrder start s b inv x =
        run_ready-IsInOrder network start (length (insert_pending b s.pending)) (buffered_block b s)
          (buffered_block-IsInOrder start s b inv x)

    receive-perm :
        (start : ℕ) (s : Stage M) (b : ProcessedBlock M)
        → IsInOrder start s
        → IsExpected start (keys (held s)) b
        → Perm (held (receive network b s)) (b ∷ held s)
    receive-perm start s b inv x = rw (receive-IsInOrder start s b inv x).1 (
        Perm.trans
          (Perm.append_left s.triggered
            (insert_pending-perm b s.pending (ground (arith, x.is_new, contains-held s (key b)))))
          (perm_middle s.triggered s.pending))

    contains-receive :
        (start : ℕ) (s : Stage M) (b : ProcessedBlock M) (k : ℕ)
        → IsInOrder start s
        → IsExpected start (keys (held s)) b
        → contains (keys (held (receive network b s))) k ≡ key b == k || contains (keys (held s)) k
    contains-receive start s b k inv x = rw (receive-IsInOrder start s b inv x).1 (
        contains-held (buffered_block b s) k
        ∙ ground (arith, contains-held s k, contains-insert_pending b s.pending k))

    All-receive :
        (start : ℕ) (s : Stage M) (b : ProcessedBlock M) (bs : List (ProcessedBlock M))
        → IsInOrder start s
        → IsExpected start (keys (held s)) b
        → contains (keys bs) (key b) ≡ false
        → All (IsExpected start (keys (held s))) bs
        → All (IsExpected start (keys (held (receive network b s)))) bs
    All-receive start s b [] inv x fresh h = tt
    All-receive start s b (c ∷ cs) inv x fresh (p, h) = (
      record {
        is_new = contains-receive start s b (key c) inv x ∙ ground (arith, p.is_new, ==-flip);
        from_start = p.from_start;
        no_wrap = p.no_wrap;
      },
      All-receive start s b cs inv x (ground arith) h,
    )
      where
        ==-flip : (key b == key c) ≡ (key c == key b)
        ==-flip = ground arith

    receive_all-IsInOrder :
        (start : ℕ) (bs : List (ProcessedBlock M)) (s : Stage M)
        → IsInOrder start s
        → IsDistinct (keys bs)
        → All (IsExpected start (keys (held s))) bs
        → IsInOrder start (receive_all network bs s)
          × Perm (held (receive_all network bs s)) (held s ++ bs)
    unfolding receive_all
    receive_all-IsInOrder start [] s inv d h = (inv, rw append-nil (Perm.refl (held s)))
    receive_all-IsInOrder start (b ∷ bs) s inv (fresh, d) (x, h) =
        let (after, perm) =
          receive_all-IsInOrder start bs (receive network b s) (receive-IsInOrder start s b inv x).0
            d (All-receive start s b bs inv x fresh h) in
        (
          after,
          Perm.trans perm (
              Perm.trans (Perm.append_right bs (receive-perm start s b inv x))
                (Perm.symm (perm_middle (held s) bs))),
        )

    flush_from-triggered :
        (bs : List (ProcessedBlock M)) (s : Stage M)
        → (flush_from network bs s).triggered ≡ s.triggered ++ bs
    unfolding flush_from
    flush_from-triggered [] s = sym (append-nil s.triggered)
    flush_from-triggered (b ∷ bs) s =
        flush_from-triggered bs (execute network b.block_number b s)
        ∙ (unfold execute in append_assoc s.triggered (b ∷ []) bs)

  IsAscending-append :
      (xs ys : List (ProcessedBlock M)) (n : ℕ)
      → IsAscending key xs
      → IsAscending key ys
      → All (λ b. key b < n) xs
      → All (λ b. n ≤ key b) ys
      → IsAscending key (xs ++ ys)
  IsAscending-append [] ys n h k lo hi = k
  IsAscending-append (x ∷ xs) ys n (lt, h) k (p, lo) hi = (
    All-append (λ y. key x < key y) xs ys lt (lifted ys hi),
    IsAscending-append xs ys n h k lo hi,
  )
    where
      lifted :
          (zs : List (ProcessedBlock M)) → All (λ b. n ≤ key b) zs → All (λ b. key x < key b) zs
      lifted [] a = tt
      lifted (z ∷ zs) (q, a) = (omega arith, lifted zs a)

  -- The blocks that can arrive in one run: with distinct numbers, from the start block on, and
  -- below the last 64-bit number.
  pub record IsBatch (start_block : ℕ) (arrivals : List (ProcessedBlock M)) : Type 0 where
    pub distinct : IsDistinct (keys arrivals)
    pub in_range : All (IsExpected start_block []) arrivals

  -- Whatever the order in which the processed blocks of a batch arrive (distinct numbers, from the
  -- start block on, below the last 64-bit number), the trigger handler is called with exactly
  -- these blocks, each one once, in ascending order of their numbers.
  pub trigger_stage_in_order :
      (network : Network) (start_block : ℕ) (t : BlockTracker) (arrivals : List (ProcessedBlock M))
      → IsBatch start_block arrivals
      → let s = trigger_stage network start_block t arrivals in
        IsAscending key s.triggered × Perm s.triggered arrivals
  unfolding trigger_stage
  trigger_stage_in_order network start t arrivals batch =
      let (inv, perm) =
        receive_all-IsInOrder network start arrivals start_stage start_inv batch.distinct
          batch.in_range in
      rw (flush_from-triggered network last.pending last) (
        IsAscending-append last.triggered last.pending last.next_block_number inv.executed
            inv.buffered inv.behind inv.ahead,
        perm,
      )
    where
      start_stage : Stage M
      start_stage = record {
        pending = [];
        next_block_number = start;
        block_tracker = t;
        triggered = [];
        reports = [];
      }

      last : Stage M
      last = receive_all network arrivals start_stage

      start_inv : IsInOrder start start_stage
      start_inv = record {
        executed = tt;
        buffered = tt;
        behind = tt;
        ahead = tt;
        filled = λ k from to. absurd (omega arith);
        no_wrap = tt;
      }
