-- ===== src/BlockWatcher/Pipeline/Reports.antt =====
-- src/services/blockwatcher/service.rs: what the tracker is asked, and answers, during the trigger
-- stage.
use mathlib.Core.List.{Memᴰ, Mem, mem-cons_of_mem}
use mathlib.Core.List.Perm
use mathlib.Core.Logic.{∥∥₁_elim}
use mathlib.Core.Bool.{Bool-set}
use native.Mathlib.Bridge.{le_prop}
use openzeppelin_monitor.Prelude.{
  ℕ, zero, suc, ◌≡◌, inl, inr, refl, ap, ◌∙◌, subst, false, List, [], ◌∷◌, ◌++◌, some, ◌==◌, length,
  All, ◌<◌, ◌≤◌, arith, contains, Option-cases, Bool-cases, All-mem,
}
use openzeppelin_monitor.Prelude.Dict.{lookup}
use openzeppelin_monitor.Prelude.Sorted.{IsAscending}
use openzeppelin_monitor.Models.Block.{ProcessedBlock}
use openzeppelin_monitor.Models.Network.{Network}
use openzeppelin_monitor.BlockWatcher.Tracker.{
  BlockTracker, BlockCheckResult, ok, check_processed_block,
}
use openzeppelin_monitor.BlockWatcher.Tracker.History.{history_of}
use openzeppelin_monitor.BlockWatcher.Tracker.Sequence.{check_all, check_all-ok, IsAwaited}
use openzeppelin_monitor.BlockWatcher.Pipeline.{
  Stage, insert_pending, remove_pending, execute, run_ready, receive, receive_all, flush_from,
  trigger_stage,
}
use openzeppelin_monitor.BlockWatcher.Pipeline.Buffer.{key, keys, keys-append}
use openzeppelin_monitor.BlockWatcher.Pipeline.Ready.{
  run_ready_stop, run_ready_step, executed_first,
}
use openzeppelin_monitor.BlockWatcher.Pipeline.Order.{IsExpected, IsBatch, trigger_stage_in_order}

check_all-push :
    (t : BlockTracker) (network : Network) (ns : List ℕ) (n : ℕ)
    → check_all t network (ns ++ n ∷ []) ≡ (
      (check_processed_block (check_all t network ns).0 network n).0,
      (check_all t network ns).1
          ++ (check_processed_block (check_all t network ns).0 network n).1 ∷ [],
    )
unfolding check_all
check_all-push t network [] n = refl
check_all-push t network (m ∷ ns) n =
    rw (check_all-push (check_processed_block t network m).0 network ns n)

module _ {M : Type 0} (network : Network) (t : BlockTracker) where
  -- The tracker and its answers are those of checking the executed blocks in their order.
  abbrev IsTraced : Stage M → Type 0
  IsTraced s = check_all t network (keys s.triggered) ≡ (s.block_tracker, s.reports)

  execute-IsTraced :
      (n : ℕ) (b : ProcessedBlock M) (s : Stage M)
      → key b ≡ n
      → IsTraced s
      → IsTraced (execute network n b s)
  unfolding execute
  execute-IsTraced n b s here h =
      ap (check_all t network) (keys-append s.triggered (b ∷ []))
      ∙ check_all-push t network (keys s.triggered) (key b)
      ∙ traced (check_all t network (keys s.triggered)) h
    where
      traced :
          (r : BlockTracker × List BlockCheckResult)
          → r ≡ (s.block_tracker, s.reports)
          → ◌≡◌ {A = BlockTracker × List BlockCheckResult}
              (
                (check_processed_block r.0 network (key b)).0,
                r.1 ++ (check_processed_block r.0 network (key b)).1 ∷ [],
              )
              (
                (check_processed_block s.block_tracker network n).0,
                s.reports ++ (check_processed_block s.block_tracker network n).1 ∷ [],
              )
      traced r e = rw (e, here)

  remove_pending-key :
      (n : ℕ) (bs : List (ProcessedBlock M)) (c : ProcessedBlock M) (cs : List (ProcessedBlock M))
      → remove_pending n bs ≡ some (c, cs)
      → key c ≡ n
  unfolding remove_pending
  remove_pending-key n [] c cs e = cc
  remove_pending-key n (b ∷ bs) c cs e = elim (Bool-cases (b.block_number == n)) [
    | inl here ↦ ground arith
    | inr later ↦ elim (Option-cases (remove_pending n bs)) [
      | inl missing ↦ absurd (ground arith)
      | inr ((d, ds), found) ↦ ground (arith, remove_pending-key n bs d ds found)
    ]
  ]

  run_ready-IsTraced : (fuel : ℕ) (s : Stage M) → IsTraced s → IsTraced (run_ready network fuel s)
  run_ready-IsTraced zero s h = unfold run_ready in h
  run_ready-IsTraced (suc fuel) s h =
      elim (Option-cases (remove_pending s.next_block_number s.pending)) [
        | inl missing ↦ rw (run_ready_stop network (suc fuel) s missing) h
        | inr ((c, cs), found) ↦ rw (run_ready_step network fuel s c cs found) (
            run_ready-IsTraced fuel (executed_first network c cs s) (
              execute-IsTraced s.next_block_number c s
                (remove_pending-key s.next_block_number s.pending c cs found) h))
      ]

  receive_all-IsTraced :
      (bs : List (ProcessedBlock M)) (s : Stage M)
      → IsTraced s
      → IsTraced (receive_all network bs s)
  unfolding receive_all
  receive_all-IsTraced [] s h = h
  receive_all-IsTraced (b ∷ bs) s h = receive_all-IsTraced bs (receive network b s) (
      unfold receive in
      run_ready-IsTraced (length (insert_pending b s.pending))
        (record s { pending = insert_pending b s.pending }) h)

  flush_from-IsTraced :
      (bs : List (ProcessedBlock M)) (s : Stage M) → IsTraced s → IsTraced (flush_from network bs s)
  unfolding flush_from
  flush_from-IsTraced [] s h = h
  flush_from-IsTraced (b ∷ bs) s h =
      flush_from-IsTraced bs (execute network b.block_number b s)
        (execute-IsTraced b.block_number b s refl h)

-- The tracker ends, and answers, as if the executed blocks had been checked one after the other in
-- the order of execution, for any arrivals.
pub trigger_stage_checks :
    {M : Type 0} (network : Network) (start_block : ℕ) (t : BlockTracker)
    (arrivals : List (ProcessedBlock M))
    → let s = trigger_stage network start_block t arrivals in
      check_all t network (keys s.triggered) ≡ (s.block_tracker, s.reports)
unfolding trigger_stage
trigger_stage_checks {M} network start t arrivals =
    flush_from-IsTraced network t (receive_all network arrivals start_stage).pending
      (receive_all network arrivals start_stage)
      (receive_all-IsTraced network t arrivals start_stage (unfold check_all in refl))
  where
    start_stage : Stage M
    start_stage = record {
      pending = [];
      next_block_number = start;
      block_tracker = t;
      triggered = [];
      reports = [];
    }

All-of_mem {ℓ κ} :
    {A : Type ℓ} (P : A → Type κ) (xs : List A) → ((a : A) → Mem a xs → P a) → All P xs
All-of_mem P [] h = tt
All-of_mem P (x ∷ xs) h =
    (h x ∣ Memᴰ.head refl ∣₁, All-of_mem P xs (λ a m. h a (mem-cons_of_mem x m)))

All-keys :
    {M : Type 0} (P : ℕ → Type 0) (bs : List (ProcessedBlock M))
    → All (λ b. P (key b)) bs
    → All P (keys bs)
All-keys P [] h = tt
All-keys P (b ∷ bs) (p, h) = (p, All-keys P bs h)

IsAwaited-prop : (t : BlockTracker) (network : Network) (n : ℕ) → IsProp (IsAwaited t network n)
IsAwaited-prop t network n = hlevel (le_prop, Bool-set)

module _ {M : Type 0} (network : Network) (start_block : ℕ) (t : BlockTracker) where
  -- A batch that the tracker has not seen, whose start block the expected number does not pass.
  pub record IsFresh (arrivals : List (ProcessedBlock M)) : Type 0 where
    pub batch : IsBatch start_block arrivals
    pub unseen : All (λ b. contains (history_of t network.slug) (key b) ≡ false) arrivals
    pub expected : ℕ
    pub known : lookup network.slug t.expected_next ≡ some expected
    pub reset : expected ≤ start_block

  IsAwaited-of_IsFresh :
      (bs : List (ProcessedBlock M)) (expected : ℕ)
      → lookup network.slug t.expected_next ≡ some expected
      → expected ≤ start_block
      → All (IsExpected start_block []) bs
      → All (λ b. contains (history_of t network.slug) (key b) ≡ false) bs
      → All (λ b. IsAwaited t network (key b)) bs
  IsAwaited-of_IsFresh [] e known le xs us = tt
  IsAwaited-of_IsFresh (b ∷ bs) e known le (x, xs) (u, us) = (
    record {
      not_seen = u;
      not_behind = rw known (omega (arith, x.from_start));
      no_wrap = x.no_wrap;
    },
    IsAwaited-of_IsFresh bs e known le xs us,
  )

  -- When a batch arrives, in any order, of which the tracker has seen no block and whose start
  -- block is not below the number it expects, the tracker reports no duplicate and no block out of
  -- order.
  pub trigger_stage_reports_ok :
      (arrivals : List (ProcessedBlock M))
      → IsFresh arrivals
      → All (λ r. r ≡ ok) (trigger_stage network start_block t arrivals).reports
  trigger_stage_reports_ok arrivals fresh =
      let (ascending, perm) = trigger_stage_in_order network start_block t arrivals fresh.batch in
      subst (All (λ r. r ≡ ok))
        (ap (λ p. p.1) (trigger_stage_checks network start_block t arrivals))
        (check_all-ok t network (keys s.triggered) (ascending_keys s.triggered ascending) (
          All-keys (IsAwaited t network) s.triggered (
            All-of_mem (λ b. IsAwaited t network (key b)) s.triggered
              λ b m. ∥∥₁_elim ((Perm.mem_iff perm).0 m) (IsAwaited-prop t network (key b)) λ d.
                All-mem (λ b. IsAwaited t network (key b)) arrivals d
                  (IsAwaited-of_IsFresh arrivals fresh.expected fresh.known fresh.reset
                    fresh.batch.in_range fresh.unseen))))
    where
      s : Stage M
      s = trigger_stage network start_block t arrivals

      above_keys :
          (n : ℕ) (bs : List (ProcessedBlock M))
          → All (λ b. n < key b) bs
          → All (λ m. n < m) (keys bs)
      above_keys n [] h = tt
      above_keys n (b ∷ bs) (p, h) = (p, above_keys n bs h)

      ascending_keys :
          (bs : List (ProcessedBlock M)) → IsAscending key bs → IsAscending (λ n. n) (keys bs)
      ascending_keys [] h = tt
      ascending_keys (b ∷ bs) (lt, h) = (above_keys (key b) bs lt, ascending_keys bs h)
