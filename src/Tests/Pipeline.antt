-- ===== src/Tests/Pipeline.antt =====
-- Runs of the trigger stage of src/services/blockwatcher/service.rs.
use openzeppelin_monitor.Prelude.{ℕ, ◌<◌, ◌≤◌, ◌≡◌, refl, List, [], ◌∷◌, none, arith, All}
use mathlib.Core.List.{Perm}
use openzeppelin_monitor.Prelude.Sorted.{IsAscending}
use openzeppelin_monitor.Models.Block.{ProcessedBlock}
use openzeppelin_monitor.BlockWatcher.Tracker.{ok}
use openzeppelin_monitor.BlockWatcher.Tracker.Sequence.{check_all}
use openzeppelin_monitor.BlockWatcher.Pipeline.{Stage, run_ready, remove_pending, trigger_stage}
use openzeppelin_monitor.BlockWatcher.Pipeline.Buffer.{key, keys}
use openzeppelin_monitor.BlockWatcher.Pipeline.Ready.{run_ready_settled}
use openzeppelin_monitor.BlockWatcher.Pipeline.Order.{IsExpected, IsBatch, trigger_stage_in_order}
use openzeppelin_monitor.BlockWatcher.Pipeline.Reports.{
  trigger_stage_checks, trigger_stage_reports_ok,
}
use openzeppelin_monitor.Tests.Data.{testnet, processed, tracker}

-- Block 7 never arrives: 8 waits until the end.
abbrev arrivals : List (ProcessedBlock ℕ)
arrivals = processed 9 ∷ processed 6 ∷ processed 8 ∷ []

triggered_in_order :
    (trigger_stage testnet 6 tracker arrivals).triggered
    ≡ processed 6 ∷ processed 8 ∷ processed 9 ∷ []
unfolding trigger_stage
triggered_in_order = refl

expected : (n : ℕ) → 6 ≤ n → n < 100 → IsExpected 6 [] (processed n)
expected n from to = record { is_new = refl; from_start = from; no_wrap = omega (arith, to) }

batch : IsBatch 6 arrivals
batch = record {
  distinct = (refl, (refl, (refl, tt)));
  in_range = (
    expected 9 (omega arith) (omega arith),
    (expected 6 (omega arith) (omega arith), (expected 8 (omega arith) (omega arith), tt)),
  );
}

trigger_stage_in_order_example :
    let s = trigger_stage testnet 6 tracker arrivals in
    IsAscending key s.triggered × Perm s.triggered arrivals
trigger_stage_in_order_example = trigger_stage_in_order testnet 6 tracker arrivals batch

trigger_stage_checks_example :
    let s = trigger_stage testnet 6 tracker arrivals in
    check_all tracker testnet (keys s.triggered) ≡ (s.block_tracker, s.reports)
trigger_stage_checks_example = trigger_stage_checks testnet 6 tracker arrivals

trigger_stage_reports_ok_example :
    All (λ r. r ≡ ok) (trigger_stage testnet 6 tracker arrivals).reports
trigger_stage_reports_ok_example = trigger_stage_reports_ok testnet 6 tracker arrivals (record {
  batch = batch;
  unseen = (refl, (refl, (refl, tt)));
  expected = 6;
  known = refl;
  reset = omega arith;
})

abbrev stage : Stage ℕ
stage = record {
  pending = processed 6 ∷ processed 7 ∷ processed 9 ∷ [];
  next_block_number = 6;
  block_tracker = tracker;
  triggered = [];
  reports = [];
}

run_ready_settled_example :
    remove_pending (run_ready testnet 3 stage).next_block_number (run_ready testnet 3 stage).pending
    ≡ none
run_ready_settled_example = run_ready_settled testnet 3 stage (omega arith)
