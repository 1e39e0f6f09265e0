-- ===== src/Tests/Tracker.antt =====
-- Runs of src/services/blockwatcher/tracker.rs.
use openzeppelin_monitor.Prelude.{
  ℕ, ◌<◌, ◌≡◌, ◌≢◌, ◌↔◌, refl, true, false, [], ◌∷◌, arith, contains, All, eq_iff,
}
use openzeppelin_monitor.BlockWatcher.Tracker.{
  ok, duplicate, out_of_order, new, check_processed_block, numbers, detect_missing_blocks,
}
use openzeppelin_monitor.BlockWatcher.Tracker.Missing.{IsMissed, detect_missing_blocks_iff}
use openzeppelin_monitor.BlockWatcher.Tracker.History.{
  IsSound, new-IsSound, check_processed_block-IsSound,
}
use openzeppelin_monitor.BlockWatcher.Tracker.Sequence.{check_all, IsAwaited, check_all-ok}
use openzeppelin_monitor.Tests.Data.{testnet, block, tracker}

missing_in_batch : detect_missing_blocks (block 7 ∷ block 3 ∷ block 5 ∷ []) ≡ 4 ∷ 6 ∷ []
unfolding detect_missing_blocks
missing_in_batch = refl

duplicate_found : (check_processed_block tracker testnet 5).1 ≡ duplicate 5
unfolding check_processed_block
duplicate_found = refl

late_block_found : (check_processed_block tracker testnet 4).1 ≡ out_of_order 6 4
unfolding check_processed_block
late_block_found = refl

detect_missing_blocks_iff_example :
    (contains (detect_missing_blocks (block 7 ∷ block 3 ∷ block 5 ∷ [])) 4 ≡ true)
    ↔ IsMissed (numbers (block 7 ∷ block 3 ∷ block 5 ∷ [])) 4
detect_missing_blocks_iff_example = detect_missing_blocks_iff (block 7 ∷ block 3 ∷ block 5 ∷ []) 4

check_processed_block-IsSound_example : IsSound (check_processed_block (new 2) testnet 5).0
check_processed_block-IsSound_example =
    check_processed_block-IsSound (new 2) testnet 5 (new-IsSound 2)

other_slug : testnet.slug ≢ "ethereum_mainnet"
other_slug = λ e. ground (arith, (eq_iff "stellar_testnet" "ethereum_mainnet").1 e)

awaited : (n : ℕ) → contains (5 ∷ []) n ≡ false → 5 < n → n < 100 → IsAwaited tracker testnet n
awaited n fresh above below = record {
  not_seen = fresh;
  not_behind = omega (arith, above);
  no_wrap = omega (arith, below);
}

check_all-ok_example : All (λ r. r ≡ ok) (check_all tracker testnet (6 ∷ 7 ∷ [])).1
check_all-ok_example =
    check_all-ok tracker testnet (6 ∷ 7 ∷ []) ((omega arith, tt), (tt, tt))
      (awaited 6 refl (omega arith) (omega arith), (awaited 7 refl (omega arith) (omega arith), tt))
