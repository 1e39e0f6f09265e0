-- ===== src/BlockWatcher/Tracker/Sequence.antt =====
-- A run of checks over ascending blocks, as the trigger stage makes them.
use openzeppelin_monitor.Prelude.{
  ℕ, ◌≡◌, refl, false, List, [], ◌∷◌, ◌++◌, some, arith, ◌≤◌, ◌<◌, ltb, contains, inl, inr,
  Bool-cases, Option-cases, All, ◌∙◌, contains-append,
}
use openzeppelin_monitor.Prelude.Dict.{lookup, lookup-insert_self}
use openzeppelin_monitor.Prelude.Sorted.{IsAscending}
use openzeppelin_monitor.Models.Block.{unwrap_or}
use openzeppelin_monitor.Models.Network.{Network}
use openzeppelin_monitor.BlockWatcher.Tracker.{
  BlockTracker, BlockCheckResult, ok, classify, record_block, advance, check_processed_block,
  reset_expected_next,
}
use openzeppelin_monitor.BlockWatcher.Tracker.History.{history_of, contains-trim}

-- The results of checking blocks one after the other.
unfoldable pub check_all : BlockTracker → Network → List ℕ → BlockTracker × List BlockCheckResult
check_all t network [] = (t, [])
check_all t network (n ∷ ns) =
    let (t', result) = check_processed_block t network n in
    let (t'', results) = check_all t' network ns in (t'', result ∷ results)

-- The expected number of the network is at most the number of each block, and none of them is in
-- its history or is the last 64-bit number.
pub record IsAwaited (t : BlockTracker) (network : Network) (n : ℕ) : Type 0 where
  pub not_seen : contains (history_of t network.slug) n ≡ false
  pub not_behind : unwrap_or n (lookup network.slug t.expected_next) ≤ n
  pub no_wrap : n < 18446744073709551615

check-IsAwaited :
    (t : BlockTracker) (network : Network) (n m : ℕ)
    → IsAwaited t network n
    → IsAwaited t network m
    → n < m
    → IsAwaited (check_processed_block t network n).0 network m
unfolding check_processed_block record_block advance
check-IsAwaited t network n m here later lt = record {
  not_seen = rw lookup-insert_self (
      rw here.not_seen (
        contains-trim t.history_size m (history_of t network.slug ++ n ∷ []) (
          contains-append (history_of t network.slug) (n ∷ []) m
          ∙ ground (arith, later.not_seen))));
  not_behind = rw lookup-insert_self (ground (arith, here, later));
  no_wrap = later.no_wrap;
}

check-ok :
    (t : BlockTracker) (network : Network) (n : ℕ)
    → IsAwaited t network n
    → (check_processed_block t network n).1 ≡ ok
unfolding check_processed_block classify
check-ok t network n a = ground (arith, a.not_seen, a.not_behind)

All-check :
    (t : BlockTracker) (network : Network) (n : ℕ) (ns : List ℕ)
    → IsAwaited t network n
    → All (λ m. n < m) ns
    → All (IsAwaited t network) ns
    → All (IsAwaited (check_processed_block t network n).0 network) ns
All-check t network n [] here lt later = tt
All-check t network n (m ∷ ns) here (lt, lts) (later, laters) =
    (check-IsAwaited t network n m here later lt, All-check t network n ns here lts laters)

-- Blocks checked in ascending order, none seen before, none below the expected number and none the
-- last 64-bit number, are all reported as valid: no false duplicate, no false warning of order.
pub check_all-ok :
    (t : BlockTracker) (network : Network) (ns : List ℕ)
    → IsAscending (λ n. n) ns
    → All (IsAwaited t network) ns
    → All (λ r. r ≡ ok) (check_all t network ns).1
unfolding check_all
check_all-ok t network [] asc all = tt
check_all-ok t network (n ∷ ns) (lt, asc) (here, later) = (
  check-ok t network n here,
  check_all-ok (check_processed_block t network n).0 network ns asc
      (All-check t network n ns here lt later),
)

-- After `reset_expected_next` the expected number is at most the start block, and the histories are
-- as they were.
pub reset_expected_next_lem :
    (t : BlockTracker) (network : Network) (start_block : ℕ)
    → let t' = reset_expected_next t network start_block in
      (expected : ℕ) × (lookup network.slug t'.expected_next ≡ some expected)
      × (expected ≤ start_block)
      × (t'.processed_history ≡ t.processed_history)
unfolding reset_expected_next
reset_expected_next_lem t network start =
    elim (Option-cases (lookup network.slug t.expected_next)) [
      | inl e ↦ (
        start,
        rw (e, reset_expected_next) (lookup-insert_self network.slug start t.expected_next),
        omega arith,
        rw (e, reset_expected_next) refl,
      )
      | inr (expected, e) ↦ elim (Bool-cases (ltb start expected)) [
        | inl lower ↦ (
          start,
          rw (e, reset_expected_next)
              (rw lower (lookup-insert_self network.slug start t.expected_next)),
          omega arith,
          rw (e, reset_expected_next) (rw lower refl),
        )
        | inr not_lower ↦ (
          expected,
          rw (e, reset_expected_next) (rw not_lower e),
          ground arith,
          rw (e, reset_expected_next) (rw not_lower refl),
        )
      ]
    ]
