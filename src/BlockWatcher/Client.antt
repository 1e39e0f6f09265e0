-- ===== src/BlockWatcher/Client.antt =====
-- src/services/blockchain/client.rs and src/services/blockwatcher/error.rs: what the watcher asks of a
-- blockchain client, and its errors.
use openzeppelin_monitor.Prelude.{ℕ, List, Option, String}
use openzeppelin_monitor.Prelude.Result.{Result, map_err}
use openzeppelin_monitor.Models.Block.{BlockType}

-- The trait `BlockChainClient`. A call takes the state of the client and of the network behind it and
-- returns the new one with its result; an error is the text that `to_string` gives.
pub record BlockChainClient (C : Type 0) : Type 0 where
  pub get_latest_block_number : C → Result String ℕ × C
  pub get_blocks : ℕ → Option ℕ → C → Result String (List BlockType) × C

-- Each holds the text of its message.
pub data BlockWatcherError : Type 0 where
  scheduler_error network_error processing_error storage_error block_tracker_error recovery_error
        other :
      String → BlockWatcherError

-- `.with_context(|| context)?`: the error becomes `Other` with the context as its text.
abbrev pub with_context : {E A : Type 0} → String → Result E A → Result BlockWatcherError A
with_context context r = map_err (λ e. other context) r
