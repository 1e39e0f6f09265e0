-- ===== src/Tests/Monitoring.antt =====
-- A run of src/services/blockwatcher/service.rs with the handlers of src/bootstrap/mod.rs.
use openzeppelin_monitor.Prelude.{
  String, length, true, ◌≡◌, refl, suc, ℕ, false, List, [], ◌∷◌, some, All, map, arith,
}
use mathlib.Core.List.Perm
use openzeppelin_monitor.Prelude.Result.{ok}
use openzeppelin_monitor.Models.Block.{BlockType, ProcessedBlock, number}
use openzeppelin_monitor.Models.Block as Chain
use openzeppelin_monitor.Models.Evm.{MonitorMatch}
use openzeppelin_monitor.Models.Monitor.{Monitor}
use openzeppelin_monitor.Models.NetworkConfig.{get_recommended_past_blocks}
use openzeppelin_monitor.Models.Network.{Network}
use openzeppelin_monitor.Trigger.{load_scripts}
use openzeppelin_monitor.BlockWatcher.Client.{BlockChainClient}
use openzeppelin_monitor.BlockWatcher.Pipeline.Order.{IsBatch}
use openzeppelin_monitor.BlockWatcher.Service.{
  arrivals, fetch, process_new_blocks, save_missed, store, save_last, pipeline,
}
use openzeppelin_monitor.BlockWatcher.Tracker.{detect_missing_blocks}
use openzeppelin_monitor.BlockWatcher.Pipeline.{trigger_stage}
use openzeppelin_monitor.BlockWatcher.Service.Run.{Accepts, IsFetched}
use openzeppelin_monitor.Bootstrap.{block_handler, filter_active_monitors, handled_matches}
use openzeppelin_monitor.Bootstrap.Monitoring.{Delivered, process_new_blocks-Delivers}
use openzeppelin_monitor.Filter.Evm.Block.{filter_block}
use openzeppelin_monitor.Filter.Evm.Conditions.{needs_receipt, find_matching_transaction}
use openzeppelin_monitor.Filter.Expression.Evaluate.{evaluate, evaluate_condition}
use openzeppelin_monitor.Filter.Evm.Evaluator.{get_base_param, compare_final_values}
use openzeppelin_monitor.Filter.Evm.Events.{find_matching_events_for_transaction}
use openzeppelin_monitor.Tests.Data.{cron, State, storage, tracker}
use openzeppelin_monitor.Tests.Expressions.{platform}
use openzeppelin_monitor.Tests.Filter.{alloy, client, evm_block}
use openzeppelin_monitor.Tests.Bootstrap.{mainnet, scripted_monitor, pool, read, get, scripts, run}

-- The node is at block 7, of which two blocks are not confirmed yet.
abbrev node : BlockChainClient ℕ
node = record {
  get_latest_block_number = λ calls. (ok 7, suc calls);
  get_blocks = λ first last calls. (ok (Chain.evm evm_block ∷ []), suc calls);
}

abbrev in_turn : List (ProcessedBlock MonitorMatch) → List (ProcessedBlock MonitorMatch)
in_turn bs = bs

abbrev state : State
state = ([], some 4)

-- The second monitor is paused.
abbrev configured : List (String × Monitor)
configured =
    ("transfers", scripted_monitor)
    ∷ ("paused", record scripted_monitor { paused = true; name = "paused" })
    ∷ []

abbrev watched : BlockType → Network → ProcessedBlock MonitorMatch
watched = block_handler (filter_active_monitors configured) pool [] false

accepts : Accepts storage mainnet.slug
accepts = record {
  saves_missed = λ now ns s. refl;
  deletes = λ s. refl;
  saves_blocks = λ now bs s. refl;
  saves_last = λ n s. refl;
  keeps_last = λ n s. refl;
}

fetched :
    IsFetched cron storage node watched in_turn 3000 mainnet state 0
      (ok (map Chain.evm (evm_block ∷ [])))
unfolding fetch get_recommended_past_blocks
fetched = record {
  last = some 4;
  latest = 7;
  bound = 20;
  gets_last = refl;
  gets_latest = refl;
  has_bound = refl;
  fetches = refl;
}

batch :
    IsBatch 5
      (arrivals cron storage node watched in_turn 3000 mainnet (map Chain.evm (evm_block ∷ [])))
unfolding number block_handler
batch = record {
  distinct = (refl, tt);
  in_range = (record { is_new = refl; from_start = omega arith; no_wrap = omega arith }, tt);
}

-- One match reaches its triggers.
delivered_one :
    map
      (λ p.
        length
          (handled_matches platform.unicode (λ (m : MonitorMatch). m.monitor) run p scripts false))
      (process_new_blocks cron storage node watched in_turn 3000 mainnet state 0 tracker).triggered
    ≡ 1 ∷ []
unfolding process_new_blocks load_scripts block_handler filter_block needs_receipt
    find_matching_events_for_transaction evaluate evaluate_condition get_base_param
    compare_final_values find_matching_transaction handled_matches filter_active_monitors
    get_recommended_past_blocks fetch save_missed detect_missing_blocks store save_last pipeline
    trigger_stage
delivered_one = refl

process_new_blocks-Delivers_example :
    ∥ All
      (λ p.
        All
          (Delivered platform alloy client [] configured (evm_block ∷ []) mainnet.slug scripts run)
          (handled_matches platform.unicode (λ (m : MonitorMatch). m.monitor) run p scripts false))
      (process_new_blocks cron storage node watched in_turn 3000 mainnet state 0
        tracker).triggered ∥₁
unfolding fetched load_scripts filter_active_monitors
process_new_blocks-Delivers_example =
    process_new_blocks-Delivers cron storage node in_turn 3000 mainnet platform alloy client
      configured pool [] run scripts read get state 0 tracker (evm_block ∷ []) fetched refl refl
      refl accepts Perm.refl batch
