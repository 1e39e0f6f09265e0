-- ===== src/Tests/Watchers.antt =====
-- Runs of the service of src/services/blockwatcher/service.rs.
use openzeppelin_monitor.Prelude.{ℕ, suc, ◌≡◌, refl, true, false, [], ◌∷◌, String, str_eq}
use openzeppelin_monitor.Prelude.Dict.{lookup, contains_key}
use openzeppelin_monitor.Prelude.Result.{ok, err}
use openzeppelin_monitor.BlockWatcher.Watchers.{
  JobScheduler, start_network_watcher, stop_network_watcher,
}
use openzeppelin_monitor.BlockWatcher.Watchers.Active.{
  Starts, start_network_watcher-Starts, stop_network_watcher_lem,
}
use openzeppelin_monitor.Tests.Data.{testnet}

-- Schedulers are numbered; the surroundings count the jobs. A shutdown fails.
abbrev scheduler : JobScheduler ℕ ℕ
scheduler = record {
  parses = λ text. true;
  new = λ jobs. (ok 7, jobs);
  add = λ job j jobs. (ok tt, suc jobs);
  start = λ j jobs. (ok tt, jobs);
  shutdown = λ j jobs. (err "still running", jobs);
}

starts_two_jobs :
    start_network_watcher scheduler testnet (("ethereum_mainnet", 3) ∷ [], 0)
    ≡ (ok tt, (("ethereum_mainnet", 3) ∷ ("stellar_testnet", 7) ∷ [], 2))
unfolding start_network_watcher
starts_two_jobs = refl

start_network_watcher-Starts_example :
    Starts scheduler testnet
      (("ethereum_mainnet", 3) ∷ [])
      (start_network_watcher scheduler testnet (("ethereum_mainnet", 3) ∷ [], 0))
start_network_watcher-Starts_example =
    start_network_watcher-Starts scheduler testnet (("ethereum_mainnet", 3) ∷ []) 0

stop_network_watcher_lem_example :
    let after =
      (stop_network_watcher scheduler "ethereum_mainnet" (("ethereum_mainnet", 3) ∷ [], 2)).1.0 in
    (contains_key "ethereum_mainnet" after ≡ false)
    × ((slug : String)
        → str_eq "ethereum_mainnet" slug ≡ false
        → lookup slug after ≡ lookup slug (("ethereum_mainnet", 3) ∷ []))
stop_network_watcher_lem_example =
    stop_network_watcher_lem scheduler "ethereum_mainnet" (("ethereum_mainnet", 3) ∷ []) 2
