-- ===== src/Tests/Data.antt =====
-- Test data: a network, its blocks, trackers, and a client and storages that run.
use openzeppelin_monitor.Prelude.{
  ℕ, ◌-◌, ◌≡◌, refl, ap, length, true, List, [], ◌∷◌, Option, none, some, String,
}
use openzeppelin_monitor.Prelude.Result.{ok}
use openzeppelin_monitor.Models.Block.{BlockType, stellar, ProcessedBlock, unwrap_or, number}
use openzeppelin_monitor.Models.Network.{Network, RpcUrl, BlockRecoveryConfig, SecretValue, plain}
use openzeppelin_monitor.Models.Network
use openzeppelin_monitor.Models.NetworkConfig.{Cron}
use openzeppelin_monitor.BlockWatcher.Storage.{
  MissedBlockEntry, BlockStorage, save_missed, get_missed, update_status, remove_recovered,
  prune_old,
}
use openzeppelin_monitor.BlockWatcher.Storage.Memory.{Implements}
use openzeppelin_monitor.BlockWatcher.Tracker.{BlockTracker}

abbrev pub recovery : BlockRecoveryConfig
recovery = record {
  enabled = true;
  cron_schedule = "0 */5 * * * *";
  max_blocks_per_run = 2;
  max_block_age = 100;
  max_retries = 3;
  retry_delay_ms = 1000;
}

abbrev pub rpc : String → ℕ → RpcUrl
rpc url weight = record { type_ = "rpc"; url = plain url; weight = weight }

abbrev pub ws_rpc : String → ℕ → RpcUrl
ws_rpc url weight = record { type_ = "ws_rpc"; url = plain url; weight = weight }

abbrev pub testnet : Network
testnet = record {
  network_type = Network.stellar;
  slug = "stellar_testnet";
  name = "Stellar Testnet";
  rpc_urls = rpc "https://a.example" 50 ∷ rpc "https://b.example" 100 ∷ [];
  chain_id = none;
  network_passphrase = none;
  block_time_ms = 5000;
  confirmation_blocks = 2;
  cron_schedule = "0 */1 * * * *";
  max_past_blocks = some 20;
  store_blocks = some true;
  recovery_config = some recovery;
}

-- The schedule fires every minute.
abbrev pub cron : Cron
cron = record { after = λ text. some (60000 ∷ 120000 ∷ []) }

abbrev pub block : ℕ → BlockType
block n = stellar (record { sequence = n; content = "" })

abbrev pub processed : ℕ → ProcessedBlock ℕ
processed n = record { block_number = n; network_slug = "stellar_testnet"; processing_results = [] }

abbrev pub handler : BlockType → Network → ProcessedBlock ℕ
handler b network = record {
  block_number = unwrap_or 0 (number b);
  network_slug = network.slug;
  processing_results = [];
}

-- A tracker that has seen block 5 and expects block 6.
abbrev pub tracker : BlockTracker
tracker = record {
  processed_history = ("stellar_testnet", 5 ∷ []) ∷ [];
  expected_next = ("stellar_testnet", 6) ∷ [];
  history_size = 3;
}

abbrev pub State : Type 0
State = List MissedBlockEntry × Option ℕ

-- A storage of one network in memory: the missed blocks and the last processed block.
abbrev pub storage : BlockStorage State
storage = record {
  get_last_processed_block = λ slug s. (ok (s.1), s);
  save_last_processed_block = λ slug n s. (ok tt, (s.0, some n));
  save_blocks = λ now slug blocks s. (ok tt, s);
  delete_blocks = λ slug s. (ok tt, s);
  save_missed_blocks = λ now slug ns s. (ok tt, (save_missed now ns (s.0), s.1));
  get_missed_blocks =
      λ now slug age current retries s. (ok (get_missed age current retries (s.0)), s);
  update_missed_block_status =
      λ now slug n status error s. (ok tt, (update_status now n status error (s.0), s.1));
  remove_recovered_blocks = λ now slug ns s. (ok tt, (remove_recovered ns (s.0), s.1));
  prune_old_missed_blocks = λ now slug age current s. (
    ok (length (s.0) - length (prune_old age current (s.0))),
    (prune_old age current (s.0), s.1),
  );
}

abbrev pub Has : List MissedBlockEntry → State → Type 0
Has es s = s.0 ≡ es

pub storage-Implements : Implements storage testnet.slug Has
storage-Implements = record {
  saves = λ now ns es s h. (refl, ap (save_missed now ns) h);
  gets = λ now age current retries es s h. ap (λ x. (ok (get_missed age current retries x), s)) h;
  updates = λ now n status error es s h. ap (update_status now n status error) h;
  removes = λ now ns es s h. ap (remove_recovered ns) h;
  prunes = λ now age current es s h.
      (ap (λ x. ok (length x - length (prune_old age current x))) h, ap (prune_old age current) h);
}
