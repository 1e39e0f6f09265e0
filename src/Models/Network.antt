-- ===== src/Models/Network.antt =====
-- src/models/core/network.rs and src/models/security/secret.rs: a network's configuration.
use openzeppelin_monitor.Prelude.{ℕ, Bool, false, List, Option, String, str_eq}

pub data BlockChainType : Type 0 where
  evm stellar midnight solana : BlockChainType

-- A secret is read from the text, from the environment or from a vault.
pub data SecretValue : Type 0 where
  plain environment hashicorp_cloud_vault : String → SecretValue

abbrev pub as_str : SecretValue → String
as_str (plain secret) = secret
as_str (environment env_var) = env_var
as_str (hashicorp_cloud_vault name) = name

-- `PartialEq`: the same variant with the same text.
abbrev pub secret_eq : SecretValue → SecretValue → Bool
secret_eq (plain s) (plain t) = str_eq s t
secret_eq (environment s) (environment t) = str_eq s t
secret_eq (hashicorp_cloud_vault s) (hashicorp_cloud_vault t) = str_eq s t
secret_eq _ _ = false

pub record RpcUrl : Type 0 where
  pub type_ : String
  pub url : SecretValue
  pub weight : ℕ  -- u32

pub record BlockRecoveryConfig : Type 0 where
  pub enabled : Bool
  pub cron_schedule : String
  pub max_blocks_per_run : ℕ  -- u64
  pub max_block_age : ℕ  -- u64
  pub max_retries : ℕ  -- u32
  pub retry_delay_ms : ℕ  -- u64

pub record Network : Type 0 where
  pub network_type : BlockChainType
  pub slug : String
  pub name : String
  pub rpc_urls : List RpcUrl
  pub chain_id : Option ℕ
  pub network_passphrase : Option String
  pub block_time_ms : ℕ  -- u64
  pub confirmation_blocks : ℕ  -- u64
  pub cron_schedule : String
  pub max_past_blocks : Option ℕ
  pub store_blocks : Option Bool
  pub recovery_config : Option BlockRecoveryConfig
