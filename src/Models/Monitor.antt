-- ===== src/Models/Monitor.antt =====
-- src/models/core/monitor.rs: the configuration of a monitor. The interface of a contract is kept as
-- the text of its JSON; the chain-specific configurations, which nothing here reads, are left out.
use openzeppelin_monitor.Prelude.{ℕ, Bool, true, false, List, Option, String}

pub data ContractSpec : Type 0 where
  evm stellar : String → ContractSpec
  midnight : ContractSpec
  solana : String → ContractSpec

pub record AddressWithSpec : Type 0 where
  pub address : String
  pub contract_spec : Option ContractSpec

pub record FunctionCondition : Type 0 where
  pub signature : String
  pub expression : Option String

pub record EventCondition : Type 0 where
  pub signature : String
  pub expression : Option String

pub data TransactionStatus : Type 0 where
  any success failure : TransactionStatus

abbrev pub status_eq : TransactionStatus → TransactionStatus → Bool
status_eq any any = true
status_eq success success = true
status_eq failure failure = true
status_eq _ _ = false

pub record TransactionCondition : Type 0 where
  pub status : TransactionStatus
  pub expression : Option String

pub record MatchConditions : Type 0 where
  pub functions : List FunctionCondition
  pub events : List EventCondition
  pub transactions : List TransactionCondition

pub data ScriptLanguage : Type 0 where
  java_script python bash : ScriptLanguage

pub record TriggerConditions : Type 0 where
  pub script_path : String
  pub arguments : Option (List String)
  pub language : ScriptLanguage
  pub timeout_ms : ℕ  -- u32

pub record Monitor : Type 0 where
  pub name : String
  pub networks : List String
  pub paused : Bool
  pub addresses : List AddressWithSpec
  pub match_conditions : MatchConditions
  pub trigger_conditions : List TriggerConditions
  pub triggers : List String
