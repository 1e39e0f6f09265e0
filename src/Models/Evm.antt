-- ===== src/Models/Evm.antt =====
-- src/models/blockchain/evm: transactions, receipts, logs and matches, as far as the filter reads them.
-- A hash or an address is kept as the text that `hex::encode` gives; `content` is the rest.
use openzeppelin_monitor.Prelude.{ℕ, Bool, List, Option, String}
use openzeppelin_monitor.Models.Monitor.{Monitor, MatchConditions}

pub record Transaction : Type 0 where
  pub hash : String
  pub nonce : ℕ
  pub transaction_index : Option ℕ
  pub sender : Option String  -- `from`
  pub to : Option String
  pub value : ℕ
  pub gas_price : Option ℕ
  pub gas : ℕ
  pub input : List ℕ
  pub max_fee_per_gas : Option ℕ
  pub max_priority_fee_per_gas : Option ℕ
  pub content : String

pub record TransactionReceipt : Type 0 where
  pub status : Option ℕ
  pub gas_used : Option ℕ
  pub content : String

pub record Log : Type 0 where
  pub address : String
  pub topics : List String
  pub payload : List ℕ  -- `data`
  pub transaction_hash : Option String
  pub content : String

pub record MatchParamEntry : Type 0 where
  pub name : String
  pub value : String
  pub indexed : Bool
  pub kind : String

pub record MatchParamsMap : Type 0 where
  pub signature : String
  pub args : Option (List MatchParamEntry)
  pub hex_signature : Option String

pub record MatchArguments : Type 0 where
  pub functions : Option (List MatchParamsMap)
  pub events : Option (List MatchParamsMap)

pub record MonitorMatch : Type 0 where
  pub monitor : Monitor
  pub transaction : Transaction
  pub receipt : Option TransactionReceipt
  pub logs : Option (List Log)
  pub network_slug : String
  pub matched_on : MatchConditions
  pub matched_on_args : Option MatchArguments
