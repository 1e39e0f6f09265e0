-- ===== src/Filter/Evm/Events.antt =====
-- src/services/filter/filters/evm/filter.rs: the decoding of the logs and the conditions on events.
-- `panicked` stands for the end of the process: the first topic of a log without topics.
pub mod Matched
pub mod Panic
pub mod Sound
use Prim.Native.String.{◌++◌ as append}
use openzeppelin_monitor.Prelude.{
  ℕ, Bool, true, false, List, [], ◌∷◌, ◌++◌, Option, none, some, String, str_eq, is_empty, find,
  map, if◌then◌else◌,
}
use openzeppelin_monitor.Prelude.Result.{Result, ok, err, ◌>>=◌}
use openzeppelin_monitor.Models.Block.{unwrap_or}
use openzeppelin_monitor.Models.Monitor.{ContractSpec, AddressWithSpec, EventCondition, Monitor}
use openzeppelin_monitor.Models.Monitor as Core
use openzeppelin_monitor.Models.Evm.{Log, MatchParamEntry, MatchParamsMap}
use openzeppelin_monitor.Filter.Evm.{Platform}
use openzeppelin_monitor.Filter.Evm.Abi.{
  DynSolValue, format_token_value, Param, AbiItem, JsonAbi, Alloy,
}
use openzeppelin_monitor.Filter.Evm.Helpers.{are_same_address, are_same_signature}
use openzeppelin_monitor.Filter.Evm.Conditions.{h160_to_string, holds, evaluate_expression}
use openzeppelin_monitor.Filter.Evm.Calls.{signature_of, push_some}

pub data FilterError : Type 0 where
  block_type_mismatch network_error internal_error other panicked : FilterError

-- `next().unwrap_or_default()`.
abbrev next_value : List DynSolValue → String × List DynSolValue
next_value [] = ("", [])
next_value (v ∷ rest) = (format_token_value v, rest)

abbrev decoded_param : Param → String → MatchParamEntry
decoded_param p value = record { name = p.name; value = value; indexed = p.indexed; kind = p.ty }

-- The entries for the inputs, from the two iterators.
unfoldable pub decoded_params :
    List Param → List DynSolValue → List DynSolValue → List MatchParamEntry
unfolding format_token_value
decoded_params [] indexed_vals body_vals = []
decoded_params (p ∷ inputs) indexed_vals body_vals =
    let (indexed_value, indexed_rest) = next_value indexed_vals in
    let (body_value, body_rest) = next_value body_vals in
    if p.indexed
    then decoded_param p indexed_value ∷ decoded_params inputs indexed_rest body_vals
    else decoded_param p body_value ∷ decoded_params inputs indexed_vals body_rest

pub record EventMatches : Type 0 where
  pub matched_events : List EventCondition
  pub events : Option (List MatchParamsMap)
  pub involved_addresses : List String

abbrev pub event_condition : String → Option String → EventCondition
event_condition signature expression = record { signature = signature; expression = expression }

-- An event that a condition with the expression `expression` matches.
unfoldable pub push_event : Option String → MatchParamsMap → EventMatches → EventMatches
push_event expression event matches = record matches {
  matched_events = matches.matched_events ++ event_condition event.signature expression ∷ [];
  events = push_some matches.events event;
}

module _ (platform : Platform) (alloy : Alloy) where
  abbrev params_map : AbiItem → List DynSolValue → List DynSolValue → MatchParamsMap
  params_map event indexed_vals body_vals = record {
    signature = signature_of event;
    args = some (decoded_params event.inputs indexed_vals body_vals);
    hex_signature = some (append "0x" (alloy.hex_encode event.selector));
  }

  abbrev decode_with : Option AbiItem → Log → Option MatchParamsMap
  decode_with none log = none
  decode_with (some event) log = elim (alloy.decode_log event log) [
    | none ↦ none
    | some (indexed_vals, body_vals) ↦ some (params_map event indexed_vals body_vals)
  ]

  -- The first topic is read for every event that it is compared with, and for the message of level
  -- `debug` that no event was found.
  abbrev find_event : List AbiItem → List String → Result FilterError (Option AbiItem)
  find_event [] [] = if platform.debug_enabled then err panicked else ok none
  find_event [] (topic ∷ topics) = ok none
  find_event (event ∷ events) [] = err panicked
  find_event (event ∷ events) (topic ∷ topics) =
      ok (find (λ e. str_eq (alloy.hex_encode e.selector) topic) (event ∷ events))

  abbrev pub decode_contract : Option JsonAbi → Log → Result FilterError (Option MatchParamsMap)
  decode_contract none log = ok none
  decode_contract (some contract) log = do
    event ← find_event contract.events log.topics
    ok (decode_with event log)

  unfoldable pub decode_events : ContractSpec → Log → Result FilterError (Option MatchParamsMap)
  unfolding decoded_params
  decode_events (Core.evm evm_spec) log = decode_contract (alloy.parse_abi evm_spec) log
  decode_events _ log = ok none

  abbrev pub try_event : MatchParamsMap → Option String → EventMatches → EventMatches → EventMatches
  try_event event none matches next = push_event none event matches
  try_event event (some expr) matches next =
      if holds (evaluate_expression platform alloy expr (unwrap_or [] event.args))
      then push_event (some expr) event matches
      else next

  -- The loop over the conditions, for one event.
  unfoldable pub check_event : MatchParamsMap → List EventCondition → EventMatches → EventMatches
  unfolding push_event evaluate_expression are_same_signature
  check_event event [] matches = matches
  check_event event (condition ∷ rest) matches =
      let next = check_event event rest matches in
      if are_same_signature platform condition.signature event.signature
      then try_event event condition.expression matches next
      else next

  -- Without conditions every event is matched.
  abbrev pub check_decoded :
      Option MatchParamsMap → List EventCondition → EventMatches → EventMatches
  check_decoded none conditions matches = matches
  check_decoded (some event) conditions matches =
      if is_empty conditions
      then push_event none event matches
      else check_event event conditions matches

  abbrev pub check_spec :
      Option ContractSpec
      → Log
      → List EventCondition
      → EventMatches
      → Result FilterError EventMatches
  check_spec none log conditions matches = ok matches
  check_spec (some abi) log conditions matches = do
    decoded_log ← decode_events abi log
    ok (check_decoded decoded_log conditions matches)

  abbrev pub involve : Log → EventMatches → EventMatches
  involve log matches = record matches {
    involved_addresses = matches.involved_addresses ++ h160_to_string log.address ∷ [];
  }

  abbrev pub check_address :
      Option AddressWithSpec
      → Log
      → List EventCondition
      → EventMatches
      → Result FilterError EventMatches
  check_address none log conditions matches = ok matches
  check_address (some monitored_addr) log conditions matches =
      check_spec monitored_addr.contract_spec log conditions (involve log matches)

  abbrev pub monitored : Core.Monitor → Log → Option AddressWithSpec
  monitored monitor log =
      find (λ addr. are_same_address platform addr.address (h160_to_string log.address))
        monitor.addresses

  unfoldable pub check_log : Core.Monitor → Log → EventMatches → Result FilterError EventMatches
  unfolding decode_events check_event are_same_address
  check_log monitor log matches =
      check_address (monitored monitor log) log monitor.match_conditions.events matches

  -- The loop over the logs.
  unfoldable pub find_matching_events_for_transaction :
      List Log → Core.Monitor → EventMatches → Result FilterError EventMatches
  unfolding check_log
  find_matching_events_for_transaction [] monitor matches = ok matches
  find_matching_events_for_transaction (log ∷ logs) monitor matches = do
    next ← check_log monitor log matches
    find_matching_events_for_transaction logs monitor next
