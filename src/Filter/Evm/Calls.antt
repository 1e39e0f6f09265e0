-- ===== src/Filter/Evm/Calls.antt =====
-- src/services/filter/filters/evm/filter.rs: the conditions on the function that a transaction calls.
pub mod Single
use Prim.Native.String.{◌++◌ as append}
use openzeppelin_monitor.Prelude.{
  ℕ, zero, suc, Bool, true, false, List, [], ◌∷◌, ◌++◌, Option, none, some, String, is_empty, find,
  leb, length, take, map, ◌==◌, ◌&&◌, if◌then◌else◌,
}
use openzeppelin_monitor.Models.Monitor.{AddressWithSpec, FunctionCondition, Monitor}
use openzeppelin_monitor.Models.Evm.{Transaction, MatchParamEntry, MatchParamsMap}
use openzeppelin_monitor.Filter.Evm.{Platform}
use openzeppelin_monitor.Filter.Evm.Abi.{
  DynSolValue, format_token_value, decoded_inputs, Param, AbiItem, JsonAbi, Alloy,
}
use openzeppelin_monitor.Filter.Evm.Helpers.{are_same_address, are_same_signature}
use openzeppelin_monitor.Filter.Evm.Conditions.{h160_to_string, holds, evaluate_expression}

abbrev pub drop : ℕ → List ℕ → List ℕ
drop zero xs = xs
drop (suc n) [] = []
drop (suc n) (x ∷ xs) = drop n xs

abbrev pub bytes_eq : List ℕ → List ℕ → Bool
bytes_eq [] [] = true
bytes_eq (x ∷ xs) (y ∷ ys) = x == y && bytes_eq xs ys
bytes_eq _ _ = false

abbrev join_commas : List String → String
join_commas [] = ""
join_commas (s ∷ []) = s
join_commas (s ∷ t ∷ rest) = append s (append "," (join_commas (t ∷ rest)))

-- `format!("{}({})", name, types.join(","))`.
abbrev pub signature_of : AbiItem → String
signature_of item =
    append item.name
      (append "(" (append (join_commas (map (λ p. p.selector_type) item.inputs)) ")"))

-- `if let Some(v) = &mut target { v.push(x) }`.
abbrev pub push_some {ℓ} : {A : Type ℓ} → Option (List A) → A → Option (List A)
push_some none x = none
push_some (some xs) x = some (xs ++ x ∷ [])

-- `inputs.iter().zip(decoded.iter())`.
unfoldable pub params_of : List Param → List DynSolValue → List MatchParamEntry
unfolding format_token_value
params_of [] values = []
params_of (input ∷ inputs) [] = []
params_of (input ∷ inputs) (value ∷ values) =
    record { name = input.name; value = format_token_value value; indexed = false; kind = input.ty }
    ∷ params_of inputs values

pub record Calls : Type 0 where
  pub matched_functions : List FunctionCondition
  pub functions : Option (List MatchParamsMap)

module _ (platform : Platform) (alloy : Alloy) where
  -- `function` is matched by a condition with the expression `expression`.
  unfoldable pub push_call : AbiItem → Option String → List MatchParamEntry → String → Calls → Calls
  push_call function expression params hex_signature calls = record {
    matched_functions =
        calls.matched_functions
        ++ (record { signature = signature_of function; expression = expression }) ∷ [];
    functions = push_some calls.functions (record {
      signature = signature_of function;
      args = some params;
      hex_signature = some hex_signature;
    });
  }

  -- The two texts differ: only a call that is matched by an expression has the prefix.
  abbrev pub try_call : AbiItem → List MatchParamEntry → Option String → Calls → Calls → Calls
  try_call function params none calls next =
      push_call function none params (alloy.hex_encode function.selector) calls
  try_call function params (some expr) calls next =
      if holds (evaluate_expression platform alloy expr params)
      then push_call function (some expr) params (append "0x" (alloy.hex_encode function.selector))
          calls
      else next

  -- A value that cannot be decoded goes on with the next condition.
  abbrev pub try_decoded : AbiItem → Option String → Option DynSolValue → Calls → Calls → Calls
  try_decoded function expression none calls next = next
  try_decoded function expression (some decoded) calls next =
      try_call function (params_of function.inputs (decoded_inputs decoded)) expression calls next

  -- The loop over the conditions; a type that does not parse ends it.
  unfoldable pub check_functions : AbiItem → List ℕ → List FunctionCondition → Calls → Calls
  unfolding push_call params_of evaluate_expression are_same_signature
  check_functions function input [] calls = calls
  check_functions function input (condition ∷ rest) calls =
      let next = check_functions function input rest calls in
      let types : List String = map (λ p. p.selector_type) function.inputs in
      if are_same_signature platform condition.signature (signature_of function)
      then (if alloy.are_types types
          then try_decoded function condition.expression
              (alloy.abi_decode_params types (drop 4 input)) calls next
          else calls)
      else next

  abbrev pub check_selected : Option AbiItem → List ℕ → List FunctionCondition → Calls → Calls
  check_selected none input conditions calls = calls
  check_selected (some function) input conditions calls =
      check_functions function input conditions calls

  abbrev pub check_contract : Option JsonAbi → List ℕ → List FunctionCondition → Calls → Calls
  check_contract none input conditions calls = calls
  check_contract (some contract) input conditions calls =
      if leb 4 (length input)
      then check_selected (find (λ f. bytes_eq f.selector (take 4 input)) contract.functions) input
          conditions calls
      else calls

  abbrev pub check_spec : Option (String × String) → List ℕ → List FunctionCondition → Calls → Calls
  check_spec none input conditions calls = calls
  check_spec (some (address, abi)) input conditions calls =
      check_contract (alloy.parse_abi abi) input conditions calls

  abbrev pub is_called : Option String → AddressWithSpec → Bool
  is_called none addr = false
  is_called (some to) addr = are_same_address platform addr.address (h160_to_string to)

  abbrev pub check_address :
      List (String × String)
      → Option AddressWithSpec
      → List ℕ
      → List FunctionCondition
      → Calls
      → Calls
  check_address contract_specs none input conditions calls = calls
  check_address contract_specs (some monitored_addr) input conditions calls =
      check_spec
        (find (λ spec. are_same_address platform spec.0 monitored_addr.address) contract_specs)
        input conditions calls

  unfoldable pub find_matching_functions_for_transaction :
      List (String × String) → Transaction → Monitor → Calls → Calls
  unfolding check_functions are_same_address
  find_matching_functions_for_transaction contract_specs transaction monitor calls =
      if is_empty monitor.match_conditions.functions
      then calls
      else check_address contract_specs (find (is_called transaction.to) monitor.addresses)
          transaction.input monitor.match_conditions.functions calls
