-- ===== src/Filter/Evm/Conditions/FirstMatch.antt =====
-- `find_matching_transaction` of src/services/filter/filters/evm/filter.rs as a search for the first
-- condition that holds.
use openzeppelin_monitor.Prelude.{
  ◌≡◌, refl, sym, Bool, true, false, ◌&&◌, ◌||◌, List, [], ◌∷◌, ◌++◌, Option, none, some, String,
  is_empty, find, inl, inr, Bool-cases, arith, if◌then◌else◌,
}
use mathlib.Core.List.{append-nil}
use openzeppelin_monitor.Models.Monitor.{
  TransactionStatus, status_eq, any, success, failure, TransactionCondition, Monitor,
}
use openzeppelin_monitor.Models.Evm.{Transaction, TransactionReceipt, MatchParamEntry}
use openzeppelin_monitor.Filter.Evm.{Platform}
use openzeppelin_monitor.Filter.Evm.Abi.{Alloy}
use openzeppelin_monitor.Filter.Evm.Conditions.{
  holds, evaluate_expression, tx_params, status_matches, matched, try_expression, check_conditions,
  find_matching_transaction,
}

-- A condition asks for one status, or for any.
abbrev pub fits_status : TransactionStatus → TransactionStatus → Bool
fits_status any tx_status = true
fits_status success success = true
fits_status failure failure = true
fits_status _ _ = false

status_eq-fits : (a b : TransactionStatus) → status_eq a any || status_eq a b ≡ fits_status a b
status_eq-fits any b = refl
status_eq-fits success any = refl
status_eq-fits success success = refl
status_eq-fits success failure = refl
status_eq-fits failure any = refl
status_eq-fits failure success = refl
status_eq-fits failure failure = refl

module _ (platform : Platform) (alloy : Alloy) where
  abbrev pub expression_holds : List MatchParamEntry → Option String → Bool
  expression_holds args none = true
  expression_holds args (some expr) = holds (evaluate_expression platform alloy expr args)

  -- The status fits and the expression, if there is one, evaluates to true.
  abbrev pub satisfied : TransactionStatus → List MatchParamEntry → TransactionCondition → Bool
  satisfied tx_status args condition =
      fits_status condition.status tx_status && expression_holds args condition.expression

  abbrev pub reported : TransactionStatus → Option TransactionCondition → List TransactionCondition
  reported tx_status none = []
  reported tx_status (some c) = matched platform alloy c.expression tx_status ∷ []

  status_matches-fits :
      (condition : TransactionCondition) (tx_status : TransactionStatus)
      → status_matches platform alloy condition tx_status ≡ fits_status condition.status tx_status
  status_matches-fits condition tx_status = status_eq-fits condition.status tx_status

  found_or :
      (condition : TransactionCondition) (fits : Bool) (tx_status : TransactionStatus)
      (args : List MatchParamEntry) (expression : Option String)
      (matches next : List TransactionCondition) (rest : Option TransactionCondition)
      → condition.expression ≡ expression
      → next ≡ matches ++ reported tx_status rest
      → (if fits
          then try_expression platform alloy expression tx_status args matches next
          else next)
        ≡ matches
          ++ reported tx_status
              (if fits && expression_holds args expression then some condition else rest)
  found_or c false tx_status args expression matches next rest e h = h
  found_or c true tx_status args none matches next rest e h = ground arith
  found_or c true tx_status args (some expr) matches next rest e h =
      elim (Bool-cases (holds (evaluate_expression platform alloy expr args))) [
        | inl yes_it ↦ ground arith
        | inr no_it ↦ ground arith
      ]

  check_conditions-find :
      (tx_status : TransactionStatus) (args : List MatchParamEntry)
      (conditions matches : List TransactionCondition)
      → check_conditions platform alloy tx_status args conditions matches
        ≡ matches ++ reported tx_status (find (satisfied tx_status args) conditions)
  unfolding check_conditions
  check_conditions-find tx_status args [] matches = sym (append-nil matches)
  check_conditions-find tx_status args (condition ∷ rest) matches =
      rw (status_matches-fits condition tx_status) (
        found_or condition (fits_status condition.status tx_status) tx_status args
          condition.expression matches (check_conditions platform alloy tx_status args rest matches)
          (find (satisfied tx_status args) rest) refl
          (check_conditions-find tx_status args rest matches))

  -- A monitor with transaction conditions reports at most one of them: the first whose status fits
  -- and whose expression holds, with the status of the transaction; an expression that fails to
  -- evaluate counts as one that does not hold.
  pub find_matching_transaction-find :
      (tx_status : TransactionStatus) (tx : Transaction) (receipt : Option TransactionReceipt)
      (monitor : Monitor) (matches : List TransactionCondition)
      → is_empty monitor.match_conditions.transactions ≡ false
      → find_matching_transaction platform alloy tx_status tx receipt monitor matches
        ≡ matches
          ++ reported tx_status (
              find
                (satisfied tx_status (tx_params platform alloy tx receipt))
                monitor.match_conditions.transactions)
  unfolding find_matching_transaction
  find_matching_transaction-find tx_status tx receipt monitor matches some_conditions =
      rw some_conditions (
        check_conditions-find tx_status (tx_params platform alloy tx receipt)
          monitor.match_conditions.transactions matches)
