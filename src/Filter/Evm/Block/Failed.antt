-- ===== src/Filter/Evm/Block/Failed.antt =====
-- Failed transactions (src/services/filter/filters/evm/filter.rs, `needs_receipt`).
use openzeppelin_monitor.Prelude.{
  ◌≡◌, refl, sym, subst, ap, ◌∙◌, Bool, true, false, List, [], ◌∷◌, ◌++◌, Option, none, String, any,
  is_empty, arith, All, if◌then◌else◌,
}
use openzeppelin_monitor.Prelude.Result.{Result, ok, err, ◌>>=◌}
use openzeppelin_monitor.Models.Monitor.{
  TransactionCondition, success, failure, MatchConditions, Monitor, ContractSpec,
}
use openzeppelin_monitor.Models.Block.{EvmBlock, evm, unwrap_or}
use openzeppelin_monitor.Models.Evm.{
  Transaction, TransactionReceipt, Log, MatchParamEntry, MonitorMatch,
}
use openzeppelin_monitor.Filter.Evm.{Platform}
use openzeppelin_monitor.Filter.Evm.Abi.{Alloy}
use openzeppelin_monitor.Filter.Evm.Calls.{Calls}
use openzeppelin_monitor.Filter.Evm.Conditions.{
  check_conditions, find_matching_transaction, needs_receipt, tx_params, gas_used_in_expr,
  condition_needs_receipt,
}
use openzeppelin_monitor.Filter.Evm.Events.{FilterError, EventMatches}
use openzeppelin_monitor.Filter.Evm.Block.{
  decide, filter_transaction, filter_transactions, filter_monitors, found_events, has_address_match,
  has_event_match, has_function_match, the_match, filter_block, tx_logs,
}
use openzeppelin_monitor.Filter.Evm.Matching.{
  EvmClient, group_logs, should_match, evm_specs, receipt_status, sort, dedup,
}

if-nil :
    (b c : Bool) (m : MonitorMatch)
    → c ≡ false
    → (if b then (if c then m ∷ [] else []) else []) ≡ []
if-nil true true m e = cc
if-nil true false m e = refl
if-nil false c m e = refl

module _ (platform : Platform) (alloy : Alloy) where
  -- The condition asks for a failed transaction, and its expression does not name `gas_used`.
  abbrev pub AsksForFailure : TransactionCondition → Type 0
  AsksForFailure c = (c.status ≡ failure) × (gas_used_in_expr platform alloy c.expression ≡ false)

  no_receipt :
      (logs : List Log) (cs : List TransactionCondition)
      → is_empty logs ≡ false
      → All AsksForFailure cs
      → any (condition_needs_receipt platform alloy logs) cs ≡ false
  no_receipt logs [] e h = refl
  no_receipt logs (c ∷ cs) e ((asks, no_gas), hs) = ground (arith, no_receipt logs cs e hs)

  no_condition :
      (args : List MatchParamEntry) (cs : List TransactionCondition)
      → All AsksForFailure cs
      → check_conditions platform alloy success args cs [] ≡ []
  unfolding check_conditions
  no_condition args [] h = refl
  no_condition args (c ∷ cs) ((asks, no_gas), hs) = ground (arith, no_condition args cs hs)

  nothing_found :
      (tx : Transaction) (receipt : Option TransactionReceipt) (monitor : Monitor)
      → is_empty monitor.match_conditions.transactions ≡ false
      → All AsksForFailure monitor.match_conditions.transactions
      → find_matching_transaction platform alloy success tx receipt monitor [] ≡ []
  unfolding find_matching_transaction
  nothing_found tx receipt monitor some_are h =
      rw some_are
        (no_condition (tx_params platform alloy tx receipt) monitor.match_conditions.transactions h)

  unmatched :
      (c : MatchConditions) (event function : Bool)
      → is_empty c.transactions ≡ false
      → should_match c event function false ≡ false
  unfolding should_match
  unmatched c event function e = ground arith

  module _ (client : EvmClient) (slug : String) where
    -- An error, or no match.
    abbrev Silent : Result FilterError (List MonitorMatch) → Type 0
    Silent (ok r) = r ≡ []
    Silent (err e) = Unit

    decide-nil :
        (monitor : Monitor) (tx : Transaction) (logs : List Log) (events : EventMatches)
        (calls : Calls)
        → is_empty monitor.match_conditions.transactions ≡ false
        → decide platform alloy client slug monitor tx none logs events calls [] ≡ []
    unfolding decide
    decide-nil monitor tx logs events calls some_are =
        if-nil
          (has_address_match platform alloy client slug monitor
            (dedup (sort events.involved_addresses)))
          _ (the_match platform alloy client slug monitor tx none logs events calls [])
          (ap
              (should_match monitor.match_conditions
                (has_event_match platform alloy client slug monitor events)
                (has_function_match platform alloy client slug monitor calls))
              {y = false} (ground arith)
            ∙ unmatched monitor.match_conditions
                (has_event_match platform alloy client slug monitor events)
                (has_function_match platform alloy client slug monitor calls) some_are)

    undecided :
        (monitor : Monitor) (tx : Transaction) (logs : List Log) (events : EventMatches)
        (calls : Calls) (found : List TransactionCondition)
        → is_empty monitor.match_conditions.transactions ≡ false
        → found ≡ []
        → decide platform alloy client slug monitor tx none logs events calls found ≡ []
    undecided monitor tx logs events calls found some_are e =
        ap (λ l. decide platform alloy client slug monitor tx none logs events calls l) e
        ∙ decide-nil monitor tx logs events calls some_are

    and_then :
        {A : Type 0} (m : Result FilterError A) (f : A → Result FilterError (List MonitorMatch))
        → ((a : A) → Silent (f a))
        → Silent (m >>= f)
    and_then (ok a) f h = h a
    and_then (err e) f h = tt

    one_transaction :
        (specs : List (String × String)) (logs_by_tx : List (String × List Log)) (monitor : Monitor)
        (tx : Transaction)
        → is_empty monitor.match_conditions.transactions ≡ false
        → All AsksForFailure monitor.match_conditions.transactions
        → Silent (filter_transaction platform alloy client slug specs logs_by_tx false monitor tx)
    unfolding filter_transaction receipt_status
    one_transaction specs logs_by_tx monitor tx some_are h =
        and_then
          (found_events platform alloy client slug
            (tx_logs platform alloy client slug logs_by_tx tx) monitor tx)
          _
          λ events.
            undecided monitor tx _ events _ _ some_are (nothing_found tx none monitor some_are h)

    both_silent :
        (m n : Result FilterError (List MonitorMatch))
        → Silent m
        → Silent n
        → Silent (m >>= λ found. n >>= λ others. ok (found ++ others))
    both_silent (err e) n h k = tt
    both_silent (ok r) (err e) h k = tt
    both_silent (ok r) (ok r') h k = ap (λ l. l ++ r') h ∙ k

    all_transactions :
        (specs : List (String × String)) (logs_by_tx : List (String × List Log)) (monitor : Monitor)
        (txs : List Transaction)
        → is_empty monitor.match_conditions.transactions ≡ false
        → All AsksForFailure monitor.match_conditions.transactions
        → Silent (filter_transactions platform alloy client slug specs logs_by_tx false monitor txs)
    unfolding filter_transactions
    all_transactions specs logs_by_tx monitor [] some_are h = refl
    all_transactions specs logs_by_tx monitor (tx ∷ txs) some_are h =
        both_silent
          (filter_transaction platform alloy client slug specs logs_by_tx false monitor tx)
          (filter_transactions platform alloy client slug specs logs_by_tx false monitor txs)
          (one_transaction specs logs_by_tx monitor tx some_are h)
          (all_transactions specs logs_by_tx monitor txs some_are h)

    one_monitor :
        (specs : List (String × String)) (logs : List Log) (txs : List Transaction)
        (monitor : Monitor)
        → is_empty logs ≡ false
        → is_empty monitor.match_conditions.transactions ≡ false
        → All AsksForFailure monitor.match_conditions.transactions
        → Silent (filter_monitors platform alloy client slug specs logs txs (monitor ∷ []))
    unfolding filter_monitors needs_receipt
    one_monitor specs logs txs monitor some_logs some_are h =
        both_silent _ (ok [])
          (subst
            (λ fetch. Silent (
              filter_transactions platform alloy client slug specs (group_logs logs []) fetch
                monitor txs))
            (sym (no_receipt logs monitor.match_conditions.transactions some_logs h))
            (all_transactions specs (group_logs logs []) monitor txs some_are h))
          refl

    -- A monitor that asks only for failed transactions, and in no expression for `gas_used`, reports
    -- nothing in a block with any log: no receipt is fetched, and without one a transaction counts as
    -- successful.
    pub filter_block-failed :
        (block : EvmBlock) (specs : Option (List (String × ContractSpec))) (monitor : Monitor)
        (logs : List Log) {matches : List MonitorMatch}
        → client.get_logs_for_blocks (unwrap_or 0 block.number) (unwrap_or 0 block.number) ≡ ok logs
        → is_empty logs ≡ false
        → is_empty monitor.match_conditions.transactions ≡ false
        → All AsksForFailure monitor.match_conditions.transactions
        → filter_block platform alloy client slug (evm block) (monitor ∷ []) specs ≡ ok matches
        → matches ≡ []
    unfolding filter_block
    filter_block-failed block specs monitor logs fetched some_logs some_are h e =
        subst Silent
          (sym (
              ap
                (λ r. r >>= λ all_logs.
                  filter_monitors platform alloy client slug (evm_specs (unwrap_or [] specs))
                    all_logs (alloy.transactions block) (monitor ∷ []))
                fetched)
            ∙ e)
          (one_monitor (evm_specs (unwrap_or [] specs)) logs (alloy.transactions block) monitor
            some_logs some_are h)
