-- ===== src/Filter/Evm/Block/Sound.antt =====
-- What a match of `filter_block` (src/services/filter/filters/evm/filter.rs) says about its monitor.
use openzeppelin_monitor.Prelude.{
  ◌≡◌, refl, subst, Bool, true, false, not, ◌&&◌, List, [], ◌∷◌, ◌++◌, Option, none, some, String,
  is_empty, All, All-append, if◌then◌else◌,
}
use mathlib.Core.List.{Memᴰ}
use openzeppelin_monitor.Prelude.Result.{Result, ok, err, ◌>>=◌}
use openzeppelin_monitor.Models.Block.{EvmBlock, evm, unwrap_or}
use openzeppelin_monitor.Models.Monitor.{TransactionCondition, Monitor, ContractSpec}
use openzeppelin_monitor.Models.Evm.{Transaction, TransactionReceipt, Log, MonitorMatch}
use openzeppelin_monitor.Filter.Evm.{Platform}
use openzeppelin_monitor.Filter.Evm.Abi.{Alloy}
use openzeppelin_monitor.Filter.Evm.Calls.{Calls}
use openzeppelin_monitor.Filter.Evm.Conditions.{needs_receipt, b256_to_string, h160_to_string}
use openzeppelin_monitor.Filter.Evm.Calls.Single.{IsCall, find_matching_functions-IsCall}
use openzeppelin_monitor.Filter.Evm.Events.Matched.{
  Involves, sender, receiver, Sound, SoundIn, find_matching_events-Sound,
}
use openzeppelin_monitor.Filter.Evm.Block.Logs.{logs_of, lookup-group_logs}
use openzeppelin_monitor.Filter.Evm.Block.Evidence.{
  Evidence, IsTransaction, find_matching_transaction-IsTransaction, has_address_match-IsAddressed,
}
use openzeppelin_monitor.Filter.Evm.Events.{FilterError, EventMatches}
use openzeppelin_monitor.Filter.Evm.Block.{
  decide, filter_transaction, filter_transactions, filter_monitors, filter_block, found_events,
  fetch_receipt, has_address_match, has_event_match, has_function_match, has_transaction_match,
  the_match, tx_logs,
}
use openzeppelin_monitor.Filter.Evm.Matching.{
  EvmClient, address_list, group_logs, should_match, evm_specs, kept_if, sort, dedup, without_specs,
}
use openzeppelin_monitor.Filter.Evm.Block.Meets.{Meets, the_match-Meets}

All-kept_if :
    {A : Type 0} (P : A → Type 0) (asked : Bool) (xs : List A)
    → (asked ≡ false → All P xs)
    → All P (kept_if (not asked && not (is_empty xs)) xs)
All-kept_if P true xs h = tt
All-kept_if P false [] h = tt
All-kept_if P false (x ∷ xs) h = h refl

if-All :
    (P : MonitorMatch → Type 0) (b c : Bool) (m : MonitorMatch)
    → (b ≡ true → c ≡ true → P m)
    → All P (if b then (if c then m ∷ [] else []) else [])
if-All P true true m h = (h refl refl, tt)
if-All P true false m h = tt
if-All P false c m h = tt

module _ (platform : Platform) (alloy : Alloy) (client : EvmClient) (slug : String) where
  module _ (specs : List (String × String)) (block_logs : List Log) where
    -- The match is one of a monitor of the list and a transaction of the block.
    pub record IsMatch (monitors : List Monitor) (txs : List Transaction) (m : MonitorMatch)
        : Type 0 where
      pub monitor : Monitor
      pub listed : Memᴰ monitor monitors
      pub of_monitor : m.monitor ≡ without_specs monitor
      pub of_block : Memᴰ m.transaction txs
      pub of_network : m.network_slug ≡ slug
      pub evidence : Evidence platform alloy specs block_logs monitor m
      pub meets : Meets monitor.match_conditions m.matched_on

    -- The list holds matches only, where it is no error.
    abbrev AllMatch :
        List Monitor → List Transaction → Result FilterError (List MonitorMatch) → Type 0
    AllMatch monitors txs (ok r) = All (IsMatch monitors txs) r
    AllMatch monitors txs (err e) = Unit

    -- What was found of a transaction is right.
    record IsFound (monitor : Monitor) (tx : Transaction) (receipt : Option TransactionReceipt)
        (logs : List Log) (events : EventMatches) (calls : Calls)
        (found : List TransactionCondition) : Type 0 where
      own_logs : logs ≡ logs_of (b256_to_string tx.hash) block_logs
      events_are : Sound platform alloy logs monitor tx events
      calls_are : All (IsCall platform alloy specs tx monitor) calls.matched_functions
      found_are :
          is_empty monitor.match_conditions.transactions ≡ false
          → All (IsTransaction platform alloy monitor tx receipt) found

    decide-IsMatch :
        (monitor : Monitor) (monitors : List Monitor) (tx : Transaction) (txs : List Transaction)
        (receipt : Option TransactionReceipt) (logs : List Log) (events : EventMatches)
        (calls : Calls) (found : List TransactionCondition)
        → Memᴰ monitor monitors
        → Memᴰ tx txs
        → IsFound monitor tx receipt logs events calls found
        → All
            (IsMatch monitors txs)
            (decide platform alloy client slug monitor tx receipt logs events calls found)
    unfolding decide
    decide-IsMatch monitor monitors tx txs receipt logs events calls found m t right =
        if-All (IsMatch monitors txs)
          (has_address_match platform alloy client slug monitor
            (dedup (sort events.involved_addresses)))
          (should_match monitor.match_conditions
            (has_event_match platform alloy client slug monitor events)
            (has_function_match platform alloy client slug monitor calls)
            (has_transaction_match platform alloy client slug monitor found))
          (the_match platform alloy client slug monitor tx receipt logs events calls found)
          λ a h. record {
            monitor = monitor;
            listed = m;
            of_monitor = refl;
            of_block = t;
            of_network = refl;
            evidence = record {
              logs = logs;
              has_logs = refl;
              own_logs = right.own_logs;
              addressed =
                  has_address_match-IsAddressed platform alloy monitor client slug logs tx
                    events.involved_addresses right.events_are.1 a;
              transactions =
                  All-kept_if _ (is_empty monitor.match_conditions.transactions) found
                    right.found_are;
              functions =
                  All-kept_if _ (is_empty monitor.match_conditions.functions)
                    calls.matched_functions λ asked. right.calls_are;
              events =
                  All-kept_if _ (is_empty monitor.match_conditions.events) events.matched_events
                    right.events_are.0;
            };
            meets =
                the_match-Meets platform alloy client slug monitor tx receipt logs events calls
                  found h;
          }

    and_then :
        {A : Type 0} (monitors : List Monitor) (txs : List Transaction) (r : Result FilterError A)
        (f : A → Result FilterError (List MonitorMatch))
        → ((a : A) → r ≡ ok a → AllMatch monitors txs (f a))
        → AllMatch monitors txs (r >>= f)
    and_then monitors txs (ok a) f h = h a refl
    and_then monitors txs (err e) f h = tt

    both :
        (monitors : List Monitor) (txs : List Transaction)
        (m n : Result FilterError (List MonitorMatch))
        → AllMatch monitors txs m
        → AllMatch monitors txs n
        → AllMatch monitors txs (m >>= λ found. n >>= λ others. ok (found ++ others))
    both monitors txs (err e) n h k = tt
    both monitors txs (ok r) (err e) h k = tt
    both monitors txs (ok r) (ok r') h k = All-append (IsMatch monitors txs) r r' h k

    address_list-Involves :
        (logs : List Log) (monitor : Monitor) (tx : Transaction) (o : Option String)
        → ((a : String) → o ≡ some a → Involves platform alloy logs monitor tx (h160_to_string a))
        → All (Involves platform alloy logs monitor tx) (address_list o)
    address_list-Involves logs monitor tx none h = tt
    address_list-Involves logs monitor tx (some a) h = (h a refl, tt)

    found_events-Sound :
        (logs : List Log) (monitor : Monitor) (tx : Transaction) (events : EventMatches)
        → found_events platform alloy client slug logs monitor tx ≡ ok events
        → Sound platform alloy logs monitor tx events
    found_events-Sound logs monitor tx events e = subst (SoundIn platform alloy logs monitor tx) e (
        find_matching_events-Sound platform alloy logs monitor tx logs _ (λ log m. m)
          (
            (λ some_are. tt),
            All-append (Involves platform alloy logs monitor tx) (address_list tx.sender) _
                (address_list-Involves logs monitor tx tx.sender λ a h. sender a h refl)
                (address_list-Involves logs monitor tx tx.to λ a h. receiver a h refl),
          ))

    of_transaction :
        (fetch : Bool) (monitor : Monitor) (monitors : List Monitor) (tx : Transaction)
        (txs : List Transaction)
        → Memᴰ monitor monitors
        → Memᴰ tx txs
        → AllMatch monitors txs (
            filter_transaction platform alloy client slug specs
              (group_logs block_logs [])
              fetch
              monitor
              tx)
    unfolding filter_transaction
    of_transaction fetch monitor monitors tx txs m t =
        let logs = tx_logs platform alloy client slug (group_logs block_logs []) tx in
        and_then monitors txs
          (fetch_receipt platform alloy client slug fetch (b256_to_string tx.hash)) _
          λ receipt got.
            and_then monitors txs (found_events platform alloy client slug logs monitor tx) _
              λ events e.
                decide-IsMatch monitor monitors tx txs receipt logs events _ _ m t (record {
                  own_logs = lookup-group_logs (b256_to_string tx.hash) block_logs;
                  events_are = found_events-Sound logs monitor tx events e;
                  calls_are = find_matching_functions-IsCall platform alloy specs tx monitor _ tt;
                  found_are =
                      find_matching_transaction-IsTransaction platform alloy monitor tx receipt;
                })

    of_transactions :
        (fetch : Bool) (monitor : Monitor) (monitors : List Monitor) (rest txs : List Transaction)
        → Memᴰ monitor monitors
        → ((tx : Transaction) → Memᴰ tx rest → Memᴰ tx txs)
        → AllMatch monitors txs (
            filter_transactions platform alloy client slug specs
              (group_logs block_logs [])
              fetch
              monitor
              rest)
    unfolding filter_transactions
    of_transactions fetch monitor monitors [] txs m sub = tt
    of_transactions fetch monitor monitors (tx ∷ rest) txs m sub =
        both monitors txs
          (filter_transaction platform alloy client slug specs (group_logs block_logs []) fetch
            monitor tx)
          (filter_transactions platform alloy client slug specs (group_logs block_logs []) fetch
            monitor rest)
          (of_transaction fetch monitor monitors tx txs m (sub tx (Memᴰ.head refl)))
          (of_transactions fetch monitor monitors rest txs m λ t h. sub t (Memᴰ.tail h))

    of_monitors :
        (txs : List Transaction) (rest monitors : List Monitor)
        → ((m : Monitor) → Memᴰ m rest → Memᴰ m monitors)
        → AllMatch monitors txs
            (filter_monitors platform alloy client slug specs block_logs txs rest)
    unfolding filter_monitors
    of_monitors txs [] monitors sub = tt
    of_monitors txs (monitor ∷ rest) monitors sub =
        both monitors txs
          (filter_transactions platform alloy client slug specs (group_logs block_logs [])
            (needs_receipt platform alloy monitor block_logs) monitor txs)
          (filter_monitors platform alloy client slug specs block_logs txs rest)
          (of_transactions (needs_receipt platform alloy monitor block_logs) monitor monitors txs
            txs (sub monitor (Memᴰ.head refl)) λ t h. h)
          (of_monitors txs rest monitors λ m h. sub m (Memᴰ.tail h))

  -- The matches of a list are right, for the logs that the client has for the block.
  abbrev pub AllSound :
      EvmBlock → List (String × String) → List Monitor → List MonitorMatch → Type 0
  AllSound block specs monitors matches =
      (block_logs : List Log) × (client.get_logs_for_blocks (unwrap_or 0 block.number)
          (unwrap_or 0 block.number)
        ≡ ok block_logs)
      × All (IsMatch specs block_logs monitors (alloy.transactions block)) matches

  from_logs :
      (block : EvmBlock) (specs : List (String × String)) (monitors : List Monitor)
      (r : Result FilterError (List Log)) (matches : List MonitorMatch)
      → client.get_logs_for_blocks (unwrap_or 0 block.number) (unwrap_or 0 block.number) ≡ r
      → (r >>= λ logs.
          filter_monitors platform alloy client slug specs logs (alloy.transactions block) monitors)
        ≡ ok matches
      → AllSound block specs monitors matches
  from_logs block specs monitors (err x) matches got e = absurd (cc)
  from_logs block specs monitors (ok logs) matches got e = (
    logs,
    got,
    subst (AllMatch specs logs monitors (alloy.transactions block)) e
        (of_monitors specs logs (alloy.transactions block) monitors monitors λ m h. h),
  )

  -- Every match that the filter reports for a block is of a monitor of the list, without the interfaces
  -- of its contracts, and a transaction of the block, and carries the network's slug and the block's
  -- logs with the transaction's hash. A monitored address is the transaction's sender or receiver or
  -- the address of one of these logs. Each condition that is reported is one that the monitor asks
  -- for: its status, the signature of the called function or that of a decoded event fits, and its
  -- expression, if it has one, evaluates to true. If the monitor has transaction conditions, one is
  -- reported; if it has event or function conditions, one of either is; and of a kind of which it has
  -- no conditions none is.
  pub filter_block-IsMatch :
      (block : EvmBlock) (monitors : List Monitor) (specs : Option (List (String × ContractSpec)))
      (matches : List MonitorMatch)
      → filter_block platform alloy client slug (evm block) monitors specs ≡ ok matches
      → AllSound block (evm_specs (unwrap_or [] specs)) monitors matches
  unfolding filter_block
  filter_block-IsMatch block monitors specs matches e =
      from_logs block (evm_specs (unwrap_or [] specs)) monitors _ matches refl e
