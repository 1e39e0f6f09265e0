-- ===== src/Filter/Evm/Block/Evidence.antt =====
-- What makes a transaction a match of a monitor (src/services/filter/filters/evm/filter.rs): its
-- addresses, its logs and the conditions that are reported of it.
use Prim.Native.String.{compare}
use Prim.Native.Nat.{Ordering}
use openzeppelin_monitor.Prelude.{
  ◌≡◌, refl, sym, subst, Bool, true, false, List, [], ◌∷◌, Option, none, some, String, str_eq,
  eq_iff, any-Found, find, find-Found, is_empty, arith, All, All-mem, if◌then◌else◌,
}
use mathlib.Core.List.{Memᴰ}
use openzeppelin_monitor.Models.Monitor.{AddressWithSpec, TransactionCondition, Monitor}
use openzeppelin_monitor.Models.Evm.{Transaction, TransactionReceipt, Log, MonitorMatch}
use openzeppelin_monitor.Filter.Evm.{Platform}
use openzeppelin_monitor.Filter.Evm.Abi.{Alloy}
use openzeppelin_monitor.Filter.Evm.Helpers.{normalize_address}
use openzeppelin_monitor.Filter.Evm.Conditions.{
  b256_to_string, tx_params, find_matching_transaction,
}
use openzeppelin_monitor.Filter.Evm.Conditions.FirstMatch.{
  fits_status, expression_holds, satisfied, reported, find_matching_transaction-find,
}
use openzeppelin_monitor.Filter.Evm.Calls.Single.{IsCall}
use openzeppelin_monitor.Filter.Evm.Events.Matched.{IsEvent, Involves}
use openzeppelin_monitor.Filter.Evm.Block.{has_address_match}
use openzeppelin_monitor.Filter.Evm.Block.Logs.{logs_of}
use openzeppelin_monitor.Filter.Evm.Matching.{EvmClient, insert_sorted, sort, dedup, receipt_status}

All-insert_sorted :
    (P : String → Type 0) (s : String) (xs : List String)
    → P s
    → All P xs
    → All P (insert_sorted s xs)
All-insert_sorted P s [] p h = (p, tt)
All-insert_sorted P s (t ∷ xs) p (q, h) = placed (compare s t) (All-insert_sorted P s xs p h)
  where
    placed :
        (o : Ordering)
        → All P (insert_sorted s xs)
        → All P (elim o [ Ordering.gt ↦ t ∷ insert_sorted s xs | _ ↦ s ∷ t ∷ xs ])
    placed Ordering.gt later = (q, later)
    placed Ordering.eq later = (p, (q, h))
    placed Ordering.lt later = (p, (q, h))

All-sort : (P : String → Type 0) (xs : List String) → All P xs → All P (sort xs)
unfolding sort
All-sort P [] h = tt
All-sort P (s ∷ xs) (p, h) = All-insert_sorted P s (sort xs) p (All-sort P xs h)

All-if :
    (P : String → Type 0) (b : Bool) (xs ys : List String)
    → All P xs
    → All P ys
    → All P (if b then xs else ys)
All-if P true xs ys h k = h
All-if P false xs ys h k = k

All-dedup : (P : String → Type 0) (xs : List String) → All P xs → All P (dedup xs)
unfolding dedup
All-dedup P [] h = tt
All-dedup P (s ∷ []) h = h
All-dedup P (s ∷ t ∷ xs) (p, h) =
    All-if P (str_eq s t) _ _ (All-dedup P (t ∷ xs) h) (p, All-dedup P (t ∷ xs) h)

module _ (platform : Platform) (alloy : Alloy) (monitor : Monitor) where
  -- A transaction condition that is reported: one that the monitor asks for, whose status is any or that
  -- of the transaction, and whose expression holds of the transaction.
  pub record IsTransaction (tx : Transaction) (receipt : Option TransactionReceipt)
      (reported : TransactionCondition) : Type 0 where
    pub condition : TransactionCondition
    pub listed : Memᴰ condition monitor.match_conditions.transactions
    pub fits : fits_status condition.status (receipt_status receipt) ≡ true
    pub true_of :
        expression_holds platform alloy (tx_params platform alloy tx receipt) condition.expression
        ≡ true
    pub status : reported.status ≡ receipt_status receipt
    pub expression : reported.expression ≡ condition.expression

  -- A monitored address is among the addresses of the transaction and its logs.
  pub record IsAddressed (logs : List Log) (tx : Transaction) : Type 0 where
    pub addr : AddressWithSpec
    pub monitored : Memᴰ addr monitor.addresses
    pub address : String
    pub involved : Involves platform alloy logs monitor tx address
    pub same : normalize_address platform address ≡ normalize_address platform addr.address

  reported-IsTransaction :
      (tx : Transaction) (receipt : Option TransactionReceipt) (o : Option TransactionCondition)
      → find
          (satisfied platform alloy (receipt_status receipt) (tx_params platform alloy tx receipt))
          monitor.match_conditions.transactions
        ≡ o
      → All (IsTransaction tx receipt) (reported platform alloy (receipt_status receipt) o)
  reported-IsTransaction tx receipt none e = tt
  reported-IsTransaction tx receipt (some c) e =
      let (listed, ok_is) =
        find-Found
          (satisfied platform alloy (receipt_status receipt) (tx_params platform alloy tx receipt))
          monitor.match_conditions.transactions e in
      (
        record {
          condition = c;
          listed = listed;
          fits = ground (arith, ok_is);
          true_of = ground (arith, ok_is);
          status = refl;
          expression = refl;
        },
        tt,
      )

  pub find_matching_transaction-IsTransaction :
      (tx : Transaction) (receipt : Option TransactionReceipt)
      → is_empty monitor.match_conditions.transactions ≡ false
      → All
          (IsTransaction tx receipt)
          (find_matching_transaction platform alloy (receipt_status receipt) tx receipt monitor [])
  find_matching_transaction-IsTransaction tx receipt some_are =
      subst (All (IsTransaction tx receipt))
        (sym (
          find_matching_transaction-find platform alloy (receipt_status receipt) tx receipt monitor
            [] some_are))
        (reported-IsTransaction tx receipt _ refl)

  pub has_address_match-IsAddressed :
      (client : EvmClient) (slug : String) (logs : List Log) (tx : Transaction)
      (involved : List String)
      → All (Involves platform alloy logs monitor tx) involved
      → has_address_match platform alloy client slug monitor (dedup (sort involved)) ≡ true
      → IsAddressed logs tx
  unfolding has_address_match
  has_address_match-IsAddressed client slug logs tx involved h e =
      let (addr, monitored, at) = any-Found _ monitor.addresses e in
      let (address, among, same) = any-Found _ (dedup (sort involved)) at in
      record {
        addr = addr;
        monitored = monitored;
        address = address;
        involved =
            All-mem (Involves platform alloy logs monitor tx) (dedup (sort involved)) among
              (All-dedup _ (sort involved) (All-sort _ involved h));
        same =
            (eq_iff (normalize_address platform address)
                (normalize_address platform addr.address)).0
              same;
      }

-- All that a match says of its transaction. `block_logs` are the logs of the block.
pub record Evidence (platform : Platform) (alloy : Alloy) (specs : List (String × String))
    (block_logs : List Log) (monitor : Monitor) (m : MonitorMatch) : Type 0 where
  pub logs : List Log
  pub has_logs : m.logs ≡ some logs
  pub own_logs : logs ≡ logs_of (b256_to_string m.transaction.hash) block_logs
  pub addressed : IsAddressed platform alloy monitor logs m.transaction
  pub transactions :
      All (IsTransaction platform alloy monitor m.transaction m.receipt) m.matched_on.transactions
  pub functions : All (IsCall platform alloy specs m.transaction monitor) m.matched_on.functions
  pub events : All (IsEvent platform alloy logs monitor) m.matched_on.events
