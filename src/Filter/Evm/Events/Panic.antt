-- ===== src/Filter/Evm/Events/Panic.antt =====
-- Logs without topics (src/services/filter/filters/evm/filter.rs, `decode_events`).
use openzeppelin_monitor.Prelude.{
  ◌≡◌, refl, ap, ◌∙◌, Bool, true, not, ◌&&◌, ◌||◌, List, [], ◌∷◌, Option, none, some, is_empty, all,
  String, arith,
}
use openzeppelin_monitor.Prelude.Result.{Result, ok, err, ◌>>=◌, is_ok}
use openzeppelin_monitor.Models.Monitor.{ContractSpec, AddressWithSpec, Monitor, EventCondition}
use openzeppelin_monitor.Models.Monitor as Core
use openzeppelin_monitor.Models.Evm.{Log}
use openzeppelin_monitor.Filter.Evm.{Platform}
use openzeppelin_monitor.Filter.Evm.Abi.{JsonAbi, AbiItem, Alloy}
use openzeppelin_monitor.Filter.Evm.Events.{
  EventMatches, monitored, check_log, decode_events, find_matching_events_for_transaction,
  check_address, check_spec, decode_contract, FilterError,
}

module _ (platform : Platform) (alloy : Alloy) where
  abbrev readable_by_abi : Option JsonAbi → Log → Bool
  readable_by_abi none log = true
  readable_by_abi (some contract) log =
      not platform.debug_enabled && is_empty contract.events || not (is_empty log.topics)

  abbrev readable_by_spec : Option ContractSpec → Log → Bool
  readable_by_spec (some (Core.evm text)) log = readable_by_abi (alloy.parse_abi text) log
  readable_by_spec _ log = true

  abbrev readable_at : Option AddressWithSpec → Log → Bool
  readable_at none log = true
  readable_at (some addr) log = readable_by_spec addr.contract_spec log

  -- The log has a topic, or the search does not read it: its address is not monitored, has no interface
  -- that parses, or one without events while messages of level `debug` are off.
  abbrev pub readable : Monitor → Log → Bool
  readable monitor log = readable_at (monitored platform alloy monitor log) log

  by_abi :
      (o : Option JsonAbi) (log : Log)
      → is_ok (decode_contract platform alloy o log) ≡ readable_by_abi o log
  by_abi none log = refl
  by_abi (some contract) log = in_events contract.events log.topics
    where
      in_events :
          (es : List AbiItem) (ts : List String)
          → is_ok (
              decode_contract platform alloy
                (some (record { events = es; functions = contract.functions }))
                (record log { topics = ts }))
            ≡ not platform.debug_enabled && is_empty es || not (is_empty ts)
      in_events [] [] = ground arith
      in_events [] (t ∷ ts) = ground arith
      in_events (e ∷ es) [] = ground arith
      in_events (e ∷ es) (t ∷ ts) = ground arith

  and_then :
      {A B : Type 0} (m : Result FilterError A) (f : A → Result FilterError B) (rest : Bool)
      → ((a : A) → is_ok (f a) ≡ rest)
      → is_ok (m >>= f) ≡ is_ok m && rest
  and_then (ok a) f rest h = h a
  and_then (err e) f rest h = refl

  is_ok-map :
      {A B : Type 0} (m : Result FilterError A) (f : A → B) → is_ok (m >>= λ a. ok (f a)) ≡ is_ok m
  is_ok-map (ok a) f = refl
  is_ok-map (err e) f = refl

  by_spec :
      (o : Option ContractSpec) (log : Log) (cs : List EventCondition) (m : EventMatches)
      → is_ok (check_spec platform alloy o log cs m) ≡ readable_by_spec o log
  unfolding decode_events
  by_spec none log cs m = refl
  by_spec (some (Core.evm text)) log cs m =
      is_ok-map (decode_contract platform alloy (alloy.parse_abi text) log) _
      ∙ by_abi (alloy.parse_abi text) log
  by_spec (some (Core.stellar text)) log cs m = refl
  by_spec (some Core.midnight) log cs m = refl
  by_spec (some (Core.solana text)) log cs m = refl

  at_address :
      (o : Option AddressWithSpec) (log : Log) (cs : List EventCondition) (m : EventMatches)
      → is_ok (check_address platform alloy o log cs m) ≡ readable_at o log
  at_address none log cs m = refl
  at_address (some addr) log cs m = by_spec addr.contract_spec log cs _

  -- The search for events ends normally exactly if every log carries a topic whose address is
  -- monitored with an interface that parses and that, unless the log records the level `debug`, has
  -- an event; a log without topics at such an address ends the process, and none at another does.
  pub is_ok-find_matching_events :
      (logs : List Log) (monitor : Monitor) (m : EventMatches)
      → is_ok (find_matching_events_for_transaction platform alloy logs monitor m)
        ≡ all (readable monitor) logs
  unfolding find_matching_events_for_transaction check_log
  is_ok-find_matching_events [] monitor m = refl
  is_ok-find_matching_events (log ∷ logs) monitor m =
      and_then (check_log platform alloy monitor log m) _ (all (readable monitor) logs)
        (λ next. is_ok-find_matching_events logs monitor next)
      ∙ ap (λ b. b && all (readable monitor) logs)
          (at_address (monitored platform alloy monitor log) log monitor.match_conditions.events m)
