-- ===== src/Filter/Evm/Events/Matched.antt =====
-- What the events that a transaction is matched by (src/services/filter/filters/evm/filter.rs) say
-- about its logs, and where its addresses come from.
use openzeppelin_monitor.Prelude.{
  ◌≡◌, refl, subst, Bool, true, false, List, [], ◌∷◌, Option, none, some, String, find, find-Found,
  is_empty, All, All-append, if◌then◌else◌,
}
use mathlib.Core.List.{Memᴰ}
use openzeppelin_monitor.Prelude.Result.{Result, ok, err, ◌>>=◌}
use openzeppelin_monitor.Models.Block.{unwrap_or}
use openzeppelin_monitor.Models.Monitor.{ContractSpec, AddressWithSpec, EventCondition, Monitor}
use openzeppelin_monitor.Models.Evm.{Transaction, Log, MatchParamsMap}
use openzeppelin_monitor.Filter.Evm.{Platform}
use openzeppelin_monitor.Filter.Evm.Abi.{Alloy}
use openzeppelin_monitor.Filter.Evm.Helpers.{are_same_address, are_same_signature}
use openzeppelin_monitor.Filter.Evm.Conditions.{h160_to_string, holds, evaluate_expression}
use openzeppelin_monitor.Filter.Evm.Conditions.FirstMatch.{expression_holds}
use openzeppelin_monitor.Filter.Evm.Events.{
  EventMatches, FilterError, push_event, try_event, check_event, check_decoded, check_spec,
  check_address, check_log, decode_events, find_matching_events_for_transaction, monitored, involve,
}

module _ (platform : Platform) (alloy : Alloy) (all_logs : List Log) (monitor : Monitor) where
  -- An event condition that is reported: a log at a monitored address, decoded with the interface of the
  -- address, is an event that a condition of the monitor asks for, by its signature and with an
  -- expression that holds of the decoded arguments.
  pub record IsEvent (reported : EventCondition) : Type 0 where
    pub log : Log
    pub of_logs : Memᴰ log all_logs
    pub addr : AddressWithSpec
    pub monitored : Memᴰ addr monitor.addresses
    pub is_emitter : are_same_address platform addr.address (h160_to_string log.address) ≡ true
    pub spec : ContractSpec
    pub has_spec : addr.contract_spec ≡ some spec
    pub event : MatchParamsMap
    pub decodes : decode_events platform alloy spec log ≡ ok (some event)
    pub condition : EventCondition
    pub listed : Memᴰ condition monitor.match_conditions.events
    pub same_signature : are_same_signature platform condition.signature event.signature ≡ true
    pub same_expression : condition.expression ≡ reported.expression
    pub true_of :
        expression_holds platform alloy (unwrap_or [] event.args) reported.expression ≡ true
    pub signature : reported.signature ≡ event.signature

  -- The transaction's sender or receiver, or the address of a log.
  pub data Involves (tx : Transaction) (address : String) : Type 0 where
    sender : (a : String) → tx.sender ≡ some a → address ≡ h160_to_string a → Involves tx address
    receiver : (a : String) → tx.to ≡ some a → address ≡ h160_to_string a → Involves tx address
    emitter :
        (log : Log) → Memᴰ log all_logs → address ≡ h160_to_string log.address → Involves tx address

  module _ (tx : Transaction) where
    -- All that is reported so far is right.
    abbrev pub Sound : EventMatches → Type 0
    Sound m =
        (is_empty monitor.match_conditions.events ≡ false → All IsEvent m.matched_events)
        × All (Involves tx) m.involved_addresses

    abbrev pub SoundIn : Result FilterError EventMatches → Type 0
    SoundIn (ok r) = Sound r
    SoundIn (err e) = Unit

    Sound-if :
        (b : Bool) (x y : EventMatches)
        → (b ≡ true → Sound x)
        → (b ≡ false → Sound y)
        → Sound (if b then x else y)
    Sound-if true x y h k = h refl
    Sound-if false x y h k = k refl

    SoundIn-then :
        {A : Type 0} (r : Result FilterError A) (f : A → Result FilterError EventMatches)
        → ((a : A) → r ≡ ok a → SoundIn (f a))
        → SoundIn (r >>= f)
    SoundIn-then (ok a) f h = h a refl
    SoundIn-then (err e) f h = tt

    module _ (log : Log) (of_logs : Memᴰ log all_logs) (addr : AddressWithSpec)
        (listed_addr : Memᴰ addr monitor.addresses)
        (is_emitter : are_same_address platform addr.address (h160_to_string log.address) ≡ true)
        (spec : ContractSpec) (has_spec : addr.contract_spec ≡ some spec) (event : MatchParamsMap)
        (decodes : decode_events platform alloy spec log ≡ ok (some event)) where
      push_event-Sound :
          (c : EventCondition) (expression : Option String) (m : EventMatches)
          → Memᴰ c monitor.match_conditions.events
          → are_same_signature platform c.signature event.signature ≡ true
          → c.expression ≡ expression
          → expression_holds platform alloy (unwrap_or [] event.args) expression ≡ true
          → Sound m
          → Sound (push_event expression event m)
      unfolding push_event
      push_event-Sound c expression m listed same e true_of (events, involved) = (
        λ some_are. All-append IsEvent m.matched_events _ (events some_are) (
          record {
            log = log;
            of_logs = of_logs;
            addr = addr;
            monitored = listed_addr;
            is_emitter = is_emitter;
            spec = spec;
            has_spec = has_spec;
            event = event;
            decodes = decodes;
            condition = c;
            listed = listed;
            same_signature = same;
            same_expression = e;
            true_of = true_of;
            signature = refl;
          },
          tt,
        ),
        involved,
      )

      try_event-Sound :
          (c : EventCondition) (expression : Option String) (m next : EventMatches)
          → Memᴰ c monitor.match_conditions.events
          → are_same_signature platform c.signature event.signature ≡ true
          → c.expression ≡ expression
          → Sound m
          → Sound next
          → Sound (try_event platform alloy event expression m next)
      try_event-Sound c none m next listed same e h k =
          push_event-Sound c none m listed same e refl h
      try_event-Sound c (some expr) m next listed same e h k =
          Sound-if (holds (evaluate_expression platform alloy expr (unwrap_or [] event.args))) _ _
            (λ true_is. push_event-Sound c (some expr) m listed same e true_is h) λ false_is. k

      check_event-Sound :
          (cs : List EventCondition) (m : EventMatches)
          → ((c : EventCondition) → Memᴰ c cs → Memᴰ c monitor.match_conditions.events)
          → Sound m
          → Sound (check_event platform alloy event cs m)
      unfolding check_event
      check_event-Sound [] m sub h = h
      check_event-Sound (c ∷ cs) m sub h =
          let rest = check_event-Sound cs m (λ d k. sub d (Memᴰ.tail k)) h in
          Sound-if (are_same_signature platform c.signature event.signature) _ _
            (λ same. try_event-Sound c c.expression m _ (sub c (Memᴰ.head refl)) same refl h rest)
            λ different. rest

    -- Without conditions every event is added, and none is reported later.
    unasked :
        (event : MatchParamsMap) (m : EventMatches)
        → is_empty monitor.match_conditions.events ≡ true
        → Sound m
        → Sound (push_event none event m)
    unfolding push_event
    unasked event m none_are (events, involved) = (λ some_are. absurd (cc), involved)

    check_decoded-Sound :
        (log : Log) (of_logs : Memᴰ log all_logs) (addr : AddressWithSpec)
        (listed_addr : Memᴰ addr monitor.addresses)
        (is_emitter : are_same_address platform addr.address (h160_to_string log.address) ≡ true)
        (spec : ContractSpec) (has_spec : addr.contract_spec ≡ some spec)
        (decoded : Option MatchParamsMap) (m : EventMatches)
        → decode_events platform alloy spec log ≡ ok decoded
        → Sound m
        → Sound (check_decoded platform alloy decoded monitor.match_conditions.events m)
    check_decoded-Sound log of_logs addr listed_addr is_emitter spec has_spec none m decodes h = h
    check_decoded-Sound log of_logs addr listed_addr is_emitter spec has_spec (some event) m decodes
          h =
        Sound-if (is_empty monitor.match_conditions.events) _ _
          (λ none_are. unasked event m none_are h)
          λ some_are.
            check_event-Sound log of_logs addr listed_addr is_emitter spec has_spec event decodes
              monitor.match_conditions.events m (λ c k. k) h

    check_spec-Sound :
        (log : Log) (of_logs : Memᴰ log all_logs) (addr : AddressWithSpec)
        (listed_addr : Memᴰ addr monitor.addresses)
        (is_emitter : are_same_address platform addr.address (h160_to_string log.address) ≡ true)
        (o : Option ContractSpec) (m : EventMatches)
        → addr.contract_spec ≡ o
        → Sound m
        → SoundIn (check_spec platform alloy o log monitor.match_conditions.events m)
    check_spec-Sound log of_logs addr listed_addr is_emitter none m e h = h
    check_spec-Sound log of_logs addr listed_addr is_emitter (some spec) m e h =
        SoundIn-then (decode_events platform alloy spec log) _ λ decoded decodes.
          check_decoded-Sound log of_logs addr listed_addr is_emitter spec e decoded m decodes h

    check_address-Sound :
        (log : Log)
        → Memᴰ log all_logs
        → (o : Option AddressWithSpec) (m : EventMatches)
        → find
            (λ addr. are_same_address platform addr.address (h160_to_string log.address))
            monitor.addresses
          ≡ o
        → Sound m
        → SoundIn (check_address platform alloy o log monitor.match_conditions.events m)
    check_address-Sound log of_logs none m e h = h
    check_address-Sound log of_logs (some addr) m e (events, involved) =
        let (listed_addr, is_emitter) =
          find-Found
            (λ (a : AddressWithSpec).
              are_same_address platform a.address (h160_to_string log.address))
            monitor.addresses e in
        check_spec-Sound log of_logs addr listed_addr is_emitter addr.contract_spec
          (involve platform alloy log m) refl
          (
            events,
            All-append (Involves tx) m.involved_addresses _ involved (emitter log of_logs refl, tt),
          )

    -- For a monitor with event conditions every event that the search adds is one of a log at a monitored
    -- address that a condition asks for and whose expression holds; for any monitor every address that
    -- it adds is that of a log.
    pub find_matching_events-Sound :
        (logs : List Log) (m : EventMatches)
        → ((log : Log) → Memᴰ log logs → Memᴰ log all_logs)
        → Sound m
        → SoundIn (find_matching_events_for_transaction platform alloy logs monitor m)
    unfolding find_matching_events_for_transaction check_log
    find_matching_events-Sound [] m sub h = h
    find_matching_events-Sound (log ∷ logs) m sub h =
        SoundIn-then (check_log platform alloy monitor log m) _ λ next e.
          find_matching_events-Sound logs next (λ l k. sub l (Memᴰ.tail k))
            (subst SoundIn e (
              check_address-Sound log (sub log (Memᴰ.head refl))
                (monitored platform alloy monitor log) m refl h))
