-- ===== src/Filter/Evm/Events/Sound.antt =====
-- The events that a transaction is matched by (src/services/filter/filters/evm/filter.rs).
use openzeppelin_monitor.Prelude.{
  ◌≡◌, sym, subst, ap, ◌∙◌, ℕ, suc, ◌+◌, ◌≤◌, Bool, true, false, List, [], ◌∷◌, ◌++◌, Option, none,
  some, String, map, is_empty, arith, length, length-append, if◌then◌else◌,
}
use mathlib.Core.List.{map-append}
use openzeppelin_monitor.Prelude.Result.{Result, ok, err, ◌>>=◌}
use openzeppelin_monitor.Models.Monitor.{ContractSpec, AddressWithSpec, EventCondition, Monitor}
use openzeppelin_monitor.Models.Evm.{Log, MatchParamsMap}
use openzeppelin_monitor.Models.Block.{unwrap_or}
use openzeppelin_monitor.Filter.Evm.{Platform}
use openzeppelin_monitor.Filter.Evm.Abi.{Alloy}
use openzeppelin_monitor.Filter.Evm.Helpers.{are_same_signature}
use openzeppelin_monitor.Filter.Evm.Conditions.{holds, evaluate_expression}
use openzeppelin_monitor.Filter.Evm.Calls.{push_some}
use openzeppelin_monitor.Filter.Evm.Events.{
  EventMatches, push_event, try_event, check_event, check_decoded, check_spec, check_address,
  check_log, decode_events, find_matching_events_for_transaction, monitored, FilterError, involve,
  event_condition,
}

abbrev signatures_of : EventMatches → List String
signatures_of m = map (λ c. c.signature) m.matched_events

-- The arguments stand beside the matched events, signature by signature.
abbrev pub Aligned : EventMatches → Type 0
Aligned m =
    (maps : List MatchParamsMap) × (m.events ≡ some maps)
    × (map (λ e. e.signature) maps ≡ map (λ c. c.signature) m.matched_events)

-- At most one event has been added to `m`, and nothing else about the events has changed.
abbrev Grows : EventMatches → EventMatches → Type 0
Grows m r = (Aligned m → Aligned r) × (length r.matched_events ≤ length m.matched_events + 1)

Aligned-push_event :
    (expression : Option String) (event : MatchParamsMap) (m : EventMatches)
    → Aligned m
    → Aligned (push_event expression event m)
unfolding push_event
Aligned-push_event expression event m (maps, e, same) = (
  maps ++ event ∷ [],
  ap (λ o. push_some o event) e,
  map-append (λ e. e.signature) maps (event ∷ [])
      ∙ ap (λ s. s ++ event.signature ∷ []) same
      ∙ sym (
          map-append (λ c. c.signature) m.matched_events
            (event_condition event.signature expression ∷ [])),
)

push_event-Grows :
    (expression : Option String) (event : MatchParamsMap) (m : EventMatches)
    → Grows m (push_event expression event m)
unfolding push_event
push_event-Grows expression event m = (
  Aligned-push_event expression event m,
  omega (arith, length-append m.matched_events (event_condition event.signature expression ∷ [])),
)

Grows-refl : (m : EventMatches) → Grows m m
Grows-refl m = (λ h. h, omega arith)

Grows-if :
    (m : EventMatches) (b : Bool) (x y : EventMatches)
    → Grows m x
    → Grows m y
    → Grows m (if b then x else y)
Grows-if m true x y h k = h
Grows-if m false x y h k = k

-- The same of a result that is no error.
abbrev GrowsTo : EventMatches → Result FilterError EventMatches → Type 0
GrowsTo m (ok r) = Grows m r
GrowsTo m (err e) = Unit

module _ (platform : Platform) (alloy : Alloy) where
  try_event-Grows :
      (event : MatchParamsMap) (expression : Option String) (m next : EventMatches)
      → Grows m next
      → Grows m (try_event platform alloy event expression m next)
  try_event-Grows event none m next h = push_event-Grows none event m
  try_event-Grows event (some expr) m next h =
      Grows-if m (holds (evaluate_expression platform alloy expr (unwrap_or [] event.args))) _ _
        (push_event-Grows (some expr) event m) h

  check_event-Grows :
      (event : MatchParamsMap) (cs : List EventCondition) (m : EventMatches)
      → Grows m (check_event platform alloy event cs m)
  unfolding check_event
  check_event-Grows event [] m = Grows-refl m
  check_event-Grows event (c ∷ cs) m =
      Grows-if m (are_same_signature platform c.signature event.signature) _ _
        (try_event-Grows event c.expression m _ (check_event-Grows event cs m))
        (check_event-Grows event cs m)

  check_decoded-Grows :
      (decoded : Option MatchParamsMap) (cs : List EventCondition) (m : EventMatches)
      → Grows m (check_decoded platform alloy decoded cs m)
  check_decoded-Grows none cs m = Grows-refl m
  check_decoded-Grows (some event) cs m =
      Grows-if m (is_empty cs) _ _ (push_event-Grows none event m) (check_event-Grows event cs m)

  decoded-GrowsTo :
      (r : Result FilterError (Option MatchParamsMap)) (cs : List EventCondition) (m : EventMatches)
      → GrowsTo m (r >>= λ d. ok (check_decoded platform alloy d cs m))
  decoded-GrowsTo (ok d) cs m = check_decoded-Grows d cs m
  decoded-GrowsTo (err e) cs m = tt

  check_spec-GrowsTo :
      (o : Option ContractSpec) (log : Log) (cs : List EventCondition) (m : EventMatches)
      → GrowsTo m (check_spec platform alloy o log cs m)
  check_spec-GrowsTo none log cs m = Grows-refl m
  check_spec-GrowsTo (some abi) log cs m =
      decoded-GrowsTo (decode_events platform alloy abi log) cs m

  involved :
      (log : Log) (m : EventMatches) (r : Result FilterError EventMatches)
      → GrowsTo (involve platform alloy log m) r
      → GrowsTo m r
  involved log m (ok r) h = h
  involved log m (err e) h = tt

  check_address-GrowsTo :
      (o : Option AddressWithSpec) (log : Log) (cs : List EventCondition) (m : EventMatches)
      → GrowsTo m (check_address platform alloy o log cs m)
  check_address-GrowsTo none log cs m = Grows-refl m
  check_address-GrowsTo (some addr) log cs m =
      involved log m
        (check_spec platform alloy addr.contract_spec log cs (involve platform alloy log m))
        (check_spec-GrowsTo addr.contract_spec log cs (involve platform alloy log m))

  -- What holds of the rounds that are left, after one that ends in `next`.
  abbrev Outcome : ℕ → EventMatches → Result FilterError EventMatches → Type 0
  Outcome n m (ok r) =
      (Aligned m → Aligned r) × (length r.matched_events ≤ length m.matched_events + n)
  Outcome n m (err e) = Unit

  one_more :
      (n : ℕ) (m : EventMatches) (first : Result FilterError EventMatches)
      (rest : EventMatches → Result FilterError EventMatches)
      → GrowsTo m first
      → ((next : EventMatches) → Outcome n next (rest next))
      → Outcome (suc n) m (first >>= rest)
  one_more n m (err e) rest h k = tt
  one_more n m (ok next) rest h k = after (rest next) (k next)
    where
      after : (r : Result FilterError EventMatches) → Outcome n next r → Outcome (suc n) m r
      after (ok r) (aligned, short) = (λ a. aligned (h.0 a), omega arith)
      after (err e) o = tt

  events-Outcome :
      (logs : List Log) (monitor : Monitor) (m : EventMatches)
      → Outcome (length logs) m (find_matching_events_for_transaction platform alloy logs monitor m)
  unfolding find_matching_events_for_transaction check_log
  events-Outcome [] monitor m = (λ a. a, omega arith)
  events-Outcome (log ∷ logs) monitor m =
      one_more (length logs) m (check_log platform alloy monitor log m)
        (λ next. find_matching_events_for_transaction platform alloy logs monitor next)
        (check_address-GrowsTo (monitored platform alloy monitor log) log
          monitor.match_conditions.events m)
        λ next. events-Outcome logs monitor next

  -- Every log adds at most one event, and the decoded arguments stay beside the matched events: the
  -- same number of them, with the same signatures in the same order.
  pub find_matching_events-Aligned :
      (logs : List Log) (monitor : Monitor) (m r : EventMatches)
      → find_matching_events_for_transaction platform alloy logs monitor m ≡ ok r
      → Aligned m
      → Aligned r × (length r.matched_events ≤ length m.matched_events + length logs)
  find_matching_events-Aligned logs monitor m r e aligned =
      let o = subst (Outcome (length logs) m) e (events-Outcome logs monitor m) in
      (o.0 aligned, o.1)
