-- ===== src/Filter/Evm/Block/Meets.antt =====
-- The kinds of conditions that a match of `filter_block` (src/services/filter/filters/evm/filter.rs)
-- reports.
use openzeppelin_monitor.Prelude.{
  ◌≡◌, refl, ap, ◌∙◌, Bool, true, false, not, ◌&&◌, ◌||◌, List, [], ◌∷◌, Option, String, is_empty,
  arith, if◌then◌else◌,
}
use openzeppelin_monitor.Models.Monitor.{TransactionCondition, MatchConditions, Monitor}
use openzeppelin_monitor.Models.Evm.{Transaction, TransactionReceipt, Log}
use openzeppelin_monitor.Filter.Evm.{Platform}
use openzeppelin_monitor.Filter.Evm.Abi.{Alloy}
use openzeppelin_monitor.Filter.Evm.Calls.{Calls}
use openzeppelin_monitor.Filter.Evm.Events.{EventMatches}
use openzeppelin_monitor.Filter.Evm.Block.{
  has_event_match, has_function_match, has_transaction_match, the_match,
}
use openzeppelin_monitor.Filter.Evm.Matching.{EvmClient, should_match, kept_if}

-- The kinds of conditions that the monitor has are met by what was matched, and nothing is reported
-- for a kind that it has no conditions of.
pub record Meets (asked found : MatchConditions) : Type 0 where
  pub transactions : is_empty asked.transactions ≡ false → is_empty found.transactions ≡ false
  pub others :
      is_empty asked.events && is_empty asked.functions ≡ false
      → is_empty found.events && is_empty found.functions ≡ false
  pub no_transactions : is_empty asked.transactions ≡ true → is_empty found.transactions ≡ true
  pub no_events : is_empty asked.events ≡ true → is_empty found.events ≡ true
  pub no_functions : is_empty asked.functions ≡ true → is_empty found.functions ≡ true

is_empty-kept_if {ℓ} :
    {A : Type ℓ} (asked : Bool) (xs : List A)
    → is_empty (kept_if (not asked && not (is_empty xs)) xs) ≡ asked || is_empty xs
is_empty-kept_if true xs = refl
is_empty-kept_if false [] = refl
is_empty-kept_if false (x ∷ xs) = refl

-- `e`, `f`, `t`: the kind has no conditions; `ne`, `nf`, `nt`: nothing of the kind was found.
abbrev table : Bool → Bool → Bool → Bool → Bool → Bool → Bool
table e f t ne nf nt =
    let event = not e && not ne in
    let function = not f && not nf in
    let transaction = not t && not nt in
    if e && f && t
    then true
    else if e && f
    then transaction
    else if t
    then event || function
    else (event || function) && transaction

met :
    (e f t ne nf nt : Bool)
    → table e f t ne nf nt ≡ true
    → (t ≡ false → t || nt ≡ false) × (e && f ≡ false → (e || ne) && (f || nf) ≡ false)
met e f t ne nf nt h = (λ a. ground arith, λ a. ground arith)

module _ (platform : Platform) (alloy : Alloy) (client : EvmClient) (slug : String) where
  pub the_match-Meets :
      (monitor : Monitor) (tx : Transaction) (receipt : Option TransactionReceipt) (logs : List Log)
      (events : EventMatches) (calls : Calls) (found : List TransactionCondition)
      → should_match monitor.match_conditions
          (has_event_match platform alloy client slug monitor events)
          (has_function_match platform alloy client slug monitor calls)
          (has_transaction_match platform alloy client slug monitor found)
        ≡ true
      → Meets monitor.match_conditions
          (the_match platform alloy client slug monitor tx receipt logs events calls
            found).matched_on
  unfolding should_match
  the_match-Meets monitor tx receipt logs events calls found h =
      let (asked_t, asked_ef) =
        met (is_empty monitor.match_conditions.events) (is_empty monitor.match_conditions.functions)
          (is_empty monitor.match_conditions.transactions) (is_empty events.matched_events)
          (is_empty calls.matched_functions) (is_empty found) h in
      let t = is_empty-kept_if (is_empty monitor.match_conditions.transactions) found in
      let e = is_empty-kept_if (is_empty monitor.match_conditions.events) events.matched_events in
      let f =
        is_empty-kept_if (is_empty monitor.match_conditions.functions) calls.matched_functions in
      record {
        transactions = λ a. t ∙ asked_t a;
        others = λ a.
            ap
              (λ b.
                b
                && is_empty (
                    kept_if (has_function_match platform alloy client slug monitor calls)
                      calls.matched_functions))
              e
            ∙ ap
                (λ b.
                  (is_empty monitor.match_conditions.events || is_empty events.matched_events) && b)
                f
            ∙ asked_ef a;
        no_transactions = λ a. t ∙ ap (λ b. b || is_empty found) a;
        no_events = λ a. e ∙ ap (λ b. b || is_empty events.matched_events) a;
        no_functions = λ a. f ∙ ap (λ b. b || is_empty calls.matched_functions) a;
      }
