-- ===== src/Repositories/References.antt =====
-- When src/repositories/monitor.rs accepts a set of monitors.
use openzeppelin_monitor.Prelude.{
  ◌≡◌, refl, ap, ◌∙◌, Bool, true, false, not, ◌&&◌, ◌||◌, List, [], ◌∷◌, ◌++◌, Option, none, some,
  String, ◌==◌, is_empty, all, if◌then◌else◌,
}
use openzeppelin_monitor.Prelude.Dict.{lookup, contains_key}
use openzeppelin_monitor.Prelude.Result.{ok, err, is_ok}
use openzeppelin_monitor.Models.Monitor.{
  FunctionCondition, EventCondition, ScriptLanguage, java_script, python, bash, TriggerConditions,
  Monitor,
}
use openzeppelin_monitor.Models.Network.{Network}
use openzeppelin_monitor.Models.NetworkConfig.{Unicode}
use openzeppelin_monitor.Models.Trigger.{Trigger}
use openzeppelin_monitor.Repositories.{
  Files, ReferenceError, script_extension, zero_timeout, function_signature, event_signature,
  expected_extension, script_language_extensions, unless, for_each, requires_parentheses,
  has_parens, has_extension, signatures_at, with_extension, validate_monitor_signatures,
  check_condition, check_monitor, validate_monitor_references,
}

is_empty-append : (xs ys : List ReferenceError) → is_empty (xs ++ ys) ≡ is_empty xs && is_empty ys
is_empty-append [] ys = refl
is_empty-append (x ∷ xs) ys = refl

is_empty-unless : (b : Bool) (e : ReferenceError) → is_empty (unless b e) ≡ b
is_empty-unless true e = refl
is_empty-unless false e = refl

is_empty-for_each {ℓ} :
    {A : Type ℓ} (check : A → List ReferenceError) (p : A → Bool) (xs : List A)
    → ((x : A) → is_empty (check x) ≡ p x)
    → is_empty (for_each check xs) ≡ all p xs
is_empty-for_each check p [] h = refl
is_empty-for_each check p (x ∷ xs) h =
    is_empty-append (check x) (for_each check xs)
    ∙ ap (λ b. b && is_empty (for_each check xs)) (h x)
    ∙ ap (λ b. p x && b) (is_empty-for_each check p xs h)

both :
    (xs ys : List ReferenceError) (a b : Bool)
    → is_empty xs ≡ a
    → is_empty ys ≡ b
    → is_empty (xs ++ ys) ≡ a && b
both xs ys a b h k = is_empty-append xs ys ∙ ap (λ c. c && is_empty ys) h ∙ ap (λ c. a && c) k

is_empty-unless2 :
    (a b : Bool) (e f : ReferenceError) → is_empty (unless a e ++ unless b f) ≡ a && b
is_empty-unless2 a b e f =
    both (unless a e) (unless b f) a b (is_empty-unless a e) (is_empty-unless b f)

-- The extension that the documentation asks for.
abbrev pub extension_of : ScriptLanguage → String
extension_of python = "py"
extension_of java_script = "js"
extension_of bash = "sh"

is_ok-if :
    (b : Bool) (errors : List ReferenceError)
    → is_ok {A = Unit {0}} (if b then ok tt else err errors) ≡ b
is_ok-if true errors = refl
is_ok-if false errors = refl

module _ (unicode : Unicode) (files : Files) where
  -- On a network that is there and whose kind wants parentheses, every signature has them.
  abbrev pub signed : Monitor → Option Network → Bool
  signed monitor none = true
  signed monitor (some network) =
      not (requires_parentheses network.network_type)
      || all (λ (f : FunctionCondition). has_parens unicode f.signature)
          monitor.match_conditions.functions
        && all (λ (e : EventCondition). has_parens unicode e.signature)
            monitor.match_conditions.events

  -- The script is there, has its language's extension and a time.
  abbrev pub scripted : TriggerConditions → Bool
  scripted condition =
      files.exists condition.script_path
      && (has_extension (files.extension condition.script_path) (extension_of condition.language)
          && not (condition.timeout_ms == 0))

  abbrev pub consistent :
      List (String × Trigger) → List (String × Network) → String × Monitor → Bool
  consistent triggers networks (name, monitor) =
      all (λ (id : String). contains_key id triggers) monitor.triggers
      && (all (λ (slug : String). contains_key slug networks) monitor.networks
          && (all (λ (slug : String). signed monitor (lookup slug networks)) monitor.networks
              && all scripted monitor.trigger_conditions))

  signatures_at-signed :
      (o : Option Network) (slug name : String) (monitor : Monitor)
      → is_empty (signatures_at unicode files o slug name monitor) ≡ signed monitor o
  signatures_at-signed none slug name monitor = refl
  signatures_at-signed (some network) slug name monitor =
      needed (requires_parentheses network.network_type)
    where
      needed :
          (b : Bool)
          → is_empty (
              if b
              then for_each
                  (λ (f : FunctionCondition).
                    unless
                      (has_parens unicode f.signature)
                      (function_signature name f.signature slug))
                  monitor.match_conditions.functions
                ++ for_each
                    (λ (e : EventCondition).
                      unless
                        (has_parens unicode e.signature)
                        (event_signature name e.signature slug))
                    monitor.match_conditions.events
              else [])
            ≡ not b
              || all
                  (λ (f : FunctionCondition). has_parens unicode f.signature)
                  monitor.match_conditions.functions
                && all
                    (λ (e : EventCondition). has_parens unicode e.signature)
                    monitor.match_conditions.events
      needed false = refl
      needed true =
          both _ _ _ _
            (is_empty-for_each _ _ monitor.match_conditions.functions λ f. is_empty-unless _ _)
            (is_empty-for_each _ _ monitor.match_conditions.events λ e. is_empty-unless _ _)

  by_language :
      (l : ScriptLanguage) (name : String) (c : TriggerConditions)
      → is_empty
          (with_extension unicode files (expected_extension l script_language_extensions) name c)
        ≡ has_extension (files.extension c.script_path) (extension_of l) && not (c.timeout_ms == 0)
  by_language python name c =
      is_empty-unless2 (has_extension (files.extension c.script_path) "py")
        (not (c.timeout_ms == 0)) (script_extension name "py" c.script_path) (zero_timeout name)
  by_language java_script name c =
      is_empty-unless2 (has_extension (files.extension c.script_path) "js")
        (not (c.timeout_ms == 0)) (script_extension name "js" c.script_path) (zero_timeout name)
  by_language bash name c =
      is_empty-unless2 (has_extension (files.extension c.script_path) "sh")
        (not (c.timeout_ms == 0)) (script_extension name "sh" c.script_path) (zero_timeout name)

  check_condition-scripted :
      (name : String) (c : TriggerConditions)
      → is_empty (check_condition unicode files name c) ≡ scripted c
  unfolding check_condition
  check_condition-scripted name c =
      both _ _ _ _ (is_empty-unless _ _) (by_language c.language name c)

  check_monitor-consistent :
      (triggers : List (String × Trigger)) (networks : List (String × Network))
      (m : String × Monitor)
      → is_empty (check_monitor unicode files triggers networks m) ≡ consistent triggers networks m
  unfolding check_monitor validate_monitor_signatures
  check_monitor-consistent triggers networks (name, monitor) =
      both _ _ _ _ (is_empty-for_each _ _ monitor.triggers λ id. is_empty-unless _ _) (
        both _ _ _ _ (is_empty-for_each _ _ monitor.networks λ slug. is_empty-unless _ _) (
          both _ _ _ _
            (is_empty-for_each _ _ monitor.networks
              λ slug. signatures_at-signed (lookup slug networks) slug name monitor)
            (is_empty-for_each _ _ monitor.trigger_conditions
              λ c. check_condition-scripted name c)))

  -- The monitors are accepted exactly if each of them names triggers and networks that are there only,
  -- writes its function and event signatures with parentheses for every network whose kind wants
  -- them, and has for each trigger condition a script that exists, has the extension of its language,
  -- and is given a time above zero.
  pub is_ok-validate_monitor_references :
      (monitors : List (String × Monitor)) (triggers : List (String × Trigger))
      (networks : List (String × Network))
      → is_ok (validate_monitor_references unicode files monitors triggers networks)
        ≡ all (consistent triggers networks) monitors
  unfolding validate_monitor_references
  is_ok-validate_monitor_references monitors triggers networks =
      is_ok-if _ _ ∙ is_empty-for_each _ _ monitors (check_monitor-consistent triggers networks)
