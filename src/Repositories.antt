-- ===== src/Repositories.antt =====
-- src/repositories/monitor.rs: the check of a set of monitors against the networks, the triggers and
-- the script files. The file system and the paths are the parameter `Files`; a message is a
-- constructor with the names that it shows, and the order of the errors is that of the checks.
pub mod References
use Prim.Native.Char.{Char}
use openzeppelin_monitor.Prelude.{
  ℕ, suc, Bool, true, false, not, ◌&&◌, List, [], ◌∷◌, ◌++◌, Option, none, some, String, str_eq,
  ltb, ◌==◌, is_empty, if◌then◌else◌,
}
use openzeppelin_monitor.Prelude.Chars.{is_char, count_chars, first_index, last_index}
use openzeppelin_monitor.Prelude.Dict.{lookup, contains_key}
use openzeppelin_monitor.Prelude.Result.{Result, ok, err}
use openzeppelin_monitor.Models.Monitor.{
  FunctionCondition, EventCondition, ScriptLanguage, java_script, python, bash, TriggerConditions,
  Monitor,
}
use openzeppelin_monitor.Models.Network.{Network, BlockChainType, evm, stellar, midnight, solana}
use openzeppelin_monitor.Models.NetworkConfig.{Unicode}
use openzeppelin_monitor.Models.Trigger.{Trigger}

pub record Files : Type 0 where
  pub exists : String → Bool
  pub extension : String → Option String

pub data ReferenceError : Type 0 where
  no_trigger no_network no_script : String → String → ReferenceError
  function_signature event_signature : String → String → String → ReferenceError
  unsupported_language zero_timeout : String → ReferenceError
  script_extension : String → String → String → ReferenceError

-- `if !test { errors.push(error) }`.
abbrev pub unless : Bool → ReferenceError → List ReferenceError
unless true error = []
unless false error = error ∷ []

-- A loop whose rounds push errors.
abbrev pub for_each {ℓ} : {A : Type ℓ} → (A → List ReferenceError) → List A → List ReferenceError
for_each check [] = []
for_each check (x ∷ xs) = check x ++ for_each check xs

abbrev pub requires_parentheses : BlockChainType → Bool
requires_parentheses evm = true
requires_parentheses stellar = true
requires_parentheses midnight = true
requires_parentheses solana = false

abbrev is_last : ℕ → Option ℕ → Option ℕ → Bool
is_last length (some open_at) (some close_at) = ltb open_at close_at && suc close_at == length
is_last length _ _ = false

-- An opening parenthesis stands before the last closing one, which ends the text.
unfoldable pub has_parens : Unicode → String → Bool
has_parens unicode sig =
    let trimmed = unicode.trim sig in
    is_last (count_chars trimmed) (first_index (is_char b'(') trimmed)
      (last_index (is_char b')') trimmed)

abbrev pub script_language_extensions : List (ScriptLanguage × String)
script_language_extensions = (python, "py") ∷ (java_script, "js") ∷ (bash, "sh") ∷ []

abbrev pub language_eq : ScriptLanguage → ScriptLanguage → Bool
language_eq python python = true
language_eq java_script java_script = true
language_eq bash bash = true
language_eq _ _ = false

abbrev pub expected_extension : ScriptLanguage → List (ScriptLanguage × String) → Option String
expected_extension language [] = none
expected_extension language ((l, ext) ∷ rest) =
    let others = expected_extension language rest in
    if language_eq l language then some ext else others

abbrev pub has_extension : Option String → String → Bool
has_extension none expected = false
has_extension (some ext) expected = str_eq ext expected

module _ (unicode : Unicode) (files : Files) where
  abbrev pub signatures_at : Option Network → String → String → Monitor → List ReferenceError
  signatures_at none slug name monitor = []
  signatures_at (some network) slug name monitor =
      if requires_parentheses network.network_type
      then for_each
          (λ (f : FunctionCondition).
            unless (has_parens unicode f.signature) (function_signature name f.signature slug))
          monitor.match_conditions.functions
        ++ for_each
            (λ (e : EventCondition).
              unless (has_parens unicode e.signature) (event_signature name e.signature slug))
            monitor.match_conditions.events
      else []

  unfoldable pub validate_monitor_signatures :
      String → Monitor → List (String × Network) → List ReferenceError
  unfolding has_parens
  validate_monitor_signatures name monitor networks =
      for_each (λ (slug : String). signatures_at (lookup slug networks) slug name monitor)
        monitor.networks

  -- An unsupported language skips the checks after it.
  abbrev pub with_extension : Option String → String → TriggerConditions → List ReferenceError
  with_extension none name condition = unsupported_language name ∷ []
  with_extension (some expected) name condition =
      unless (has_extension (files.extension condition.script_path) expected)
        (script_extension name expected condition.script_path)
      ++ unless (not (condition.timeout_ms == 0)) (zero_timeout name)

  unfoldable pub check_condition : String → TriggerConditions → List ReferenceError
  check_condition name condition =
      unless (files.exists condition.script_path) (no_script name condition.script_path)
      ++ with_extension (expected_extension condition.language script_language_extensions) name
          condition

  unfoldable pub check_monitor :
      List (String × Trigger) → List (String × Network) → String × Monitor → List ReferenceError
  unfolding validate_monitor_signatures check_condition
  check_monitor triggers networks (name, monitor) =
      for_each (λ (id : String). unless (contains_key id triggers) (no_trigger name id))
        monitor.triggers
      ++ (for_each (λ (slug : String). unless (contains_key slug networks) (no_network name slug))
            monitor.networks
          ++ (validate_monitor_signatures name monitor networks
              ++ for_each (check_condition name) monitor.trigger_conditions))

  unfoldable pub validate_monitor_references :
      List (String × Monitor)
      → List (String × Trigger)
      → List (String × Network)
      → Result (List ReferenceError) (Unit {0})
  unfolding check_monitor
  validate_monitor_references monitors triggers networks =
      let errors = for_each (check_monitor triggers networks) monitors in
      if is_empty errors then ok tt else err errors
