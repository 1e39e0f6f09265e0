-- ===== src/Trigger.antt =====
-- src/services/trigger/service.rs and script/validation.rs: the execution of the triggers of a match,
-- the scripts that are read at the start, and the check of a script. Reading a file and sending a
-- notification are functions whose failure is an error.
pub mod Execution
pub mod Scripts
use Prim.Native.String.{◌++◌ as append}
use openzeppelin_monitor.Prelude.{
  ℕ, Bool, true, false, not, ◌&&◌, ◌||◌, List, [], ◌∷◌, ◌++◌, Option, none, some, String, str_eq,
  is_empty, length, ◌==◌, if◌then◌else◌,
}
use openzeppelin_monitor.Prelude.Dict.{lookup, insert}
use openzeppelin_monitor.Prelude.Result.{Result, ok, err, ◌>>=◌, ◌>>◌, ensure, ok_or}
use openzeppelin_monitor.Models.Block.{unwrap_or}
use openzeppelin_monitor.Models.Monitor.{
  ScriptLanguage, java_script, python, bash, TriggerConditions, Monitor,
}
use openzeppelin_monitor.Models.NetworkConfig.{Unicode, normalize_string}
use openzeppelin_monitor.Models.Trigger.{Trigger, TriggerTypeConfig, script}
use openzeppelin_monitor.Repositories.{Files}

pub data TriggerError : Type 0 where
  not_found : String → TriggerError
  configuration_error other : String → TriggerError
  notification_error : TriggerError
  execution_error : ℕ → TriggerError

abbrev pub Scripts : Type 0
Scripts = List (String × (ScriptLanguage × String))

-- `results.into_iter().filter_map(|r| r.err())`.
abbrev pub errors_of {ℓ} : {A : Type ℓ} → List (Result TriggerError A) → List TriggerError
errors_of [] = []
errors_of (ok a ∷ rest) = errors_of rest
errors_of (err e ∷ rest) = e ∷ errors_of rest

pub data ScriptConfigError : Type 0 where
  path_missing wrong_extension zero_timeout : ScriptConfigError

abbrev pub extension_matches : ScriptLanguage → String → Bool
extension_matches python extension = str_eq extension "py"
extension_matches java_script extension = str_eq extension "js"
extension_matches bash extension = str_eq extension "sh"

unfoldable pub validate_script_config :
    Files → String → ScriptLanguage → ℕ → Result ScriptConfigError (Unit {0})
validate_script_config files script_path language timeout_ms = do
  ensure (files.exists script_path) path_missing
  ensure (extension_matches language (unwrap_or "" (files.extension script_path))) wrong_extension
  ensure (not (timeout_ms == 0)) zero_timeout
  ok tt

module _ (get : String → Option Trigger) where
  -- The result of one trigger; `notify` is the notification service.
  abbrev pub execute_one :
      (Trigger → Result TriggerError (Unit {0})) → String → Result TriggerError (Unit {0})
  execute_one notify trigger_slug = do
    trigger ← ok_or (not_found trigger_slug) (get trigger_slug)
    notify trigger

  abbrev pub results_of :
      (Trigger → Result TriggerError (Unit {0}))
      → List String
      → List (Result TriggerError (Unit {0}))
  results_of notify [] = []
  results_of notify (slug ∷ rest) = execute_one notify slug ∷ results_of notify rest

  -- All triggers are executed, whatever becomes of the others.
  unfoldable pub execute :
      (Trigger → Result TriggerError (Unit {0})) → List String → Result TriggerError (Unit {0})
  execute notify trigger_slugs =
      let errors = errors_of (results_of notify trigger_slugs) in
      if is_empty errors then ok tt else err (execution_error (length errors))

-- The key of a monitor's script.
abbrev pub script_key : Unicode → String → String → String
script_key unicode monitor_name script_path =
    append (normalize_string unicode monitor_name) (append "|" script_path)

module _ (unicode : Unicode) (read_to_string : String → Result TriggerError String)
    (get : String → Option Trigger) where
  unfoldable pub load_conditions :
      String → List TriggerConditions → Scripts → Result TriggerError Scripts
  unfolding insert
  load_conditions name [] scripts = ok scripts
  load_conditions name (condition ∷ rest) scripts = do
    content ← read_to_string condition.script_path
    load_conditions name rest (
        insert (script_key unicode name condition.script_path) (condition.language, content)
          scripts)

  -- A trigger that is no script needs none.
  abbrev pub load_trigger : String → TriggerTypeConfig → Scripts → Result TriggerError Scripts
  load_trigger name (script language script_path arguments timeout_ms) scripts = do
    content ← read_to_string script_path
    ok (insert (script_key unicode name script_path) (language, content) scripts)
  load_trigger name _ scripts = ok scripts

  unfoldable pub load_triggers : String → List String → Scripts → Result TriggerError Scripts
  unfolding insert
  load_triggers name [] scripts = ok scripts
  load_triggers name (trigger ∷ rest) scripts = do
    trigger_config ← ok_or (configuration_error trigger) (get trigger)
    loaded ← load_trigger name trigger_config.config scripts
    load_triggers name rest loaded

  -- The scripts of one monitor.
  unfoldable pub load_monitor : Monitor → Scripts → Result TriggerError Scripts
  unfolding load_conditions load_triggers
  load_monitor monitor scripts =
      if is_empty monitor.trigger_conditions && is_empty monitor.triggers then ok scripts else do
        loaded ← load_conditions monitor.name monitor.trigger_conditions scripts
        load_triggers monitor.name monitor.triggers loaded

  unfoldable pub load_all : List Monitor → Scripts → Result TriggerError Scripts
  unfolding load_monitor
  load_all [] scripts = ok scripts
  load_all (monitor ∷ rest) scripts = do loaded ← load_monitor monitor scripts; load_all rest loaded

  unfoldable pub load_scripts : List Monitor → Result TriggerError Scripts
  unfolding load_all
  load_scripts monitors = load_all monitors []
