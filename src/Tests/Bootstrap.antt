-- ===== src/Tests/Bootstrap.antt =====
-- Runs of src/bootstrap/mod.rs, src/services/trigger/service.rs and src/repositories/monitor.rs.
use openzeppelin_monitor.Prelude.{
  ◌≡◌, refl, Bool, true, false, [], ◌∷◌, Option, none, some, String, str_eq, length, All, all,
  if◌then◌else◌,
}
use mathlib.Core.List.{Memᴰ}
use openzeppelin_monitor.Prelude.Result.{Result, ok, err, is_ok}
use openzeppelin_monitor.Models.Block.{ProcessedBlock}
use openzeppelin_monitor.Models.Block as Chain
use openzeppelin_monitor.Models.Monitor.{Monitor, ScriptLanguage, bash, python, TriggerConditions}
use openzeppelin_monitor.Models.Network.{Network, evm}
use openzeppelin_monitor.Models.Trigger.{Trigger, script_type, script}
use openzeppelin_monitor.Models.Evm.{MonitorMatch}
use openzeppelin_monitor.Filter.Evm.Block.{filter_block}
use openzeppelin_monitor.Filter.Evm.Conditions.{needs_receipt, find_matching_transaction}
use openzeppelin_monitor.Filter.Expression.Evaluate.{evaluate, evaluate_condition}
use openzeppelin_monitor.Filter.Evm.Evaluator.{get_base_param, compare_final_values}
use openzeppelin_monitor.Filter.Evm.Events.{find_matching_events_for_transaction}
use openzeppelin_monitor.Repositories.{Files, validate_monitor_references}
use openzeppelin_monitor.Repositories.References.{consistent, is_ok-validate_monitor_references}
use openzeppelin_monitor.Trigger.{TriggerError, Scripts, load_scripts}
use openzeppelin_monitor.Bootstrap.{ClientPool, block_handler, handled_matches}
use openzeppelin_monitor.Bootstrap.Filters.{Passed, handled_matches-Passed}
use openzeppelin_monitor.Bootstrap.Handler.{evm_filter}
use openzeppelin_monitor.Tests.Data.{testnet}
use openzeppelin_monitor.Tests.Expressions.{platform}
use openzeppelin_monitor.Tests.Filter.{alloy, client, evm_block, monitor}

abbrev pub mainnet : Network
mainnet = record testnet { network_type = evm; slug = "mainnet"; name = "Mainnet" }

abbrev large : TriggerConditions
large = record { script_path = "large.py"; arguments = none; language = python; timeout_ms = 1000 }

abbrev small : TriggerConditions
small = record { script_path = "small.sh"; arguments = none; language = bash; timeout_ms = 1000 }

abbrev pub scripted_monitor : Monitor
scripted_monitor = record monitor {
  trigger_conditions = large ∷ small ∷ [];
  triggers = "alert" ∷ [];
}

abbrev alert : Trigger
alert = record {
  name = "alert";
  trigger_type = script_type;
  config = script bash "alert.sh" none 1000;
}

-- The extension of a path of three kinds.
abbrev files : Files
files = record {
  exists = λ path. true;
  extension = λ path. if str_eq path "large.py" then some "py" else some "sh";
}

accepted :
    is_ok (
      validate_monitor_references platform.unicode files
        (("transfers", scripted_monitor) ∷ [])
        (("alert", alert) ∷ [])
        (("mainnet", mainnet) ∷ []))
    ≡ true
unfolding validate_monitor_references
accepted = refl

is_ok-validate_monitor_references_example :
    is_ok (
      validate_monitor_references platform.unicode files
        (("transfers", scripted_monitor) ∷ [])
        []
        (("mainnet", mainnet) ∷ []))
    ≡ all
        (consistent platform.unicode files [] (("mainnet", mainnet) ∷ []))
        (("transfers", scripted_monitor) ∷ [])
is_ok-validate_monitor_references_example =
    is_ok-validate_monitor_references platform.unicode files (("transfers", scripted_monitor) ∷ [])
      [] (("mainnet", mainnet) ∷ [])

abbrev pub pool : ClientPool MonitorMatch
pool = record {
  get_evm_client = λ network. some (evm_filter platform alloy client);
  get_stellar_client = λ network. none;
  get_midnight_client = λ network. none;
  get_solana_client = λ network. none;
}

abbrev handled : ProcessedBlock MonitorMatch
unfolding block_handler
handled = block_handler (scripted_monitor ∷ []) pool [] false (Chain.evm evm_block) mainnet

handled_one : length handled.processing_results ≡ 1
unfolding block_handler filter_block needs_receipt find_matching_events_for_transaction evaluate
    evaluate_condition get_base_param compare_final_values find_matching_transaction
handled_one = refl

abbrev pub read : String → Result TriggerError String
read path = ok path

abbrev pub get : String → Option Trigger
get id = some alert

abbrev scripts_of : Result TriggerError Scripts → Scripts
scripts_of (ok scripts) = scripts
scripts_of (err e) = []

abbrev pub scripts : Scripts
unfolding load_scripts
scripts = scripts_of (load_scripts platform.unicode read get (scripted_monitor ∷ []))

-- No script answers true: none filters a match out.
abbrev pub run : ScriptLanguage → String → MonitorMatch → TriggerConditions → Result (Unit {0}) Bool
run language content m condition = ok (str_eq content "")

kept_one :
    length
      (handled_matches platform.unicode (λ (m : MonitorMatch). m.monitor) run handled scripts false)
    ≡ 1
unfolding load_scripts block_handler filter_block needs_receipt find_matching_events_for_transaction
    evaluate evaluate_condition get_base_param compare_final_values find_matching_transaction
    handled_matches
kept_one = refl

handled_matches-Passed_example :
    All
      (Passed platform.unicode (λ (m : MonitorMatch). m.monitor) run scripts)
      (handled_matches platform.unicode (λ (m : MonitorMatch). m.monitor) run handled scripts false)
unfolding load_scripts block_handler filter_block needs_receipt find_matching_events_for_transaction
    evaluate evaluate_condition get_base_param compare_final_values find_matching_transaction
handled_matches-Passed_example =
    handled_matches-Passed platform.unicode (λ (m : MonitorMatch). m.monitor) run read get
      (scripted_monitor ∷ []) scripts handled false refl
      ((scripted_monitor, Memᴰ.head refl, refl), tt)
