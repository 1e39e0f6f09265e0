-- ===== src/Bootstrap/Filters.antt =====
-- The matches that pass the scripts of their monitor (src/bootstrap/mod.rs and
-- src/services/trigger/service.rs).
use openzeppelin_monitor.Prelude.{
  ◌≡◌, refl, ap, ◌∙◌, subst, sym, Bool, true, false, List, [], ◌∷◌, Option, some, String, All,
  All-mem, All-impl, All-unless, is_empty, Bool-cases, inl, inr, if◌then◌else◌,
}
use mathlib.Core.List.{Memᴰ}
use openzeppelin_monitor.Prelude.Dict.{lookup}
use openzeppelin_monitor.Prelude.Result.{Result, ok}
use openzeppelin_monitor.Models.Block.{ProcessedBlock}
use openzeppelin_monitor.Models.Monitor.{ScriptLanguage, TriggerConditions, Monitor}
use openzeppelin_monitor.Models.NetworkConfig.{Unicode}
use openzeppelin_monitor.Models.Trigger.{Trigger}
use openzeppelin_monitor.Filter.Evm.Matching.{without_specs}
use openzeppelin_monitor.Trigger.{TriggerError, Scripts, script_key, load_scripts}
use openzeppelin_monitor.Trigger.Scripts.{Held, HasScripts, load_scripts-HasScripts}
use openzeppelin_monitor.Bootstrap.{
  execute_trigger_condition, with_script, is_filtered, run_trigger_filters, handled_matches,
}

neither : (a b : Bool) → (if a then true else b) ≡ false → (a ≡ false) × (b ≡ false)
neither true b e = absurd (cc)
neither false b e = (refl, e)

module _ {M : Type 0} (unicode : Unicode) (monitor_of : M → Monitor)
    (run_script : ScriptLanguage → String → M → TriggerConditions → Result (Unit {0}) Bool) where
  -- The condition's script was there and did not say true.
  abbrev pub Passes : Scripts → M → TriggerConditions → Type 0
  Passes scripts m c =
      (script : ScriptLanguage × String) × (lookup
          (script_key unicode (monitor_of m).name c.script_path) scripts
        ≡ some script)
      × (execute_trigger_condition unicode monitor_of run_script c m script ≡ false)

  abbrev pub Passed : Scripts → M → Type 0
  Passed scripts m = All (Passes scripts m) (monitor_of m).trigger_conditions

  all_pass :
      (m : M) (scripts : Scripts) (cs : List TriggerConditions)
      → All (λ c. Held (script_key unicode (monitor_of m).name c.script_path) scripts) cs
      → is_filtered unicode monitor_of run_script cs m scripts ≡ false
      → All (Passes scripts m) cs
  unfolding is_filtered
  all_pass m scripts [] h e = tt
  all_pass m scripts (c ∷ cs) ((script, found), hs) e =
      let key = script_key unicode (monitor_of m).name c.script_path in
      let (here, rest) =
        neither (with_script unicode monitor_of run_script (lookup key scripts) c m) _ e in
      (
        (
          script,
          found,
          ap (λ o. with_script unicode monitor_of run_script o c m) (sym found) ∙ here,
        ),
        all_pass m scripts cs hs rest,
      )

  run_trigger_filters-Passed :
      (ms : List M) (scripts : Scripts)
      → All
          (λ m.
            All
              (λ c. Held (script_key unicode (monitor_of m).name c.script_path) scripts)
              (monitor_of m).trigger_conditions)
          ms
      → All (Passed scripts) (run_trigger_filters unicode monitor_of run_script ms scripts)
  unfolding run_trigger_filters
  run_trigger_filters-Passed [] scripts h = tt
  run_trigger_filters-Passed (m ∷ ms) scripts (held, rest) =
      elim (Bool-cases
        (is_filtered unicode monitor_of run_script (monitor_of m).trigger_conditions m scripts)) [
          | inl dropped ↦ rw dropped (run_trigger_filters-Passed ms scripts rest)
          | inr kept ↦ rw kept (
            all_pass m scripts (monitor_of m).trigger_conditions held kept,
            run_trigger_filters-Passed ms scripts rest,
          )
        ]

  -- The match is one of a monitor of the list, with or without the interfaces of its contracts.
  abbrev pub Listed : List Monitor → M → Type 0
  Listed monitors m =
      (monitor : Monitor) × Memᴰ monitor monitors × (monitor_of m ≡ without_specs monitor)

  Held-of_Listed :
      (monitors : List Monitor) (scripts : Scripts)
      (read_to_string : String → Result TriggerError String) (get : String → Option Trigger) (m : M)
      → All (HasScripts unicode read_to_string get scripts) monitors
      → Listed monitors m
      → All
          (λ c. Held (script_key unicode (monitor_of m).name c.script_path) scripts)
          (monitor_of m).trigger_conditions
  Held-of_Listed monitors scripts read get m all_have (monitor, listed, e) =
      subst
        (λ n.
          All (λ c. Held (script_key unicode n.name c.script_path) scripts) n.trigger_conditions)
        (sym e) (All-mem (HasScripts unicode read get scripts) monitors listed all_have)

  -- With the scripts that were loaded for the monitors, a match of one of them is handed on to its
  -- triggers only if each of its monitor's trigger conditions had its script, and the script did not
  -- answer true: no match passes because a script is missing.
  pub handled_matches-Passed :
      (read_to_string : String → Result TriggerError String) (get : String → Option Trigger)
      (monitors : List Monitor) (scripts : Scripts) (block : ProcessedBlock M) (shut_down : Bool)
      → load_scripts unicode read_to_string get monitors ≡ ok scripts
      → All (Listed monitors) block.processing_results
      → All (Passed scripts) (handled_matches unicode monitor_of run_script block scripts shut_down)
  unfolding handled_matches
  handled_matches-Passed read get monitors scripts block true loaded listed = tt
  handled_matches-Passed read get monitors scripts block false loaded listed =
      All-unless (Passed scripts) (is_empty block.processing_results) _ (
        run_trigger_filters-Passed block.processing_results scripts (
          All-impl (Listed monitors) _ block.processing_results
            (λ m.
              Held-of_Listed monitors scripts read get m
                (load_scripts-HasScripts unicode read get monitors scripts loaded))
            listed))
