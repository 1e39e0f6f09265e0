-- ===== src/Trigger/Scripts.antt =====
-- The scripts that `load_scripts` of src/services/trigger/service.rs holds ready.
use openzeppelin_monitor.Prelude.{
  ◌≡◌, subst, ap, ◌∙◌, true, ◌&&◌, List, [], ◌∷◌, Option, some, String, str_eq, is_empty, All,
  arith, Bool-cases, inl, inr, if◌then◌else◌,
}
use openzeppelin_monitor.Prelude.Dict.{lookup, insert, lookup-insert, lookup-insert_self}
use openzeppelin_monitor.Prelude.Result.{Result, ok, >>=-intermediate, ok_or, ok-injective}
use openzeppelin_monitor.Models.Monitor.{ScriptLanguage, TriggerConditions, Monitor}
use openzeppelin_monitor.Models.NetworkConfig.{Unicode}
use openzeppelin_monitor.Models.Trigger.{Trigger, TriggerTypeConfig, script}
use openzeppelin_monitor.Trigger.{
  TriggerError, configuration_error, Scripts, script_key, load_conditions, load_trigger,
  load_triggers, load_monitor, load_all, load_scripts,
}

-- There is a script under the key.
abbrev pub Held : String → Scripts → Type 0
Held k m = (v : ScriptLanguage × String) × (lookup k m ≡ some v)

-- Nothing that is there gets lost.
abbrev Extends : Scripts → Scripts → Type 0
Extends old new = (k : String) → Held k old → Held k new

insert-Extends : (k : String) (v : ScriptLanguage × String) (m : Scripts) → Extends m (insert k v m)
insert-Extends k v m j (w, h) = elim (Bool-cases (str_eq k j)) [
  | inl e ↦ (v, lookup-insert k j v m ∙ ap (λ b. if b then some v else lookup j m) e)
  | inr e ↦ (w, lookup-insert k j v m ∙ ap (λ b. if b then some v else lookup j m) e ∙ h)
]

All-Extends :
    {A : Type 0} (key : A → String) (old new : Scripts) (xs : List A)
    → Extends old new
    → All (λ x. Held (key x) old) xs
    → All (λ x. Held (key x) new) xs
All-Extends key old new [] sub h = tt
All-Extends key old new (x ∷ xs) sub (h, hs) = (sub (key x) h, All-Extends key old new xs sub hs)

All-of_is_empty :
    (P : TriggerConditions → Type 0) (xs : List TriggerConditions) → is_empty xs ≡ true → All P xs
All-of_is_empty P [] h = tt
All-of_is_empty P (x ∷ xs) h = absurd (cc)

module _ (unicode : Unicode) (read_to_string : String → Result TriggerError String)
    (get : String → Option Trigger) where
  -- Every trigger condition of the monitor has its script.
  abbrev pub HasScripts : Scripts → Monitor → Type 0
  HasScripts scripts monitor =
      All (λ c. Held (script_key unicode monitor.name c.script_path) scripts)
        monitor.trigger_conditions

  conditions :
      (name : String) (cs : List TriggerConditions) (s r : Scripts)
      → load_conditions unicode read_to_string get name cs s ≡ ok r
      → Extends s r × All (λ c. Held (script_key unicode name c.script_path) r) cs
  unfolding load_conditions
  conditions name [] s r e = (subst (Extends s) (ok-injective e) (λ k h. h), tt)
  conditions name (c ∷ cs) s r e =
      let (content, read, loaded) = >>=-intermediate (read_to_string c.script_path) _ e in
      let k = script_key unicode name c.script_path in
      let (sub, rest) = conditions name cs (insert k (c.language, content) s) r loaded in
      (
        λ j h. sub j (insert-Extends k (c.language, content) s j h),
        (sub k ((c.language, content), lookup-insert_self k (c.language, content) s), rest),
      )

  one_trigger :
      (name : String) (config : TriggerTypeConfig) (s r : Scripts)
      → load_trigger unicode read_to_string get name config s ≡ ok r
      → Extends s r
  one_trigger name (script language path arguments timeout_ms) s r e =
      let (content, read, loaded) = >>=-intermediate (read_to_string path) _ e in
      subst (Extends s) (ok-injective loaded)
        (insert-Extends (script_key unicode name path) (language, content) s)
  one_trigger name _ s r e = subst (Extends s) (ok-injective e) (λ k h. h)

  triggers :
      (name : String) (ids : List String) (s r : Scripts)
      → load_triggers unicode read_to_string get name ids s ≡ ok r
      → Extends s r
  unfolding load_triggers
  triggers name [] s r e = subst (Extends s) (ok-injective e) (λ k h. h)
  triggers name (id ∷ ids) s r e =
      let (config, found, then_loaded) =
        >>=-intermediate (ok_or (configuration_error id) (get id)) _ e in
      let (next, loaded, rest) =
        >>=-intermediate (load_trigger unicode read_to_string get name config.config s) _
          then_loaded in
      λ k h. triggers name ids next r rest k (one_trigger name config.config s next loaded k h)

  of_monitor :
      (monitor : Monitor) (s r : Scripts)
      → load_monitor unicode read_to_string get monitor s ≡ ok r
      → Extends s r × HasScripts r monitor
  unfolding load_monitor
  of_monitor monitor s r e =
      elim (Bool-cases (is_empty monitor.trigger_conditions && is_empty monitor.triggers)) [
        | inl none_are ↦ (
          subst (Extends s) (ok-injective (rw none_are at e)) (λ k h. h),
          All-of_is_empty _ monitor.trigger_conditions (ground arith),
        )
        | inr some_are ↦
            let (next, loaded, rest) =
              >>=-intermediate
                (load_conditions unicode read_to_string get monitor.name monitor.trigger_conditions
                  s)
                _ (rw some_are at e) in
            let (sub, held) = conditions monitor.name monitor.trigger_conditions s next loaded in
            let more = triggers monitor.name monitor.triggers next r rest in
            (
              λ k h. more k (sub k h),
              All-Extends (λ c. script_key unicode monitor.name c.script_path) next r
                  monitor.trigger_conditions more held,
            )
      ]

  of_all :
      (monitors : List Monitor) (s r : Scripts)
      → load_all unicode read_to_string get monitors s ≡ ok r
      → Extends s r × All (HasScripts r) monitors
  unfolding load_all
  of_all [] s r e = (subst (Extends s) (ok-injective e) (λ k h. h), tt)
  of_all (m ∷ ms) s r e =
      let (next, loaded, rest) =
        >>=-intermediate (load_monitor unicode read_to_string get m s) _ e in
      let (sub, held) = of_monitor m s next loaded in
      let (more, others) = of_all ms next r rest in
      (
        λ k h. more k (sub k h),
        (
          All-Extends (λ c. script_key unicode m.name c.script_path) next r m.trigger_conditions
              more held,
          others,
        ),
      )

  -- Once the scripts are loaded without an error, every trigger condition of every monitor has a
  -- script under its key, also after the scripts of the later monitors and of the triggers.
  pub load_scripts-HasScripts :
      (monitors : List Monitor) (scripts : Scripts)
      → load_scripts unicode read_to_string get monitors ≡ ok scripts
      → All (HasScripts scripts) monitors
  unfolding load_scripts
  load_scripts-HasScripts monitors scripts e = (of_all monitors [] scripts e).1
