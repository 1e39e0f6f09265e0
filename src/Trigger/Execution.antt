-- ===== src/Trigger/Execution.antt =====
-- When an execution of triggers (src/services/trigger/service.rs) and the check of a script
-- (src/services/trigger/script/validation.rs) end well.
use openzeppelin_monitor.Prelude.{
  ◌≡◌, refl, ap, ◌∙◌, ℕ, Bool, true, false, not, ◌&&◌, List, [], ◌∷◌, Option, String, is_empty, all,
  ◌==◌, if◌then◌else◌,
}
use openzeppelin_monitor.Prelude.Result.{Result, ok, err, is_ok, ensure, ◌>>◌}
use openzeppelin_monitor.Models.Block.{unwrap_or}
use openzeppelin_monitor.Models.Monitor.{ScriptLanguage}
use openzeppelin_monitor.Models.Trigger.{Trigger}
use openzeppelin_monitor.Repositories.{Files}
use openzeppelin_monitor.Trigger.{
  TriggerError, ScriptConfigError, path_missing, wrong_extension, zero_timeout, execute,
  execute_one, errors_of, results_of, validate_script_config, extension_matches,
}

module _ (get : String → Option Trigger) (notify : Trigger → Result TriggerError (Unit {0})) where
  is_empty-cons :
      (r : Result TriggerError (Unit {0})) (rest : List (Result TriggerError (Unit {0})))
      → is_empty (errors_of (r ∷ rest)) ≡ is_ok r && is_empty (errors_of rest)
  is_empty-cons (ok u) rest = refl
  is_empty-cons (err e) rest = refl

  is_empty-errors_of :
      (slugs : List String)
      → is_empty (errors_of (results_of get notify slugs))
        ≡ all (λ (slug : String). is_ok (execute_one get notify slug)) slugs
  is_empty-errors_of [] = refl
  is_empty-errors_of (slug ∷ slugs) =
      is_empty-cons (execute_one get notify slug) (results_of get notify slugs)
      ∙ ap (λ b. is_ok (execute_one get notify slug) && b) (is_empty-errors_of slugs)

  is_ok-if : (b : Bool) (e : TriggerError) → is_ok {A = Unit {0}} (if b then ok tt else err e) ≡ b
  is_ok-if true e = refl
  is_ok-if false e = refl

  -- An execution ends without an error exactly if each of the triggers is known and its notification
  -- is sent; one that fails does not keep the others from being tried.
  pub is_ok-execute :
      (slugs : List String)
      → is_ok (execute get notify slugs)
        ≡ all (λ (slug : String). is_ok (execute_one get notify slug)) slugs
  unfolding execute
  is_ok-execute slugs = is_ok-if _ _ ∙ is_empty-errors_of slugs

ensured :
    (a b c : Bool) (e f g : ScriptConfigError)
    → is_ok {A = Unit {0}} (do ensure a e; ensure b f; ensure c g; ok tt) ≡ a && (b && c)
ensured false b c e f g = refl
ensured true false c e f g = refl
ensured true true false e f g = refl
ensured true true true e f g = refl

-- A script is accepted exactly if its file is there, has the extension of its language, and is given
-- a time above zero.
pub is_ok-validate_script_config :
    (files : Files) (path : String) (language : ScriptLanguage) (timeout_ms : ℕ)
    → is_ok (validate_script_config files path language timeout_ms)
      ≡ files.exists path
        && (extension_matches language (unwrap_or "" (files.extension path))
            && not (timeout_ms == 0))
unfolding validate_script_config
is_ok-validate_script_config files path language timeout_ms =
    ensured (files.exists path) (extension_matches language (unwrap_or "" (files.extension path)))
      (not (timeout_ms == 0)) path_missing wrong_extension zero_timeout
