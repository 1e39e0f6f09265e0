-- ===== src/Models/Trigger.antt =====
-- src/models/core/trigger.rs: the triggers of a monitor, with the retry policy of src/utils/http.rs.
-- Durations are in seconds, and an e-mail address is its text.
use openzeppelin_monitor.Prelude.{ℕ, Bool, List, Option, String}
use openzeppelin_monitor.Models.Monitor.{ScriptLanguage}
use openzeppelin_monitor.Models.Network.{SecretValue}

pub data JitterSetting : Type 0 where
  no_jitter full : JitterSetting

pub record RetryConfig : Type 0 where
  pub max_retries : ℕ  -- u32
  pub base_for_backoff : ℕ  -- u32
  pub initial_backoff : ℕ
  pub max_backoff : ℕ
  pub jitter : JitterSetting

pub record NotificationMessage : Type 0 where
  pub title : String
  pub body : String

pub data WebhookPayloadMode : Type 0 where
  template raw : WebhookPayloadMode

pub data TriggerType : Type 0 where
  slack_type email_type webhook_type telegram_type discord_type script_type : TriggerType

pub data TriggerTypeConfig : Type 0 where
  slack discord : SecretValue → NotificationMessage → RetryConfig → TriggerTypeConfig
  email :
      String
      → Option ℕ
      → SecretValue
      → SecretValue
      → NotificationMessage
      → String
      → List String
      → RetryConfig
      → TriggerTypeConfig
  webhook :
      SecretValue
      → Option String
      → Option SecretValue
      → Option (List (String × String))
      → NotificationMessage
      → WebhookPayloadMode
      → RetryConfig
      → TriggerTypeConfig
  telegram :
      SecretValue → String → Option Bool → NotificationMessage → RetryConfig → TriggerTypeConfig
  script : ScriptLanguage → String → Option (List String) → ℕ → TriggerTypeConfig

pub record Trigger : Type 0 where
  pub name : String
  pub trigger_type : TriggerType
  pub config : TriggerTypeConfig
