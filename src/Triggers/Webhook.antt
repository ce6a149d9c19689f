-- ===== src/Triggers/Webhook.antt =====
-- owlclaw/triggers/webhook: HTTP requests of other systems start the runs of an agent. This module has
-- the data of types.py.
pub mod Validator
pub mod Execution
pub mod Governance
pub mod Manager
mod Tests
use owlclaw_core.Common.{ℕ, Bool, Option, none, some, String, List, [], ◌∷◌}
use owlclaw_core.Common.Dict.{Dict}
use owlclaw_core.Common.Int.{ℤ}
use owlclaw_core.Common.Time.{Time}

-- `RetryPolicy`; the multiplier is in millionths
pub record RetryPolicy : Type 0 where
  pub max_attempts : ℤ
  pub initial_delay_ms : ℤ
  pub max_delay_ms : ℤ
  pub backoff_multiplier : ℤ

-- `AuthMethod`
pub record AuthMethod : Type 0 where
  pub type : String
  pub token : Option String
  pub secret : Option String
  pub algorithm : Option String
  pub username : Option String
  pub password : Option String

-- `EndpointConfig`, less the id of a transformation rule; the timeout is in microseconds
pub record EndpointConfig : Type 0 where
  pub name : String
  pub target_agent_id : String
  pub auth_method : AuthMethod
  pub execution_mode : String
  pub timeout : Option ℤ
  pub retry_policy : Option RetryPolicy
  pub enabled : Bool

-- `WebhookEndpoint`
pub record WebhookEndpoint : Type 0 where
  pub id : String
  pub auth_token : String
  pub auth_token_hash : String
  pub config : EndpointConfig
  pub created_at : Time
  pub updated_at : Time
  pub tenant_id : String

-- `ValidationError`
pub record ValidationError : Type 0 where
  pub code : String
  pub message : String
  pub status_code : Option ℕ

-- `ValidationResult`
pub data ValidationResult : Type 0 where
  valid : ValidationResult
  invalid : ValidationError → ValidationResult

abbrev pub failing : String → String → ℕ → ValidationResult
failing code message status =
    invalid (record { code = code; message = message; status_code = some status })

-- `HttpRequest`
pub record HttpRequest : Type 0 where
  pub headers : Dict String String
  pub body : String
