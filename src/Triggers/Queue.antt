-- ===== src/Triggers/Queue.antt =====
-- owlclaw/triggers/queue: messages of a queue start the runs of an agent. This module has the messages
-- (models.py) and the settings that the trigger reads (config.py).
pub mod Idempotency
pub mod Processing
pub mod Retry
pub mod Tenant
pub mod Worker
mod Tests
use owlclaw_core.Common.{ℕ, Bool, Option, some, none, String, List}
use owlclaw_core.Common.Dict.{Dict, lookup}
use owlclaw_core.Common.Eq.{string_eq}
use owlclaw_core.Common.Result.{Result, ok, err}
use owlclaw_core.Common.Time.{Time}

-- `RawMessage`; its times are all in UTC
pub record RawMessage : Type 0 where
  pub message_id : String
  pub body : String
  pub headers : Dict String String
  pub timestamp : Time

-- what a parser (parsers.py) raises: its own `ParseError`, or an exception that it does not expect
-- (`json.loads` raises a `ValueError` for a very long integer and a `RecursionError` for deep nesting)
pub data ParseFailure : Type 0 where
  parse_failed unexpected_error : String → ParseFailure

-- `P` is the type of the parsed payloads
pub record MessageEnvelope (P : Type 0) : Type 0 where
  pub message_id : String
  pub payload : P
  pub headers : Dict String String
  pub received_at : Time
  pub source : String
  pub dedup_key : Option String
  pub event_name : Option String
  pub tenant_id : Option String

-- `MessageEnvelope.from_raw_message`, after the parser's answer, which may be an exception
unfoldable pub from_raw_message :
    {E P : Type 0} → RawMessage → String → Result E P → Result E (MessageEnvelope P)
from_raw_message raw source (err e) = err e
from_raw_message raw source (ok payload) = ok (record {
  message_id = raw.message_id;
  payload = payload;
  headers = raw.headers;
  received_at = raw.timestamp;
  source = source;
  dedup_key = lookup "x-dedup-key" raw.headers;
  event_name = lookup "x-event-name" raw.headers;
  tenant_id = lookup "x-tenant-id" raw.headers;
})

pub data AckPolicy : Type 0 where
  ack_policy nack_policy requeue_policy dlq_policy : AckPolicy

pub record QueueTriggerConfig : Type 0 where
  pub queue_name : String
  pub ack_policy_of : AckPolicy
  pub max_retries : ℕ
  pub enable_dedup : Bool
  pub idempotency_window : ℕ
  pub governance_fail_open : Bool
  pub focus : Option String
  pub default_tenant_id : String
  pub trust_tenant_header : Bool
  pub tenant_header_name : String
  pub trusted_producer_header : String
  pub trusted_producers : List String
  pub tenant_signature_header : String
  pub tenant_signature_secret_env : Option String
  pub tenant_signature_secret_envs : List String
