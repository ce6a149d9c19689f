-- ===== src/Triggers/Queue/Processing.antt =====
-- owlclaw/triggers/queue/trigger.py: the state of the trigger, and how a message is given
-- back to the queue. The adapter, the runtime, the
-- governance, the store of handled keys and the ledger are not part of this code: they are functions
-- on a state `W` of their own, which return or raise. An error stands for its redacted text. The
-- calls of the adapter are noted in `settled`, the newest last.
use owlclaw_core.Common.{
  ℕ, suc, ◌+◌, Bool, true, false, Option, none, some, String, List, if◌then◌else◌,
}
use owlclaw_core.Common.Eq.{string_eq}
use owlclaw_core.Common.Result.{Result}
use owlclaw_core.Common.Text.{is_blank}
use owlclaw_core.Triggers.Queue.{
  AckPolicy, ParseFailure, RawMessage, MessageEnvelope, ack_policy, nack_policy, requeue_policy,
  dlq_policy,
}

-- how a message is given back to the queue
pub data Settlement : Type 0 where
  acked : Settlement
  nacked : (requeue : Bool) → Settlement
  sent_to_dlq : (reason : String) → Settlement

-- `QueueTriggerMetrics`, without the copies that are kept for Prometheus
pub record QueueTriggerMetrics : Type 0 where
  pub processed_total : ℕ
  pub failed_total : ℕ
  pub retries_total : ℕ
  pub dedup_hits_total : ℕ
  pub latency_sum_ms : ℕ
  pub latency_count : ℕ

pub record QueueTrigger : Type 0 where
  pub processed_count : ℕ
  pub failed_count : ℕ
  pub dedup_hits : ℕ
  pub metrics : QueueTriggerMetrics
  pub settled : List (String × Settlement)

pub record GovernanceDecision : Type 0 where
  pub allowed : Bool
  pub reason : String

-- what `check_permission` returns: a bool, or a dict or an object with fields that may be missing
pub data Permission : Type 0 where
  permission : Bool → Permission
  permission_fields : (allowed : Option Bool) (reason : Option String) → Permission

pub record ProcessResult : Type 0 where
  pub message_id : String
  pub status : String
  pub trace_id : String
  pub detail : Option String

pub record Environment (P W : Type 0) : Type 0 where
  pub parse : String → Result ParseFailure P
  pub hmac : String → String → String
  pub getenv : String → Option String
  pub adapter : Settlement → RawMessage → W → Result String Unit × W
  -- tenant and event name
  pub check_permission :
      Option (MessageEnvelope P → String → String → W → Result String Permission × W)
  -- event name, focus, trace and tenant; the run's id is what `_extract_agent_run_id` reads
  pub trigger_event : Option (
      MessageEnvelope P
      → String
      → Option String
      → String
      → String
      → W
      → Result String (Option String) × W)
  -- a store of keys: is it there, and remember it for a while
  pub key_exists : Option (String → W → Result String Bool × W)
  pub remember_key : String → (trace_id : String) → (ttl : ℕ) → W → W
  -- the ledger's exceptions are caught
  pub record_rejection : MessageEnvelope P → String → GovernanceDecision → String → W → W
  pub record_success_execution : MessageEnvelope P → String → String → ℕ → Option String → W → W

abbrev pub record_failure : QueueTrigger → QueueTrigger
record_failure q = record q {
  failed_count = suc q.failed_count;
  metrics = record q.metrics { failed_total = suc q.metrics.failed_total };
}

abbrev pub record_dedup_hit : QueueTrigger → QueueTrigger
record_dedup_hit q = record q {
  dedup_hits = suc q.dedup_hits;
  metrics = record q.metrics { dedup_hits_total = suc q.metrics.dedup_hits_total };
}

abbrev pub record_retries : ℕ → QueueTrigger → QueueTrigger
record_retries n q = record q {
  metrics = record q.metrics { retries_total = q.metrics.retries_total + n };
}

abbrev pub record_success : ℕ → QueueTrigger → QueueTrigger
record_success duration_ms q = record q {
  processed_count = suc q.processed_count;
  metrics = record q.metrics {
    processed_total = suc q.metrics.processed_total;
    latency_sum_ms = q.metrics.latency_sum_ms + duration_ms;
    latency_count = suc q.metrics.latency_count;
  };
}

abbrev pub or_text : String → String → String
or_text a b = if is_blank a then b else a

abbrev pub event_of : {P : Type 0} → MessageEnvelope P → String
event_of envelope = elim envelope.event_name [
  | none ↦ "queue_message"
  | some e ↦ or_text e "queue_message"
]

-- envelope.dedup_key or envelope.message_id
abbrev pub dedup_key_of : {P : Type 0} → MessageEnvelope P → String
dedup_key_of envelope = elim envelope.dedup_key [
  | none ↦ envelope.message_id
  | some k ↦ or_text k envelope.message_id
]

-- the branches of `_handle_governance_rejection` and `_handle_processing_error`
abbrev pub rejection_settlement : AckPolicy → String → Settlement
rejection_settlement dlq_policy reason = sent_to_dlq reason
rejection_settlement requeue_policy reason = nacked true
rejection_settlement nack_policy reason = nacked false
rejection_settlement ack_policy reason = acked

abbrev pub error_settlement : AckPolicy → String → Settlement
error_settlement ack_policy reason = acked
error_settlement nack_policy reason = nacked false
error_settlement requeue_policy reason = nacked true
error_settlement dlq_policy reason = sent_to_dlq reason

unfoldable pub read_permission : Permission → GovernanceDecision
read_permission (permission b) = record { allowed = b; reason = "" }
read_permission (permission_fields allowed reason) = record {
  allowed = elim allowed [ none ↦ true | some b ↦ b ];
  reason = elim reason [ none ↦ "" | some r ↦ r ];
}
