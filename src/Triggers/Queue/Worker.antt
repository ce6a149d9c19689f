-- ===== src/Triggers/Queue/Worker.antt =====
-- owlclaw/triggers/queue/trigger.py: what a worker does with the messages that it consumes.
pub mod Outcomes
pub mod Consuming
use owlclaw_core.Common.{
  ℕ, suc, ◌+◌, Bool, true, false, not, ◌&&◌, Option, none, some, String, List, [], ◌∷◌, ◌++◌,
  if◌then◌else◌,
}
use Prim.Native.String.{◌++◌ as join}
use owlclaw_core.Common.Eq.{string_eq, ◌==◌}
use owlclaw_core.Common.Result.{Result, ok, err}
use owlclaw_core.Common.Text.{is_blank}
use owlclaw_core.Triggers.Queue.{
  AckPolicy, ParseFailure, parse_failed, unexpected_error, RawMessage, MessageEnvelope,
  QueueTriggerConfig, from_raw_message, ack_policy, nack_policy, requeue_policy, dlq_policy,
}
use owlclaw_core.Triggers.Queue.Retry.{retry}
use owlclaw_core.Triggers.Queue.Tenant.{resolve_tenant_id}
use owlclaw_core.Triggers.Queue.Processing.{
  Settlement, acked, nacked, sent_to_dlq, QueueTriggerMetrics, QueueTrigger, GovernanceDecision,
  Permission, permission, permission_fields, ProcessResult, Environment, record_failure,
  record_dedup_hit, record_retries, record_success, or_text, event_of, dedup_key_of,
  rejection_settlement, error_settlement, read_permission,
}

module _ {P W : Type 0} (env : Environment P W) (config : QueueTriggerConfig) where
  -- `_check_governance`
  check_governance : MessageEnvelope P → String → W → GovernanceDecision × W
  unfolding read_permission
  check_governance envelope tenant_id w = elim env.check_permission [
    | none ↦ (record { allowed = true; reason = "" }, w)
    | some check ↦
        let (answer, w') = check envelope tenant_id (event_of envelope) w in
        (
          elim answer [
            | err _ ↦ record {
              allowed = config.governance_fail_open;
              reason = "governance_unavailable";
            }
            | ok p ↦ read_permission p
          ],
          w',
        )
  ]

  module _ (raw : RawMessage) where
    -- a call of the adapter, which may raise, and then the value that is returned
    settle : {A : Type 0} → Settlement → A → QueueTrigger × W → Result String A × (QueueTrigger × W)
    settle k a (q, w) =
        let (answer, w') = env.adapter k raw w in
        (
          elim answer [ ok _ ↦ ok a | err e ↦ err e ],
          (record q { settled = q.settled ++ (raw.message_id, k) ∷ [] }, w'),
        )

    -- `_handle_governance_rejection` and the return after it
    reject_message :
        MessageEnvelope P
        → String
        → GovernanceDecision
        → String
        → QueueTrigger × W
        → Result String (String × Option String × String) × (QueueTrigger × W)
    unfolding settle
    reject_message envelope tenant_id decision trace_id (q, w) =
        settle
          (rejection_settlement config.ack_policy_of
            (or_text decision.reason "governance_rejected"))
          ("governance_rejected", none, tenant_id)
          (record_failure q, env.record_rejection envelope tenant_id decision trace_id w)

    -- if self.config.enable_dedup and self.idempotency_store is not None
    abbrev dedup_store : Option (String → W → Result String Bool × W)
    dedup_store = if config.enable_dedup then env.key_exists else none

    is_known : MessageEnvelope P → W → Bool × W
    is_known envelope w = elim dedup_store [
      | none ↦ (false, w)
      | some key_exists ↦
          let (answer, w') = key_exists (dedup_key_of envelope) w in
          (elim answer [ ok b ↦ b | err _ ↦ false ], w')
    ]

    -- `_trigger_agent_with_retry`: the number of retries, and how it ended
    trigger_agent_with_retry :
        MessageEnvelope P → String → String → W → ℕ × (Result String (Option String) × W)
    trigger_agent_with_retry envelope trace_id tenant_id w = elim env.trigger_event [
      | none ↦ (0, (ok none, w))
      | some f ↦
          retry (f envelope (event_of envelope) config.focus trace_id tenant_id) config.max_retries
            w
    ]

    remember : MessageEnvelope P → String → W → W
    remember envelope trace_id w = elim dedup_store [
      | none ↦ w
      | some _ ↦ env.remember_key (dedup_key_of envelope) trace_id config.idempotency_window w
    ]

    -- after the attempts
    after_trigger :
        MessageEnvelope P
        → String
        → String
        → Result String (Option String)
        → QueueTrigger × W
        → Result String (String × Option String × String) × (QueueTrigger × W)
    unfolding settle remember
    after_trigger envelope trace_id tenant_id (ok run_id) (q, w) =
        settle acked ("processed", run_id, tenant_id) (q, remember envelope trace_id w)
    after_trigger envelope trace_id tenant_id (err e) (q, w) =
        settle (error_settlement config.ack_policy_of e) ("processing_error", none, tenant_id)
          (record_failure q, w)

    -- `_process_envelope` after the tenant is resolved, which may raise
    process_for :
        Result String String
        → MessageEnvelope P
        → String
        → QueueTrigger × W
        → Result String (String × Option String × String) × (QueueTrigger × W)
    unfolding check_governance reject_message is_known trigger_agent_with_retry after_trigger settle
    process_for (err e) envelope trace_id s = (err e, s)
    process_for (ok tenant_id) envelope trace_id (q, w) =
        let (decision, w₁) = check_governance envelope tenant_id w in
        if not decision.allowed
        then reject_message envelope tenant_id decision trace_id (q, w₁)
        else let (known, w₂) = is_known envelope w₁ in
          if known
          then settle acked ("deduplicated", none, tenant_id) (record_dedup_hit q, w₂)
          else let (retries, (answer, w₃)) =
              trigger_agent_with_retry envelope trace_id tenant_id w₂ in
            after_trigger envelope trace_id tenant_id answer (record_retries retries q, w₃)

    -- `_process_envelope`
    process_envelope :
        MessageEnvelope P
        → String
        → QueueTrigger × W
        → Result String (String × Option String × String) × (QueueTrigger × W)
    unfolding process_for
    process_envelope envelope trace_id s =
        process_for (resolve_tenant_id env.hmac env.getenv config envelope) envelope trace_id s

    abbrev result_of : String → String → Option String → ProcessResult
    result_of trace_id status detail = record {
      message_id = raw.message_id;
      status = status;
      trace_id = trace_id;
      detail = detail;
    }

    -- `_process_message` after `_process_envelope`; `duration_ms` is the time that it took
    after_envelope :
        MessageEnvelope P
        → String
        → (duration_ms : ℕ) → Result String (String × Option String × String) × (QueueTrigger × W)
        → Result String ProcessResult × (QueueTrigger × W)
    after_envelope envelope trace_id duration_ms (err e, after) = (err e, after)
    after_envelope envelope trace_id duration_ms (ok (status, run_id, tenant_id), (q, w)) =
        if status == "processed"
        then (
          ok (result_of trace_id status none),
          (
            record_success duration_ms q,
            env.record_success_execution envelope tenant_id trace_id duration_ms run_id w,
          ),
        )
        else (ok (result_of trace_id status none), (q, w))

    -- only a `ParseError` is caught here
    process_parsed :
        Result ParseFailure (MessageEnvelope P)
        → (duration_ms : ℕ) → QueueTrigger × W
        → Result String ProcessResult × (QueueTrigger × W)
    unfolding process_envelope after_envelope settle
    process_parsed (err (unexpected_error e)) duration_ms s = (err e, s)
    process_parsed (err (parse_failed e)) duration_ms (q, w) =
        settle (sent_to_dlq e) (result_of (join "queue-" raw.message_id) "parse_error" (some e))
          (record_failure q, w)
    process_parsed (ok envelope) duration_ms s =
        after_envelope envelope (join "queue-" raw.message_id) duration_ms
          (process_envelope envelope (join "queue-" raw.message_id) s)

    -- `_process_message`
    pub process_message :
        (duration_ms : ℕ) → QueueTrigger × W → Result String ProcessResult × (QueueTrigger × W)
    unfolding process_parsed
    process_message duration_ms s =
        process_parsed (from_raw_message raw config.queue_name (env.parse raw.body)) duration_ms s

    -- the body of the loop of `_consume_loop`, while the trigger runs and is not paused
    consume_after : Result String ProcessResult × (QueueTrigger × W) → QueueTrigger × W
    consume_after (ok _, after) = after
    consume_after (err _, (q, w)) = (record_failure q, w)

    unfoldable pub consume_one : (duration_ms : ℕ) → QueueTrigger × W → QueueTrigger × W
    unfolding process_message consume_after
    consume_one duration_ms s = consume_after (process_message duration_ms s)

  -- `_consume_loop` over the messages that the adapter yields
  pub consume_all : List (RawMessage × ℕ) → QueueTrigger × W → QueueTrigger × W
  unfolding consume_one
  consume_all [] s = s
  consume_all ((raw, duration_ms) ∷ messages) s =
      consume_all messages (consume_one raw duration_ms s)
