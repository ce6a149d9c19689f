-- ===== src/Triggers/Queue/Worker/Outcomes.antt =====
-- Every message is given back to the queue once, as its status and the policy say.
use owlclaw_core.Common.{
  true, ℕ, suc, ◌+◌, ◌≡◌, refl, ap, inl, inr, Option, none, String, [], ◌∷◌, ◌++◌, arith,
  if◌then◌else◌, Bool-cases,
}
use mathlib.Core.Path.{subst}
use Prim.Native.String.{◌++◌ as join}
use owlclaw_core.Common.Eq.{string_eq, ◌==◌}
use owlclaw_core.Common.Result.{is_ok, Result, ok, err, ok_inj}
use owlclaw_core.Triggers.Queue.{
  AckPolicy, ParseFailure, parse_failed, unexpected_error, RawMessage, MessageEnvelope,
  QueueTriggerConfig, from_raw_message,
}
use owlclaw_core.Triggers.Queue.Tenant.{resolve_tenant_id}
use owlclaw_core.Triggers.Queue.Processing.{
  Settlement, acked, sent_to_dlq, QueueTrigger, ProcessResult, Environment, rejection_settlement,
  error_settlement, or_text, record_failure, record_dedup_hit, record_retries,
}
use owlclaw_core.Triggers.Queue.Worker.{
  process_for, check_governance, settle, reject_message, is_known, trigger_agent_with_retry,
  remember, after_trigger, process_envelope, after_envelope, process_parsed, process_message,
}

-- how a message of each status is given back
pub data Handled (policy : AckPolicy) : String → Settlement → Type 0 where
  processed : Handled policy "processed" acked
  deduplicated : Handled policy "deduplicated" acked
  parse_error : (reason : String) → Handled policy "parse_error" (sent_to_dlq reason)
  governance_rejected :
      (reason : String) → Handled policy "governance_rejected" (rejection_settlement policy reason)
  processing_error :
      (reason : String) → Handled policy "processing_error" (error_settlement policy reason)

abbrev pub total : QueueTrigger → ℕ
total q = q.processed_count + q.failed_count + q.dedup_hits

-- a message that was processed is counted when its success is recorded
abbrev pub Handling : Type 0
Handling = String × Option String × String

abbrev pub uncounted : String → ℕ
uncounted status = if status == "processed" then 1 else 0

abbrev pub none_late : String → ℕ
none_late status = 0

module _ {W : Type 0} (policy : AckPolicy) (id : String) (q : QueueTrigger) where
  pub record Settles {A : Type 0} (status_of : A → String) (late : String → ℕ)
      (r : Result String A × (QueueTrigger × W)) : Type 0 where
    pub settlement : Settlement
    pub noted : r.1.0.settled ≡ q.settled ++ (id, settlement) ∷ []
    pub handled : (a : A) → r.0 ≡ ok a → Handled policy (status_of a) settlement
    pub counted : (a : A) → r.0 ≡ ok a → total r.1.0 + late (status_of a) ≡ suc (total q)

module _ {P W : Type 0} (env : Environment P W) (config : QueueTriggerConfig) where
  abbrev pub parsed_of : RawMessage → Result ParseFailure (MessageEnvelope P)
  parsed_of raw = from_raw_message raw config.queue_name (env.parse raw.body)

  -- the parser has raised nothing but a `ParseError`, and the resolution of the tenant does not raise
  abbrev pub Resolves : Result ParseFailure (MessageEnvelope P) → Type 0
  Resolves (err (parse_failed e)) = Unit
  Resolves (err (unexpected_error e)) = ⊥
  Resolves (ok envelope) = is_ok (resolve_tenant_id env.hmac env.getenv config envelope) ≡ true

module _ {P W : Type 0} (env : Environment P W) (config : QueueTriggerConfig) (raw : RawMessage)
    (q : QueueTrigger) where
  settle-ok :
      (A : Type 0) (k : Settlement) (a : A) (s : QueueTrigger × W) (a' : A)
      → (settle env config raw k a s).0 ≡ ok a'
      → a ≡ a'
  unfolding settle
  settle-ok A k a (q', w) a' h = by_cases (env.adapter k raw w).0 h
    where
      by_cases :
          (answer : Result String Unit)
          → (elim answer as (λ x. Result String A) [ ok _ ↦ ok a | err e ↦ err e ]) ≡ ok a'
          → a ≡ a'
      by_cases (ok _) h = ok_inj h
      by_cases (err e) h = cc

  settle-Settles :
      (A : Type 0) (status_of : A → String) (late : String → ℕ) (k : Settlement) (a : A)
      (q' : QueueTrigger) (w : W)
      → Handled config.ack_policy_of (status_of a) k
      → q'.settled ≡ q.settled
      → total q' + late (status_of a) ≡ suc (total q)
      → Settles config.ack_policy_of raw.message_id q status_of late
          (settle env config raw k a (q', w))
  unfolding settle
  settle-Settles A status_of late k a q' w h same count = record {
    settlement = k;
    noted = ap (λ xs. xs ++ (raw.message_id, k) ∷ []) same;
    handled = λ a' r.
        subst (λ x. Handled config.ack_policy_of (status_of x) k) (settle-ok A k a (q', w) a' r) h;
    counted = λ a' r.
        subst (λ x. total q' + late (status_of x) ≡ suc (total q)) (settle-ok A k a (q', w) a' r)
          count;
  }

  after_trigger-Settles :
      (envelope : MessageEnvelope P) (trace_id tenant_id : String)
      (r : ℕ × (Result String (Option String) × W))
      → Settles config.ack_policy_of raw.message_id q
          (λ (r : Handling). r.0)
          uncounted
          (after_trigger env config raw envelope trace_id tenant_id r.1.0
            (record_retries r.0 q, r.1.1))
  unfolding after_trigger
  after_trigger-Settles envelope trace_id tenant_id (n, (ok run_id, w)) =
      settle-Settles Handling (λ r. r.0) uncounted acked ("processed", run_id, tenant_id)
        (record_retries n q) (remember env config raw envelope trace_id w) processed refl
        (omega arith)
  after_trigger-Settles envelope trace_id tenant_id (n, (err e, w)) =
      settle-Settles Handling (λ r. r.0) uncounted (error_settlement config.ack_policy_of e)
        ("processing_error", none, tenant_id) (record_failure (record_retries n q)) w
        (processing_error e) refl (omega arith)

  process_for-Settles :
      (tenant_id : String) (envelope : MessageEnvelope P) (trace_id : String) (w : W)
      → Settles config.ack_policy_of raw.message_id q
          (λ (r : Handling). r.0)
          uncounted
          (process_for env config raw (ok tenant_id) envelope trace_id (q, w))
  unfolding process_for reject_message
  process_for-Settles tenant_id envelope trace_id w =
      let (decision, w₁) = check_governance env config envelope tenant_id w in
      let (known, w₂) = is_known env config raw envelope w₁ in
      elim (Bool-cases decision.allowed) [
        | inr refused ↦ rw refused (
            settle-Settles Handling (λ (r : Handling). r.0) uncounted
              (rejection_settlement config.ack_policy_of
                (or_text decision.reason "governance_rejected"))
              ("governance_rejected", none, tenant_id) (record_failure q)
              (env.record_rejection envelope tenant_id decision trace_id w₁)
              (governance_rejected (or_text decision.reason "governance_rejected")) refl
              (omega arith))
        | inl allowed ↦ elim (Bool-cases known) [
          | inl old ↦
              rw (allowed, old)
                (settle-Settles Handling (λ r. r.0) uncounted acked
                  ("deduplicated", none, tenant_id) (record_dedup_hit q) w₂ deduplicated refl
                  (omega arith))
          | inr new ↦
              rw (allowed, new)
                (after_trigger-Settles envelope trace_id tenant_id
                  (trigger_agent_with_retry env config raw envelope trace_id tenant_id w₂))
        ]
      ]

  process_envelope-Settles :
      (envelope : MessageEnvelope P) (trace_id : String) (w : W)
      → is_ok (resolve_tenant_id env.hmac env.getenv config envelope) ≡ true
      → Settles config.ack_policy_of raw.message_id q
          (λ (r : Handling). r.0)
          uncounted
          (process_envelope env config raw envelope trace_id (q, w))
  unfolding process_envelope
  process_envelope-Settles envelope trace_id w h =
      by_cases (resolve_tenant_id env.hmac env.getenv config envelope) h
    where
      by_cases :
          (resolved : Result String String)
          → is_ok resolved ≡ true
          → Settles config.ack_policy_of raw.message_id q
              (λ (r : Handling). r.0)
              uncounted
              (process_for env config raw resolved envelope trace_id (q, w))
      by_cases (ok tenant_id) found = process_for-Settles tenant_id envelope trace_id w
      by_cases (err e) found = cc

  after_envelope-Settles :
      (envelope : MessageEnvelope P) (trace_id : String) (duration_ms : ℕ)
      (r : Result String Handling × (QueueTrigger × W))
      → Settles config.ack_policy_of raw.message_id q (λ (r : Handling). r.0) uncounted r
      → Settles config.ack_policy_of raw.message_id q
          (λ (p : ProcessResult). p.status)
          none_late
          (after_envelope env config raw envelope trace_id duration_ms r)
  unfolding after_envelope
  after_envelope-Settles envelope trace_id duration_ms (err e, after) s = record {
    settlement = s.settlement;
    noted = s.noted;
    handled = λ a h. cc;
    counted = λ a h. cc;
  }
  after_envelope-Settles envelope trace_id duration_ms (ok (status, run_id, tenant_id), (q', w)) s =
      elim (Bool-cases (status == "processed")) [
        | inl done ↦ rw done (record {
          settlement = s.settlement;
          noted = s.noted;
          handled = λ a h.
              subst (λ (p : ProcessResult). Handled config.ack_policy_of p.status s.settlement)
                (ok_inj h) (s.handled (status, run_id, tenant_id) refl);
          counted = λ a h.
              omega (arith, rw (done, uncounted) at (s.counted (status, run_id, tenant_id) refl));
        })
        | inr other ↦ rw other (record {
          settlement = s.settlement;
          noted = s.noted;
          handled = λ a h.
              subst (λ (p : ProcessResult). Handled config.ack_policy_of p.status s.settlement)
                (ok_inj h) (s.handled (status, run_id, tenant_id) refl);
          counted = λ a h.
              omega (arith, rw (other, uncounted) at (s.counted (status, run_id, tenant_id) refl));
        })
      ]

  pub process_message-Settles :
      (duration_ms : ℕ) (w : W)
      → Resolves env config (parsed_of env config raw)
      → Settles config.ack_policy_of raw.message_id q
          (λ (p : ProcessResult). p.status)
          none_late
          (process_message env config raw duration_ms (q, w))
  unfolding process_message
  process_message-Settles duration_ms w resolves =
      by_cases (from_raw_message raw config.queue_name (env.parse raw.body)) resolves
    where
      by_cases :
          (parsed : Result ParseFailure (MessageEnvelope P))
          → Resolves env config parsed
          → Settles config.ack_policy_of raw.message_id q
              (λ (p : ProcessResult). p.status)
              none_late
              (process_parsed env config raw parsed duration_ms (q, w))
      by_cases (err (unexpected_error e)) resolved = absurd resolved
      by_cases (err (parse_failed e)) resolved =
          settle-Settles ProcessResult (λ p. p.status) none_late (sent_to_dlq e) _
            (record_failure q) w (parse_error e) refl (omega arith)
      by_cases (ok envelope) resolved =
          after_envelope-Settles envelope (join "queue-" raw.message_id) duration_ms _
            (process_envelope-Settles envelope (join "queue-" raw.message_id) w resolved)
