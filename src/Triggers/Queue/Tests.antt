-- ===== src/Triggers/Queue/Tests.antt =====
-- A trigger with a runtime that fails at first and an adapter that sometimes raises.
use owlclaw_core.Common.{
  ℕ, ◌-◌, ◌≡◌, ◌⊎◌, refl, true, false, none, some, String, [], ◌∷◌, leb, eqb, if◌then◌else◌,
}
use owlclaw_core.Common.Dict.{lookup}
use owlclaw_core.Common.Eq.{string_eq}
use owlclaw_core.Common.Result.{Result, ok, err}
use owlclaw_core.Common.Text.{strip, lower, is_blank, is_ascii}
use owlclaw_core.Triggers.Queue.{
  parse_failed, unexpected_error, from_raw_message, RawMessage, MessageEnvelope, QueueTriggerConfig,
  nack_policy,
}
use owlclaw_core.Triggers.Queue.Idempotency.{Store}
use owlclaw_core.Triggers.Queue.Retry.{retry}
use owlclaw_core.Triggers.Queue.Retry.Attempts.{FirstSuccess, retry-FirstSuccess}
use owlclaw_core.Triggers.Queue.Tenant.{signature_secret_env_names, or_else, resolve_tenant_id}
use owlclaw_core.Triggers.Queue.Tenant.Trust.{Believed, resolve_tenant_id-Believed}
use owlclaw_core.Triggers.Queue.Processing.{
  record_failure, Environment, QueueTrigger, ProcessResult,
}
use owlclaw_core.Triggers.Queue.Worker.{consume_one, process_message, consume_all}
use owlclaw_core.Triggers.Queue.Worker.Outcomes.{Settles, none_late, process_message-Settles}
use owlclaw_core.Triggers.Queue.Worker.Consuming.{settled_ids, consume_all-settled}

-- the state is the number of calls that still fail
abbrev failing : ℕ → Result String ℕ × ℕ
failing w = (if leb 1 w then err "down" else ok 7, w - 1)

retry-FirstSuccess_example : FirstSuccess failing 3 2 (retry failing 3 2)
retry-FirstSuccess_example = retry-FirstSuccess failing 3 2

two_retries : retry failing 3 2 ≡ (2, (ok 7, 0))
unfolding retry
two_retries = refl

abbrev config : QueueTriggerConfig
config = record {
  queue_name = "q";
  ack_policy_of = nack_policy;
  max_retries = 1;
  enable_dedup = true;
  idempotency_window = 60;
  governance_fail_open = false;
  focus = none;
  default_tenant_id = "default";
  trust_tenant_header = true;
  tenant_header_name = "x-tenant-id";
  trusted_producer_header = "x-producer-id";
  trusted_producers = "p" ∷ [];
  tenant_signature_header = "x-tenant-signature";
  tenant_signature_secret_env = none;
  tenant_signature_secret_envs = [];
}

abbrev environment : Environment String ℕ
environment = record {
  parse = λ body. if is_blank body then err (parse_failed "empty") else ok body;
  hmac = λ secret text. text;
  getenv = λ name. none;
  adapter = λ k raw w. (if eqb w 5 then err "lost" else ok tt, w);
  check_permission = none;
  trigger_event =
      some
        (λ envelope event focus trace tenant w. (if leb 1 w then err "down" else ok none, w - 1));
  key_exists = none;
  remember_key = λ key trace ttl w. w;
  record_rejection = λ envelope tenant decision trace w. w;
  record_success_execution = λ envelope tenant trace duration run w. w;
}

abbrev message : String → RawMessage
message id = record {
  message_id = id;
  body = "hello";
  headers = ("x-tenant-id", "acme") ∷ ("x-producer-id", "p") ∷ [];
  timestamp = 1;
}

abbrev new_trigger : QueueTrigger
new_trigger = record {
  processed_count = 0;
  failed_count = 0;
  dedup_hits = 0;
  metrics = record {
    processed_total = 0;
    failed_total = 0;
    retries_total = 0;
    dedup_hits_total = 0;
    latency_sum_ms = 0;
    latency_count = 0;
  };
  settled = [];
}

process_message-Settles_example :
    Settles nack_policy "m1" new_trigger
      (λ (p : ProcessResult). p.status)
      none_late
      (process_message environment config (message "m1") 4 (new_trigger, 2))
unfolding from_raw_message resolve_tenant_id signature_secret_env_names strip lower is_blank
    is_ascii lookup
process_message-Settles_example =
    process_message-Settles environment config (message "m1") new_trigger 4 2 refl

consume_all-settled_example :
    settled_ids
      (consume_all environment config
        ((message "m1", 4) ∷ (message "m2", 5) ∷ [])
        (new_trigger, 7)).0
    ≡ "m1" ∷ "m2" ∷ []
unfolding from_raw_message resolve_tenant_id signature_secret_env_names strip lower is_blank
    is_ascii lookup
consume_all-settled_example =
    consume_all-settled environment config ((message "m1", 4) ∷ (message "m2", 5) ∷ []) new_trigger
      7 (refl, (refl, tt))

abbrev envelope : MessageEnvelope String
envelope = record {
  message_id = "m1";
  payload = "hello";
  headers = (message "m1").headers;
  received_at = 1;
  source = "q";
  dedup_key = none;
  event_name = none;
  tenant_id = some "acme";
}

resolve_tenant_id-Believed_example :
    ("acme" ≡ or_else (strip "default") "default")
    ⊎ Believed (λ secret text. text) (λ name. none) config envelope "acme"
unfolding resolve_tenant_id signature_secret_env_names strip lower is_blank lookup
resolve_tenant_id-Believed_example =
    resolve_tenant_id-Believed (λ secret text. text) (λ name. none) config envelope "acme" refl

-- a signature that is not ASCII, which cannot be compared
abbrev signed_config : QueueTriggerConfig
signed_config = record config { tenant_signature_secret_env = some "SECRET" }

abbrev signed_environment : Environment String ℕ
signed_environment = record environment { getenv = λ name. some "key" }

abbrev signed_message : RawMessage
signed_message = record (message "m3") {
  headers = ("x-tenant-signature", "é") ∷ (message "m3").headers;
}

-- the message is counted as failed, but the adapter is not called
bad_signature_unsettled :
    consume_one signed_environment signed_config signed_message 4 (new_trigger, 2)
    ≡ (record_failure new_trigger, 2)
unfolding consume_one from_raw_message resolve_tenant_id signature_secret_env_names strip lower
    is_blank is_ascii lookup
bad_signature_unsettled = refl

-- and so it is if the parser raises something else than a `ParseError`
deep_nesting_unsettled :
    consume_one
      (record environment {
        parse = λ body. err (unexpected_error "maximum recursion depth exceeded");
      })
      config
      (message "m4")
      4
      (new_trigger, 2)
    ≡ (record_failure new_trigger, 2)
unfolding consume_one from_raw_message
deep_nesting_unsettled = refl

abbrev no_keys : Store ℕ
no_keys = []
