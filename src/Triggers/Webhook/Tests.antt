-- ===== src/Triggers/Webhook/Tests.antt =====
-- An endpoint with a bearer token, and a runtime that fails at first.
use owlclaw_core.Common.{
  Bool-cases, inl, inr, ℕ, ◌+◌, ◌-◌, ◌≡◌, ◌↔◌, refl, true, false, none, some, String, [], ◌∷◌,
  arith, leb, if◌then◌else◌,
}
use owlclaw_core.Common.Dict.{lookup, insert}
use owlclaw_core.Common.Eq.{string_eq}
use owlclaw_core.Common.Result.{Result, ok, err}
use owlclaw_core.Common.Text.{strip, is_blank, lower, is_ascii, strip_prefix, before, one_of}
use owlclaw_core.Triggers.Webhook.{EndpointConfig, WebhookEndpoint, HttpRequest, valid}
use owlclaw_core.Triggers.Webhook.Execution.{
  ExecutionTrigger, ExecutionOptions, Failure, RuntimeResult, trigger, check_idempotency,
}
use owlclaw_core.Triggers.Webhook.Execution.Once.{trigger_once}
use owlclaw_core.Triggers.Webhook.Governance.{
  GovernanceClient, Policy, validate_execution, timed_out,
}
use owlclaw_core.Triggers.Webhook.Governance.FailsClosed.{Allows, validate_execution-valid_iff}
use owlclaw_core.Triggers.Webhook.Manager.{
  Repository, create_endpoint, get_endpoint, validate_config, model_of, to_endpoint,
  sanitize_auth_method,
}
use owlclaw_core.Triggers.Webhook.Manager.Tokens.{create_endpoint-validate_auth, stored}
use owlclaw_core.Triggers.Webhook.Validator.{
  Hashes, validate_request, validate_auth, validate_format, validate_signature, normalize_headers,
}
use owlclaw_core.Triggers.Webhook.Validator.Verdict.{Authenticated, validate_request-Authenticated}

abbrev hashes : Hashes
hashes = record {
  sha256 = λ text. if is_ascii text then text else "";
  hmac = λ algorithm secret body. body;
  b64decode = λ text. none;
}

abbrev config : EndpointConfig
config = record {
  name = "orders";
  target_agent_id = "agent";
  auth_method = record {
    type = "bearer";
    token = some " key ";
    secret = none;
    algorithm = none;
    username = none;
    password = none;
  };
  execution_mode = "sync";
  timeout = none;
  retry_policy = none;
  enabled = true;
}

abbrev request : HttpRequest
request = record {
  headers = ("Authorization", "Bearer key") ∷ ("Content-Type", "text/xml; q=1") ∷ [];
  body = "<a/>";
}

abbrev endpoint : WebhookEndpoint
endpoint = stored hashes config " key " refl refl "t" "id" "random" 5

accepted : validate_request hashes (some endpoint) request ≡ ok valid
unfolding validate_request validate_auth validate_signature validate_format normalize_headers
    model_of strip is_blank lower is_ascii strip_prefix before lookup insert one_of to_endpoint
    sanitize_auth_method
accepted = refl

validate_request-Authenticated_example :
    (e : WebhookEndpoint) × (some endpoint ≡ some e)
    × (e.config.enabled ≡ true)
    × Authenticated hashes request e
    × (validate_format hashes request ≡ valid)
validate_request-Authenticated_example =
    validate_request-Authenticated hashes (some endpoint) request accepted

sha256-is_ascii : (s : String) → is_ascii (hashes.sha256 s) ≡ true
unfolding is_ascii
sha256-is_ascii s = elim (Bool-cases (is_ascii s)) [ inl h ↦ rw h h | inr h ↦ rw h refl ]

create_endpoint-validate_auth_example :
    (repository' : Repository) × (e : WebhookEndpoint) × (create_endpoint hashes.sha256 config "t"
        "id" "random" 5 []
      ≡ ok (record e { auth_token = "key" }, repository'))
    × (get_endpoint "id" repository' ≡ some e)
    × (e.config.auth_method.token ≡ none)
    × (validate_auth hashes request e ≡ ok valid)
unfolding strip is_ascii validate_config normalize_headers lower lookup insert strip_prefix is_blank
create_endpoint-validate_auth_example =
    create_endpoint-validate_auth hashes config " key " refl refl "t" "id" "random" 5 [] request
      "Bearer key" "key" refl sha256-is_ascii refl refl refl

-- a run that has a key
abbrev options : ExecutionOptions
options = record { mode = "sync"; idempotency_key = some "k"; retry_policy = none }

abbrev new_trigger : ExecutionTrigger
new_trigger = record {
  max_idempotency_entries = 1;
  max_execution_entries = 1;
  idempotency = [];
  executions = [];
}

-- the state is the number of calls that still fail
abbrev runtime : String → ℕ → Result Failure RuntimeResult × ℕ
runtime input w = (
  if leb 1 w
      then err (record { type = "ValueError"; message = "down"; is_retriable = false })
      else ok (record { execution_id = none; status = none; output = none; error = none }),
  w - 1,
)

trigger_once_example :
    trigger runtime "b" options "2" 7 (trigger runtime "a" options "1" 5 (new_trigger, 1)).1
    ≡ trigger runtime "a" options "1" 5 (new_trigger, 1)
unfolding is_blank lookup check_idempotency
trigger_once_example =
    trigger_once runtime "a" "b" options options "1" "2" "k" 5 7 new_trigger 1 refl refl
      (omega arith) refl (ground arith)

-- a policy that is late for the second question
abbrev policy : Policy String ℕ
policy = record {
  check_permission =
      λ context w. (ok (record { allowed = some true; status_code = none; reason = none }), w + 1);
  check_rate_limit = λ context w. (err timed_out, w + 1);
}

abbrev client : GovernanceClient String ℕ
client = record { policy = some policy; audit = none }

validate_execution-valid_iff_example :
    ((validate_execution client "c" 0).0 ≡ valid)
    ↔ (Allows (policy.check_permission "c" 0).0 × Allows (policy.check_rate_limit "c" 1).0)
validate_execution-valid_iff_example = validate_execution-valid_iff client "c" policy refl 0
