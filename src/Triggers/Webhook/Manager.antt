-- ===== src/Triggers/Webhook/Manager.antt =====
-- owlclaw/triggers/webhook/manager.py, over the endpoint repository in memory of
-- persistence/repositories.py. Ids, random tokens and the readings of the clock are arguments, and so
-- is the hash function.
pub mod Tokens
use owlclaw_core.Common.{
  ℕ, ◌*◌, ◌/◌, Bool, true, false, not, ◌&&◌, ◌||◌, Option, none, some, String, List, [], ◌∷◌, map,
  filter, if◌then◌else◌,
}
use owlclaw_core.Common.Dict.{Dict, lookup, insert, erase, values}
use owlclaw_core.Common.Eq.{string_eq, ◌==◌}
use owlclaw_core.Common.Int.{ℤ, pos, leb_ℤ, ltb_ℤ, to_ℕ}
use owlclaw_core.Common.Result.{Result, ok, err, ◌>>=◌, ◌>>◌}
use owlclaw_core.Common.Sorting.{ascending}
use owlclaw_core.Common.Text.{strip, is_blank}
use owlclaw_core.Common.Time.{Time}
use owlclaw_core.Triggers.Webhook.{
  RetryPolicy, AuthMethod, EndpointConfig, WebhookEndpoint, ValidationError, ValidationResult,
  valid, invalid,
}

-- `WebhookEndpointModel`: what is stored of an endpoint; the timeout is in whole seconds
pub record WebhookEndpointModel : Type 0 where
  pub id : String
  pub tenant_id : String
  pub name : String
  pub auth_token_hash : String
  pub target_agent_id : String
  pub auth_method : AuthMethod
  pub execution_mode : String
  pub timeout : Option ℕ
  pub retry_policy : Option RetryPolicy
  pub enabled : Bool
  pub created_at : Time
  pub updated_at : Time

-- `InMemoryEndpointRepository`
abbrev pub Repository : Type 0
Repository = Dict String WebhookEndpointModel

pub data Error : Type 0 where
  value_error : (message : String) → Error
  endpoint_not_found : (endpoint_id : String) → Error

-- x and x.strip(), as a test
abbrev is_given : Option String → Bool
is_given none = false
is_given (some s) = not (is_blank (strip s))

abbrev algorithm_known : Option String → Bool
algorithm_known none = false
algorithm_known (some a) = a == "sha256" || a == "sha512"

abbrev bad_config : String → ValidationResult
bad_config message =
    invalid (record { code = "INVALID_CONFIG"; message = message; status_code = none })

-- one check after another: the first that fails is the result
abbrev unless : Bool → String → ValidationResult → ValidationResult
unless failed message rest = if failed then bad_config message else rest

abbrev timeout_bad : Option ℤ → Bool
timeout_bad none = false
timeout_bad (some t) = leb_ℤ t (pos 0)

check_retry : Option RetryPolicy → ValidationResult
check_retry none = valid
check_retry (some p) = unless (leb_ℤ p.max_attempts (pos 0)) "retry max_attempts must be positive" (
    unless (ltb_ℤ p.initial_delay_ms (pos 0) || ltb_ℤ p.max_delay_ms (pos 0))
      "retry delays must be non-negative"
      (unless (ltb_ℤ p.backoff_multiplier (pos 1000000)) "backoff_multiplier must be >= 1" valid))

-- `validate_endpoint`
unfoldable pub validate_config : EndpointConfig → ValidationResult
unfolding check_retry
validate_config c =
    let auth = c.auth_method in
    unless (is_blank (strip c.name)) "name is required" (
      unless (is_blank (strip c.target_agent_id)) "target_agent_id is required" (
        unless (auth.type == "bearer" && not (is_given auth.token)) "bearer token is required" (
          unless
            (auth.type == "hmac"
              && (not (is_given auth.secret) || not (algorithm_known auth.algorithm)))
            "hmac secret and algorithm are required"
            (unless
              (auth.type == "basic"
                && (not (is_given auth.username) || not (is_given auth.password)))
              "basic auth username/password required"
              (unless (timeout_bad c.timeout) "timeout_seconds must be positive"
                (check_retry c.retry_policy))))))

-- `_sanitize_auth_method`
unfoldable pub sanitize_auth_method : AuthMethod → AuthMethod
sanitize_auth_method auth =
    if auth.type == "bearer"
    then record {
      type = auth.type;
      token = none;
      secret = none;
      algorithm = none;
      username = none;
      password = none;
    }
    else if auth.type == "hmac"
    then record auth { token = none; username = none; password = none }
    else record auth { token = none; secret = none; algorithm = none }

-- int(timeout_seconds)
abbrev pub whole_seconds : Option ℤ → Option ℕ
whole_seconds none = none
whole_seconds (some t) = some (to_ℕ t / 1000000)

abbrev in_micros : Option ℕ → Option ℤ
in_micros none = none
in_micros (some n) = some (pos (n * 1000000))

-- `_normalize_auth_method_type` and `_normalize_execution_mode`
abbrev normalize_type : String → String
normalize_type t = if t == "bearer" || t == "hmac" || t == "basic" then t else "bearer"

abbrev normalize_mode : String → String
normalize_mode m = if m == "sync" || m == "async" then m else "async"

-- `_to_endpoint`
unfoldable pub to_endpoint : String → WebhookEndpointModel → WebhookEndpoint
to_endpoint auth_token m = record {
  id = m.id;
  auth_token = auth_token;
  auth_token_hash = m.auth_token_hash;
  config = record {
    name = m.name;
    target_agent_id = m.target_agent_id;
    auth_method = record m.auth_method { type = normalize_type m.auth_method.type };
    execution_mode = normalize_mode m.execution_mode;
    timeout = in_micros m.timeout;
    retry_policy = m.retry_policy;
    enabled = m.enabled;
  };
  created_at = m.created_at;
  updated_at = m.updated_at;
  tenant_id = m.tenant_id;
}

-- the token of a new endpoint: the one that is given for bearer, else a random one
abbrev pub token_of : AuthMethod → String → String
token_of auth random = elim auth.token [
  | none ↦ random
  | some t ↦ if auth.type == "bearer" && not (is_blank t) then strip t else random
]

-- raise ValueError(validation.error.message)
check_config : EndpointConfig → Result Error (Unit {0})
check_config c = elim (validate_config c) [
  | valid ↦ ok tt
  | invalid e ↦ err (value_error e.message)
]

-- `get_endpoint`
abbrev endpoint_of : Option WebhookEndpointModel → Option WebhookEndpoint
endpoint_of none = none
endpoint_of (some m) = some (to_endpoint "" m)

unfoldable pub get_endpoint : String → Repository → Option WebhookEndpoint
get_endpoint id repository = endpoint_of (lookup id repository)

-- `delete_endpoint`
pub delete_endpoint : String → Repository → Repository
delete_endpoint id repository = erase id repository

abbrev enabled_is : Option Bool → WebhookEndpointModel → Bool
enabled_is none m = true
enabled_is (some true) m = m.enabled
enabled_is (some false) m = not m.enabled

abbrev targets : Option String → WebhookEndpoint → Bool
targets none e = true
targets (some agent) e = e.config.target_agent_id == agent

-- `list_endpoints`
pub list_endpoints :
    (tenant_id : String) (target_agent_id : Option String) (enabled : Option Bool)
    → Repository
    → List WebhookEndpoint
list_endpoints tenant_id target_agent_id enabled repository = filter (targets target_agent_id) (
    map (to_endpoint "") (
      ascending (λ m. m.created_at)
        (filter (enabled_is enabled) (filter (λ m. m.tenant_id == tenant_id) (values repository)))))

module _ (sha256 : String → String) where
  unfoldable pub model_of :
      EndpointConfig → (tenant_id endpoint_id random : String) → Time → WebhookEndpointModel
  model_of c tenant_id endpoint_id random now = record {
    id = endpoint_id;
    tenant_id = tenant_id;
    name = c.name;
    auth_token_hash = sha256 (token_of c.auth_method random);
    target_agent_id = c.target_agent_id;
    auth_method = sanitize_auth_method c.auth_method;
    execution_mode = c.execution_mode;
    timeout = whole_seconds c.timeout;
    retry_policy = c.retry_policy;
    enabled = c.enabled;
    created_at = now;
    updated_at = now;
  }

  -- `create_endpoint`
  pub create_endpoint :
      EndpointConfig
      → (tenant_id endpoint_id random : String) → Time
      → Repository
      → Result Error (WebhookEndpoint × Repository)
  unfolding model_of
  create_endpoint c tenant_id endpoint_id random now repository = do
    check_config c
    let m = model_of c tenant_id endpoint_id random now
    ok (to_endpoint (token_of c.auth_method random) m, insert endpoint_id m repository)

  -- the hash of an endpoint that is changed: a new one only for a bearer token
  abbrev new_hash : AuthMethod → String → String
  new_hash auth old = elim auth.token [
    | none ↦ old
    | some t ↦ if auth.type == "bearer" && not (is_blank t) then sha256 (strip t) else old
  ]

  update_model : EndpointConfig → Time → WebhookEndpointModel → WebhookEndpointModel
  update_model c now m = record m {
    name = c.name;
    target_agent_id = c.target_agent_id;
    execution_mode = c.execution_mode;
    timeout = whole_seconds c.timeout;
    enabled = c.enabled;
    auth_method = sanitize_auth_method c.auth_method;
    auth_token_hash = new_hash c.auth_method m.auth_token_hash;
    retry_policy = c.retry_policy;
    updated_at = now;
  }

  update_found :
      Option WebhookEndpointModel
      → String
      → EndpointConfig
      → Time
      → Repository
      → Result Error (WebhookEndpoint × Repository)
  unfolding update_model
  update_found none endpoint_id c now repository = err (endpoint_not_found endpoint_id)
  update_found (some m) endpoint_id c now repository =
      let m' = update_model c now m in ok (to_endpoint "" m', insert endpoint_id m' repository)

  -- `update_endpoint`
  pub update_endpoint :
      String → EndpointConfig → Time → Repository → Result Error (WebhookEndpoint × Repository)
  unfolding update_found
  update_endpoint endpoint_id c now repository = do
    check_config c
    update_found (lookup endpoint_id repository) endpoint_id c now repository
