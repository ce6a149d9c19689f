-- ===== src/Triggers/Webhook/Manager/Tokens.antt =====
-- An endpoint that was created with a bearer token, and the requests that it then accepts.
use owlclaw_core.Common.{
  ◌≡◌, refl, ap, ◌∙◌, inl, inr, true, false, none, some, String, Bool-cases, if◌then◌else◌,
}
use owlclaw_core.Common.Dict.{insert, lookup-insert_self}
use owlclaw_core.Common.Eq.{string_eq, ◌==◌}
use owlclaw_core.Common.Result.{ok}
use owlclaw_core.Common.Text.{strip, is_blank, is_ascii, strip_prefix}
use owlclaw_core.Common.Time.{Time}
use owlclaw_core.Triggers.Webhook.{
  EndpointConfig, WebhookEndpoint, ValidationResult, valid, failing, HttpRequest,
}
use owlclaw_core.Triggers.Webhook.Manager.{
  Repository, validate_config, sanitize_auth_method, to_endpoint, check_config, token_of,
  get_endpoint, model_of, create_endpoint,
}
use owlclaw_core.Triggers.Webhook.Validator.{Hashes, validate_auth}
use owlclaw_core.Triggers.Webhook.Validator.Verdict.{header_of, validate_auth-bearer}

is_blank-strip : (t : String) → is_blank (strip t) ≡ false → is_blank t ≡ false
unfolding is_blank strip
is_blank-strip String.[] h = h
is_blank-strip (String.◌∷◌ c s) h = refl

check_config-valid : (c : EndpointConfig) → validate_config c ≡ valid → check_config c ≡ ok tt
unfolding check_config
check_config-valid c is = rw (is, check_config) refl

module _ (h : Hashes) (c : EndpointConfig) (t : String) (is_bearer : c.auth_method.type ≡ "bearer")
    (has_token : c.auth_method.token ≡ some t) where
  -- what is stored of the endpoint, as it is read back
  abbrev pub stored : String → String → String → Time → WebhookEndpoint
  stored tenant id random now = to_endpoint "" (model_of h.sha256 c tenant id random now)

  validate_config-token : validate_config c ≡ valid → is_blank (strip t) ≡ false
  unfolding validate_config
  validate_config-token is = elim (Bool-cases (is_blank (strip t))) [
    | inr given ↦ given
    | inl blank ↦ elim (Bool-cases (is_blank (strip c.name))) [
      | inl unnamed ↦ cc (rw unnamed at is)
      | inr named ↦ elim (Bool-cases (is_blank (strip c.target_agent_id))) [
        | inl untargeted ↦ cc (rw (named, untargeted) at is)
        | inr targeted ↦ cc (simp (named, targeted, is_bearer, has_token, blank) at is)
      ]
    ]
  ]

  token_of-given :
      (random : String) → is_blank (strip t) ≡ false → token_of c.auth_method random ≡ strip t
  token_of-given random given = rw (has_token, is_bearer, is_blank-strip t given, token_of) refl

  -- what an endpoint answers to a bearer token
  abbrev answer : String → ValidationResult
  answer s =
      if h.sha256 (strip s) == h.sha256 (strip t)
      then valid
      else failing "INVALID_TOKEN" "invalid bearer token" 401

  pub create_endpoint-validate_auth :
      (tenant id random : String) (now : Time) (repository : Repository) (request : HttpRequest)
      (authorization s : String)
      → validate_config c ≡ valid
      → ((x : String) → is_ascii (h.sha256 x) ≡ true)
      → header_of h "authorization" request ≡ some authorization
      → strip_prefix "Bearer " authorization ≡ some s
      → is_blank (strip s) ≡ false
      → (repository' : Repository) × (e : WebhookEndpoint) × (create_endpoint h.sha256 c tenant id
            random now repository
          ≡ ok (record e { auth_token = strip t }, repository'))
        × (get_endpoint id repository' ≡ some e)
        × (e.config.auth_method.token ≡ none)
        × (validate_auth h request e ≡ ok (answer s))
  unfolding create_endpoint get_endpoint to_endpoint sanitize_auth_method model_of
  create_endpoint-validate_auth tenant id random now repository request authorization s is ascii
        sent bearer given =
      let named = validate_config-token is in
      (
        insert id (model_of h.sha256 c tenant id random now) repository,
        stored tenant id random now,
        rw (check_config-valid c is) (rw (token_of-given random named) refl),
        rw (lookup-insert_self id (model_of h.sha256 c tenant id random now) repository) refl,
        rw is_bearer refl,
        validate_auth-bearer h request (stored tenant id random now) authorization s
              (rw is_bearer refl) sent bearer given (ascii _) (ascii _)
            ∙ ap
                (λ x. ok (
                  if h.sha256 (strip s) == h.sha256 x
                  then valid
                  else failing "INVALID_TOKEN" "invalid bearer token" 401))
                (token_of-given random named),
      )
