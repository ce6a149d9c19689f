-- ===== src/Triggers/Webhook/Validator.antt =====
-- owlclaw/triggers/webhook/validator.py: which requests an endpoint accepts. The hash functions and
-- the decoding of base64 (none if it raises) are parameters.
pub mod Verdict
use owlclaw_core.Common.{
  ℕ, Bool, true, false, not, ◌&&◌, ◌||◌, Option, none, some, String, List, [], ◌∷◌, is_none,
  if◌then◌else◌,
}
use Prim.Native.String.{◌++◌ as join}
use owlclaw_core.Common.Dict.{Dict, lookup, insert}
use owlclaw_core.Common.Eq.{string_eq, ◌==◌}
use owlclaw_core.Common.Result.{Result, ok, err, ◌>>=◌}
use owlclaw_core.Common.Text.{
  strip, lower, is_blank, is_ascii, one_of, strip_prefix, split_once, before,
}
use owlclaw_core.Triggers.Webhook.{
  AuthMethod, WebhookEndpoint, ValidationError, ValidationResult, valid, invalid, failing,
  HttpRequest,
}

pub record Hashes : Type 0 where
  -- hashlib.sha256(text).hexdigest() and hmac.new(secret, body, algorithm).hexdigest()
  pub sha256 : String → String
  pub hmac : (algorithm secret body : String) → String
  pub b64decode : String → Option String

-- the exception that `hmac.compare_digest` raises on a text that is not ASCII
pub data TypeError : Type 0 where
  type_error : TypeError

abbrev pub compare_digest : String → String → Result TypeError Bool
compare_digest a b = if is_ascii a && is_ascii b then ok (a == b) else err type_error

-- {key.lower(): value for key, value in headers.items()}
lower_into : Dict String String → Dict String String → Dict String String
lower_into [] d = d
lower_into ((k, v) ∷ headers) d = lower_into headers (insert (lower k) v d)

unfoldable pub normalize_headers : Dict String String → Dict String String
unfolding lower_into
normalize_headers headers = lower_into headers []

abbrev pub or_empty : Option String → String
or_empty none = ""
or_empty (some s) = s

-- not x, for an optional text
abbrev pub is_missing : Option String → Bool
is_missing none = true
is_missing (some s) = is_blank s

abbrev no_token : ValidationResult
no_token = failing "INVALID_TOKEN" "invalid bearer token" 401

abbrev no_basic : ValidationResult
no_basic = failing "INVALID_TOKEN" "invalid basic auth token" 401

-- `validate_endpoint` on what the reader gave
unfoldable pub validate_endpoint : Option WebhookEndpoint → ValidationResult
validate_endpoint none = failing "ENDPOINT_NOT_FOUND" "endpoint not found" 404
validate_endpoint (some e) =
    if e.config.enabled then valid else failing "ENDPOINT_NOT_FOUND" "endpoint not found" 404

module _ (h : Hashes) where
  check_token : String → String → Result TypeError ValidationResult
  check_token provided expected_token_hash = if is_blank provided then ok no_token else do
    same ← compare_digest (h.sha256 provided) expected_token_hash
    ok (if same then valid else no_token)

  -- `_validate_bearer_hash`
  validate_bearer_hash : String → String → Result TypeError ValidationResult
  unfolding check_token
  validate_bearer_hash authorization expected_token_hash =
      elim (strip_prefix "Bearer " authorization) [
        | none ↦ ok (failing "INVALID_TOKEN" "missing bearer token" 401)
        | some token ↦ check_token (strip token) expected_token_hash
      ]

  -- the user name first, and the password only if that is right
  check_credentials : String × String → String → String → Result TypeError ValidationResult
  check_credentials (provided_username, provided_password) username password = do
    same_name ← compare_digest provided_username username
    same ← if same_name then compare_digest provided_password password else ok false
    ok (if same then valid else no_basic)

  check_pair : Option (String × String) → String → String → Result TypeError ValidationResult
  unfolding check_credentials
  check_pair none username password = ok no_basic
  check_pair (some pair) username password = check_credentials pair username password

  check_decoded : Option String → String → String → Result TypeError ValidationResult
  unfolding check_pair
  check_decoded none username password = ok no_basic
  check_decoded (some decoded) username password =
      check_pair (split_once b':' decoded) username password

  -- `_validate_basic`
  validate_basic : String → Option String → Option String → Result TypeError ValidationResult
  unfolding check_decoded
  validate_basic authorization username password =
      if is_missing username || is_missing password
      then ok (failing "INVALID_TOKEN" "basic auth credential is not configured" 401)
      else elim (strip_prefix "Basic " authorization) [
        | none ↦ ok (failing "INVALID_TOKEN" "missing basic auth token" 401)
        | some encoded ↦
            check_decoded (h.b64decode (strip encoded)) (or_empty username) (or_empty password)
      ]

  -- `validate_auth`; HMAC is left to the check of the signature
  unfoldable pub validate_auth : HttpRequest → WebhookEndpoint → Result TypeError ValidationResult
  unfolding validate_bearer_hash validate_basic
  validate_auth request endpoint =
      let auth = endpoint.config.auth_method in
      let authorization = or_empty (lookup "authorization" (normalize_headers request.headers)) in
      if auth.type == "bearer"
      then validate_bearer_hash authorization endpoint.auth_token_hash
      else if auth.type == "basic"
      then validate_basic authorization auth.username auth.password
      else if auth.type == "hmac"
      then ok valid
      else ok (failing "INVALID_AUTH_METHOD" "unsupported auth method" 401)

  -- `_normalize_signature`
  unfoldable pub normalize_signature : String → String → Option String
  normalize_signature signature_header algorithm =
      let lowered = lower (strip signature_header) in
      elim (strip_prefix (join algorithm "=") lowered) [
        | some rest ↦ some rest
        | none ↦
            if is_none (strip_prefix "sha256=" lowered) && is_none (strip_prefix "sha512=" lowered)
            then some lowered
            else none
      ]

  -- normalized is None or not compare_digest(expected, normalized)
  check_digest : String → Option String → Result TypeError ValidationResult
  check_digest expected none = ok (failing "INVALID_SIGNATURE" "signature verification failed" 403)
  check_digest expected (some normalized) = do
    same ← compare_digest expected normalized
    ok (if same then valid else failing "INVALID_SIGNATURE" "signature verification failed" 403)

  check_header : AuthMethod → String → Option String → Result TypeError ValidationResult
  unfolding check_digest
  check_header auth body header =
      if is_missing header
      then ok (failing "MISSING_SIGNATURE" "x-signature header is required" 403)
      else check_digest (h.hmac (or_empty auth.algorithm) (or_empty auth.secret) body)
          (normalize_signature (or_empty header) (or_empty auth.algorithm))

  abbrev pub has_algorithm : AuthMethod → Bool
  has_algorithm auth = or_empty auth.algorithm == "sha256" || or_empty auth.algorithm == "sha512"

  -- `validate_signature`
  unfoldable pub validate_signature :
      HttpRequest → WebhookEndpoint → Result TypeError ValidationResult
  unfolding check_header
  validate_signature request endpoint =
      let auth = endpoint.config.auth_method in
      if not (auth.type == "hmac")
      then ok valid
      else if is_missing auth.secret || not (has_algorithm auth)
      then ok (failing "SIGNATURE_CONFIG_ERROR" "hmac secret and algorithm are required" 403)
      else check_header auth request.body (lookup "x-signature" (normalize_headers request.headers))

  -- `validate_format`
  unfoldable pub validate_format : HttpRequest → ValidationResult
  validate_format request =
      let content_type = lower (
        strip
          (before b';' (or_empty (lookup "content-type" (normalize_headers request.headers))))) in
      if is_blank content_type
      then failing "INVALID_FORMAT" "content-type header is required" 400
      else if one_of content_type "application/json" "application/xml" "text/xml"
          "application/x-www-form-urlencoded"
      then valid
      else failing "INVALID_FORMAT" "unsupported content type" 400

  -- if not result.valid: return result, else the checks that follow
  and_then :
      ValidationResult → Result TypeError ValidationResult → Result TypeError ValidationResult
  and_then valid rest = rest
  and_then (invalid e) rest = ok (invalid e)

  -- the three checks of a request to an endpoint that is there
  validate_for : WebhookEndpoint → HttpRequest → Result TypeError ValidationResult
  unfolding and_then
  validate_for endpoint request = do
    auth ← validate_auth request endpoint
    let format = ok (validate_format request)
    let signed = validate_signature request endpoint >>= λ s. and_then s format
    and_then auth signed

  -- `validate_request` on what the reader gave; a request that is valid is for that endpoint
  unfoldable pub validate_request :
      Option WebhookEndpoint → HttpRequest → Result TypeError ValidationResult
  unfolding validate_endpoint validate_for
  validate_request none request = ok (validate_endpoint none)
  validate_request (some endpoint) request =
      and_then (validate_endpoint (some endpoint)) (validate_for endpoint request)
