-- ===== src/Triggers/Webhook/Validator/Verdict.antt =====
-- What an accepted request has shown.
use owlclaw_core.Common.{
  ◌≡◌, ◌⊎◌, refl, ap, inl, inr, true, false, not, ◌||◌, Option, none, some, String, arith,
  Bool-cases, Option-cases, if◌then◌else◌,
}
use owlclaw_core.Common.Dict.{lookup}
use owlclaw_core.Common.Eq.{string_eq, ◌==◌}
use owlclaw_core.Common.Result.{Result, ok, err, ◌>>=◌, ok_inj}
use owlclaw_core.Common.Text.{strip, is_blank, is_ascii, strip_prefix, split_once}
use owlclaw_core.Triggers.Webhook.{
  AuthMethod, WebhookEndpoint, ValidationResult, valid, invalid, failing, HttpRequest,
}
use owlclaw_core.Triggers.Webhook.Validator.{
  Hashes, TypeError, normalize_headers, or_empty, is_missing, has_algorithm, validate_endpoint,
  check_token, validate_bearer_hash, check_credentials, check_pair, check_decoded, validate_basic,
  validate_auth, normalize_signature, check_digest, check_header, validate_signature,
  validate_format, and_then, validate_for, validate_request,
}

module _ (h : Hashes) where
  abbrev pub header_of : String → HttpRequest → Option String
  header_of name request = lookup name (normalize_headers request.headers)

  abbrev pub IsBearer : String → String → Type 0
  IsBearer authorization expected_hash =
      (token : String) × (strip_prefix "Bearer " authorization ≡ some token)
      × (h.sha256 (strip token) ≡ expected_hash)

  abbrev pub IsBasic : String → AuthMethod → Type 0
  IsBasic authorization auth =
      (encoded decoded : String) × (strip_prefix "Basic " authorization ≡ some encoded)
      × (h.b64decode (strip encoded) ≡ some decoded)
      × (split_once b':' decoded ≡ some (or_empty auth.username, or_empty auth.password))

  abbrev pub IsSigned : HttpRequest → AuthMethod → Type 0
  IsSigned request auth =
      normalize_signature h (or_empty (header_of "x-signature" request)) (or_empty auth.algorithm)
      ≡ some (h.hmac (or_empty auth.algorithm) (or_empty auth.secret) request.body)

  abbrev pub Authenticated : HttpRequest → WebhookEndpoint → Type 0
  Authenticated request e =
      let auth = e.config.auth_method in
      let authorization = or_empty (header_of "authorization" request) in
      ((auth.type ≡ "bearer") × IsBearer authorization e.auth_token_hash)
      ⊎ ((auth.type ≡ "basic") × IsBasic authorization auth)
      ⊎ ((auth.type ≡ "hmac") × IsSigned request auth)

  check_token-valid :
      (provided expected : String)
      → check_token h provided expected ≡ ok valid
      → h.sha256 provided ≡ expected
  unfolding check_token
  check_token-valid provided expected is =
      ground (arith, string_eq.same_iff (h.sha256 provided) expected)

  validate_bearer_hash-valid :
      (authorization expected : String)
      → validate_bearer_hash h authorization expected ≡ ok valid
      → IsBearer authorization expected
  unfolding validate_bearer_hash
  validate_bearer_hash-valid authorization expected is =
      elim (Option-cases (strip_prefix "Bearer " authorization)) [
        | inl missing ↦ cc (rw (missing, validate_bearer_hash) at is)
        | inr (token, found) ↦ (
          token,
          found,
          check_token-valid (strip token) expected (rw (found, validate_bearer_hash) at is),
        )
      ]

  check_pair-valid :
      (o : Option (String × String)) (username password : String)
      → check_pair h o username password ≡ ok valid
      → o ≡ some (username, password)
  unfolding check_pair check_credentials
  check_pair-valid none username password is = cc
  check_pair-valid (some (u, p)) username password is =
      ground (arith, string_eq.same_iff u username, string_eq.same_iff p password)

  validate_basic-valid :
      (authorization : String) (auth : AuthMethod)
      → validate_basic h authorization auth.username auth.password ≡ ok valid
      → IsBasic authorization auth
  unfolding validate_basic check_decoded
  validate_basic-valid authorization auth is =
      elim (Bool-cases (is_missing auth.username || is_missing auth.password)) [
        | inl lacking ↦ cc (rw lacking at is)
        | inr configured ↦ elim (Option-cases (strip_prefix "Basic " authorization)) [
          | inl missing ↦ cc (rw (configured, missing) at is)
          | inr (encoded, found) ↦ elim (Option-cases (h.b64decode (strip encoded))) [
            | inl garbled ↦ cc (rw (configured, found, garbled) at is)
            | inr (decoded, read) ↦ (
              encoded,
              decoded,
              found,
              read,
              check_pair-valid _ _ _ (rw (configured, found, read) at is),
            )
          ]
        ]
      ]

  check_digest-valid :
      (expected : String) (o : Option String)
      → check_digest h expected o ≡ ok valid
      → o ≡ some expected
  unfolding check_digest
  check_digest-valid expected none is = cc
  check_digest-valid expected (some s) is = ground (arith, string_eq.same_iff expected s)

  validate_signature-valid :
      (request : HttpRequest) (e : WebhookEndpoint)
      → (e.config.auth_method.type == "hmac") ≡ true
      → validate_signature h request e ≡ ok valid
      → IsSigned request e.config.auth_method
  unfolding validate_signature check_header
  validate_signature-valid request e hmac is =
      let auth = e.config.auth_method in
      elim (Bool-cases (is_missing auth.secret || not (has_algorithm h auth))) [
        | inl lacking ↦ cc (rw (hmac, lacking) at is)
        | inr configured ↦ elim (Bool-cases (is_missing (header_of "x-signature" request))) [
          | inl missing ↦ cc (rw (hmac, configured, missing) at is)
          | inr sent ↦ check_digest-valid _ _ (rw (hmac, configured, sent) at is)
        ]
      ]

  and_then-valid :
      (first : ValidationResult) (rest : Result TypeError ValidationResult)
      → and_then h first rest ≡ ok valid
      → (first ≡ valid) × (rest ≡ ok valid)
  unfolding and_then
  and_then-valid valid rest is = (refl, is)
  and_then-valid (invalid e) rest is = cc

  validate_endpoint-valid :
      (e : WebhookEndpoint) → validate_endpoint (some e) ≡ valid → e.config.enabled ≡ true
  unfolding validate_endpoint
  validate_endpoint-valid e is = ground arith

  validate_auth-valid :
      (request : HttpRequest) (e : WebhookEndpoint)
      → validate_auth h request e ≡ ok valid
      → validate_signature h request e ≡ ok valid
      → Authenticated request e
  unfolding validate_auth
  validate_auth-valid request e is signed =
      let auth = e.config.auth_method in
      let authorization = or_empty (header_of "authorization" request) in
      elim (Bool-cases (auth.type == "bearer")) [
        | inl bearer ↦ inl (
          (string_eq.same_iff auth.type "bearer").0 bearer,
          validate_bearer_hash-valid authorization e.auth_token_hash (rw bearer at is),
        )
        | inr other ↦ elim (Bool-cases (auth.type == "basic")) [
          | inl basic ↦ inr (
              inl (
                (string_eq.same_iff auth.type "basic").0 basic,
                validate_basic-valid authorization auth (rw (other, basic) at is),
              ))
          | inr third ↦ elim (Bool-cases (auth.type == "hmac")) [
            | inl hmac ↦ inr (
                inr (
                  (string_eq.same_iff auth.type "hmac").0 hmac,
                  validate_signature-valid request e hmac signed,
                ))
            | inr unknown ↦ cc (rw (other, third, unknown) at is)
          ]
        ]
      ]

  -- a bind that is valid in the end has passed both
  bind-valid :
      (first : Result TypeError ValidationResult) (rest : Result TypeError ValidationResult)
      → (first >>= λ a. and_then h a rest) ≡ ok valid
      → (first ≡ ok valid) × (rest ≡ ok valid)
  bind-valid (err e) rest is = cc
  bind-valid (ok a) rest is =
      let (passed, later) = and_then-valid a rest is in (ap ok passed, later)

  validate_for-valid :
      (request : HttpRequest) (e : WebhookEndpoint)
      → validate_for h e request ≡ ok valid
      → (validate_auth h request e ≡ ok valid)
        × (validate_signature h request e ≡ ok valid)
        × (validate_format h request ≡ valid)
  unfolding validate_for
  validate_for-valid request e is =
      let (auth, rest) = bind-valid (validate_auth h request e) _ is in
      let (signed, format) = bind-valid (validate_signature h request e) _ rest in
      (auth, signed, ok_inj format)

  pub validate_request-Authenticated :
      (o : Option WebhookEndpoint) (request : HttpRequest)
      → validate_request h o request ≡ ok valid
      → (e : WebhookEndpoint) × (o ≡ some e)
        × (e.config.enabled ≡ true)
        × Authenticated request e
        × (validate_format h request ≡ valid)
  unfolding validate_request validate_endpoint
  validate_request-Authenticated none request is = cc
  validate_request-Authenticated (some e) request is =
      let (there, checked) =
        and_then-valid (validate_endpoint (some e)) (validate_for h e request) is in
      let (auth, signed, format) = validate_for-valid request e checked in
      (e, refl, validate_endpoint-valid e there, validate_auth-valid request e auth signed, format)

  -- how a bearer token is answered
  pub validate_auth-bearer :
      (request : HttpRequest) (e : WebhookEndpoint) (authorization s : String)
      → e.config.auth_method.type ≡ "bearer"
      → header_of "authorization" request ≡ some authorization
      → strip_prefix "Bearer " authorization ≡ some s
      → is_blank (strip s) ≡ false
      → is_ascii (h.sha256 (strip s)) ≡ true
      → is_ascii e.auth_token_hash ≡ true
      → validate_auth h request e
        ≡ ok (
            if h.sha256 (strip s) == e.auth_token_hash
            then valid
            else failing "INVALID_TOKEN" "invalid bearer token" 401)
  unfolding validate_auth check_token
  validate_auth-bearer request e authorization s bearer sent found given ascii ascii' =
      rw (bearer, sent) (rw (found, validate_bearer_hash) (rw given (rw (ascii, ascii') refl)))
