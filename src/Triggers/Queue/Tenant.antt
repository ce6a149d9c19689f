-- ===== src/Triggers/Queue/Tenant.antt =====
-- `_resolve_tenant_id` of owlclaw/triggers/queue/trigger.py: when the tenant that a message names is
-- believed. HMAC and the process environment are parameters.
pub mod Trust
use owlclaw_core.Common.{
  Bool, true, false, not, ◌&&◌, ◌||◌, Option, none, some, String, List, [], ◌∷◌, ◌++◌, any,
  if◌then◌else◌,
}
use Prim.Native.String.{◌++◌ as join}
use owlclaw_core.Common.Dict.{lookup}
use owlclaw_core.Common.Eq.{string_eq, ◌==◌}
use owlclaw_core.Common.Result.{Result, ok, err}
use owlclaw_core.Common.Text.{is_ascii, strip, lower, is_blank}
use owlclaw_core.Triggers.Queue.{MessageEnvelope, QueueTriggerConfig}

-- a or b
abbrev pub or_else : String → String → String
or_else a b = if is_blank a then b else a

abbrev or_empty : Option String → String
or_empty none = ""
or_empty (some s) = s

-- headers.get(name.strip().lower() or default, "").strip()
abbrev pub header : {P : Type 0} → String → String → MessageEnvelope P → String
header name default envelope =
    strip (or_empty (lookup (or_else (lower (strip name)) default) envelope.headers))

abbrev pub is_one_of : String → List String → Bool
is_one_of s = any (λ t. s == t)

-- the loop over `tenant_signature_secret_envs`
collect_envs : List String → List String → List String
collect_envs [] names = names
collect_envs (item ∷ items) names =
    let normalized = strip item in
    collect_envs items (
      if is_blank normalized || is_one_of normalized names then names else names ++ normalized ∷ [])

first_env : Option String → List String
first_env none = []
first_env (some name) = if is_blank (strip name) then [] else strip name ∷ []

choose_tenant : Result String Bool → (candidate default : String) → Result String String
choose_tenant (err e) candidate default = err e
choose_tenant (ok true) candidate default = ok candidate
choose_tenant (ok false) candidate default = ok default

-- `_signature_secret_env_names`
unfoldable pub signature_secret_env_names : QueueTriggerConfig → List String
unfolding collect_envs first_env
signature_secret_env_names config =
    collect_envs config.tenant_signature_secret_envs (first_env config.tenant_signature_secret_env)

-- `hmac secret text` is the HMAC-SHA256 digest in hexadecimal, and `getenv` reads the environment
module _ (hmac : String → String → String) (getenv : String → Option String) where
  -- the text that is signed
  abbrev pub signed_text : {P : Type 0} → MessageEnvelope P → String → String → String
  signed_text envelope tenant_id producer_id =
      join envelope.message_id (join ":" (join tenant_id (join ":" producer_id)))

  -- the loop over the secrets. `hmac.compare_digest` raises for a text that is not ASCII.
  check_secrets : (signature text : String) → List String → Result String Bool
  check_secrets signature text [] = ok false
  check_secrets signature text (name ∷ names) =
      let secret = strip (or_empty (getenv name)) in
      let rest = check_secrets signature text names in
      if is_blank secret
      then rest
      else if not (is_ascii signature)
      then err "comparing strings with non-ASCII characters is not supported"
      else if signature == hmac secret text
      then ok true
      else rest

  -- `_is_valid_tenant_signature`
  is_valid_tenant_signature :
      {P : Type 0} → QueueTriggerConfig → MessageEnvelope P → String → String → Result String Bool
  unfolding check_secrets
  is_valid_tenant_signature config envelope tenant_id producer_id =
      elim (signature_secret_env_names config) [
        | [] ↦ ok true
        | name ∷ names ↦
            let signature = header config.tenant_signature_header "x-tenant-signature" envelope in
            if is_blank signature
            then ok false
            else check_secrets signature (signed_text envelope tenant_id producer_id) (name ∷ names)
      ]

  abbrev is_trusted : List String → String → Bool
  is_trusted [] producer_id = true
  is_trusted (p ∷ producers) producer_id = is_one_of producer_id (p ∷ producers)

  -- `_resolve_tenant_id`
  unfoldable pub resolve_tenant_id :
      {P : Type 0} → QueueTriggerConfig → MessageEnvelope P → Result String String
  unfolding is_valid_tenant_signature choose_tenant
  resolve_tenant_id config envelope =
      let default_tenant = or_else (strip config.default_tenant_id) "default" in
      let producer_id = header config.trusted_producer_header "x-producer-id" envelope in
      let tenant_candidate = header config.tenant_header_name "x-tenant-id" envelope in
      if not config.trust_tenant_header
      then ok default_tenant
      else if not (is_trusted config.trusted_producers producer_id)
      then ok default_tenant
      else if is_blank tenant_candidate
      then ok default_tenant
      else choose_tenant (is_valid_tenant_signature config envelope tenant_candidate producer_id)
          tenant_candidate default_tenant
