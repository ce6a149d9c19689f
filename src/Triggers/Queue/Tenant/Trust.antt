-- ===== src/Triggers/Queue/Tenant/Trust.antt =====
-- A tenant that a message names is taken only from a producer that may name it.
use owlclaw_core.Common.{
  ◌≡◌, ◌⊎◌, inl, inr, refl, sym, Bool, true, false, Option, String, List, [], ◌∷◌, arith,
  if◌then◌else◌, Bool-cases, In,
}
use mathlib.Core.Path.{subst}
use owlclaw_core.Common.Eq.{string_eq, ◌==◌}
use owlclaw_core.Common.Result.{Result, ok, err, ok_inj}
use owlclaw_core.Common.Text.{is_ascii, strip, is_blank}
use owlclaw_core.Triggers.Queue.{MessageEnvelope, QueueTriggerConfig}
use owlclaw_core.Triggers.Queue.Tenant.{
  choose_tenant, or_else, or_empty, header, is_one_of, signature_secret_env_names, signed_text,
  check_secrets, is_valid_tenant_signature, is_trusted, resolve_tenant_id,
}

In-is_one_of : (s : String) (xs : List String) → is_one_of s xs ≡ true → In s xs
In-is_one_of s [] h = cc
In-is_one_of s (x ∷ xs) h = ground (arith, In-is_one_of s xs, string_eq.same_iff s x)

module _ (hmac : String → String → String) (getenv : String → Option String) where
  -- the signature is the digest of the text under the secret in the variable of that name
  pub record Signs (signature text name : String) : Type 0 where
    pub not_empty : is_blank (strip (or_empty (getenv name))) ≡ false
    pub matches : signature ≡ hmac (strip (or_empty (getenv name))) text

  check_secrets-Signs :
      (signature text : String) (names : List String)
      → check_secrets hmac getenv signature text names ≡ ok true
      → (name : String) × In name names × Signs signature text name
  unfolding check_secrets
  check_secrets-Signs signature text [] h = cc
  check_secrets-Signs signature text (name ∷ names) h =
      let secret = strip (or_empty (getenv name)) in
      let later : check_secrets hmac getenv signature text names ≡ ok true
          → (n : String) × In n (name ∷ names) × Signs signature text n =
        λ e.
          let (n, here, signs) = check_secrets-Signs signature text names e in
          (n, inr here, signs) in
      elim (Bool-cases (is_blank secret)) [
        | inl unset ↦ later (rw unset at h)
        | inr set ↦ elim (Bool-cases (is_ascii signature)) [
          | inr unreadable ↦ cc (rw (set, unreadable) at h)
          | inl readable ↦ elim (Bool-cases (signature == hmac secret text)) [
            | inl found ↦ (
              name,
              inl refl,
              record {
                not_empty = set;
                matches = (string_eq.same_iff signature (hmac secret text)).0 found;
              },
            )
            | inr differs ↦ later (rw (set, readable, differs) at h)
          ]
        ]
      ]

  module _ {P : Type 0} (config : QueueTriggerConfig) (envelope : MessageEnvelope P) where
    abbrev pub producer_of : String
    producer_of = header config.trusted_producer_header "x-producer-id" envelope

    pub record Believed (tenant : String) : Type 0 where
      pub trusts : config.trust_tenant_header ≡ true
      pub producer : (config.trusted_producers ≡ []) ⊎ In producer_of config.trusted_producers
      pub named : tenant ≡ header config.tenant_header_name "x-tenant-id" envelope
      pub not_empty : is_blank tenant ≡ false
      pub signed :
          (signature_secret_env_names config ≡ [])
          ⊎ ((name : String) × In name (signature_secret_env_names config)
              × Signs
                  (header config.tenant_signature_header "x-tenant-signature" envelope)
                  (signed_text hmac getenv envelope tenant producer_of)
                  name)

    signed_of :
        (tenant : String)
        → is_valid_tenant_signature hmac getenv config envelope tenant producer_of ≡ ok true
        → (signature_secret_env_names config ≡ [])
          ⊎ ((name : String) × In name (signature_secret_env_names config)
              × Signs
                  (header config.tenant_signature_header "x-tenant-signature" envelope)
                  (signed_text hmac getenv envelope tenant producer_of)
                  name)
    unfolding is_valid_tenant_signature
    signed_of tenant h = by_cases (signature_secret_env_names config) h
      where
        by_cases :
            (names : List String)
            → (elim names as (λ x. Result String Bool) [
              | [] ↦ ok true
              | name ∷ rest ↦
                  if is_blank (header config.tenant_signature_header "x-tenant-signature" envelope)
                  then ok false
                  else check_secrets hmac getenv
                      (header config.tenant_signature_header "x-tenant-signature" envelope)
                      (signed_text hmac getenv envelope tenant producer_of)
                      (name ∷ rest)
            ])
              ≡ ok true
            → (names ≡ [])
              ⊎ ((name : String) × In name names
                  × Signs
                      (header config.tenant_signature_header "x-tenant-signature" envelope)
                      (signed_text hmac getenv envelope tenant producer_of)
                      name)
        by_cases [] h = inl refl
        by_cases (name ∷ names) h = inr (check_secrets-Signs _ _ (name ∷ names) (ground arith))

    producer_of_trusted :
        (producers : List String)
        → is_trusted hmac getenv producers producer_of ≡ true
        → (producers ≡ []) ⊎ In producer_of producers
    producer_of_trusted [] h = inl refl
    producer_of_trusted (p ∷ producers) h = inr (In-is_one_of producer_of (p ∷ producers) h)

    -- If a tenant is found for a message, then it is the default tenant, or the one that the message
    -- names; and the latter only if the trust in the header is switched on, the producer is on the
    -- list (where there is one), and the message is signed under one of the secrets (where any are
    -- named) over its id, that tenant and that producer.
    pub resolve_tenant_id-Believed :
        (tenant : String)
        → resolve_tenant_id hmac getenv config envelope ≡ ok tenant
        → (tenant ≡ or_else (strip config.default_tenant_id) "default") ⊎ Believed tenant
    unfolding resolve_tenant_id
    resolve_tenant_id-Believed tenant found =
        let candidate = header config.tenant_header_name "x-tenant-id" envelope in
        let by_default : ◌≡◌ {A = Result String String}
              (ok (or_else (strip config.default_tenant_id) "default")) (ok tenant)
            → (tenant ≡ or_else (strip config.default_tenant_id) "default") ⊎ Believed tenant =
          λ h. inl (sym (ok_inj h)) in
        elim (Bool-cases config.trust_tenant_header) [
          | inr distrusts ↦ by_default (simp distrusts at found)
          | inl trusts ↦
              elim (Bool-cases (is_trusted hmac getenv config.trusted_producers producer_of)) [
                | inr unknown ↦ by_default (simp (trusts, unknown) at found)
                | inl known ↦ elim (Bool-cases (is_blank candidate)) [
                  | inl missing ↦ by_default (simp (trusts, known, missing) at found)
                  | inr named ↦
                      chosen trusts known named
                        (is_valid_tenant_signature hmac getenv config envelope candidate
                          producer_of)
                        refl (simp (trusts, known, named) at found)
                ]
              ]
        ]
      where
        chosen :
            config.trust_tenant_header ≡ true
            → is_trusted hmac getenv config.trusted_producers producer_of ≡ true
            → is_blank (header config.tenant_header_name "x-tenant-id" envelope) ≡ false
            → (valid : Result String Bool)
            → is_valid_tenant_signature hmac getenv config envelope
                (header config.tenant_header_name "x-tenant-id" envelope)
                producer_of
              ≡ valid
            → choose_tenant valid
                (header config.tenant_header_name "x-tenant-id" envelope)
                (or_else (strip config.default_tenant_id) "default")
              ≡ ok tenant
            → (tenant ≡ or_else (strip config.default_tenant_id) "default") ⊎ Believed tenant
        chosen trusts known named (err e) valid h = cc
        chosen trusts known named (ok false) valid h = inl (sym (ok_inj h))
        chosen trusts known named (ok true) valid h = inr (
            subst Believed (ok_inj h) (record {
              trusts = trusts;
              producer = producer_of_trusted config.trusted_producers known;
              named = refl;
              not_empty = named;
              signed = signed_of (header config.tenant_header_name "x-tenant-id" envelope) valid;
            }))
