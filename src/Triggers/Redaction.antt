-- ===== src/Triggers/Redaction.antt =====
-- `_redact_sensitive_data` of owlclaw/triggers/db_change/manager.py. The substitution of the regular
-- expressions in a text is the parameter `redact_text`.
use owlclaw_core.Common.{
  ◌≡◌, ◌⊎◌, inl, inr, refl, Bool-cases, Bool, true, ◌||◌, String, List, [], ◌∷◌, any, is_some,
  if◌then◌else◌,
}
use owlclaw_core.Common.Text.{lower, strip_prefix}
use owlclaw_core.Common.Value.{
  Value, Items, Fields, null, flag, number, text, list, object, nil, cons, end, field,
}

-- part in whole
contains_text : String → String → Bool
contains_text part String.[] = is_some (strip_prefix part "")
contains_text part (String.◌∷◌ c s) =
    is_some (strip_prefix part (String.◌∷◌ c s)) || contains_text part s

-- `_SENSITIVE_KEYS`
abbrev pub sensitive_keys : List String
sensitive_keys =
    "password" ∷ "passwd" ∷ "pwd" ∷ "token" ∷ "api_key" ∷ "apikey" ∷ "secret" ∷ "authorization" ∷ []

-- any(marker in key.lower() for marker in _SENSITIVE_KEYS)
unfoldable pub is_sensitive : String → Bool
unfolding contains_text
is_sensitive key = any (λ marker. contains_text marker (lower key)) sensitive_keys

unfoldable mutual
  pub redact_sensitive_data : (String → String) → Value → Value
  redact_sensitive_data redact_text null = null
  redact_sensitive_data redact_text (flag b) = flag b
  redact_sensitive_data redact_text (number n) = number n
  redact_sensitive_data redact_text (text s) = text (redact_text s)
  redact_sensitive_data redact_text (list vs) = list (redact_items redact_text vs)
  redact_sensitive_data redact_text (object fs) = object (redact_fields redact_text fs)

  redact_items : (String → String) → Items → Items
  redact_items redact_text nil = nil
  redact_items redact_text (cons v vs) =
      cons (redact_sensitive_data redact_text v) (redact_items redact_text vs)

  redact_fields : (String → String) → Fields → Fields
  redact_fields redact_text end = end
  redact_fields redact_text (field k v fs) =
      let inner = redact_sensitive_data redact_text v in
      field k (if is_sensitive k then text "***" else inner) (redact_fields redact_text fs)

-- a text that is the output of the substitution, or the three stars
abbrev pub IsSafe : (String → String) → String → Type 0
IsSafe redact_text s = (s ≡ "***") ⊎ ((t : String) × (s ≡ redact_text t))

-- no sensitive key has anything but three stars, at any depth, and every text is safe
mutual
  pub IsRedacted : (String → String) → Value → Type 0
  IsRedacted redact_text null = Unit
  IsRedacted redact_text (flag b) = Unit
  IsRedacted redact_text (number n) = Unit
  IsRedacted redact_text (text s) = IsSafe redact_text s
  IsRedacted redact_text (list vs) = ItemsRedacted redact_text vs
  IsRedacted redact_text (object fs) = FieldsRedacted redact_text fs

  pub ItemsRedacted : (String → String) → Items → Type 0
  ItemsRedacted redact_text nil = Unit
  ItemsRedacted redact_text (cons v vs) = IsRedacted redact_text v × ItemsRedacted redact_text vs

  pub FieldsRedacted : (String → String) → Fields → Type 0
  FieldsRedacted redact_text end = Unit
  FieldsRedacted redact_text (field k v fs) =
      (is_sensitive k ≡ true → v ≡ text "***")
      × IsRedacted redact_text v
      × FieldsRedacted redact_text fs

mutual
  unfolding redact_sensitive_data IsRedacted

  redact_value-Redacted :
      (redact_text : String → String) (v : Value)
      → IsRedacted redact_text (redact_sensitive_data redact_text v)
  redact_value-Redacted redact_text null = tt
  redact_value-Redacted redact_text (flag b) = tt
  redact_value-Redacted redact_text (number n) = tt
  redact_value-Redacted redact_text (text s) = inr (s, refl)
  redact_value-Redacted redact_text (list vs) = redact_items-Redacted redact_text vs
  redact_value-Redacted redact_text (object fs) = redact_fields-Redacted redact_text fs

  redact_items-Redacted :
      (redact_text : String → String) (vs : Items)
      → ItemsRedacted redact_text (redact_items redact_text vs)
  redact_items-Redacted redact_text nil = tt
  redact_items-Redacted redact_text (cons v vs) =
      (redact_value-Redacted redact_text v, redact_items-Redacted redact_text vs)

  redact_fields-Redacted :
      (redact_text : String → String) (fs : Fields)
      → FieldsRedacted redact_text (redact_fields redact_text fs)
  redact_fields-Redacted redact_text end = tt
  redact_fields-Redacted redact_text (field k v fs) =
      let inner = redact_value-Redacted redact_text v in
      let rest = redact_fields-Redacted redact_text fs in
      elim (Bool-cases (is_sensitive k)) [
        | inl secret ↦ rw secret (λ h. refl, inl refl, rest)
        | inr plain ↦ rw plain (λ h. cc, inner, rest)
      ]

-- What is kept of a payload for people to read is redacted: at any depth a key that has a sensitive
-- word in it has three stars for its value, and every text has been through the substitution.
pub redact_sensitive_data-IsRedacted :
    (redact_text : String → String) (v : Value)
    → IsRedacted redact_text (redact_sensitive_data redact_text v)
redact_sensitive_data-IsRedacted redact_text v = redact_value-Redacted redact_text v
