-- ===== src/Common/Eq.antt =====
-- Python's `==` on the types that serve as dictionary keys or are compared: an interface with its
-- law, and an instance for numbers, texts, pairs and optional values.
use text.Mathlib.Text.{◌==◌ as str_eq}
use text.Mathlib.TextEquality.{eq_iff}
use owlclaw_core.Common.{
  ℕ, ◌≡◌, ◌≢◌, ◌⊎◌, inl, inr, Bool-cases, refl, ◌↔◌, Bool, true, false, ◌&&◌, Option, none, some,
  String, arith, eqb, eqb_iff,
}

pub record Eq {ℓ} (A : Type ℓ) : Type ℓ where
  pub same : A → A → Bool
  pub same_iff : (x y : A) → (same x y ≡ true) ↔ (x ≡ y)

infix 50 ◌==◌
abbrev pub ◌==◌ {ℓ} : {A : Type ℓ} ⦃e : Eq A⦄ → A → A → Bool
◌==◌ ⦃e⦄ = e.same

instance abbrev pub nat_eq : Eq ℕ
nat_eq = record { same = eqb; same_iff = eqb_iff }

instance abbrev pub string_eq : Eq String
string_eq = record { same = str_eq; same_iff = eq_iff }

pub same_refl {ℓ} : {A : Type ℓ} (e : Eq A) (a : A) → e.same a a ≡ true
same_refl e a = (e.same_iff a a).1 refl

pub same_or_not {ℓ} : {A : Type ℓ} (e : Eq A) (a b : A) → (a ≡ b) ⊎ (a ≢ b)
same_or_not e a b = elim (Bool-cases (e.same a b)) [
  | inl equal ↦ inl ((e.same_iff a b).0 equal)
  | inr differ ↦ inr (λ h. cc (differ, (e.same_iff a b).1 h))
]

module _ {ℓ κ} {A : Type ℓ} {B : Type κ} (e : Eq A) (d : Eq B) where
  abbrev pub pair_beq : A × B → A × B → Bool
  pair_beq (a, b) (a', b') = e.same a a' && d.same b b'

  pub pair_beq_iff : (p q : A × B) → (pair_beq p q ≡ true) ↔ (p ≡ q)
  pair_beq_iff (a, b) (a', b') = ground (arith, e.same_iff a a', d.same_iff b b')

instance abbrev pub pair_eq {ℓ κ} : {A : Type ℓ} {B : Type κ} ⦃e : Eq A⦄ ⦃d : Eq B⦄ → Eq (A × B)
pair_eq ⦃e⦄ ⦃d⦄ = record { same = pair_beq e d; same_iff = pair_beq_iff e d }

module _ {ℓ} {A : Type ℓ} (e : Eq A) where
  abbrev pub option_beq : Option A → Option A → Bool
  option_beq none none = true
  option_beq (some a) (some b) = e.same a b
  option_beq _ _ = false

  pub option_beq_iff : (p q : Option A) → (option_beq p q ≡ true) ↔ (p ≡ q)
  option_beq_iff none none = ground arith
  option_beq_iff none (some b) = ground arith
  option_beq_iff (some a) none = ground arith
  option_beq_iff (some a) (some b) = ground (arith, e.same_iff a b)

instance abbrev pub option_eq {ℓ} : {A : Type ℓ} ⦃e : Eq A⦄ → Eq (Option A)
option_eq ⦃e⦄ = record { same = option_beq e; same_iff = option_beq_iff e }
