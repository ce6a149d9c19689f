-- ===== src/Governance/Visibility/Filtering.antt =====
-- What the filter lets through, and that it keeps what it should.
use owlclaw_core.Common.{
  ℕ, suc, ◌≡◌, ◌⊎◌, ◌∙◌, inl, inr, refl, sym, true, false, Option, none, some, String, List, [],
  ◌∷◌, ◌++◌, ap, arith, Bool-cases, Option-cases, all, All, In, is_some,
}
use owlclaw_core.Common.Time.{Time}
use owlclaw_core.Security.RiskGate.{RiskGate, RiskDecision, execute, pause, reject, normalize}
use owlclaw_core.Security.RiskGate.Policy.{level_of, policy, evaluate-policy}
use owlclaw_core.Governance.Visibility.{
  FilterResult, RunContext, CapabilityView, FailPolicy, Evaluator, VisibilityFilter, is_confirmed,
  safe_result, evaluate_risk_gate, gather, hinted, pass_one, filter_from, filter_capabilities,
}

-- the gate lets the capability pass: it was confirmed, or the policy executes its level at once
abbrev pub GatePasses : RunContext → CapabilityView → Type 0
GatePasses context c =
    (is_confirmed context c.name ≡ true)
    ⊎ (policy (level_of (normalize c.risk_level)) c.requires_confirmation false ≡ execute)

abbrev block_reason : RiskDecision → Option String
block_reason execute = none
block_reason pause = some "requires_confirmation"
block_reason reject = some "risk_rejected"

is_some-block_reason : (d : RiskDecision) → is_some (block_reason d) ≡ false → d ≡ execute
is_some-block_reason execute h = refl
is_some-block_reason pause h = cc
is_some-block_reason reject h = cc

gate_open :
    (c : CapabilityView) (context : RunContext) (id : String) (now : Time) (g : RiskGate)
    → is_some (evaluate_risk_gate c context id now g).0 ≡ false
    → GatePasses context c
unfolding evaluate_risk_gate
gate_open c context id now g h = elim (Bool-cases (is_confirmed context c.name)) [
  | inl confirmed ↦ inl confirmed
  | inr other ↦ inr (
      sym (evaluate-policy c.name c.risk_level c.requires_confirmation 0 id now g).0
      ∙ is_some-block_reason _ (rw (other, evaluate_risk_gate) at h))
]

gate_opens :
    (c : CapabilityView) (context : RunContext) (id : String) (now : Time) (g : RiskGate)
    → GatePasses context c
    → is_some (evaluate_risk_gate c context id now g).0 ≡ false
unfolding evaluate_risk_gate
gate_opens c context id now g h = elim (Bool-cases (is_confirmed context c.name)) [
  | inl confirmed ↦ rw confirmed refl
  | inr other ↦
      ground (arith, (evaluate-policy c.name c.risk_level c.requires_confirmation 0 id now g).0)
]

module _ {S : Type 0} (agent_id : String) (context : RunContext) where
  -- the evaluator lets the capability through, whatever its state
  abbrev pub Allows : FailPolicy → CapabilityView → Evaluator S → Type 0
  Allows p c e = (s : S) → (safe_result p (e c agent_id context s).0).visible ≡ true

  -- the evaluators are asked once each, one after the other from the state `s`, and the answer of
  -- each lets the capability through
  pub LetThrough : FailPolicy → CapabilityView → List (Evaluator S) → S → Type 0
  LetThrough p c [] s = Unit
  LetThrough p c (e ∷ es) s =
      ((safe_result p (e c agent_id context s).0).visible ≡ true)
      × LetThrough p c es (e c agent_id context s).1

  gather-LetThrough :
      (p : FailPolicy) (es : List (Evaluator S)) (c : CapabilityView) (s : S)
      → all (λ (r : FilterResult). r.visible) (gather p es c agent_id context s).0 ≡ true
      → LetThrough p c es s
  unfolding gather LetThrough
  gather-LetThrough p [] c s h = tt
  gather-LetThrough p (e ∷ es) c s h =
      (ground arith, gather-LetThrough p es c (e c agent_id context s).1 (ground arith))

  gather-Allows :
      (p : FailPolicy) (es : List (Evaluator S)) (c : CapabilityView) (s : S)
      → All (Allows p c) es
      → all (λ (r : FilterResult). r.visible) (gather p es c agent_id context s).0 ≡ true
  unfolding gather
  gather-Allows p [] c s h = refl
  gather-Allows p (e ∷ es) c s h = rw (h.0 s) (gather-Allows p es c (e c agent_id context s).1 h.1)

  module _ (fresh : ℕ → String × Time) (f : VisibilityFilter S) where
    pass_one-LetThrough :
        (i : ℕ) (c : CapabilityView) (g : RiskGate) (s : S) (c' : CapabilityView)
        → (pass_one agent_id context fresh f i c g s).0 ≡ some c'
        → (c' ≡ hinted f.inject_quality_score f.quality_cache c)
          × GatePasses context c
          × LetThrough f.fail_policy c f.evaluators s
    unfolding pass_one
    pass_one-LetThrough i c g s c' h =
        elim (Bool-cases (is_some (evaluate_risk_gate c context (fresh i).0 (fresh i).1 g).0)) [
          | inl blocked ↦ ground arith
          | inr passed ↦ (
            ground arith,
            gate_open c context (fresh i).0 (fresh i).1 g passed,
            gather-LetThrough f.fail_policy f.evaluators c s (ground arith),
          )
        ]

    pass_one_allowed :
        (i : ℕ) (c : CapabilityView) (g : RiskGate) (s : S)
        → GatePasses context c
        → All (Allows f.fail_policy c) f.evaluators
        → (pass_one agent_id context fresh f i c g s).0
          ≡ some (hinted f.inject_quality_score f.quality_cache c)
    unfolding pass_one
    pass_one_allowed i c g s gate allowed = ground (
      arith,
      gate_opens c context (fresh i).0 (fresh i).1 g gate,
      gather-Allows f.fail_policy f.evaluators c s allowed,
    )

    -- the state of the evaluators once the capabilities `before` have been filtered
    abbrev state_after : ℕ → List CapabilityView → RiskGate → S → S
    state_after i before g s = (filter_from agent_id context fresh f i before g s).1.1

    -- the capability `c'` is rightly shown among `cs`, filtered from the state `s` on
    pub Passes : ℕ → List CapabilityView → RiskGate → S → CapabilityView → Type 0
    Passes i cs g s c' =
        (before after : List CapabilityView) × (c : CapabilityView) × (cs ≡ before ++ c ∷ after)
        × (c' ≡ hinted f.inject_quality_score f.quality_cache c)
        × GatePasses context c
        × LetThrough f.fail_policy c f.evaluators (state_after i before g s)

    Passes-later :
        (i : ℕ) (c : CapabilityView) (cs : List CapabilityView) (g : RiskGate) (s : S)
        (c' : CapabilityView)
        → let (_, (g', s')) = pass_one agent_id context fresh f i c g s in
          Passes (suc i) cs g' s' c' → Passes i (c ∷ cs) g s c'
    unfolding Passes filter_from
    Passes-later i c cs g s c' (before, after, d, split, hint, gate, allowed) =
        (c ∷ before, after, d, ap (λ xs. c ∷ xs) split, hint, gate, allowed)

    filter_from-Passes :
        (i : ℕ) (cs : List CapabilityView) (g : RiskGate) (s : S) (c' : CapabilityView)
        → In c' (filter_from agent_id context fresh f i cs g s).0
        → Passes i cs g s c'
    unfolding filter_from Passes
    filter_from-Passes i [] g s c' h = absurd h
    filter_from-Passes i (c ∷ cs) g s c' h =
        let (passed, (g', s')) = pass_one agent_id context fresh f i c g s in
        elim (Option-cases passed) [
          | inl dropped ↦
              Passes-later i c cs g s c'
                (filter_from-Passes (suc i) cs g' s' c' (rw (dropped, filter_from) at h))
          | inr (d, kept) ↦ elim (rw (kept, filter_from) at h) [
            | inl same ↦
                let (hint, gate, allowed) = pass_one-LetThrough i c g s c' (kept ∙ rw same refl) in
                ([], cs, c, refl, hint, gate, allowed)
            | inr later ↦ Passes-later i c cs g s c' (filter_from-Passes (suc i) cs g' s' c' later)
          ]
        ]

    filter_from_allowed :
        (i : ℕ) (cs : List CapabilityView) (g : RiskGate) (s : S) (c : CapabilityView)
        → In c cs
        → GatePasses context c
        → All (Allows f.fail_policy c) f.evaluators
        → In
            (hinted f.inject_quality_score f.quality_cache c)
            (filter_from agent_id context fresh f i cs g s).0
    unfolding filter_from
    filter_from_allowed i [] g s c here gate allowed = absurd here
    filter_from_allowed i (d ∷ cs) g s c here gate allowed =
        let (passed, (g', s')) = pass_one agent_id context fresh f i d g s in
        elim here [
          | inl same ↦
              rw (← same, filter_from)
                (rw (pass_one_allowed i c g s gate allowed, filter_from) (inl refl))
          | inr later ↦
              let rest = filter_from_allowed (suc i) cs g' s' c later gate allowed in
              elim (Option-cases passed) [
                | inl dropped ↦ rw (dropped, filter_from) rest
                | inr (k, kept) ↦ rw (kept, filter_from) (inr rest)
              ]
        ]

    pub filter_capabilities-Passes :
        (cs : List CapabilityView) (g : RiskGate) (s : S) (c' : CapabilityView)
        → In c' (filter_capabilities agent_id context fresh f cs g s).0
        → Passes 0 cs g s c'
    unfolding filter_capabilities
    filter_capabilities-Passes = filter_from-Passes 0

    -- A capability that the gate lets pass and that every evaluator lets through in every state is
    -- shown.
    pub filter_capabilities_allowed :
        (cs : List CapabilityView) (g : RiskGate) (s : S) (c : CapabilityView)
        → In c cs
        → GatePasses context c
        → All (Allows f.fail_policy c) f.evaluators
        → In
            (hinted f.inject_quality_score f.quality_cache c)
            (filter_capabilities agent_id context fresh f cs g s).0
    unfolding filter_capabilities
    filter_capabilities_allowed = filter_from_allowed 0
