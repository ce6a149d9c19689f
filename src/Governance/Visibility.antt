-- ===== src/Governance/Visibility.antt =====
-- owlclaw/governance/visibility.py: which capabilities an agent is shown. An evaluator is a function
-- on a state that all share, so that one with a state of its own (a budget, a circuit) can change
-- it; they are run one after the other, in the order in which `asyncio.gather` starts them.
pub mod Filtering
mod Tests
use owlclaw_core.Common.{
  ℕ, suc, Bool, true, false, not, ◌&&◌, ◌||◌, Option, none, some, String, List, [], ◌∷◌, ◌++◌,
  filter, any, all, map, is_some, if◌then◌else◌,
}
use Prim.Native.String.{◌++◌ as join}
use text.Mathlib.Text.{find?}
use owlclaw_core.Common.Dict.{Dict, lookup}
use owlclaw_core.Common.Eq.{string_eq, ◌==◌}
use owlclaw_core.Common.Result.{Result, ok, err}
use owlclaw_core.Common.Text.{strip, lower, is_blank, one_of}
use owlclaw_core.Common.Time.{Time}
use owlclaw_core.Common.Value.{Value}
use owlclaw_core.Security.RiskGate
use owlclaw_core.Security.RiskGate.{RiskGate, RiskDecision, execute, pause, reject}

pub record FilterResult : Type 0 where
  pub visible : Bool
  pub reason : String

abbrev pub shown : FilterResult
shown = record { visible = true; reason = "" }

abbrev pub hidden : String → FilterResult
hidden reason = record { visible = false; reason = reason }

-- `s in xs`
abbrev pub is_member : String → List String → Bool
is_member s = any (λ t. s == t)

pub record RunContext : Type 0 where
  pub tenant_id : String
  pub confirmed_capabilities : Option (List String)

pub data Error : Type 0 where
  bad_tenant bad_policy : Error

-- the set comprehension of `__post_init__`; a set is a list here
strip_names : List String → List String
strip_names names = filter (λ s. not (is_blank s)) (map strip names)

abbrev set_or_none : List String → Option (List String)
set_or_none [] = none
set_or_none (s ∷ rest) = some (s ∷ rest)

-- `RunContext(...)` with `__post_init__`
pub make_context : String → Option (List String) → Result Error RunContext
unfolding strip_names
make_context tenant_id confirmed =
    if is_blank (strip tenant_id)
    then err bad_tenant
    else ok (record {
      tenant_id = strip tenant_id;
      confirmed_capabilities = elim confirmed [
        | none ↦ none
        | some names ↦ set_or_none (strip_names names)
      ];
    })

unfoldable pub is_confirmed : RunContext → String → Bool
is_confirmed context name = elim context.confirmed_capabilities [
  | none ↦ false
  | some names ↦ not (is_blank (strip name)) && is_member (strip name) names
]

-- `_coerce_risk_level`, of a text
unfoldable pub coerce_risk_level : Option String → String
coerce_risk_level none = "low"
coerce_risk_level (some value) =
    let normalized = lower (strip value) in
    if one_of normalized "low" "medium" "high" "critical" then normalized else "low"

-- the loop of `_coerce_focus` over a list
collect_focus : List String → (seen out : List String) → List String
collect_focus [] seen out = out
collect_focus (item ∷ items) seen out =
    let normalized = strip item in
    let skip = is_blank normalized || is_member normalized seen in
    collect_focus items (if skip then seen else normalized ∷ seen)
      (if skip then out else out ++ normalized ∷ [])

unfoldable pub coerce_focus : List String → List String
unfolding collect_focus
coerce_focus items = collect_focus items [] []

-- the constraints of a capability, by name
pub record CapabilityView : Type 0 where
  pub name : String
  pub description : String
  pub task_type : String
  pub constraints : Dict String Value
  pub focus : List String
  pub risk_level : String
  pub requires_confirmation : Bool

-- `CapabilityView.__init__`
pub make_view :
    (name description : String)
    → Option String
    → Dict String Value
    → List String
    → Option String
    → Bool
    → CapabilityView
make_view name description task_type constraints focus risk_level requires_confirmation = record {
  name = name;
  description = description;
  task_type = elim task_type [ none ↦ "" | some t ↦ t ];
  constraints = constraints;
  focus = coerce_focus focus;
  risk_level = coerce_risk_level risk_level;
  requires_confirmation = requires_confirmation;
}

pub data FailPolicy : Type 0 where
  open_policy close_policy : FailPolicy

-- the test of `fail_policy` in `VisibilityFilter.__init__`
pub parse_policy : String → Result Error FailPolicy
parse_policy fail_policy =
    let normalized = lower (strip fail_policy) in
    if normalized == "open"
    then ok open_policy
    else if normalized == "close"
    then ok close_policy
    else err bad_policy

-- how a call of an evaluator ends: a result, something that is no result, an exception, or no
-- answer in time
pub data Evaluation : Type 0 where
  result : FilterResult → Evaluation
  invalid_result raised timed_out : Evaluation

-- `_handle_evaluator_failure`
unfoldable pub on_failure : FailPolicy → FilterResult
on_failure close_policy = hidden "constraint_evaluator_error"
on_failure open_policy = shown

-- `_safe_evaluate`
unfoldable pub safe_result : FailPolicy → Evaluation → FilterResult
unfolding on_failure
safe_result policy (result r) = r
safe_result policy invalid_result = on_failure policy
safe_result policy raised = on_failure policy
safe_result policy timed_out = on_failure policy

module _ (S : Type 0) where
  abbrev pub Evaluator : Type 0
  Evaluator = CapabilityView → String → RunContext → S → Evaluation × S

-- `_evaluate_risk_gate`; the id and the time are for an operation that the gate holds back
unfoldable pub evaluate_risk_gate :
    CapabilityView → RunContext → (id : String) → Time → RiskGate → Option String × RiskGate
evaluate_risk_gate capability context id now gate =
    if is_confirmed context capability.name
    then (none, gate)
    else let ((decision, _), gate') =
        RiskGate.evaluate capability.name capability.risk_level capability.requires_confirmation 0
          id now gate in
      (
        elim decision [
          | execute ↦ none
          | pause ↦ some "requires_confirmation"
          | reject ↦ some "risk_rejected"
        ],
        gate',
      )

-- the quality scores to add to the descriptions, as the texts that `f"{score:.3f}"` gives
abbrev pub QualityCache : Type 0
QualityCache = Dict String String

pub record VisibilityFilter (S : Type 0) : Type 0 where
  pub fail_policy : FailPolicy
  pub evaluators : List (Evaluator S)
  pub inject_quality_score : Bool
  pub quality_cache : QualityCache

module _ {S : Type 0} where
  -- `asyncio.gather` over the evaluators, and the reasons of those that say no
  gather :
      FailPolicy
      → List (Evaluator S)
      → CapabilityView
      → String
      → RunContext
      → S
      → List FilterResult × S
  gather policy [] capability agent_id context s = ([], s)
  gather policy (evaluator ∷ evaluators) capability agent_id context s =
      let (evaluation, s₁) = evaluator capability agent_id context s in
      let (results, s₂) = gather policy evaluators capability agent_id context s₁ in
      (safe_result policy evaluation ∷ results, s₂)

-- `_inject_quality_hint`: the description with the hint, unless it has it already
add_hint : String → CapabilityView → CapabilityView
add_hint hint capability =
    if is_some (find? capability.description hint)
    then capability
    else if is_blank capability.description
    then record capability { description = hint }
    else record capability { description = join capability.description (join " " hint) }

pub inject_quality_hint : QualityCache → CapabilityView → CapabilityView
unfolding add_hint
inject_quality_hint cache capability = elim (lookup capability.name cache) [
  | none ↦ capability
  | some score ↦ add_hint (join "[quality_score=" (join score "]")) capability
]

abbrev pub hinted : Bool → QualityCache → CapabilityView → CapabilityView
hinted inject cache capability = if inject then inject_quality_hint cache capability else capability

abbrev append_some : Option CapabilityView → List CapabilityView → List CapabilityView
append_some none rest = rest
append_some (some c) rest = c ∷ rest

module _ {S : Type 0} (agent_id : String) (context : RunContext) (fresh : ℕ → String × Time) where
  -- the body of the loop of `filter_capabilities`; `fresh i` is the id and the time that the gate
  -- reads for the `i`th capability
  pass_one :
      VisibilityFilter S
      → ℕ
      → CapabilityView
      → RiskGate
      → S
      → Option CapabilityView × (RiskGate × S)
  unfolding gather evaluate_risk_gate
  pass_one f i capability gate s =
      let (blocked, gate') = evaluate_risk_gate capability context (fresh i).0 (fresh i).1 gate in
      if is_some blocked
      then (none, (gate', s))
      else let (results, s') = gather f.fail_policy f.evaluators capability agent_id context s in
        (
          if all (λ (r : FilterResult). r.visible) results
              then some (hinted f.inject_quality_score f.quality_cache capability)
              else none,
          (gate', s'),
        )

  filter_from :
      VisibilityFilter S
      → ℕ
      → List CapabilityView
      → RiskGate
      → S
      → List CapabilityView × (RiskGate × S)
  unfolding pass_one
  filter_from f i [] gate s = ([], (gate, s))
  filter_from f i (capability ∷ capabilities) gate s =
      let (passed, (gate', s')) = pass_one f i capability gate s in
      let (rest, after) = filter_from f (suc i) capabilities gate' s' in
      (append_some passed rest, after)

  pub filter_capabilities :
      VisibilityFilter S → List CapabilityView → RiskGate → S → List CapabilityView × (RiskGate × S)
  unfolding filter_from
  filter_capabilities f capabilities gate s = filter_from f 0 capabilities gate s
