-- ===== src/Governance/Visibility/Tests.antt =====
-- A filter with one evaluator that shows what its budget covers, and the theorems at it.
use owlclaw_core.Common.{
  ℕ, ◌-◌, ◌≡◌, refl, inl, inr, true, false, none, some, String, List, [], ◌∷◌, leb, In,
  if◌then◌else◌,
}
use owlclaw_core.Common.Int.{pos}
use owlclaw_core.Common.Text.{strip, lower, is_blank, one_of}
use owlclaw_core.Common.Time.{Time}
use owlclaw_core.Security.RiskGate
use owlclaw_core.Security.RiskGate.{RiskGate, normalize}
use owlclaw_core.Governance.Visibility.{
  CapabilityView, Evaluator, RunContext, VisibilityFilter, result, shown, hidden, close_policy,
  filter_capabilities, hinted, safe_result, is_confirmed,
}
use owlclaw_core.Governance.Visibility.Filtering.{
  Passes, filter_capabilities-Passes, filter_capabilities_allowed,
}

abbrev gate : RiskGate
gate = RiskGate.init (pos 60) none "risk_gate"

abbrev capability : String → String → CapabilityView
capability name risk_level = record {
  name = name;
  description = "does it";
  task_type = "";
  constraints = [];
  focus = [];
  risk_level = risk_level;
  requires_confirmation = false;
}

-- a budget of calls
abbrev spend : Evaluator ℕ
spend c agent_id context n = (result (if leb 1 n then shown else hidden "spent"), n - 1)

abbrev always : Evaluator ℕ
always c agent_id context n = (result shown, n)

abbrev spending : VisibilityFilter ℕ
spending = record {
  fail_policy = close_policy;
  evaluators = spend ∷ [];
  inject_quality_score = false;
  quality_cache = [];
}

abbrev open_filter : VisibilityFilter ℕ
open_filter = record spending {
  evaluators = always ∷ [];
  inject_quality_score = true;
  quality_cache = ("look", "0.900") ∷ [];
}

abbrev context : RunContext
context = record { tenant_id = "t"; confirmed_capabilities = some ("pay" ∷ []) }

abbrev fresh : ℕ → String × Time
fresh i = ("op", i)

abbrev offered : List CapabilityView
offered = capability "pay" "critical" ∷ capability "drop" "critical" ∷ capability "look" "low" ∷ []

one_is_shown :
    (filter_capabilities "a" context fresh spending offered gate 1).0
    ≡ capability "pay" "critical" ∷ []
unfolding filter_capabilities RiskGate.evaluate strip lower is_blank one_of is_confirmed safe_result
one_is_shown = refl

filter_capabilities-Passes_example :
    Passes "a" context fresh spending 0 offered gate 1 (capability "pay" "critical")
unfolding filter_capabilities RiskGate.evaluate strip lower is_blank one_of is_confirmed safe_result
filter_capabilities-Passes_example =
    filter_capabilities-Passes "a" context fresh spending offered gate 1
      (capability "pay" "critical") (inl refl)

filter_capabilities_allowed_example :
    In
      (hinted true (("look", "0.900") ∷ []) (capability "look" "low"))
      (filter_capabilities "a" context fresh open_filter offered gate 0).0
unfolding is_confirmed safe_result strip lower is_blank one_of
filter_capabilities_allowed_example =
    filter_capabilities_allowed "a" context fresh open_filter offered gate 0
      (capability "look" "low") (inr (inr (inl refl))) (inr refl) ((λ s. refl), tt)
