-- ===== src/Governance/Constraints/RiskConfirmation.antt =====
-- owlclaw/governance/constraints/risk_confirmation.py: risky capabilities wait for a confirmation.
use owlclaw_core.Common.{Bool, not, ◌&&◌, ◌||◌, String, if◌then◌else◌}
use owlclaw_core.Common.Eq.{string_eq, ◌==◌}
use owlclaw_core.Common.Text.{strip, lower, is_blank}
use owlclaw_core.Governance.Visibility.{
  FilterResult, RunContext, CapabilityView, is_confirmed, shown, hidden,
}

abbrev pub risk_level_of : CapabilityView → String
risk_level_of c = lower (strip (if is_blank c.risk_level then "low" else c.risk_level))

abbrev pub demands_confirmation : Bool → CapabilityView → Bool
demands_confirmation enforce c =
    c.requires_confirmation
    || (enforce && (risk_level_of c == "high" || risk_level_of c == "critical"))

-- `enforce` is `enforce_high_risk_confirmation`
unfoldable pub evaluate : (enforce : Bool) → CapabilityView → RunContext → FilterResult
evaluate enforce c context =
    if not (demands_confirmation enforce c)
    then shown
    else if is_confirmed context c.name
    then shown
    else hidden "requires_confirmation"
