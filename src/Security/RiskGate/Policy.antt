-- ===== src/Security/RiskGate/Policy.antt =====
-- The decision of `evaluate` against the policy, level by level.
use owlclaw_core.Common.{
  ℕ, ◌≡◌, Bool, true, false, Option, none, some, String, arith, leb, if◌then◌else◌,
}
use owlclaw_core.Common.Dict.{contains, lookup-insert_self}
use owlclaw_core.Common.Eq.{string_eq, ◌==◌}
use owlclaw_core.Common.Text.{one_of}
use owlclaw_core.Common.Time.{Time}
use owlclaw_core.Security.RiskGate.{
  RiskGate, RiskDecision, execute, pause, reject, normalize, pause_operation, evaluate,
}

pub data RiskLevel : Type 0 where
  low medium high critical unknown : RiskLevel

abbrev pub level_of : String → RiskLevel
level_of s =
    if s == "critical"
    then critical
    else if s == "high"
    then high
    else if s == "medium"
    then medium
    else if s == "low"
    then low
    else unknown

-- what the policy says of a level, given whether the capability demands a confirmation and whether
-- four fifths of the budget are spent
abbrev pub policy : RiskLevel → (confirmation expensive : Bool) → RiskDecision
policy critical _ _ = pause
policy _ true _ = pause
policy high false true = pause
policy high false false = execute
policy medium false _ = execute
policy low false _ = execute
policy unknown false _ = reject

-- the operation that a decision leaves waiting
abbrev pub Held : RiskDecision → String → Option String → RiskGate → RiskGate → Type 0
Held pause id waiting g g' = (waiting ≡ some id) × (contains id g'.pending ≡ true)
Held _ id waiting g g' = (waiting ≡ none) × (g'.pending ≡ g.pending)

pause_operation-contains :
    (name level reason id : String) (now : Time) (g : RiskGate)
    → contains id (pause_operation name level reason id now g).pending ≡ true
unfolding pause_operation
pause_operation-contains name level reason id now g = rw (lookup-insert_self id _ g.pending)

module _ (name risk_level : String) (confirmation : Bool) (ratio : ℕ) (id : String) (now : Time)
    (g : RiskGate) where
  -- `evaluate` follows the policy, whatever the spelling of the level; if the operation is to
  -- wait, its id is given and is pending, and otherwise no id is given and nothing is pending anew.
  pub evaluate-policy :
      let ((decision, waiting), g') = evaluate name risk_level confirmation ratio id now g in
      (decision ≡ policy (level_of (normalize risk_level)) confirmation (leb 800000 ratio))
      × Held decision id waiting g g'
  unfolding evaluate one_of
  evaluate-policy = (
    ground arith,
    ground (
      arith,
      pause_operation-contains name (normalize risk_level) "critical capability" id now g,
      pause_operation-contains name (normalize risk_level) "manual confirmation required" id now g,
      pause_operation-contains name (normalize risk_level) "budget ratio exceeds threshold" id now
          g,
    ),
  )
