-- ===== src/Security/RiskGate/Tests.antt =====
-- A gate with no log and one operation that waits, and the theorems at it.
use owlclaw_core.Common.{◌+◌, ◌≡◌, refl, false, none, [], ◌∷◌, leb}
use owlclaw_core.Common.Dict.{lookup, erase}
use owlclaw_core.Common.Int.{negsuc}
use owlclaw_core.Common.Text.{strip, lower, is_blank, one_of}
use owlclaw_core.Security.RiskGate.{
  RiskGate, execute, reject, init, normalize, evaluate, confirm, pending_count,
}
use owlclaw_core.Security.RiskGate.Policy.{policy, level_of, Held, evaluate-policy}
use owlclaw_core.Security.RiskGate.Confirmation.{confirm-evaluate}

abbrev gate : RiskGate
gate = record {
  timeout = 300;
  pending =
      (
        "op",
        record {
          operation_id = "op";
          created_at = 1;
          capability_name = "pay";
          risk_level = "critical";
          reason = "critical capability";
        },
      )
      ∷ [];
  audit_log = none;
  audit_source = "risk_gate";
}

evaluate-policy_example :
    let ((decision, waiting), g') = evaluate "pay" " High " false 900000 "op2" 5 gate in
    (decision ≡ policy (level_of (normalize " High ")) false (leb 800000 900000))
    × Held decision "op2" waiting gate g'
evaluate-policy_example = evaluate-policy "pay" " High " false 900000 "op2" 5 gate

confirm-evaluate_example :
    (confirm "op2" 300000005 (evaluate "pay" "critical" false 0 "op2" 5 gate).1).0
    ≡ leb 300000005 (5 + 300000000)
unfolding lookup evaluate strip lower is_blank
confirm-evaluate_example =
    confirm-evaluate "pay" "critical" false 0 "op2" 5 300000005 gate (refl, tt) refl

levels :
    ((evaluate "f" "" false 900000 "x" 5 gate).0 ≡ (execute, none))
    × ((evaluate "f" "HIGH" false 799999 "x" 5 gate).0 ≡ (execute, none))
    × ((evaluate "f" "severe" false 0 "x" 5 gate).0 ≡ (reject, none))
unfolding evaluate strip lower is_blank one_of
levels = (refl, refl, refl)

timeout_at_least_one : (init (negsuc 4) none "risk_gate").timeout ≡ 1
unfolding init
timeout_at_least_one = refl

count_after_timeout : (pending_count 300000001 gate).0 ≡ 1
unfolding pending_count erase
count_after_timeout = refl

none_after_timeout : (pending_count 300000002 gate).0 ≡ 0
unfolding pending_count erase
none_after_timeout = refl
