-- ===== src/Triggers/Webhook/Governance/FailsClosed.antt =====
-- When a webhook may start a run.
use owlclaw_core.Common.{◌≡◌, ◌↔◌, refl, true, some, arith}
use owlclaw_core.Common.Result.{Result, ok, err}
use owlclaw_core.Triggers.Webhook.{valid}
use owlclaw_core.Triggers.Webhook.Governance.{
  GovernanceDecision, RawAnswer, Failure, GovernanceClient, Policy, coerce_decision,
  invoke_policy_call, or_else, to_validation, check_permission, check_rate_limit, after_rate_limit,
  after_permission, validate_execution,
}

-- the policy answered, and did not forbid it
abbrev pub Allows : Result Failure RawAnswer → Type 0
Allows (ok raw) = or_else raw.allowed true ≡ true
Allows (err _) = ⊥

invoke_policy_call-allowed :
    (answer : Result Failure RawAnswer)
    → ((invoke_policy_call answer).allowed ≡ true) ↔ Allows answer
unfolding invoke_policy_call coerce_decision
invoke_policy_call-allowed (ok raw) = ground arith
invoke_policy_call-allowed (err Failure.timed_out) = ground arith
invoke_policy_call-allowed (err (Failure.raised e)) = ground arith

-- the decision that a call of `validate_execution` writes to the audit log
abbrev pub allowed_decision : GovernanceDecision
allowed_decision = record { allowed = true; status_code = 200; reason = some "allowed" }

module _ {C W : Type 0} (client : GovernanceClient C W) (context : C) (p : Policy C W)
    (has_policy : client.policy ≡ some p) where
  abbrev pub permission : W → Result Failure RawAnswer × W
  permission w = p.check_permission context w

  abbrev pub rate_limit : W → Result Failure RawAnswer × W
  rate_limit w = p.check_rate_limit context (permission w).1

  validate_execution-eq :
      (w : W)
      → validate_execution client context w
        ≡ after_permission client context (invoke_policy_call (permission w).0, (permission w).1)
  unfolding validate_execution check_permission
  validate_execution-eq w = rw has_policy refl

  check_rate_limit-eq :
      (w : W)
      → check_rate_limit client context w
        ≡ (invoke_policy_call (p.check_rate_limit context w).0, (p.check_rate_limit context w).1)
  unfolding check_rate_limit
  check_rate_limit-eq w = rw has_policy refl

  after_rate_limit-valid_iff :
      (answer : GovernanceDecision × W)
      → ((after_rate_limit client context answer).0 ≡ valid) ↔ (answer.0.allowed ≡ true)
  unfolding after_rate_limit to_validation
  after_rate_limit-valid_iff (d, w) = ground arith

  after_permission-valid_iff :
      (answer : GovernanceDecision × W)
      → ((after_permission client context answer).0 ≡ valid) ↔ (
          (answer.0.allowed ≡ true) × ((check_rate_limit client context answer.1).0.allowed ≡ true))
  unfolding after_permission to_validation
  after_permission-valid_iff (d, w) =
      ground (arith, after_rate_limit-valid_iff (check_rate_limit client context w))

  pub validate_execution-valid_iff :
      (w : W)
      → ((validate_execution client context w).0 ≡ valid)
        ↔ (Allows (permission w).0 × Allows (rate_limit w).0)
  validate_execution-valid_iff w =
      let settled =
        after_permission-valid_iff (invoke_policy_call (permission w).0, (permission w).1) in
      let first = invoke_policy_call-allowed (permission w).0 in
      let second : ((check_rate_limit client context (permission w).1).0.allowed ≡ true)
          ↔ Allows (rate_limit w).0 =
        rw (check_rate_limit-eq (permission w).1) (invoke_policy_call-allowed (rate_limit w).0) in
      rw (validate_execution-eq w) (
        λ e. (first.0 (settled.0 e).0, second.0 (settled.0 e).1),
        λ both. settled.1 (first.1 both.0, second.1 both.1),
      )
