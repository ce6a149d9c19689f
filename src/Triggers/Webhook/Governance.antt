-- ===== src/Triggers/Webhook/Governance.antt =====
-- owlclaw/triggers/webhook/governance.py: the policy is asked before a webhook starts a run. `C` is the
-- context of the request; `W` is the state of the policy and of the audit sink.
pub mod FailsClosed
use owlclaw_core.Common.{
  ℕ, Bool, true, false, not, Option, none, some, String, List, [], ◌∷◌, ◌++◌, leb, if◌then◌else◌,
}
use Prim.Native.String.{◌++◌ as join}
use owlclaw_core.Common.Result.{Result, ok, err}
use owlclaw_core.Common.Text.{is_blank}
use owlclaw_core.Triggers.Webhook.{ValidationError, ValidationResult, valid, invalid, failing}

-- `GovernanceDecision`, less the limits of the policy
pub record GovernanceDecision : Type 0 where
  pub allowed : Bool
  pub status_code : ℕ
  pub reason : Option String

-- what a call of the policy ends with: an answer in time (what it has of the three keys), or an
-- exception, which may be that the time was over
pub record RawAnswer : Type 0 where
  pub allowed : Option Bool
  pub status_code : Option ℕ
  pub reason : Option String

pub data Failure : Type 0 where
  timed_out : Failure
  raised : String → Failure

abbrev or_else {ℓ} : {A : Type ℓ} → Option A → A → A
or_else none a = a
or_else (some b) a = b

-- `_coerce_decision`
unfoldable pub coerce_decision : RawAnswer → GovernanceDecision
coerce_decision raw =
    if or_else raw.allowed true
    then record { allowed = true; status_code = 200; reason = raw.reason }
    else record {
      allowed = false;
      status_code = or_else raw.status_code 403;
      reason = some (or_else raw.reason "governance rejected");
    }

-- `_invoke_policy_call`
unfoldable pub invoke_policy_call : Result Failure RawAnswer → GovernanceDecision
unfolding coerce_decision
invoke_policy_call (ok raw) = coerce_decision raw
invoke_policy_call (err timed_out) = record {
  allowed = false;
  status_code = 503;
  reason = some "governance timeout";
}
invoke_policy_call (err (raised e)) = record {
  allowed = false;
  status_code = 503;
  reason = some (join "governance unavailable: " e);
}

-- decision.reason or default_code.lower()
abbrev message_of : Option String → String → String
message_of none default_message = default_message
message_of (some r) default_message = if is_blank r then default_message else r

-- `_to_validation`; the lower-case code is given too
to_validation : GovernanceDecision → (default_code lowered : String) → ValidationResult
to_validation d default_code lowered =
    failing default_code (message_of d.reason lowered)
      (if leb 400 d.status_code then d.status_code else 403)

-- a policy and an audit sink, either of which may be missing
pub record Policy (C W : Type 0) : Type 0 where
  pub check_permission : C → W → Result Failure RawAnswer × W
  pub check_rate_limit : C → W → Result Failure RawAnswer × W

pub record GovernanceClient (C W : Type 0) : Type 0 where
  pub policy : Option (Policy C W)
  pub audit : Option (C → GovernanceDecision → W → W)

module _ {C W : Type 0} (client : GovernanceClient C W) (context : C) where
  abbrev no_policy : GovernanceDecision
  no_policy = record { allowed = true; status_code = 200; reason = none }

  pub check_permission : W → GovernanceDecision × W
  check_permission w = elim client.policy [
    | none ↦ (no_policy, w)
    | some p ↦ let (answer, w') = p.check_permission context w in (invoke_policy_call answer, w')
  ]

  pub check_rate_limit : W → GovernanceDecision × W
  check_rate_limit w = elim client.policy [
    | none ↦ (no_policy, w)
    | some p ↦ let (answer, w') = p.check_rate_limit context w in (invoke_policy_call answer, w')
  ]

  -- `audit_log`
  audit_log : GovernanceDecision → W → W
  audit_log d w = elim client.audit [ none ↦ w | some record_event ↦ record_event context d w ]

  after_rate_limit : GovernanceDecision × W → ValidationResult × W
  unfolding audit_log to_validation
  after_rate_limit (d, w) =
      if not d.allowed then (to_validation d "RATE_LIMITED" "rate_limited", audit_log d w) else (
        valid,
        audit_log (record { allowed = true; status_code = 200; reason = some "allowed" }) w,
      )

  after_permission : GovernanceDecision × W → ValidationResult × W
  unfolding audit_log to_validation
  after_permission (d, w) =
      if not d.allowed
      then (to_validation d "GOVERNANCE_REJECTED" "governance_rejected", audit_log d w)
      else after_rate_limit (check_rate_limit w)

  -- `validate_execution`
  pub validate_execution : W → ValidationResult × W
  unfolding check_permission after_permission
  validate_execution w = after_permission (check_permission w)
