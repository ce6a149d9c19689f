-- ===== src/Security/RiskGate.antt =====
-- owlclaw/security/risk_gate.py: which operations run at once, wait for a confirmation or are
-- refused. The clock and the new ids are arguments; a budget ratio is in millionths.
pub mod Policy
pub mod Confirmation
mod Tests
use owlclaw_core.Common.{
  ℕ, ◌-◌, Bool, true, false, not, ◌&&◌, ◌||◌, Option, none, some, String, List, [], ◌∷◌, ltb, leb,
  is_some, if◌then◌else◌, length,
}
use Prim.Native.Nat.{max}
use owlclaw_core.Common.Dict.{Dict, lookup, insert, erase, contains}
use owlclaw_core.Common.Eq.{string_eq, ◌==◌}
use owlclaw_core.Common.Int.{ℤ, to_ℕ}
use owlclaw_core.Common.Text.{strip, lower, is_blank, one_of}
use owlclaw_core.Common.Time.{Time, seconds}
use owlclaw_core.Security.Audit.{SecurityAuditLog, Detail, text, flag, ratio, record_event}

pub data RiskDecision : Type 0 where
  execute pause reject : RiskDecision

pub record PendingRiskOperation : Type 0 where
  pub operation_id : String
  pub created_at : Time
  pub capability_name : String
  pub risk_level : String
  pub reason : String

-- `audit_log` is `none` where the gate has no log
pub record RiskGate : Type 0 where
  pub timeout : ℕ
  pub pending : Dict String PendingRiskOperation
  pub audit_log : Option SecurityAuditLog
  pub audit_source : String

pub init : ℤ → Option SecurityAuditLog → String → RiskGate
init confirmation_timeout_seconds audit_log audit_source = record {
  timeout = max 1 (to_ℕ confirmation_timeout_seconds);
  pending = [];
  audit_log = audit_log;
  audit_source = audit_source;
}

-- `_audit`
audit : String → Dict String Detail → Time → RiskGate → RiskGate
audit event_type details now g = record g {
  audit_log = elim g.audit_log [
    | none ↦ none
    | some log ↦ some (record_event event_type g.audit_source details now log)
  ];
}

-- `_pause`
pause_operation : (name level reason id : String) → Time → RiskGate → RiskGate
unfolding audit
pause_operation name level reason id now g =
    let operation : PendingRiskOperation = record {
      operation_id = id;
      created_at = now;
      capability_name = name;
      risk_level = level;
      reason = reason;
    } in
    audit "risk_paused"
      (("operation_id", text id)
        ∷ ("capability_name", text name)
        ∷ ("risk_level", text level)
        ∷ ("reason", text reason)
        ∷ [])
      now (record g { pending = insert id operation g.pending })

-- (risk_level or "low").strip().lower()
abbrev pub normalize : String → String
normalize risk_level = lower (strip (if is_blank risk_level then "low" else risk_level))

-- the id is that of the operation that waits
unfoldable pub evaluate :
    (capability_name risk_level : String) (requires_confirmation : Bool) (budget_ratio : ℕ)
    (id : String) (now : Time)
    → RiskGate
    → (RiskDecision × Option String) × RiskGate
unfolding pause_operation audit
evaluate name risk_level requires_confirmation budget_ratio id now g =
    let normalized = normalize risk_level in
    if normalized == "critical"
    then ((pause, some id), pause_operation name normalized "critical capability" id now g)
    else if requires_confirmation
    then ((pause, some id), pause_operation name normalized "manual confirmation required" id now g)
    else if normalized == "high" && leb 800000 budget_ratio
    then (
      (pause, some id),
      pause_operation name normalized "budget ratio exceeds threshold" id now g,
    )
    else if not (one_of normalized "low" "medium" "high" "critical")
    then (
      (reject, none),
      audit "risk_rejected"
          (("capability_name", text name)
            ∷ ("risk_level", text normalized)
            ∷ ("reason", text "unsupported_risk_level")
            ∷ [])
          now g,
    )
    else (
      (execute, none),
      audit "risk_executed"
          (("capability_name", text name)
            ∷ ("risk_level", text normalized)
            ∷ ("requires_confirmation", flag requires_confirmation)
            ∷ ("budget_ratio", ratio budget_ratio)
            ∷ [])
          now g,
    )

abbrev pub is_stale : ℕ → Time → PendingRiskOperation → Bool
is_stale timeout now operation = ltb operation.created_at (now - seconds timeout)

expired_ids : ℕ → Time → Dict String PendingRiskOperation → List String
expired_ids timeout now [] = []
expired_ids timeout now ((id, operation) ∷ pending) =
    if is_stale timeout now operation
    then id ∷ expired_ids timeout now pending
    else expired_ids timeout now pending

-- the loop of `_expire_pending`
drop_expired : List String → Time → RiskGate → RiskGate
unfolding audit
drop_expired [] now g = g
drop_expired (id ∷ ids) now g = drop_expired ids now (
    audit "risk_timeout" (("operation_id", text id) ∷ []) now
      (record g { pending = erase id g.pending }))

expire_pending : Time → RiskGate → RiskGate
unfolding expired_ids drop_expired
expire_pending now g = drop_expired (expired_ids g.timeout now g.pending) now g

-- the common part of `confirm` and `reject`: the events for an operation found and for one missing
settle : (found missing : String) → String → Time → RiskGate → Bool × RiskGate
unfolding expire_pending audit
settle found missing id now g =
    let g' = expire_pending now g in
    let success = contains id g'.pending in
    (
      success,
      audit (if success then found else missing) (("operation_id", text id) ∷ []) now
          (record g' { pending = erase id g'.pending }),
    )

pub confirm : String → Time → RiskGate → Bool × RiskGate
unfolding settle
confirm = settle "risk_confirmed" "risk_confirm_missing"

pub reject_operation : String → Time → RiskGate → Bool × RiskGate
unfolding settle
reject_operation = settle "risk_rejected_manual" "risk_reject_missing"

pub pending_count : Time → RiskGate → ℕ × RiskGate
unfolding expire_pending
pending_count now g = let g' = expire_pending now g in (length g'.pending, g')
