-- ===== src/Security.antt =====
-- owlclaw/security: the gate in front of risky operations and the audit trail.
pub mod Audit
pub mod RiskGate
