-- ===== src/Governance.antt =====
-- owlclaw/governance: what an agent may see and do, the approval of its decisions, and the record
-- of its runs.
pub mod ApprovalQueue
pub mod Ledger
pub mod LedgerWriter
pub mod Visibility
pub mod Constraints
