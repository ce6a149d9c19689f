-- ===== src/Governance/Constraints.antt =====
-- owlclaw/governance/constraints: the evaluators that decide, for one capability and one agent, if it
-- is shown now. A message's numbers are left out of the reasons of the refusals.
pub mod Budget
pub mod CircuitBreaker
pub mod RateLimit
pub mod RiskConfirmation
pub mod TradingHours
mod Tests
