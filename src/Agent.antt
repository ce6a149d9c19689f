-- ===== src/Agent.antt =====
-- owlclaw/agent/memory: what an agent keeps in mind, during a run and between runs.
pub mod Maintenance
pub mod MemoryStore
pub mod ShortTerm
