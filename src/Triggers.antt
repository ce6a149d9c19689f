-- ===== src/Triggers.antt =====
-- owlclaw/triggers: what starts the runs of an agent.
pub mod Cron
pub mod DbChange
pub mod EventAggregator
pub mod Queue
pub mod Redaction
pub mod Signal
pub mod Webhook
