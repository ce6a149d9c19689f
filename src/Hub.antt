-- ===== src/Hub.antt =====
-- owlclaw/owlhub: the catalogue in which skills are published.
pub mod Review
pub mod ReviewId
