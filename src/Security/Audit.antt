-- ===== src/Security/Audit.antt =====
-- owlclaw/security/audit.py: the events that the security components record, in memory. The file
-- that a backend may write is not modelled; an event's time is an argument.
use owlclaw_core.Common.{ℕ, Bool, String, List, [], ◌∷◌, ◌++◌}
use owlclaw_core.Common.Dict.{Dict}
use owlclaw_core.Common.Time.{Time}

-- a value of the details of an event
pub data Detail : Type 0 where
  text : String → Detail
  flag : Bool → Detail
  ratio : ℕ → Detail

pub record SecurityAuditEvent : Type 0 where
  pub event_type : String
  pub source : String
  pub details : Dict String Detail
  pub created_at : Time

abbrev pub SecurityAuditLog : Type 0
SecurityAuditLog = List SecurityAuditEvent

-- `SecurityAuditLog.record`
unfoldable pub record_event :
    String → String → Dict String Detail → Time → SecurityAuditLog → SecurityAuditLog
record_event event_type source details now events =
    events
    ++ record { event_type = event_type; source = source; details = details; created_at = now } ∷ []
