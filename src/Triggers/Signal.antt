-- ===== src/Triggers/Signal.antt =====
-- owlclaw/triggers/signal/models.py: what an operator asks of an agent by hand.
pub mod State
pub mod Handlers
pub mod Router
mod Tests
use owlclaw_core.Common.{ℕ, ◌+◌, Bool, false, Option, String, leb}
use owlclaw_core.Common.Int.{ℤ}
use owlclaw_core.Common.Time.{Time, seconds}

pub data SignalType : Type 0 where
  pause resume trigger instruct : SignalType

pub data SignalSource : Type 0 where
  cli api mcp : SignalSource

pub record Signal : Type 0 where
  pub type : SignalType
  pub source : SignalSource
  pub agent_id : String
  pub tenant_id : String
  pub operator : String
  pub message : String
  pub focus : Option String
  pub ttl_seconds : ℤ
  pub id : String
  pub created_at : Time

pub record SignalResult : Type 0 where
  pub status : String
  pub message : Option String
  pub run_id : Option String
  pub error_code : Option String

pub record PendingInstruction : Type 0 where
  pub content : String
  pub operator : String
  pub source : SignalSource
  pub created_at : Time
  pub expires_at : Time
  pub consumed : Bool

-- `PendingInstruction.create`
unfoldable pub create_instruction :
    (content operator : String) → SignalSource → (ttl_seconds : ℕ) → Time → PendingInstruction
create_instruction content operator source ttl_seconds now = record {
  content = content;
  operator = operator;
  source = source;
  created_at = now;
  expires_at = now + seconds ttl_seconds;
  consumed = false;
}

-- `PendingInstruction.is_expired`
abbrev pub is_expired : Time → PendingInstruction → Bool
is_expired now i = leb i.expires_at now
