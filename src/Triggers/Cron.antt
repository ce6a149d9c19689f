-- ===== src/Triggers/Cron.antt =====
-- owlclaw/triggers/cron.py: runs of an agent that a clock starts. This module has the data (the
-- settings of a trigger, one execution) and the retry strategy. A weight and a rate are in millionths,
-- costs in a smallest step; `W` is the state of the runtime and of the fallback handlers.
pub mod Breaker
pub mod Constraints
pub mod Execution
pub mod Registry
pub mod Run
pub mod Scheduler
mod Tests
use owlclaw_core.Common.{
  ℕ, zero, suc, ◌*◌, Bool, not, Option, none, some, String, List, leb, if◌then◌else◌,
}
use Prim.Native.Nat.{min}
use owlclaw_core.Common.Int.{ℤ, to_ℕ}
use owlclaw_core.Common.Result.{Result}
use owlclaw_core.Common.Time.{Time}
use owlclaw_core.Common.Value.{Value}

-- `ExecutionStatus`
pub data ExecutionStatus : Type 0 where
  pending running success failed skipped fallback : ExecutionStatus

abbrev pub status_value : ExecutionStatus → String
status_value pending = "pending"
status_value running = "running"
status_value success = "success"
status_value failed = "failed"
status_value skipped = "skipped"
status_value fallback = "fallback"

-- the reasons for which a run is skipped, with the numbers that their texts show
pub data Reason : Type 0 where
  trigger_disabled no_fallback_handler breaker_open : Reason
  cooldown_not_satisfied : (now last : Time) (cooldown_seconds : ℕ) → Reason
  daily_runs_reached : (runs max_daily_runs : ℕ) → Reason
  daily_cost_reached : (cost max_daily_cost : ℤ) → Reason

-- `CronTriggerConfig`, less the description and the tags, which nothing reads. A fallback handler
-- may raise.
pub record CronTriggerConfig (W : Type 0) : Type 0 where
  pub event_name : String
  pub expression : String
  pub focus : Option String
  pub fallback_handler : Option (W → Result String (Unit {0}) × W)
  pub fallback_strategy : String
  pub migration_weight : ℕ
  pub max_cost_per_run : Option ℤ
  pub max_daily_cost : Option ℤ
  pub max_duration : Option ℕ
  pub cooldown_seconds : ℕ
  pub max_daily_runs : Option ℕ
  pub retry_on_failure : Bool
  pub max_retries : ℕ
  pub priority : ℤ
  pub enabled : Bool

-- `CronExecution`, less what nothing reads
pub record CronExecution : Type 0 where
  pub execution_id : String
  pub event_name : String
  pub triggered_at : Time
  pub status : ExecutionStatus
  pub payload : Value
  pub decision_mode : String
  pub started_at : Option Time
  pub agent_run_id : Option String
  pub llm_calls : ℕ
  pub cost_usd : ℤ
  pub governance_checks : List (String × Bool)
  pub skip_reason : Option Reason
  pub error_message : Option String

-- the class of an exception, as `should_retry` sees it
pub data ErrorKind : Type 0 where
  value_or_type_error other_error : ErrorKind

-- `RetryStrategy.should_retry`
unfoldable pub should_retry :
    ErrorKind → (retry_count max_retries : ℕ) → (retry_on_failure : Bool) → Bool
should_retry value_or_type_error retry_count max_retries retry_on_failure = Bool.false
should_retry other_error retry_count max_retries retry_on_failure =
    if not retry_on_failure then Bool.false else not (leb max_retries retry_count)

abbrev doubled : ℕ → ℕ → ℕ
doubled zero base = base
doubled (suc n) base = doubled n base * 2

-- `RetryStrategy.calculate_delay`: base * 2 ** retry_count, at most the maximum
unfoldable pub calculate_delay : (retry_count base_delay_seconds max_delay_seconds : ℤ) → ℕ
calculate_delay retry_count base_delay_seconds max_delay_seconds =
    min (doubled (to_ℕ retry_count) (to_ℕ base_delay_seconds)) (to_ℕ max_delay_seconds)
