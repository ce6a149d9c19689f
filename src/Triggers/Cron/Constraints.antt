-- ===== src/Triggers/Cron/Constraints.antt =====
-- `_check_constraints_core` of owlclaw/triggers/cron.py: the cooldown, the daily limits and the
-- breaker, from what the ledger has recorded. With no ledger only the breaker counts.
pub mod Limits
use owlclaw_core.Common.{
  ℕ, ◌+◌, ◌/◌, Bool, true, false, not, ◌||◌, Option, none, some, String, List, [], ◌∷◌, ◌++◌, leb,
  ltb, if◌then◌else◌, length,
}
use owlclaw_core.Common.Eq.{string_eq, ◌==◌}
use owlclaw_core.Common.Int.{ℤ, pos, ◌+ℤ◌, leb_ℤ}
use owlclaw_core.Common.Text.{strip, lower}
use owlclaw_core.Common.Time.{Time, Date, seconds}
use owlclaw_core.Governance.Ledger.{LedgerApi, LedgerRecord, no_filters}
use owlclaw_core.Triggers.Cron.{
  CronTriggerConfig, Reason, breaker_open, cooldown_not_satisfied, daily_runs_reached,
  daily_cost_reached,
}
use owlclaw_core.Triggers.Cron.Breaker
use owlclaw_core.Triggers.Cron.Breaker.{CircuitBreaker, is_failure}

-- the first record that did not fail
unfoldable pub first_success : List LedgerRecord → Option LedgerRecord
first_success [] = none
first_success (r ∷ rs) = if not (is_failure r) then some r else first_success rs

-- `_get_last_successful_execution`
unfoldable pub last_success : LedgerApi → (tenant_id event_name : String) → Option LedgerRecord
unfolding first_success
last_success ledger tenant_id event_name = first_success (
    ledger.query tenant_id (record no_filters {
      capability_name = some event_name;
      order_by = some "created_at DESC";
      limit = some 20;
    }))

-- the query of `_count_today_executions` and `_sum_today_cost`
abbrev pub today_records : LedgerApi → (tenant_id event_name : String) → Date → List LedgerRecord
today_records ledger tenant_id event_name day = ledger.query tenant_id (record no_filters {
  capability_name = some event_name;
  start_date = some day;
  end_date = some day;
})

-- sum(r.estimated_cost for r in records)
unfoldable pub sum_costs : List LedgerRecord → ℤ
sum_costs [] = pos 0
sum_costs (r ∷ rs) = r.estimated_cost +ℤ sum_costs rs

-- the day of a time
abbrev pub day_of : Time → Date
day_of t = t / 86400000000

-- the checks that were made, and the reason if one of them failed
abbrev pub Verdict : Type 0
Verdict = List (String × Bool) × Option Reason

-- one check, before the others: it is noted, and the first that fails ends the checks
abbrev pub and_then : String → Option Reason → Verdict → Verdict
and_then name none (checks, verdict) = ((name, true) ∷ checks, verdict)
and_then name (some reason) rest = ((name, false) ∷ [], some reason)

module _ {W : Type 0} (ledger : LedgerApi) (tenant_id : String) (config : CronTriggerConfig W) where
  since_last : Option LedgerRecord → Time → Option Reason
  since_last none now = none
  since_last (some r) now =
      if ltb now (r.created_at + seconds config.cooldown_seconds)
      then some (cooldown_not_satisfied now r.created_at config.cooldown_seconds)
      else none

  cooldown : Time → Option Reason
  unfolding since_last
  cooldown now = since_last (last_success ledger tenant_id config.event_name) now

  daily_runs : Date → ℕ → Option Reason
  daily_runs day max =
      let runs = length (today_records ledger tenant_id config.event_name day) in
      if leb max runs then some (daily_runs_reached runs max) else none

  daily_cost : Date → ℤ → Option Reason
  daily_cost day max =
      let cost = sum_costs (today_records ledger tenant_id config.event_name day) in
      if leb_ℤ max cost then some (daily_cost_reached cost max) else none

  check_cooldown : Time → Verdict → Verdict
  unfolding cooldown
  check_cooldown now rest =
      if ltb 0 config.cooldown_seconds then and_then "cooldown" (cooldown now) rest else rest

  check_daily_runs : Date → Option ℕ → Verdict → Verdict
  unfolding daily_runs
  check_daily_runs day none rest = rest
  check_daily_runs day (some max) rest = and_then "daily_runs" (daily_runs day max) rest

  check_daily_cost : Date → Option ℤ → Verdict → Verdict
  unfolding daily_cost
  check_daily_cost day none rest = rest
  check_daily_cost day (some max) rest = and_then "daily_cost" (daily_cost day max) rest

abbrev pub check_breaker : String → CircuitBreaker → Verdict
check_breaker name b = (
  (("circuit_breaker", Breaker.check name b) ∷ []),
  (if Breaker.check name b then none else some breaker_open),
)

-- `_check_constraints_core`; `triggered_at` is when the run was triggered, and `now` the reading of
-- the clock for the cooldown
unfoldable pub check_constraints :
    {W : Type 0}
    → Option LedgerApi
    → String
    → CronTriggerConfig W
    → CircuitBreaker
    → (triggered_at now : Time) → Verdict
unfolding check_cooldown check_daily_runs check_daily_cost
check_constraints none tenant_id config b triggered_at now = check_breaker config.event_name b
check_constraints (some ledger) tenant_id config b triggered_at now =
    check_cooldown ledger tenant_id config now (
      check_daily_runs ledger tenant_id config (day_of triggered_at) config.max_daily_runs (
        check_daily_cost ledger tenant_id config (day_of triggered_at) config.max_daily_cost
          (check_breaker config.event_name b)))
