-- ===== src/Triggers/Cron/Tests.antt =====
-- A trigger whose runtime is down.
use owlclaw_core.Common.{ℕ, ◌+◌, ◌≡◌, refl, true, none, some, String, List, [], ◌∷◌, arith}
use owlclaw_core.Common.Dict.{lookup, insert}
use owlclaw_core.Common.Eq.{string_eq}
use owlclaw_core.Common.Int.{pos, ◌+ℤ◌}
use owlclaw_core.Common.Result.{ok, err}
use owlclaw_core.Common.Sorting.{sort_by}
use owlclaw_core.Common.Text.{strip, is_blank, lower}
use owlclaw_core.Governance.Ledger.{LedgerRecord, InMemoryLedger, api, query_records}
use owlclaw_core.Governance.Ledger.Newest.{stored}
use owlclaw_core.Triggers.Cron.{CronTriggerConfig, skipped}
use owlclaw_core.Triggers.Cron.Breaker.{CircuitBreaker, trips}
use owlclaw_core.Triggers.Cron.Constraints.{check_constraints, sum_costs}
use owlclaw_core.Triggers.Cron.Constraints.Limits.{check_constraints-passed_iff}
use owlclaw_core.Triggers.Cron.Registry.{
  Registry, RegisterArgs, Defaults, register, plain_execution,
}
use owlclaw_core.Triggers.Cron.Registry.Laws.{Registered, register-Registered}
use owlclaw_core.Triggers.Cron.Execution.{Environment, Inputs, execute_run}
use owlclaw_core.Triggers.Cron.Execution.Outcomes.{execute_run-failure}
use owlclaw_core.Triggers.Cron.Run.{recent_executions, begin_run, release_run}
use owlclaw_core.Triggers.Cron.Run.Latch.{StaysShut, run_all, breaker_stays_open}
use owlclaw_core.Triggers.Cron.Run.Slots.{Reach, Exact, Reach-Exact, here, later, begins, ends}
use owlclaw_core.Triggers.Cron.Scheduler.{Call, schedules, executes, execute_next, run, init}
use owlclaw_core.Triggers.Cron.Scheduler.Order.{Ran, run-Ran}

abbrev failed_record : LedgerRecord
failed_record =
    stored (record (plain_execution "t" "app" "r" "nightly" "cron_execution") { status = "failed" })
      "1" 5

abbrev breaker : CircuitBreaker
breaker = record { failure_threshold = 500000; window_size = 1; open_events = [] }

a_failure_trips : trips breaker (failed_record ∷ []) ≡ true
unfolding trips strip lower
a_failure_trips = refl

abbrev config : CronTriggerConfig ℕ
config = record {
  event_name = "nightly";
  expression = "0 3 * * *";
  focus = none;
  fallback_handler = none;
  fallback_strategy = "on_failure";
  migration_weight = 1000000;
  max_cost_per_run = none;
  max_daily_cost = some (pos 100);
  max_duration = none;
  cooldown_seconds = 0;
  max_daily_runs = some 3;
  retry_on_failure = true;
  max_retries = 3;
  priority = pos 0;
  enabled = true;
}

abbrev no_defaults : Defaults
no_defaults = record {
  max_daily_runs = none;
  max_daily_cost = none;
  cooldown_seconds = none;
  retry_on_failure = none;
  max_retries = none;
}

abbrev registry : Registry ℕ
registry = record {
  triggers = ("nightly", config) ∷ [];
  recent_executions = [];
  breaker = record breaker { open_events = "nightly" ∷ [] };
  active_tasks = 0;
  active_runs = [];
  defaults = no_defaults;
  runtime_cron_enabled = true;
}

abbrev arguments : RegisterArgs ℕ
arguments = record {
  focus = none;
  fallback_handler = none;
  fallback_strategy = none;
  migration_weight = some (some (pos 300000));
  max_cost_per_run = none;
  max_duration = none;
  priority = none;
  enabled = none;
  own = no_defaults;
}

-- the registry with one trigger more
abbrev registry_with : CronTriggerConfig ℕ → Registry ℕ
registry_with c = record registry { triggers = ("nightly", config) ∷ ("hourly", c) ∷ [] }

abbrev hourly : CronTriggerConfig ℕ
hourly = record config {
  event_name = "hourly";
  expression = "0 * * * *";
  migration_weight = 300000;
  max_daily_cost = none;
  max_daily_runs = none;
}

registers :
    register (λ expression. true) " hourly" "0 * * * *" arguments registry
    ≡ ok (registry_with hourly)
unfolding register strip is_blank lookup insert
registers = refl

register-Registered_example : Registered " hourly" registry (registry_with hourly)
register-Registered_example =
    register-Registered (λ expression. true) "0 * * * *" arguments " hourly" registry
      (registry_with hourly) registers

abbrev ledger : InMemoryLedger
ledger = record { records = failed_record ∷ []; max_records = 9 }

check_constraints-passed_iff_example :
    (check_constraints (some (api ledger)) "t" config breaker 6 6).1 ≡ none
unfolding query_records sort_by sum_costs api ◌+ℤ◌
check_constraints-passed_iff_example =
    (check_constraints-passed_iff (api ledger) "t" config breaker 6 6).1
      ((λ h. absurd (omega (arith, h))), omega arith, ground arith, refl)

abbrev environment : Environment ℕ
environment = record {
  app_name = some "app";
  trigger_event = some (λ event focus payload w. (err "down", w + 1));
  reason_text = λ r. "skipped";
  parse_int = λ s. none;
}

abbrev run_at : String → ℕ → Inputs
run_at id t = record {
  execution_id = id;
  triggered_at = t;
  checked_at = t;
  draw = 0;
  started_at = t;
  completed_at = t;
  record_id = id;
  recorded_at = t;
}

breaker_stays_open_example :
    StaysShut environment config "t"
      (run_all environment config "t"
        (run_at "a" 6 ∷ run_at "b" 7 ∷ [])
        (registry, (some ledger, 0)))
      0
unfolding strip is_blank lower query_records sort_by recent_executions trips
breaker_stays_open_example =
    breaker_stays_open environment config "t" (run_at "a" 6 ∷ run_at "b" 7 ∷ []) 5 registry ledger 0
      (record { tenant_id = (refl, refl); agent_id = (refl, refl); event_name = (refl, refl) })
      (omega arith, (refl, refl), (omega arith, (refl, refl), tt)) (omega arith, tt) (omega arith)
      (refl, refl) refl

execute_run-failure_example :
    (execute_run environment config "t" (run_at "a" 6) (some (api ledger)) breaker 0).0.status
    ≡ skipped
unfolding query_records sort_by sum_costs api ◌+ℤ◌
execute_run-failure_example =
    execute_run-failure environment config (λ event focus payload w. (err "down", w + 1)) refl "t"
      (run_at "a" 6) (some (api ledger)) breaker 0 "down" refl check_constraints-passed_iff_example
      refl refl

abbrev tasks : List (Call String)
tasks = schedules "low" "1" "report" (pos 1) ∷ schedules "high" "2" "backup" (pos 5) ∷ executes ∷ []

run-Ran_example : Ran (execute_next (run tasks init).1)
run-Ran_example = run-Ran tasks

-- a run that begins and ends leaves the registry as it was
abbrev key : String × String
key = ("t", "nightly")

abbrev busy : Registry ℕ
busy = record registry { active_runs = key ∷ []; active_tasks = 1 }

begins_then_ends : Reach (registry, []) (release_run key busy, [])
unfolding begin_run
begins_then_ends =
    later _ (busy, key ∷ []) _ (later _ _ _ (here _) (begins key registry busy [] refl))
      (ends key busy (key ∷ []) refl)

Reach-Exact_example : Exact (release_run key busy, [])
Reach-Exact_example =
    Reach-Exact begins_then_ends (record { held = refl; distinct = tt; counted = refl })
