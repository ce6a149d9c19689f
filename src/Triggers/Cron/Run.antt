-- ===== src/Triggers/Cron/Run.antt =====
-- `_run_cron` of owlclaw/triggers/cron.py: one run of a trigger. It has three parts, between which other
-- runs may happen: it takes its slot, it executes, and it records itself and gives the slot back. The
-- readings of the clock, the ids and the random draw are in `Inputs`. What the agent runtime and the
-- handlers write to other places is in their state `W`.
pub mod Latch
pub mod Skipped
pub mod Slots
use owlclaw_core.Common.{
  ℕ, zero, suc, ◌+◌, ◌-◌, ◌*◌, ◌/◌, Bool, true, false, not, ◌&&◌, ◌||◌, Option, none, some, String,
  List, [], ◌∷◌, ◌++◌, ltb, if◌then◌else◌, any, filter,
}
use owlclaw_core.Common.Dict.{lookup}
use owlclaw_core.Common.Eq.{string_eq, pair_eq, ◌==◌}
use owlclaw_core.Common.Int.{ℤ, pos, to_ℕ, ltb_ℤ}
use owlclaw_core.Common.Result.{Result, ok, err, ◌>>=◌}
use Prim.Native.Nat.{min, max}
use owlclaw_core.Common.Text.{strip, is_blank}
use owlclaw_core.Common.Time.{Time, seconds}
use owlclaw_core.Common.Value.{
  Value, null, flag, number, text, list, object, end, field, Fields, get_field,
}
use owlclaw_core.Governance.Ledger.{
  Execution, LedgerApi, InMemoryLedger, LedgerRecord, no_filters, api, query_records,
}
use owlclaw_core.Triggers.Cron.{
  ExecutionStatus, pending, running, success, failed, skipped, fallback, status_value, Reason,
  trigger_disabled, no_fallback_handler, CronTriggerConfig, CronExecution,
}
use owlclaw_core.Triggers.Cron.Breaker
use owlclaw_core.Triggers.Cron.Breaker.{CircuitBreaker}
use owlclaw_core.Triggers.Cron.Constraints.{Verdict, check_constraints}
use owlclaw_core.Triggers.Cron.Execution.{Environment, Inputs, execute_run}
use owlclaw_core.Triggers.Cron.Registry.{
  Registry, Error, normalize_tenant_id, record_recent_execution, agent_name, try_record,
  plain_execution,
}

abbrev pub holds_slot : {W : Type 0} → String × String → Registry W → Bool
holds_slot key r = any (λ k. key == k) r.active_runs

-- `_acquire_run_slot`, and the count of the tasks when it succeeds
unfoldable pub begin_run : {W : Type 0} → String × String → Registry W → Option (Registry W)
begin_run key r =
    if holds_slot key r
    then none
    else some (record r { active_runs = key ∷ r.active_runs; active_tasks = r.active_tasks + 1 })

-- `_release_run_slot`, and the count of the tasks
unfoldable pub release_run : {W : Type 0} → String × String → Registry W → Registry W
release_run key r = record r {
  active_runs = filter (λ k. not (key == k)) r.active_runs;
  active_tasks = r.active_tasks - 1;
}

-- a run that found its slot taken, or how it ended
pub data RunResult : Type 0 where
  in_progress : RunResult
  ended : CronExecution → RunResult

-- what the checks read of a ledger
abbrev pub api_of : Option InMemoryLedger → Option LedgerApi
api_of none = none
api_of (some l) = some (api l)

module _ {W : Type 0} (env : Environment W) (config : CronTriggerConfig W) where
  -- completed_at - started_at; a clock that runs backwards gives 0 here
  abbrev duration_of : Inputs → CronExecution → Option Time
  duration_of inputs x = elim x.started_at [ none ↦ none | some s ↦ some (inputs.completed_at - s) ]

  abbrev or_zero : Option Time → Time
  or_zero none = 0
  or_zero (some d) = d

  abbrev over_cost : Option ℤ → CronExecution → Bool
  over_cost none x = false
  over_cost (some most) x = ltb_ℤ most x.cost_usd

  abbrev over_duration : Option ℕ → Option Time → Bool
  over_duration none d = false
  over_duration (some most) d = ltb (seconds most) (or_zero d)

  -- the limits of one run, which are only noted
  note_limits : Inputs → CronExecution → CronExecution
  note_limits inputs x =
      let costs =
        if over_cost config.max_cost_per_run x
        then x.governance_checks ++ ("max_cost_per_run_exceeded", true) ∷ []
        else x.governance_checks in
      record x {
        governance_checks =
            if over_duration config.max_duration (duration_of inputs x)
            then costs ++ ("max_duration_exceeded", true) ∷ []
            else costs;
      }

  abbrev reason_of : Option Reason → Option String
  reason_of none = none
  reason_of (some r) = some (env.reason_text r)

  abbrev id_value : Option String → Value
  id_value none = null
  id_value (some s) = text s

  -- what `_record_to_ledger` records
  abbrev pub record_of : String → Inputs → CronExecution → Execution
  record_of tenant_id inputs x =
      record (plain_execution tenant_id (agent_name env.app_name config.event_name) x.execution_id
        config.event_name "cron_execution") {
          input_params = x.payload;
          output_result = some (object (field "agent_run_id" (id_value x.agent_run_id) end));
          decision_reasoning = reason_of x.skip_reason;
          execution_time_ms = or_zero (duration_of inputs x) / 1000;
          estimated_cost = x.cost_usd;
          status = status_value x.status;
          error_message = x.error_message;
        }

  -- `_get_recent_executions`: the newest records of the trigger, the window's size at most and 100
  unfoldable pub recent_executions : String → ℕ → InMemoryLedger → List LedgerRecord
  recent_executions tenant_id window_size l =
      query_records tenant_id
        (record no_filters {
          capability_name = some config.event_name;
          order_by = some "created_at DESC";
          limit = some (max 1 (min window_size 100));
        })
        l

  -- `CronGovernance.record_execution` and `update_circuit_breaker`
  record_and_update :
      String
      → Inputs
      → CronExecution
      → Option InMemoryLedger
      → CircuitBreaker
      → Option InMemoryLedger × CircuitBreaker
  unfolding recent_executions
  record_and_update tenant_id inputs x none b = (none, b)
  record_and_update tenant_id inputs x (some l) b =
      let l' = try_record (record_of tenant_id inputs x) inputs.record_id inputs.recorded_at l in
      (
        some l',
        (Breaker.evaluate config.event_name (recent_executions tenant_id b.window_size l') b).1,
      )

  -- the `finally` of a run
  pub finish_run :
      String
      → Inputs
      → CronExecution
      → Registry W × Option InMemoryLedger
      → CronExecution × (Registry W × Option InMemoryLedger)
  unfolding note_limits
  finish_run tenant_id inputs x (r, ledger) =
      let r' =
        record_recent_execution config.event_name (status_value x.status) (duration_of inputs x)
          r in
      let (ledger', b) = record_and_update tenant_id inputs x ledger r'.breaker in
      (
        note_limits inputs x,
        (release_run (tenant_id, config.event_name) (record r' { breaker = b }), ledger'),
      )

  -- the `finally`, and the answer
  end_slot :
      String
      → Inputs
      → Registry W × Option InMemoryLedger
      → CronExecution × W
      → RunResult × (Registry W × (Option InMemoryLedger × W))
  unfolding finish_run
  end_slot tenant_id inputs s (x, w) =
      let (x', (r, ledger)) = finish_run tenant_id inputs x s in (ended x', (r, (ledger, w)))

  pub run_slot :
      String
      → Inputs
      → Option (Registry W)
      → Registry W × (Option InMemoryLedger × W)
      → RunResult × (Registry W × (Option InMemoryLedger × W))
  unfolding end_slot
  run_slot tenant_id inputs none s = (in_progress, s)
  run_slot tenant_id inputs (some r) (_, (ledger, w)) =
      end_slot tenant_id inputs (r, ledger)
        (execute_run env config tenant_id inputs (api_of ledger) r.breaker w)

  -- `_run_cron` with nothing in between; a blank tenant raises
  pub run_cron :
      String
      → Inputs
      → Registry W × (Option InMemoryLedger × W)
      → Result Error (RunResult × (Registry W × (Option InMemoryLedger × W)))
  unfolding run_slot begin_run
  run_cron tenant_id inputs (r, (ledger, w)) = do
    tenant ← normalize_tenant_id tenant_id
    ok (run_slot tenant inputs (begin_run (tenant, config.event_name) r) (r, (ledger, w)))
