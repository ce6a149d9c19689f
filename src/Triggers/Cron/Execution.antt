-- ===== src/Triggers/Cron/Execution.antt =====
-- The middle of `_run_cron` of owlclaw/triggers/cron.py: the checks, the agent or its fallback, and what
-- happens when they fail. What the runtime and the handlers write to other places is in their state `W`.
pub mod Outcomes
pub mod Skipping
use owlclaw_core.Common.{
  ℕ, zero, suc, ◌+◌, ◌-◌, ◌*◌, ◌/◌, Bool, true, false, not, ◌&&◌, ◌||◌, Option, none, some, String,
  List, [], ◌∷◌, ◌++◌, ltb, if◌then◌else◌, any, filter,
}
use owlclaw_core.Common.Dict.{lookup}
use owlclaw_core.Common.Eq.{string_eq, pair_eq, ◌==◌}
use owlclaw_core.Common.Int.{ℤ, pos, to_ℕ, ltb_ℤ}
use owlclaw_core.Common.Result.{Result, ok, err, ◌>>=◌}
use Prim.Native.Nat.{min, max}
use owlclaw_core.Common.Text.{strip, is_blank}
use owlclaw_core.Common.Time.{Time, seconds}
use owlclaw_core.Common.Value.{
  Value, null, flag, number, text, list, object, end, field, Fields, get_field,
}
use owlclaw_core.Governance.Ledger.{
  Execution, LedgerApi, InMemoryLedger, LedgerRecord, no_filters, api, query_records,
}
use owlclaw_core.Triggers.Cron.{
  ExecutionStatus, pending, running, success, failed, skipped, fallback, status_value, Reason,
  trigger_disabled, no_fallback_handler, CronTriggerConfig, CronExecution,
}
use owlclaw_core.Triggers.Cron.Breaker
use owlclaw_core.Triggers.Cron.Breaker.{CircuitBreaker}
use owlclaw_core.Triggers.Cron.Constraints.{Verdict, check_constraints}
use owlclaw_core.Triggers.Cron.Registry.{
  Registry, Error, normalize_tenant_id, record_recent_execution, agent_name, try_record,
  plain_execution,
}

-- what a run uses of other code: the name of the application, the runtime if there is one (its answer
-- to an event, or an exception), the texts of the reasons, and `int()` of a text
pub record Environment (W : Type 0) : Type 0 where
  pub app_name : Option String
  pub trigger_event : Option (String → Option String → Value → W → Result String Value × W)
  pub reason_text : Reason → String
  pub parse_int : String → Option ℤ

pub record Inputs : Type 0 where
  pub execution_id : String
  pub triggered_at : Time
  pub checked_at : Time
  pub draw : ℕ
  pub started_at : Time
  pub completed_at : Time
  pub record_id : String
  pub recorded_at : Time

-- a run that has just been triggered; an absent focus is null
abbrev focus_value : Option String → Value
focus_value none = null
focus_value (some f) = text f

module _ {W : Type 0} (env : Environment W) (config : CronTriggerConfig W) where
  abbrev pub new_execution : Inputs → CronExecution
  new_execution inputs = record {
    execution_id = inputs.execution_id;
    event_name = config.event_name;
    triggered_at = inputs.triggered_at;
    status = pending;
    payload = object (
        field "trigger_type" (text "cron") (
          field "expression" (text config.expression)
            (field "focus" (focus_value config.focus) end)));
    decision_mode = "agent";
    started_at = none;
    agent_run_id = none;
    llm_calls = 0;
    cost_usd = pos 0;
    governance_checks = [];
    skip_reason = none;
    error_message = none;
  }

  -- run_id.strip() if isinstance(run_id, str) and run_id.strip() else None
  abbrev run_id_of : Option Value → Option String
  run_id_of (some (text s)) = if is_blank (strip s) then none else some (strip s)
  run_id_of _ = none

  abbrev int_or_zero : Option ℤ → ℕ
  int_or_zero none = 0
  int_or_zero (some n) = to_ℕ n

  -- max(0, int(raw_calls)), and 0 for a Boolean or what is no number
  abbrev calls_of : Option Value → ℕ
  calls_of none = 0
  calls_of (some (number n)) = to_ℕ n
  calls_of (some (text s)) = int_or_zero (env.parse_int s)
  calls_of (some _) = 0

  -- the answer of the runtime, which must be a dictionary
  read_reply : Result String Value → CronExecution → Result String CronExecution
  read_reply (err e) x = err e
  read_reply (ok (object fields)) x = ok (record x {
    agent_run_id = run_id_of (get_field "run_id" fields);
    llm_calls = calls_of (get_field "tool_calls_total" fields);
  })
  read_reply (ok _) x = err "agent_runtime.trigger_event must return a dictionary"

  -- `_execute_agent`
  execute_agent :
      (String → Option String → Value → W → Result String Value × W)
      → CronExecution
      → W
      → Result String CronExecution × W
  unfolding read_reply
  execute_agent trigger_event x w =
      let (reply, w') = trigger_event config.event_name config.focus x.payload w in
      (read_reply reply x, w')

  after_handler : Result String (Unit {0}) → CronExecution → Result String CronExecution
  after_handler (err e) x = err e
  after_handler (ok _) x = ok (record x { status = fallback })

  -- `_execute_fallback`. When the handler raises, the mode has been set already.
  execute_fallback :
      Option (W → Result String (Unit {0}) × W)
      → CronExecution
      → W
      → CronExecution × (Result String CronExecution × W)
  unfolding after_handler
  execute_fallback none x w =
      (x, (ok (record x { status = skipped; skip_reason = some no_fallback_handler }), w))
  execute_fallback (some handler) x w =
      let x' = record x { decision_mode = "fallback" } in
      let (answer, w') = handler w in (x', (after_handler answer x', w'))

  kept : CronExecution × (Result String CronExecution × W) → CronExecution × W
  kept (x, (ok x', w)) = (x', w)
  kept (x, (err _, w)) = (x, w)

  -- `_handle_failure`
  handle_failure : CronExecution → W → CronExecution × W
  unfolding execute_fallback kept
  handle_failure x w =
      if config.fallback_strategy == "never"
      then (x, w)
      else if config.fallback_strategy == "on_failure" || config.fallback_strategy == "always"
      then kept (execute_fallback config.fallback_handler x w)
      else (x, w)

  -- if execution.status == RUNNING: execution.status = SUCCESS
  abbrev settle_status : CronExecution → CronExecution
  settle_status x = elim x.status [ running ↦ record x { status = success } | _ ↦ x ]

  -- the end of the `try`, or its `except`; the first execution is the one that an exception leaves
  after_execution : CronExecution × (Result String CronExecution × W) → CronExecution × W
  unfolding handle_failure
  after_execution (x, (ok x', w)) = (settle_status x', w)
  after_execution (x, (err e, w)) =
      handle_failure (record x { status = failed; error_message = some e }) w

  -- `_should_use_agent` on the random draw, and whether there is a runtime
  abbrev pub uses_agent : ℕ → Bool
  uses_agent draw = ltb draw config.migration_weight

  choose :
      Bool
      → Option (String → Option String → Value → W → Result String Value × W)
      → CronExecution
      → W
      → CronExecution × (Result String CronExecution × W)
  unfolding execute_agent execute_fallback
  choose true (some trigger_event) x w = (x, execute_agent trigger_event x w)
  choose true none x w = execute_fallback config.fallback_handler x w
  choose false _ x w = execute_fallback config.fallback_handler x w

  -- the run after the checks have passed
  execute : Inputs → CronExecution → W → CronExecution × W
  unfolding choose after_execution
  execute inputs x w =
      let use_agent = uses_agent inputs.draw in
      let started = record x {
        decision_mode = if use_agent then "agent" else "fallback";
        status = running;
        started_at = some inputs.started_at;
      } in
      after_execution (choose use_agent env.trigger_event started w)

  after_checks : Inputs → Verdict → CronExecution → W → CronExecution × W
  unfolding execute
  after_checks inputs (checks, some reason) x w =
      (record x { status = skipped; skip_reason = some reason; governance_checks = checks }, w)
  after_checks inputs (checks, none) x w =
      execute inputs (record x { governance_checks = checks }) w

  -- the body of the `try`, and its `except`
  pub execute_run : String → Inputs → Option LedgerApi → CircuitBreaker → W → CronExecution × W
  unfolding after_checks
  execute_run tenant_id inputs ledger b w =
      let x = new_execution inputs in
      if not config.enabled
      then (record x { status = skipped; skip_reason = some trigger_disabled }, w)
      else after_checks inputs
          (check_constraints ledger tenant_id config b inputs.triggered_at inputs.checked_at) x w
