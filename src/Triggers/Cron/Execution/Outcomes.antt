-- ===== src/Triggers/Cron/Execution/Outcomes.antt =====
-- How a run ends when the agent runtime fails.
use owlclaw_core.Common.{
  ◌≡◌, refl, inl, inr, Bool, true, ◌||◌, Option, none, some, String, List, Bool-cases,
  if◌then◌else◌,
}
use owlclaw_core.Common.Eq.{string_eq, ◌==◌}
use owlclaw_core.Common.Result.{Result, ok, err}
use owlclaw_core.Common.Value.{Value}
use owlclaw_core.Governance.Ledger.{LedgerApi}
use owlclaw_core.Triggers.Cron.{
  CronTriggerConfig, CronExecution, ExecutionStatus, failed, skipped, fallback,
}
use owlclaw_core.Triggers.Cron.Breaker.{CircuitBreaker}
use owlclaw_core.Triggers.Cron.Constraints.{Verdict, check_constraints}
use owlclaw_core.Triggers.Cron.Execution.{
  Environment, Inputs, new_execution, uses_agent, execute_agent, execute_fallback, kept,
  handle_failure, after_execution, choose, execute, after_checks, execute_run, read_reply,
  after_handler,
}

module _ {W : Type 0} (env : Environment W) (config : CronTriggerConfig W) where
  abbrev of_answer : Result String (Unit {0}) → ExecutionStatus
  of_answer (ok _) = fallback
  of_answer (err _) = failed

  -- the status that the strategy and the handler give a run that failed, in the state that is left
  abbrev of_handler : Option (W → Result String (Unit {0}) × W) → W → ExecutionStatus
  of_handler none w = skipped
  of_handler (some handler) w = of_answer (handler w).0

  abbrev pub status_after_failure : W → ExecutionStatus
  status_after_failure w =
      if config.fallback_strategy == "never"
      then failed
      else if config.fallback_strategy == "on_failure" || config.fallback_strategy == "always"
      then of_handler config.fallback_handler w
      else failed

  kept-answer :
      (a : Result String (Unit {0})) (x x' : CronExecution) (w : W)
      → x.status ≡ failed
      → (kept env config (x, (after_handler env config a x', w))).0.status ≡ of_answer a
  unfolding kept after_handler
  kept-answer (ok u) x x' w h = refl
  kept-answer (err e) x x' w h = h

  kept-status :
      (o : Option (W → Result String (Unit {0}) × W)) (x : CronExecution) (w : W)
      → x.status ≡ failed
      → (kept env config (execute_fallback env config o x w)).0.status ≡ of_handler o w
  unfolding execute_fallback kept
  kept-status none x w h = refl
  kept-status (some handler) x w h = kept-answer (handler w).0 _ _ (handler w).1 h

  handle_failure-status :
      (x : CronExecution) (w : W)
      → x.status ≡ failed
      → (handle_failure env config x w).0.status ≡ status_after_failure w
  unfolding handle_failure
  handle_failure-status x w h = elim (Bool-cases (config.fallback_strategy == "never")) [
    | inl never ↦ rw never h
    | inr tries ↦
        elim (Bool-cases
          (config.fallback_strategy == "on_failure" || config.fallback_strategy == "always")) [
            | inl uses ↦ rw (tries, uses) (kept-status config.fallback_handler x w h)
            | inr other ↦ rw (tries, other) h
          ]
  ]

  after_checks-passed :
      (inputs : Inputs) (w : W) (v : Verdict)
      → v.1 ≡ none
      → after_checks env config inputs v (new_execution env config inputs) w
        ≡ execute env config inputs
            (record (new_execution env config inputs) { governance_checks = v.0 })
            w
  unfolding after_checks
  after_checks-passed inputs w (checks, verdict) h = rw h refl

  module _ (call : String → Option String → Value → W → Result String Value × W)
      (has_runtime : env.trigger_event ≡ some call) where
    -- the call of the runtime that a run makes
    abbrev pub called : Inputs → W → Result String Value × W
    called inputs w =
        call config.event_name config.focus (new_execution env config inputs).payload w

    execute-failure :
        (inputs : Inputs) (checks : List (String × Bool)) (w : W) (e : String)
        → uses_agent env config inputs.draw ≡ true
        → (called inputs w).0 ≡ err e
        → (execute env config inputs
            (record (new_execution env config inputs) { governance_checks = checks })
            w).0.status
          ≡ status_after_failure (called inputs w).1
    unfolding execute choose execute_agent after_execution
    execute-failure inputs checks w e agent raised =
        rw (has_runtime, agent)
          (rw (raised, read_reply) (handle_failure-status _ (called inputs w).1 refl))

    -- A run for the agent whose runtime raises ends as the strategy says: with "never", or any
    -- unknown word, as failed; with "on_failure" or "always" as failed only if there is a fallback
    -- handler and it raises too, as fallback if it returns, and as skipped if there is no handler.
    pub execute_run-failure :
        (tenant : String) (inputs : Inputs) (ledger : Option LedgerApi) (b : CircuitBreaker) (w : W)
        (e : String)
        → config.enabled ≡ true
        → (check_constraints ledger tenant config b inputs.triggered_at inputs.checked_at).1 ≡ none
        → uses_agent env config inputs.draw ≡ true
        → (called inputs w).0 ≡ err e
        → (execute_run env config tenant inputs ledger b w).0.status
          ≡ status_after_failure (called inputs w).1
    unfolding execute_run
    execute_run-failure tenant inputs ledger b w e on passed agent raised =
        let v = check_constraints ledger tenant config b inputs.triggered_at inputs.checked_at in
        simp on (
          simp (after_checks-passed inputs w v passed)
            (execute-failure inputs v.0 w e agent raised))
