-- ===== src/Triggers/Cron/Execution/Skipping.antt =====
-- A run whose breaker is open.
use owlclaw_core.Common.{
  ◌≡◌, refl, Bool, true, Option, some, String, List, [], Bool-cases, inl, inr,
}
use owlclaw_core.Common.Eq.{string_eq, pair_eq}
use owlclaw_core.Governance.Ledger.{LedgerApi}
use owlclaw_core.Triggers.Cron.{CronTriggerConfig, CronExecution, Reason, trigger_disabled, skipped}
use owlclaw_core.Triggers.Cron.Breaker.{CircuitBreaker, is_open}
use owlclaw_core.Triggers.Cron.Constraints.{Verdict, check_constraints}
use owlclaw_core.Triggers.Cron.Constraints.Limits.{check_constraints-open}
use owlclaw_core.Triggers.Cron.Execution.{
  Environment, Inputs, new_execution, after_checks, execute_run,
}

module _ {W : Type 0} (env : Environment W) (config : CronTriggerConfig W) (tenant : String) where
  abbrev skip_run : Inputs → Reason → List (String × Bool) → CronExecution
  skip_run inputs reason made = record (new_execution env config inputs) {
    status = skipped;
    skip_reason = some reason;
    governance_checks = made;
  }

  after_checks-failed :
      (inputs : Inputs) (w : W) (v : Verdict) (reason : Reason)
      → v.1 ≡ some reason
      → after_checks env config inputs v (new_execution env config inputs) w
        ≡ (skip_run inputs reason v.0, w)
  unfolding after_checks
  after_checks-failed inputs w (made, verdict) reason h = rw h refl

  -- a run whose breaker is open, or whose trigger is disabled, is skipped and calls nothing
  pub execute_run-blocked :
      (inputs : Inputs) (ledger : Option LedgerApi) (b : CircuitBreaker) (w : W)
      → is_open config.event_name b ≡ true
      → (x : CronExecution) × (execute_run env config tenant inputs ledger b w ≡ (x, w))
        × (x.status ≡ skipped)
        × (x.execution_id ≡ inputs.execution_id)
  unfolding execute_run after_checks
  execute_run-blocked inputs ledger b w o =
      let checked =
        check_constraints ledger tenant config b inputs.triggered_at inputs.checked_at in
      let (reason, failed) =
        check_constraints-open ledger tenant config b inputs.triggered_at inputs.checked_at o in
      elim (Bool-cases config.enabled) [
        | inl enabled ↦ (
          skip_run inputs reason checked.0,
          simp (enabled, after_checks-failed inputs w checked reason failed),
          refl,
          refl,
        )
        | inr disabled ↦ (skip_run inputs trigger_disabled [], simp disabled, refl, refl)
      ]
