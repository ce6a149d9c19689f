-- ===== src/Triggers/Cron/Run/Skipped.antt =====
-- What a skipped run leaves of a trigger whose breaker is open.
use owlclaw_core.Common.{
  ◌+◌, ◌<◌, ◌≡◌, refl, sym, true, false, not, Option, some, String, List, [], ◌∷◌, ◌++◌, arith,
  length, Bool-cases, inl, inr, any, filter,
}
use Prim.Native.Nat.{min, max}
use owlclaw_core.Common.Eq.{string_eq, pair_eq, ◌==◌}
use owlclaw_core.Common.Result.{ok}
use owlclaw_core.Common.Time.{Time}
use owlclaw_core.Common.Text.{strip, lower, is_blank}
use owlclaw_core.Governance.Ledger.{Execution, InMemoryLedger, record_execution}
use owlclaw_core.Governance.Ledger.Counting.{HasNames}
use owlclaw_core.Governance.Ledger.Newest.{
  OlderThan, newest_first, stored, query_newest, record_execution-room, query_newest-append,
}
use owlclaw_core.Governance.Ledger.Recording.{IsName}
use owlclaw_core.Triggers.Cron.{CronTriggerConfig, CronExecution, skipped, status_value}
use owlclaw_core.Triggers.Cron.Breaker.{CircuitBreaker, is_open, is_failure, trips}
use owlclaw_core.Triggers.Cron.Breaker.Window.{evaluate-latched, trips-newer}
use owlclaw_core.Triggers.Cron.Execution.{Environment, Inputs}
use owlclaw_core.Triggers.Cron.Execution.Skipping.{execute_run-blocked}
use owlclaw_core.Triggers.Cron.Registry.{Registry, agent_name, record_recent_execution, try_record}
use owlclaw_core.Triggers.Cron.Run.{
  RunResult, in_progress, ended, holds_slot, begin_run, release_run, api_of, record_of,
  recent_executions, record_and_update, note_limits, finish_run, end_slot, run_slot, duration_of,
}

try_record-ok :
    (e : Execution) (id : String) (now : Time) (l l' : InMemoryLedger)
    → record_execution e id now l ≡ ok l'
    → try_record e id now l ≡ l'
unfolding try_record
try_record-ok e id now l l' h = rw (h, try_record) refl

abbrev pub IsSkipped : RunResult → Type 0
IsSkipped in_progress = ⊥
IsSkipped (ended x) = x.status ≡ skipped

module _ {W : Type 0} (env : Environment W) (config : CronTriggerConfig W) (tenant : String) where
  abbrev pub key : String × String
  key = (tenant, config.event_name)

  -- the breaker is open, and the newest records of the trigger would open it again
  abbrev pub Latched : CircuitBreaker → InMemoryLedger → Type 0
  Latched b l =
      (is_open config.event_name b ≡ true)
      × (trips b (recent_executions env config tenant b.window_size l) ≡ true)

  -- the names that the records of the trigger have
  pub record IsRecorded : Type 0 where
    pub tenant_id : IsName tenant
    pub agent_id : IsName (agent_name env.app_name config.event_name)
    pub event_name : IsName config.event_name

  -- what a skipped run records
  skipped-is_failure :
      (inputs : Inputs) (x : CronExecution)
      → x.status ≡ skipped
      → is_failure
          (stored (record_of env config tenant inputs x) inputs.record_id inputs.recorded_at)
        ≡ true
  unfolding is_failure strip lower
  skipped-is_failure inputs x h = rw h refl

  record_of-HasNames :
      (inputs : Inputs) (x : CronExecution)
      → IsRecorded
      → IsName x.execution_id
      → HasNames (record_of env config tenant inputs x)
  unfolding strip is_blank
  record_of-HasNames inputs x h id = record {
    tenant_id = h.tenant_id;
    agent_id = h.agent_id;
    run_id = id;
    capability_name = h.event_name;
    task_type = (refl, refl);
  }

  -- the ledger after a skipped run
  abbrev pub ledger_after : Inputs → CronExecution → InMemoryLedger → InMemoryLedger
  ledger_after inputs x l = record l {
    records =
        l.records
        ++ stored (record_of env config tenant inputs x) inputs.record_id inputs.recorded_at ∷ [];
  }

  record_and_update-Latched :
      (inputs : Inputs) (x : CronExecution) (l : InMemoryLedger) (b : CircuitBreaker)
      → IsRecorded
      → IsName x.execution_id
      → x.status ≡ skipped
      → length l.records < l.max_records
      → OlderThan inputs.recorded_at l.records
      → Latched b l
      → (record_and_update env config tenant inputs x (some l) b
          ≡ (some (ledger_after inputs x l), b))
        × Latched b (ledger_after inputs x l)
  unfolding record_and_update recent_executions
  record_and_update-Latched inputs x l b named id h room older (opened, tripped) =
      let e = record_of env config tenant inputs x in
      let r = stored e inputs.record_id inputs.recorded_at in
      let k = max 1 (min b.window_size 100) in
      let again : trips b
            (recent_executions env config tenant b.window_size (ledger_after inputs x l))
          ≡ true =
        rw (query_newest-append r k l older) (
          trips-newer b k r (newest_first tenant config.event_name l)
            (skipped-is_failure inputs x h)
            (rw (sym (query_newest tenant config.event_name k l)) tripped)) in
      (
        rw
            (
              try_record-ok e inputs.record_id inputs.recorded_at l (ledger_after inputs x l) (
                  record_execution-room e inputs.record_id inputs.recorded_at l
                    (record_of-HasNames inputs x named id) room),
              evaluate-latched config.event_name
                  (recent_executions env config tenant b.window_size (ledger_after inputs x l)) b
                  opened again,
            )
            refl,
        (opened, again),
      )

  -- the slot of the trigger is free
  abbrev pub IsFree : Registry W → Type 0
  IsFree r = holds_slot key r ≡ false

  any-filter_self :
      (xs : List (String × String)) → any (λ k. key == k) (filter (λ k. not (key == k)) xs) ≡ false
  any-filter_self [] = refl
  any-filter_self (x ∷ xs) = elim (Bool-cases (pair_eq.same key x)) [
    | inl same ↦ rw same (any-filter_self xs)
    | inr differ ↦ rw differ (rw differ (any-filter_self xs))
  ]

  record_recent_execution-breaker :
      (name status : String) (d : Option Time) (r : Registry W)
      → (record_recent_execution name status d r).breaker ≡ r.breaker
  unfolding record_recent_execution
  record_recent_execution-breaker name status d r = ground arith

  -- one run of a trigger that is latched and whose slot is free
  abbrev pub Kept :
      Inputs → InMemoryLedger → W → RunResult × (Registry W × (Option InMemoryLedger × W)) → Type 0
  Kept inputs l w (result, (r', (ledger', w'))) =
      (x : CronExecution) × IsSkipped result
      × (ledger' ≡ some (ledger_after inputs x l))
      × (w' ≡ w)
      × Latched r'.breaker (ledger_after inputs x l)
      × IsFree r'

  end_slot-eq :
      (inputs : Inputs) (r : Registry W) (l l' : InMemoryLedger) (w : W) (x : CronExecution)
      (b : CircuitBreaker)
      → record_and_update env config tenant inputs x
          (some l)
          (record_recent_execution config.event_name
            (status_value x.status)
            (duration_of env config inputs x)
            r).breaker
        ≡ (some l', b)
      → end_slot env config tenant inputs (r, some l) (x, w) ≡ (
        ended (note_limits env config inputs x),
        (
          release_run key
              (record (record_recent_execution config.event_name
                (status_value x.status)
                (duration_of env config inputs x)
                r) { breaker = b }),
          (some l', w),
        ),
      )
  unfolding end_slot finish_run
  end_slot-eq inputs r l l' w x b h = rw h refl

  end_slot-Kept :
      (inputs : Inputs) (r : Registry W) (l : InMemoryLedger) (w : W) (x : CronExecution)
      → IsRecorded
      → IsName x.execution_id
      → x.status ≡ skipped
      → length l.records < l.max_records
      → OlderThan inputs.recorded_at l.records
      → Latched r.breaker l
      → Kept inputs l w (end_slot env config tenant inputs (r, some l) (x, w))
  unfolding release_run note_limits
  end_slot-Kept inputs r l w x named id is_skipped room older latched =
      let r' =
        record_recent_execution config.event_name (status_value x.status)
          (duration_of env config inputs x) r in
      let (recorded, again) =
        record_and_update-Latched inputs x l r'.breaker named id is_skipped room older (
          rw
            (record_recent_execution-breaker config.event_name (status_value x.status)
              (duration_of env config inputs x) r)
            latched) in
      rw (end_slot-eq inputs r l (ledger_after inputs x l) w x r'.breaker recorded)
        (x, is_skipped, refl, refl, again, any-filter_self _)

  pub run_slot-Kept :
      (inputs : Inputs) (r : Registry W) (l : InMemoryLedger) (w : W)
      → IsRecorded
      → IsName inputs.execution_id
      → length l.records < l.max_records
      → OlderThan inputs.recorded_at l.records
      → Latched r.breaker l
      → IsFree r
      → Kept inputs l w (run_slot env config tenant inputs (begin_run key r) (r, (some l, w)))
  unfolding run_slot begin_run
  run_slot-Kept inputs r l w named id room older latched free =
      let (x, executed, is_skipped, same_id) =
        execute_run-blocked env config tenant inputs (api_of (some l)) r.breaker w latched.0 in
      rw free (
        rw executed (
          end_slot-Kept inputs
            (record r { active_runs = key ∷ r.active_runs; active_tasks = r.active_tasks + 1 }) l w
            x named (rw same_id id) is_skipped room older latched))
