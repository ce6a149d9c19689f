-- ===== src/Triggers/Signal/Handlers.antt =====
-- owlclaw/triggers/signal/handlers.py: what each type of signal does. The runtime, the governance
-- and the callbacks are not part of this code: they are functions on a state `W` of their own, which
-- return or raise.
pub mod Effects
use owlclaw_core.Common.{
  ℕ, Bool, true, false, not, Option, none, some, String, List, [], ◌∷◌, ltb, if◌then◌else◌,
}
use owlclaw_core.Common.Int.{ℤ, pos, pos_part, ltb_ℤ}
use owlclaw_core.Common.Result.{Result, ok, err}
use owlclaw_core.Common.Time.{Time}
use owlclaw_core.Triggers.Signal.{
  Signal, SignalType, SignalSource, SignalResult, pause, resume, trigger, instruct, cli, api, mcp,
  create_instruction,
}
use owlclaw_core.Triggers.Signal.State.{
  AgentState, AgentStateManager, Error, get, set_paused, add_instruction,
}

-- `SignalResult(status=...)`
abbrev pub status_result : String → SignalResult
status_result status = record { status = status; message = none; run_id = none; error_code = none }

abbrev pub source_value : SignalSource → String
source_value cli = "cli"
source_value api = "api"
source_value mcp = "mcp"

-- why a handler did not return
pub data Failure : Type 0 where
  external_error : Failure
  state_error : Error → Failure

-- what `trigger_event` returns: a dict, with its "run_id", or another value
pub data RunResult : Type 0 where
  dict_result : Option String → RunResult
  other_result : RunResult

abbrev run_id_of : RunResult → Option String
run_id_of (dict_result run_id) = run_id
run_id_of other_result = none

pub record Environment (W : Type 0) : Type 0 where
  -- event, message, source, focus, tenant
  pub trigger_event :
      String → String → String → Option String → String → W → Result Failure RunResult × W
  pub allow_trigger : Option (String → String → W → Result Failure Bool × W)
  pub on_pause : Option (Signal → W → Result Failure Unit × W)
  pub on_resume : Option (Signal → W → Result Failure Unit × W)
  pub default_ttl_seconds : ℕ

module _ (W : Type 0) where
  abbrev pub Handler : Type 0
  Handler = Signal → AgentStateManager → W → Result Failure SignalResult × (AgentStateManager × W)

-- the result after a callback, which may raise
after_callback :
    {W : Type 0}
    → String
    → Result Failure Unit × W
    → AgentStateManager
    → Result Failure SignalResult × (AgentStateManager × W)
after_callback status (ok _, w) m = (ok (status_result status), (m, w))
after_callback status (err e, w) m = (err e, (m, w))

call_back :
    {W : Type 0}
    → Option (Signal → W → Result Failure Unit × W)
    → Signal
    → W
    → Result Failure Unit × W
call_back none s w = (ok tt, w)
call_back (some f) s w = f s w

-- `PauseHandler.handle`
unfoldable pub handle_pause : {W : Type 0} → Environment W → Handler W
unfolding after_callback call_back
handle_pause env s m w =
    let (current, m') = get s.agent_id s.tenant_id m in
    if current.paused
    then (ok (status_result "already_paused"), (m', w))
    else after_callback "paused" (call_back env.on_pause s w)
        (set_paused s.agent_id s.tenant_id true m')

-- `ResumeHandler.handle`
unfoldable pub handle_resume : {W : Type 0} → Environment W → Handler W
unfolding after_callback call_back
handle_resume env s m w =
    let (current, m') = get s.agent_id s.tenant_id m in
    if not current.paused
    then (ok (status_result "already_running"), (m', w))
    else after_callback "resumed" (call_back env.on_resume s w)
        (set_paused s.agent_id s.tenant_id false m')

-- the test of the governance, which is optional
ask_governance : {W : Type 0} → Environment W → Signal → W → Result Failure Bool × W
ask_governance env s w = elim env.allow_trigger [
  | none ↦ (ok true, w)
  | some allow ↦ allow "signal_manual" s.tenant_id w
]

triggered :
    {W : Type 0}
    → Result Failure RunResult × W
    → AgentStateManager
    → Result Failure SignalResult × (AgentStateManager × W)
triggered (err e, w) m = (err e, (m, w))
triggered (ok r, w) m = (ok (record (status_result "triggered") { run_id = run_id_of r }), (m, w))

trigger_after :
    {W : Type 0}
    → Environment W
    → Result Failure Bool × W
    → Signal
    → AgentStateManager
    → Result Failure SignalResult × (AgentStateManager × W)
unfolding triggered
trigger_after env (err e, w) s m = (err e, (m, w))
trigger_after env (ok allowed, w) s m =
    if not allowed
    then (
      ok (record {
        status = "error";
        message = some "governance_blocked";
        run_id = none;
        error_code = some "rate_limited";
      }),
      (m, w),
    )
    else triggered
        (env.trigger_event "signal_manual" s.message (source_value s.source) s.focus s.tenant_id w)
        m

-- `TriggerHandler.handle`
unfoldable pub handle_trigger : {W : Type 0} → Environment W → Handler W
unfolding ask_governance trigger_after
handle_trigger env s m w = trigger_after env (ask_governance env s w) s m

queued :
    {W : Type 0}
    → Result Error Unit × AgentStateManager
    → W
    → Result Failure SignalResult × (AgentStateManager × W)
queued (ok _, m) w = (ok (status_result "instruction_queued"), (m, w))
queued (err e, m) w = (err (state_error e), (m, w))

-- `InstructHandler.handle`
unfoldable pub handle_instruct : {W : Type 0} → Environment W → Time → Handler W
unfolding queued
handle_instruct env now s m w =
    let ttl_seconds =
      (if ltb_ℤ (pos 0) s.ttl_seconds then pos_part s.ttl_seconds else env.default_ttl_seconds) in
    queued
      (add_instruction s.agent_id s.tenant_id
        (create_instruction s.message s.operator s.source ttl_seconds now) m)
      w

-- `default_handlers`
unfoldable pub default_handlers :
    {W : Type 0} → Environment W → Time → SignalType → Option (Handler W)
default_handlers env now pause = some (handle_pause env)
default_handlers env now resume = some (handle_resume env)
default_handlers env now trigger = some (handle_trigger env)
default_handlers env now instruct = some (handle_instruct env now)
