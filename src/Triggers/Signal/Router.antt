-- ===== src/Triggers/Signal/Router.antt =====
-- owlclaw/triggers/signal/router.py: the way of a signal from its authorization to its record.
pub mod Effects
use owlclaw_core.Common.{ℕ, Bool, true, false, Option, none, some, String, if◌then◌else◌}
use Prim.Native.String.{◌++◌ as join}
use owlclaw_core.Common.Eq.{string_eq, ◌==◌}
use owlclaw_core.Common.Result.{Result, ok, err}
use owlclaw_core.Triggers.Signal.{
  Signal, SignalType, SignalResult, pause, resume, trigger, instruct,
}
use owlclaw_core.Triggers.Signal.State.{AgentStateManager}
use owlclaw_core.Triggers.Signal.Handlers.{Failure, Handler, source_value}

-- what `_record` says of a signal to the ledger; its other arguments are constant
pub record SignalRecord : Type 0 where
  pub tenant_id : String
  pub agent_id : String
  pub run_id : String
  pub capability_name : String
  pub source : String
  pub operator : String
  pub message : String
  pub focus : Option String
  pub output : SignalResult
  pub status : String
  pub error_message : Option String

-- the ledger's exceptions are suppressed
pub record SignalRouter (W : Type 0) : Type 0 where
  pub handlers : SignalType → Option (Handler W)
  pub authorizer : Option (Signal → W → Result Failure (Bool × Option String) × W)
  pub ledger : Option (SignalRecord → W → W)

abbrev pub type_value : SignalType → String
type_value pause = "pause"
type_value resume = "resume"
type_value trigger = "trigger"
type_value instruct = "instruct"

-- `SignalResult(status="error", ...)`
abbrev pub error_result : String → String → SignalResult
error_result error_code message = record {
  status = "error";
  message = some message;
  run_id = none;
  error_code = some error_code;
}

-- reason or "unauthorized"
abbrev pub or_unauthorized : Option String → String
or_unauthorized none = "unauthorized"
or_unauthorized (some reason) = if reason == "" then "unauthorized" else reason

module _ {W : Type 0} where
  -- `_authorize`
  pub authorize : SignalRouter W → Signal → W → Result Failure (Bool × Option String) × W
  authorize router s w = elim router.authorizer [ none ↦ (ok (true, none), w) | some f ↦ f s w ]

  -- `_record`
  record_signal : SignalRouter W → Signal → SignalResult → String → W → W
  record_signal router s result status w = elim router.ledger [
    | none ↦ w
    | some f ↦
        f
          (record {
            tenant_id = s.tenant_id;
            agent_id = s.agent_id;
            run_id = join "signal-" s.id;
            capability_name = join "signal." (type_value s.type);
            source = source_value s.source;
            operator = s.operator;
            message = s.message;
            focus = s.focus;
            output = result;
            status = status;
            error_message = if status == "failed" then result.message else none;
          })
          w
  ]

  -- the result that is recorded and returned
  finish :
      SignalRouter W
      → Signal
      → SignalResult
      → String
      → AgentStateManager × W
      → Result Failure SignalResult × (AgentStateManager × W)
  unfolding record_signal
  finish router s result status (m, w) = (ok result, (m, record_signal router s result status w))

  after_handler :
      SignalRouter W
      → Signal
      → Result Failure SignalResult × (AgentStateManager × W)
      → Result Failure SignalResult × (AgentStateManager × W)
  unfolding finish
  after_handler router s (ok result, after) = finish router s result "success" after
  after_handler router s (err e, after) =
      finish router s (error_result "bad_request" "Operation failed.") "failed" after

  handle_with :
      SignalRouter W
      → Option (Handler W)
      → Signal
      → AgentStateManager
      → W
      → Result Failure SignalResult × (AgentStateManager × W)
  unfolding after_handler finish
  handle_with router none s m w =
      finish router s (error_result "bad_request" "unsupported_signal") "failed" (m, w)
  handle_with router (some handler) s m w = after_handler router s (handler s m w)

  dispatch_after :
      SignalRouter W
      → Result Failure (Bool × Option String) × W
      → Signal
      → AgentStateManager
      → Result Failure SignalResult × (AgentStateManager × W)
  unfolding handle_with finish
  dispatch_after router (err e, w) s m = (err e, (m, w))
  dispatch_after router (ok (allowed, reason), w) s m =
      if allowed
      then handle_with router (router.handlers s.type) s m w
      else finish router s (error_result "unauthorized" (or_unauthorized reason)) "blocked" (m, w)

  -- `dispatch`; only the authorizer's exceptions leave it
  unfoldable pub dispatch :
      SignalRouter W
      → Signal
      → AgentStateManager
      → W
      → Result Failure SignalResult × (AgentStateManager × W)
  unfolding authorize dispatch_after
  dispatch router s m w = dispatch_after router (authorize router s w) s m
