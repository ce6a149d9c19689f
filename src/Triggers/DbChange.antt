-- ===== src/Triggers/DbChange.antt =====
-- owlclaw/triggers/db_change/manager.py: changes in a database start runs, and runs that could not be
-- started wait in a bounded queue and are tried again. The retry loop has three steps, between which
-- other things may happen: it takes an entry, the runtime answers, and after a pause the entry goes
-- back to the queue. `W` is the state of the runtime, the governance and the handlers; `settled` has
-- every run that the manager is done with. The timer of an aggregator is left out, as is the lock.
pub mod Attempts
pub mod Events
pub mod Retries
mod Tests
use owlclaw_core.Common.{
  ℕ, suc, ◌+◌, Bool, true, false, not, ◌&&◌, Option, none, some, String, List, [], ◌∷◌, ◌++◌, leb,
  ltb, if◌then◌else◌, length, drop,
}
use owlclaw_core.Common.Dict.{Dict, lookup, insert}
use owlclaw_core.Common.Eq.{string_eq}
use owlclaw_core.Common.Int.{pos}
use owlclaw_core.Common.Result.{Result, ok, err}
use owlclaw_core.Common.Value.{
  Value, Items, Fields, nil, cons, end, field, object, list, text, number,
}
use owlclaw_core.Triggers.Redaction.{redact_sensitive_data}
use owlclaw_core.Triggers.EventAggregator.{
  AggregationMode, passthrough, debounce, batch, hybrid, EventAggregator,
}
use owlclaw_core.Triggers.EventAggregator

-- `DBChangeTriggerConfig`, less the source, which nothing reads
pub record DbChangeTriggerConfig : Type 0 where
  pub tenant_id : String
  pub channel : String
  pub event_name : String
  pub agent_id : String
  pub debounce_seconds : Option ℕ
  pub batch_size : Option ℕ
  pub max_buffer_events : ℕ
  pub max_payload_bytes : ℕ
  pub focus : Option String

-- `DBChangeEvent`, less what the manager does not read
pub record DbChangeEvent : Type 0 where
  pub channel : String
  pub payload : Value

-- a run: its settings and its payload
abbrev pub Item : Type 0
Item = DbChangeTriggerConfig × Value

-- how a run ends: the runtime took it, its attempts are used up, a full queue dropped it, or the loop
-- was stopped with it
pub data Outcome : Type 0 where
  accepted exhausted dropped lost : Outcome

pub record RetryEntry : Type 0 where
  pub item : Item
  pub attempt : ℕ

pub record DlqEvent : Type 0 where
  pub event_name : String
  pub tenant_id : String
  pub payload : Value
  pub attempt : ℕ
  pub error : String

-- where the retry loop is
pub data LoopState : Type 0 where
  idle : LoopState
  calling : RetryEntry → LoopState
  pausing : RetryEntry → LoopState

pub data Answer : Type 0 where
  raised : String → Answer
  returned : Answer

abbrev pub Handler : Type 0 → Type 0
Handler W = List DbChangeEvent → W → Answer × W

-- `_TriggerState`
pub record TriggerState : Type 0 where
  pub config : DbChangeTriggerConfig
  pub aggregator : EventAggregator DbChangeEvent

pub record Manager (W : Type 0) : Type 0 where
  pub states : Dict String TriggerState
  pub handlers : Dict String (Option (Handler W))
  pub started : Bool
  pub max_retry_attempts : ℕ
  -- no bound if it is 0
  pub local_queue_max_size : ℕ
  pub local_retry_queue : List RetryEntry
  pub loop_state : LoopState
  pub dlq_events : List DlqEvent
  pub settled : List (Outcome × Item)

-- what the manager calls; `redact_text` is the substitution of the regular expressions, and
-- `byte_size` the length of a payload as JSON
pub record Environment (W : Type 0) : Type 0 where
  pub trigger_event :
      (event_name : String)
      → Value
      → (focus : Option String) → (tenant_id : String) → W
      → Answer × W
  pub allow_trigger : (event_name tenant_id : String) → W → Result String Bool × W
  pub record_blocked : Option (DbChangeTriggerConfig → ℕ → W → Answer × W)
  pub redact_text : String → String
  pub byte_size : Value → ℕ

-- the mode of a new aggregator; a number counts if it is not 0
abbrev is_positive : Option ℕ → Bool
is_positive none = false
is_positive (some n) = ltb 0 n

abbrev mode_of : DbChangeTriggerConfig → AggregationMode
mode_of config =
    if is_positive config.batch_size && is_positive config.debounce_seconds
    then hybrid
    else if is_positive config.batch_size
    then batch
    else if is_positive config.debounce_seconds
    then debounce
    else passthrough

-- {"channel": …, "events": [event.payload for event in events], "event_count": …}
abbrev payloads : List DbChangeEvent → Items
payloads [] = nil
payloads (e ∷ events) = cons e.payload (payloads events)

abbrev pub payload_of : DbChangeTriggerConfig → List DbChangeEvent → Value
payload_of config events = object (
    field "channel" (text config.channel) (
      field "events" (list (payloads events))
        (field "event_count" (number (pos (length events))) end)))

module _ {W : Type 0} where
  -- `register`; `suspends` says of a batch if its run waits for anything
  pub register :
      DbChangeTriggerConfig
      → Option (Handler W)
      → (suspends : List DbChangeEvent → Bool) → Manager W
      → Manager W
  register config handler suspends m = record m {
    states =
        insert config.channel
          (record {
            config = config;
            aggregator =
                EventAggregator.init (mode_of config) suspends config.debounce_seconds
                  config.batch_size config.max_buffer_events;
          })
          m.states;
    handlers = insert config.channel handler m.handlers;
  }

  settle : Outcome → Item → Manager W → Manager W
  settle outcome item m = record m { settled = m.settled ++ (outcome, item) ∷ [] }

  abbrev is_full : Manager W → Bool
  is_full m =
      ltb 0 m.local_queue_max_size && leb m.local_queue_max_size (length m.local_retry_queue)

  drop_oldest : List RetryEntry → Manager W → Manager W
  unfolding settle
  drop_oldest [] m = m
  drop_oldest (e ∷ es) m = settle dropped e.item (record m { local_retry_queue = es })

  append_entry : RetryEntry → Manager W → Manager W
  append_entry e m = record m { local_retry_queue = m.local_retry_queue ++ e ∷ [] }

  -- `_enqueue_local_retry`
  enqueue_local_retry : RetryEntry → Manager W → Manager W
  unfolding drop_oldest append_entry
  enqueue_local_retry e m =
      append_entry e (if is_full m then drop_oldest m.local_retry_queue m else m)

  -- `start` and `stop`; a loop that is cancelled drops what it holds
  pub start : Manager W → Manager W
  start m = record m { started = true }

  lose : LoopState → Manager W → Manager W
  unfolding settle
  lose idle m = m
  lose (calling e) m = settle lost e.item m
  lose (pausing e) m = settle lost e.item m

  pub stop : Manager W → Manager W
  unfolding lose
  stop m =
      if not m.started
      then m
      else lose m.loop_state (record m { started = false; loop_state = idle })

  take_from : List RetryEntry → Manager W → Manager W
  take_from [] m = m
  take_from (e ∷ es) m = record m { local_retry_queue = es; loop_state = calling e }

  take_when : LoopState → Manager W → Manager W
  unfolding take_from
  take_when idle m = take_from m.local_retry_queue m
  take_when (calling e) m = m
  take_when (pausing e) m = m

  -- one round of `_retry_loop`, first step: `get`
  take_entry : Manager W → Manager W
  unfolding take_when
  take_entry m = if m.started then take_when m.loop_state m else m

  requeue_from : LoopState → Manager W → Manager W
  unfolding enqueue_local_retry
  requeue_from idle m = m
  requeue_from (calling e) m = m
  requeue_from (pausing e) m =
      enqueue_local_retry (record e { attempt = suc e.attempt }) (record m { loop_state = idle })

  -- its last step: the pause is over
  requeue : Manager W → Manager W
  unfolding requeue_from
  requeue m = requeue_from m.loop_state m

module _ {W : Type 0} (env : Environment W) where
  call_runtime : Item → W → Answer × W
  call_runtime (config, payload) w =
      env.trigger_event config.event_name payload config.focus config.tenant_id w

  after_dispatch : Answer → Item → Manager W × W → Bool × (Manager W × W)
  unfolding settle enqueue_local_retry
  after_dispatch returned item (m, w) = (true, (settle accepted item m, w))
  after_dispatch (raised e) item (m, w) =
      (false, (enqueue_local_retry (record { item = item; attempt = 0 }) m, w))

  -- `_dispatch_agent_trigger`
  pub dispatch_agent_trigger : Item → Manager W × W → Bool × (Manager W × W)
  unfolding call_runtime after_dispatch
  dispatch_agent_trigger item (m, w) =
      let (answer, w') = call_runtime item w in after_dispatch answer item (m, w')

  -- `_move_to_dlq`
  move_to_dlq : RetryEntry → (attempt : ℕ) (error : String) → Manager W → Manager W
  unfolding settle
  move_to_dlq e attempt error m = settle exhausted e.item (record m {
    dlq_events =
        m.dlq_events
        ++ record {
          event_name = e.item.0.event_name;
          tenant_id = e.item.0.tenant_id;
          payload = redact_sensitive_data env.redact_text e.item.1;
          attempt = attempt;
          error = env.redact_text error;
        }
          ∷ [];
  })

  after_retry : Answer → RetryEntry → Manager W → Manager W
  unfolding settle move_to_dlq
  after_retry returned e m = settle accepted e.item m
  after_retry (raised error) e m =
      if leb m.max_retry_attempts (e.attempt + 1)
      then move_to_dlq e (e.attempt + 1) error m
      else record m { loop_state = pausing e }

  answer_to : LoopState → Manager W × W → Manager W × W
  unfolding after_retry call_runtime
  answer_to idle s = s
  answer_to (pausing e) s = s
  answer_to (calling e) (m, w) =
      let (answer, w') = call_runtime e.item w in
      (after_retry answer e (record m { loop_state = idle }), w')

  -- its second step: the runtime answers
  end_attempt : Manager W × W → Manager W × W
  unfolding answer_to
  end_attempt (m, w) = answer_to m.loop_state (m, w)

pub data Call : Type 0 where
  dispatches : Item → Call
  starts stops takes answers requeues : Call

module _ {W : Type 0} (env : Environment W) where
  pub step : Call → Manager W × W → Manager W × W
  unfolding dispatch_agent_trigger start stop take_entry end_attempt requeue
  step (dispatches item) s = (dispatch_agent_trigger env item s).1
  step starts (m, w) = (start m, w)
  step stops (m, w) = (stop m, w)
  step takes (m, w) = (take_entry m, w)
  step answers s = end_attempt env s
  step requeues (m, w) = (requeue m, w)

  pub run : List Call → Manager W × W → Manager W × W
  unfolding step
  run [] s = s
  run (c ∷ calls) s = run calls (step c s)
