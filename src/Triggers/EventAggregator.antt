-- ===== src/Triggers/EventAggregator.antt =====
-- owlclaw/triggers/db_change/aggregator.py: database events are collected and handed on in batches.
-- The lock makes each call one step. `debounce_task` says that a timer runs, and the step `timeout`
-- is its end. The function `on_flush` is not part of this code: `on_flush_suspends` says if its run on
-- a batch waits for anything, which is where asyncio ends a task that was cancelled. `handed` has the
-- batches that it was called with, the newest last, each with whether the call ran to its end, or to an
-- exception of its own; one that was cut off may have done a part of its work before it first waited.
pub mod Order
mod Tests
use owlclaw_core.Common.{
  ℕ, ◌+◌, ◌-◌, Bool, true, false, not, ◌&&◌, ◌||◌, Option, none, some, List, [], ◌∷◌, ◌++◌, eqb,
  leb, is_some, if◌then◌else◌, drop, length,
}

pub data AggregationMode : Type 0 where
  passthrough debounce batch hybrid : AggregationMode

abbrev is_passthrough : AggregationMode → Bool
is_passthrough passthrough = true
is_passthrough _ = false

-- mode in {"batch", "hybrid"} and mode in {"debounce", "hybrid"}
abbrev in_batches : AggregationMode → Bool
in_batches batch = true
in_batches hybrid = true
in_batches _ = false

abbrev in_debounces : AggregationMode → Bool
in_debounces debounce = true
in_debounces hybrid = true
in_debounces _ = false

-- self._batch_size and n >= self._batch_size
abbrev reached : Option ℕ → ℕ → Bool
reached none n = false
reached (some size) n = leb 1 size && leb size n

pub record EventAggregator (E : Type 0) : Type 0 where
  pub mode : AggregationMode
  pub on_flush_suspends : List E → Bool
  pub debounce_seconds : Option ℕ
  pub batch_size : Option ℕ
  pub max_buffer_events : ℕ
  pub buffer : List E
  pub debounce_task : Bool
  pub dropped_events : ℕ
  pub handed : List (Bool × List E)

module _ {E : Type 0} where
  -- `__init__`
  unfoldable pub init :
      AggregationMode
      → (List E → Bool)
      → (debounce_seconds batch_size : Option ℕ) → ℕ
      → EventAggregator E
  init mode suspends debounce_seconds batch_size max_buffer_events = record {
    mode = mode;
    on_flush_suspends = suspends;
    debounce_seconds = debounce_seconds;
    batch_size = batch_size;
    max_buffer_events = max_buffer_events;
    buffer = [];
    debounce_task = false;
    dropped_events = 0;
    handed = [];
  }

  -- `_enforce_memory_bound`
  enforce_memory_bound : EventAggregator E → EventAggregator E
  enforce_memory_bound a =
      let overflow = length a.buffer - a.max_buffer_events in
      if eqb overflow 0 then a else record a {
        buffer = drop overflow a.buffer;
        dropped_events = a.dropped_events + overflow;
      }

  -- `_flush_locked` after its test, for a buffer that is not empty. It cancels the timer; called by
  -- the timer's own task (`by_timer`), that cancels the call of `on_flush` that follows.
  hand_over : (by_timer : Bool) → List E → EventAggregator E → EventAggregator E
  hand_over by_timer events a = record a {
    buffer = [];
    debounce_task = false;
    handed =
        a.handed ++ (not (by_timer && a.debounce_task && a.on_flush_suspends events), events) ∷ [];
  }

  -- `_flush_locked`
  flush_locked : (by_timer : Bool) → EventAggregator E → EventAggregator E
  unfolding hand_over
  flush_locked by_timer a = elim a.buffer [
    | [] ↦ a
    | e ∷ events ↦ hand_over by_timer (e ∷ events) a
  ]

  -- `_reset_debounce_task`: the timer starts anew
  reset_debounce_task : EventAggregator E → EventAggregator E
  reset_debounce_task a = record a { debounce_task = true }

  unfoldable pub push : E → EventAggregator E → EventAggregator E
  unfolding enforce_memory_bound flush_locked reset_debounce_task
  push event a =
      let a' = enforce_memory_bound (record a { buffer = a.buffer ++ event ∷ [] }) in
      if is_passthrough a.mode
      then flush_locked false a'
      else if in_batches a.mode && reached a.batch_size (length a'.buffer)
      then flush_locked false a'
      else if in_debounces a.mode && is_some a.debounce_seconds
      then reset_debounce_task a'
      else a'

  pub flush : EventAggregator E → EventAggregator E
  unfolding flush_locked
  flush a = flush_locked false a

  -- `_debounce_wait_then_flush` once it has slept. The task stays in `_debounce_task` when there was
  -- nothing to flush, where a later cancellation of it does nothing.
  pub timeout : EventAggregator E → EventAggregator E
  unfolding flush_locked
  timeout a = if a.debounce_task then flush_locked true a else a

pub data Call (E : Type 0) : Type 0 where
  pushes : E → Call E
  flushes times_out : Call E

module _ {E : Type 0} where
  pub step : Call E → EventAggregator E → EventAggregator E
  unfolding push flush timeout
  step (pushes event) a = push event a
  step flushes a = flush a
  step times_out a = timeout a

  pub run : List (Call E) → EventAggregator E → EventAggregator E
  unfolding step
  run [] a = a
  run (c ∷ calls) a = run calls (step c a)
