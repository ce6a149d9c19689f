-- ===== src/Triggers/DbChange/Events/Delivery.antt =====
-- How an event goes from the database through the aggregator to the runtime.
use owlclaw_core.Common.{
  ℕ, ◌-◌, ◌≤◌, ◌≡◌, refl, Bool, true, false, Option, some, List, [], ◌∷◌, ◌++◌, arith, eqb, ltb,
  drop, length,
}
use owlclaw_core.Common.Dict.{lookup, insert}
use owlclaw_core.Common.Eq.{string_eq}
use owlclaw_core.Triggers.DbChange.{DbChangeEvent, DbChangeTriggerConfig, Manager, Environment}
use owlclaw_core.Triggers.DbChange.Events.{on_aggregated, hand_on, push_event, on_event}
use owlclaw_core.Triggers.EventAggregator
use owlclaw_core.Triggers.EventAggregator.{EventAggregator, passthrough}

drop-append_last : {A : Type 0} (xs : List A) (x : A) → drop (length xs) (xs ++ x ∷ []) ≡ x ∷ []
drop-append_last [] x = refl
drop-append_last (y ∷ xs) x = drop-append_last xs x

-- what an aggregator of mode passthrough is between two events: its buffer is empty
abbrev pub passing :
    (suspends : List DbChangeEvent → Bool) (debounce_seconds batch_size : Option ℕ)
    (max_buffer_events dropped_events : ℕ) (timer : Bool)
    → List (Bool × List DbChangeEvent)
    → EventAggregator DbChangeEvent
passing suspends debounce_seconds batch_size max_buffer_events dropped_events timer handed =
    record {
      mode = passthrough;
      on_flush_suspends = suspends;
      debounce_seconds = debounce_seconds;
      batch_size = batch_size;
      max_buffer_events = max_buffer_events;
      buffer = [];
      debounce_task = timer;
      dropped_events = dropped_events;
      handed = handed;
    }

module _ (suspends : List DbChangeEvent → Bool) (debounce_seconds batch_size : Option ℕ)
    (most lost : ℕ) (timer : Bool) (room : 1 ≤ most) where
  push-passing :
      (event : DbChangeEvent) (handed : List (Bool × List DbChangeEvent))
      → EventAggregator.push event
          (passing suspends debounce_seconds batch_size most lost timer handed)
        ≡ passing suspends debounce_seconds batch_size most lost false
            (handed ++ (true, event ∷ []) ∷ [])
  unfolding EventAggregator.push
  push-passing event handed =
      let fits : eqb (1 - most) 0 ≡ true = ground (arith, room) in rw fits refl

  -- an event of a channel in passthrough mode that is not too large is handed on at once, as a batch
  -- of one event, and nothing stays in the buffer
  pub on_event-passing :
      {W : Type 0} (env : Environment W) (event : DbChangeEvent) (config : DbChangeTriggerConfig)
      (handed : List (Bool × List DbChangeEvent)) (m : Manager W) (w : W)
      → lookup event.channel m.states
        ≡ some (record {
          config = config;
          aggregator = passing suspends debounce_seconds batch_size most lost timer handed;
        })
      → env.byte_size event.payload ≤ config.max_payload_bytes
      → on_event env event (m, w)
        ≡ on_aggregated env config (event ∷ []) (
          record m {
            states =
                insert event.channel
                  (record {
                    config = config;
                    aggregator =
                        passing suspends debounce_seconds batch_size most lost false
                          (handed ++ (true, event ∷ []) ∷ []);
                  })
                  m.states;
          },
          w,
        )
  unfolding on_event hand_on
  on_event-passing env event config handed m w known small =
      let fits : ltb config.max_payload_bytes (env.byte_size event.payload) ≡ false =
        ground (arith, small) in
      rw (known, push_event)
        (rw fits
          (rw (push-passing event handed) (rw (drop-append_last handed (true, event ∷ [])) refl)))
