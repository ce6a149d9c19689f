-- ===== src/Triggers/DbChange/Events.antt =====
-- The way of an event: through the aggregator of its channel to the governance, the runtime and the
-- handler of the channel.
pub mod Delivery
use owlclaw_core.Common.{
  ℕ, suc, ◌+◌, Bool, true, false, not, ◌&&◌, Option, none, some, String, List, [], ◌∷◌, ◌++◌, leb,
  ltb, if◌then◌else◌, length, drop,
}
use owlclaw_core.Common.Dict.{Dict, lookup, insert}
use owlclaw_core.Common.Eq.{string_eq}
use owlclaw_core.Common.Int.{pos}
use owlclaw_core.Common.Result.{Result, ok, err}
use owlclaw_core.Common.Value.{
  Value, Items, Fields, nil, cons, end, field, object, list, text, number,
}
use owlclaw_core.Triggers.Redaction.{redact_sensitive_data}
use owlclaw_core.Triggers.EventAggregator.{
  AggregationMode, passthrough, debounce, batch, hybrid, EventAggregator,
}
use owlclaw_core.Triggers.EventAggregator
use owlclaw_core.Triggers.DbChange.{
  DbChangeTriggerConfig, DbChangeEvent, Answer, raised, returned, Handler, TriggerState, Manager,
  Environment, Item, payload_of, dispatch_agent_trigger,
}

module _ {W : Type 0} (env : Environment W) where
  -- the end of `_on_aggregated`: the handler of the channel
  handle :
      Option (Option (Handler W)) → List DbChangeEvent → Manager W × W → Answer × (Manager W × W)
  handle none events s = (returned, s)
  handle (some none) events s = (returned, s)
  handle (some (some handler)) events (m, w) =
      let (answer, w') = handler events w in (answer, (m, w'))

  after_dispatched :
      Bool × (Manager W × W) → DbChangeTriggerConfig → List DbChangeEvent → Answer × (Manager W × W)
  unfolding handle
  after_dispatched (false, s) config events = (returned, s)
  after_dispatched (true, (m, w)) config events =
      handle (lookup config.channel m.handlers) events (m, w)

  note_blocked :
      Option (DbChangeTriggerConfig → ℕ → W → Answer × W)
      → DbChangeTriggerConfig
      → ℕ
      → Manager W × W
      → Answer × (Manager W × W)
  note_blocked none config n s = (returned, s)
  note_blocked (some record_event) config n (m, w) =
      let (answer, w') = record_event config n w in (answer, (m, w'))

  after_governance :
      Result String Bool
      → DbChangeTriggerConfig
      → List DbChangeEvent
      → Manager W × W
      → Answer × (Manager W × W)
  unfolding note_blocked dispatch_agent_trigger after_dispatched
  after_governance (err e) config events s = (raised e, s)
  after_governance (ok false) config events s =
      note_blocked env.record_blocked config (length events) s
  after_governance (ok true) config events s =
      after_dispatched (dispatch_agent_trigger env (config, payload_of config events) s) config
        events

  -- `_on_aggregated`
  pub on_aggregated :
      DbChangeTriggerConfig → List DbChangeEvent → Manager W × W → Answer × (Manager W × W)
  unfolding after_governance
  on_aggregated config events (m, w) =
      let (allowed, w') = env.allow_trigger config.event_name config.tenant_id w in
      after_governance allowed config events (m, w')

  -- the batch that a push hands over, if there is one
  hand_on :
      List (Bool × List DbChangeEvent)
      → DbChangeTriggerConfig
      → Manager W × W
      → Answer × (Manager W × W)
  unfolding on_aggregated
  hand_on [] config s = (returned, s)
  hand_on ((_, events) ∷ _) config s = on_aggregated config events s

  push_event : Option TriggerState → DbChangeEvent → Manager W × W → Answer × (Manager W × W)
  unfolding hand_on
  push_event none event s = (returned, s)
  push_event (some state) event (m, w) =
      if ltb state.config.max_payload_bytes (env.byte_size event.payload)
      then (returned, (m, w))
      else let a = EventAggregator.push event state.aggregator in
        hand_on (drop (length state.aggregator.handed) a.handed) state.config
          (record m { states = insert event.channel (record state { aggregator = a }) m.states }, w)

  -- `_on_event`
  unfoldable pub on_event : DbChangeEvent → Manager W × W → Answer × (Manager W × W)
  unfolding push_event
  on_event event (m, w) = push_event (lookup event.channel m.states) event (m, w)
