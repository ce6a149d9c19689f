-- ===== src/Triggers/DbChange/Tests.antt =====
-- A manager whose runtime is down for a number of calls.
use owlclaw_core.Common.{
  ℕ, ◌-◌, ◌≡◌, refl, Bool, true, false, none, String, List, [], ◌∷◌, leb, arith, if◌then◌else◌,
}
use owlclaw_core.Common.Dict.{lookup, insert}
use owlclaw_core.Common.Eq.{string_eq}
use owlclaw_core.Common.Int.{pos}
use owlclaw_core.Common.Result.{ok}
use owlclaw_core.Common.Value.{Value, null, text, number, object, list, end, field, nil}
use owlclaw_core.Common.Text.{lower, strip_prefix}
use owlclaw_core.Triggers.EventAggregator
use owlclaw_core.Triggers.Redaction.{
  IsRedacted, redact_sensitive_data, is_sensitive, redact_sensitive_data-IsRedacted,
}
use owlclaw_core.Triggers.DbChange.{
  Item, DbChangeTriggerConfig, DbChangeEvent, exhausted, dropped, lost, idle, raised, returned,
  Manager, Environment, Call, dispatches, starts, stops, takes, answers, run, register, accepted,
  payload_of,
}
use owlclaw_core.Triggers.DbChange.Events.{on_event}
use owlclaw_core.Triggers.DbChange.Events.Delivery.{passing}
use owlclaw_core.Triggers.DbChange.Attempts.{IsLimited, run-IsLimited}
use owlclaw_core.Triggers.DbChange.Retries.{tally, tally-run}

abbrev config : DbChangeTriggerConfig
config = record {
  tenant_id = "t";
  channel = "orders";
  event_name = "order_changed";
  agent_id = "a";
  debounce_seconds = none;
  batch_size = none;
  max_buffer_events = 10;
  max_payload_bytes = 128;
  focus = none;
}

-- the state is the number of calls that still fail
abbrev environment : Environment ℕ
environment = record {
  trigger_event =
      λ event payload focus tenant w. (if leb 1 w then raised "down" else returned, w - 1);
  allow_trigger = λ event tenant w. (ok true, w);
  record_blocked = none;
  redact_text = λ s. s;
  byte_size = λ v. 100;
}

abbrev manager : Manager ℕ
manager = record {
  states = [];
  handlers = [];
  started = true;
  max_retry_attempts = 1;
  local_queue_max_size = 1;
  local_retry_queue = [];
  loop_state = idle;
  dlq_events = [];
  settled = [];
}

abbrev item : String → Item
item s = (config, text s)

-- two runs fail, the first is dropped from the queue, the second is tried again and given up
abbrev calls : List Call
calls = dispatches (item "a") ∷ dispatches (item "b") ∷ takes ∷ answers ∷ []

where_they_went :
    (run environment calls (manager, 9)).0.settled
    ≡ (dropped, item "a") ∷ (exhausted, item "b") ∷ []
unfolding run
where_they_went = refl

tally-run_example : tally (λ i. true) (run environment calls (manager, 9)).0 ≡ 2
tally-run_example = tally-run (λ i. true) environment calls manager 9

run-IsLimited_example : IsLimited (run environment calls (manager, 9)).0
run-IsLimited_example =
    run-IsLimited environment calls manager 9
      (record { waiting = tt; holding = tt; dead = tt; bounded = λ h. omega arith })

-- a stop while a run waits for its next attempt loses it
stop_loses_a_run :
    (run environment
      (dispatches (item "a") ∷ takes ∷ answers ∷ stops ∷ starts ∷ takes ∷ [])
      (record manager { max_retry_attempts = 3 }, 9)).0.settled
    ≡ (lost, item "a") ∷ []
unfolding run
stop_loses_a_run = refl

-- an event of a channel that is registered reaches the runtime
an_event_is_dispatched :
    (on_event environment
      (record { channel = "orders"; payload = null })
      (register config none (λ events. false) manager, 0)).1.0.settled
    ≡ (accepted, (config, payload_of config (record { channel = "orders"; payload = null } ∷ [])))
      ∷ []
unfolding on_event register lookup insert EventAggregator.init EventAggregator.push
an_event_is_dispatched = refl

abbrev secret : Value
secret = object (field "Api_Key_1" (number (pos 7)) (field "list" (list nil) end))

stars :
    redact_sensitive_data (λ s. s) secret
    ≡ object (field "Api_Key_1" (text "***") (field "list" (list nil) end))
unfolding redact_sensitive_data is_sensitive lower strip_prefix
stars = refl

redact_sensitive_data-IsRedacted_example :
    IsRedacted (λ s. s) (redact_sensitive_data (λ s. s) secret)
redact_sensitive_data-IsRedacted_example = redact_sensitive_data-IsRedacted (λ s. s) secret

abbrev registered : List (Bool × List DbChangeEvent) → Manager ℕ
registered handed = record manager {
  states =
      (
        "orders",
        record {
          config = config;
          aggregator = passing (λ events. false) none none 10 0 false handed;
        },
      )
      ∷ [];
}

abbrev event : DbChangeEvent
event = record { channel = "orders"; payload = null }
