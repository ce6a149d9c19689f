-- ===== src/Triggers/Signal/Tests.antt =====
-- A manager with a place for two instructions, a router, and the theorems at them.
use owlclaw_core.Common.{
  ℕ, ◌≡◌, refl, true, false, none, some, List, [], ◌∷◌, ◌++◌, arith, filter, map,
}
use owlclaw_core.Common.Dict.{lookup, insert}
use owlclaw_core.Common.Eq.{string_eq, pair_eq}
use owlclaw_core.Common.Int.{pos}
use owlclaw_core.Common.Last.{last}
use owlclaw_core.Common.Result.{ok, err}
use owlclaw_core.Common.Text.{strip}
use owlclaw_core.Triggers.Signal.{Signal, PendingInstruction, pause, cli}
use owlclaw_core.Triggers.Signal.State.{
  AgentStateManager, index_error, key_of, state_at, is_live, get, set_paused, add_instruction,
  consume_instructions,
}
use owlclaw_core.Triggers.Signal.State.Delivery.{
  mark, pending_of, add_all, add_all-consume_instructions,
}
use owlclaw_core.Triggers.Signal.State.Bounds.{
  Call, adds, consumes, sets_paused, run, IsBounded, run-IsBounded,
}
use owlclaw_core.Triggers.Signal.Handlers.{
  Environment, external_error, dict_result, default_handlers, handle_pause,
}
use owlclaw_core.Triggers.Signal.Router.{SignalRouter, authorize, dispatch}
use owlclaw_core.Triggers.Signal.Router.Effects.{Dispatched, dispatch-Dispatched}

abbrev instruction : ℕ → PendingInstruction
instruction expires_at = record {
  content = "look";
  operator = "ann";
  source = cli;
  created_at = 0;
  expires_at = expires_at;
  consumed = false;
}

abbrev manager : AgentStateManager
manager = record {
  max_pending_instructions = 2;
  states = (("t", "a"), record { paused = false; pending_instructions = instruction 10 ∷ [] }) ∷ [];
}

add_all-consume_instructions_example :
    (consume_instructions "a" "t" 15
      (add_all "a" "t" (instruction 20 ∷ instruction 30 ∷ []) manager)).0
    ≡ map mark (
        filter
          (is_live 15)
          (last 2 (pending_of (key_of "a" "t") manager ++ instruction 20 ∷ instruction 30 ∷ [])))
unfolding state_at strip lookup
add_all-consume_instructions_example =
    add_all-consume_instructions "a" "t" (instruction 20 ∷ instruction 30 ∷ []) 15 manager
      (ground arith) (ground arith)

abbrev calls : List Call
calls =
    adds "b" "t" (instruction 5)
    ∷ adds "b" "t" (instruction 6)
    ∷ adds "b" "t" (instruction 7)
    ∷ sets_paused "b" "t" true
    ∷ consumes "b" "t" 6
    ∷ []

abbrev new_manager : AgentStateManager
new_manager = record { max_pending_instructions = 2; states = [] }

new_manager-IsBounded : IsBounded new_manager
unfolding state_at lookup
new_manager-IsBounded = record { positive = ground arith; bounded = λ key. ground arith }

run-IsBounded_example : IsBounded (run calls new_manager)
run-IsBounded_example = run-IsBounded calls new_manager new_manager-IsBounded

-- a runtime that counts its calls, and a callback that raises
abbrev environment : Environment ℕ
environment = record {
  trigger_event = λ event message source focus tenant n. (ok (dict_result (some "run")), n);
  allow_trigger = none;
  on_pause = some (λ s n. (err external_error, n));
  on_resume = none;
  default_ttl_seconds = 3600;
}

abbrev router : SignalRouter ℕ
router = record {
  handlers = default_handlers environment 9;
  authorizer = some (λ s n. (ok (true, none), n));
  ledger = none;
}

abbrev pause_signal : Signal
pause_signal = record {
  type = pause;
  source = cli;
  agent_id = "a";
  tenant_id = "t";
  operator = "ann";
  message = "";
  focus = none;
  ttl_seconds = pos 0;
  id = "1";
  created_at = 8;
}

dispatch-Dispatched_example :
    Dispatched environment 9
      (authorize router pause_signal 0).0
      pause_signal
      (run calls new_manager)
      (dispatch router pause_signal (run calls new_manager) 0)
dispatch-Dispatched_example =
    dispatch-Dispatched router pause_signal environment 9 (run calls new_manager) 0 refl
      (run-IsBounded calls new_manager new_manager-IsBounded)

paused_though_callback_raises :
    state_at ("t", "a") (dispatch router pause_signal manager 0).1.0
    ≡ record { paused = true; pending_instructions = instruction 10 ∷ [] }
unfolding dispatch default_handlers handle_pause get set_paused state_at strip lookup insert
paused_though_callback_raises = refl

-- with no place at all, the list that is full is empty, and `pop(0)` raises
no_place :
    (add_instruction "a" "t"
      (instruction 1)
      (record manager { max_pending_instructions = 0; states = [] })).0
    ≡ err index_error
unfolding add_instruction strip lookup
no_place = refl
