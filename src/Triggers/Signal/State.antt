-- ===== src/Triggers/Signal/State.antt =====
-- owlclaw/triggers/signal/state.py, in memory: which agents are paused, and the instructions that
-- wait for their next run. The lock makes each call one step.
pub mod Bounds
pub mod Delivery
use owlclaw_core.Common.{
  ℕ, ◌-◌, Bool, true, false, not, ◌&&◌, ◌||◌, Option, none, some, String, List, [], ◌∷◌, ◌++◌, leb,
  if◌then◌else◌, filter, length,
}
use owlclaw_core.Common.Dict.{Dict, lookup, insert}
use owlclaw_core.Common.Eq.{string_eq, pair_eq}
use owlclaw_core.Common.Result.{Result, ok, err}
use owlclaw_core.Common.Text.{strip}
use owlclaw_core.Common.Time.{Time}
use owlclaw_core.Triggers.Signal.{PendingInstruction, is_expired}

pub record AgentState : Type 0 where
  pub paused : Bool
  pub pending_instructions : List PendingInstruction

pub record AgentStateManager : Type 0 where
  pub max_pending_instructions : ℕ
  pub states : Dict (String × String) AgentState

-- `pop(0)` on a list that is empty
pub data Error : Type 0 where
  index_error : Error

abbrev pub Key : Type 0
Key = String × String

abbrev pub key_of : (agent_id tenant_id : String) → Key
key_of agent_id tenant_id = (strip tenant_id, strip agent_id)

abbrev or_default : Option AgentState → AgentState
or_default none = record { paused = false; pending_instructions = [] }
or_default (some s) = s

-- `_states.setdefault(key, AgentState())`, and what is then written to the state
unfoldable pub state_at : Key → AgentStateManager → AgentState
state_at key m = or_default (lookup key m.states)

unfoldable pub put_state : Key → AgentState → AgentStateManager → AgentStateManager
put_state key s m = record m { states = insert key s m.states }

-- `_get_in_memory`
unfoldable pub get :
    (agent_id tenant_id : String) → AgentStateManager → AgentState × AgentStateManager
unfolding state_at put_state
get agent_id tenant_id m =
    let key = key_of agent_id tenant_id in
    let state = state_at key m in (state, put_state key state m)

-- `_set_paused_in_memory`
unfoldable pub set_paused :
    (agent_id tenant_id : String) → Bool → AgentStateManager → AgentStateManager
unfolding state_at put_state
set_paused agent_id tenant_id paused m =
    let key = key_of agent_id tenant_id in
    put_state key (record (state_at key m) { paused = paused }) m

-- the list that `_add_instruction_in_memory` leaves, unless `pop` fails
unfoldable pub push_bounded :
    ℕ → PendingInstruction → List PendingInstruction → Result Error (List PendingInstruction)
push_bounded max i [] = if leb max 0 then err index_error else ok (i ∷ [])
push_bounded max i (p ∷ pending) =
    if leb max (length (p ∷ pending)) then ok (pending ++ i ∷ []) else ok (p ∷ pending ++ i ∷ [])

put_pending :
    Result Error (List PendingInstruction)
    → Key
    → AgentStateManager
    → Result Error Unit × AgentStateManager
unfolding state_at put_state
put_pending (err e) key m = (err e, put_state key (state_at key m) m)
put_pending (ok pending) key m =
    (ok tt, put_state key (record (state_at key m) { pending_instructions = pending }) m)

-- `_add_instruction_in_memory`
unfoldable pub add_instruction :
    (agent_id tenant_id : String)
    → PendingInstruction
    → AgentStateManager
    → Result Error Unit × AgentStateManager
unfolding push_bounded put_pending
add_instruction agent_id tenant_id i m =
    let key = key_of agent_id tenant_id in
    put_pending (push_bounded m.max_pending_instructions i (state_at key m).pending_instructions)
      key m

-- the first loop of `_consume_instructions_in_memory`: what it collects, and the same list with what
-- it has written to the instructions
unfoldable pub collect_live :
    Time → List PendingInstruction → List PendingInstruction × List PendingInstruction
collect_live now [] = ([], [])
collect_live now (i ∷ pending) =
    let (consumed, seen) = collect_live now pending in
    if i.consumed || is_expired now i
    then (consumed, i ∷ seen)
    else (record i { consumed = true } ∷ consumed, record i { consumed = true } ∷ seen)

abbrev pub is_live : Time → PendingInstruction → Bool
is_live now i = not i.consumed && not (is_expired now i)

-- `_consume_instructions_in_memory`
unfoldable pub consume_instructions :
    (agent_id tenant_id : String)
    → Time
    → AgentStateManager
    → List PendingInstruction × AgentStateManager
unfolding state_at put_state collect_live
consume_instructions agent_id tenant_id now m =
    let key = key_of agent_id tenant_id in
    let (consumed, seen) = collect_live now (state_at key m).pending_instructions in
    (
      consumed,
      put_state key (record (state_at key m) { pending_instructions = filter (is_live now) seen })
          m,
    )

-- `_cleanup_expired_in_memory`
unfoldable pub cleanup_expired :
    (agent_id tenant_id : String) → Time → AgentStateManager → ℕ × AgentStateManager
unfolding state_at put_state
cleanup_expired agent_id tenant_id now m =
    let key = key_of agent_id tenant_id in
    let before = (state_at key m).pending_instructions in
    let after = filter (is_live now) before in
    (
      length before - length after,
      put_state key (record (state_at key m) { pending_instructions = after }) m,
    )
