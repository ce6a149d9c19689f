-- ===== src/Triggers/Signal/State/Bounds.antt =====
-- No agent ever has more instructions waiting than the manager allows.
use owlclaw_core.Common.{
  ◌-◌, ◌≤◌, ◌<◌, ◌≡◌, inl, inr, refl, ap, Bool, List, [], ◌∷◌, ◌++◌, String, arith, filter, length,
  length-drop, length-filter-le,
}
use owlclaw_core.Common.Eq.{string_eq, pair_eq, same_or_not}
use owlclaw_core.Common.Last.{last}
use owlclaw_core.Common.Time.{Time}
use owlclaw_core.Triggers.Signal.{PendingInstruction}
use owlclaw_core.Triggers.Signal.State.{
  AgentState, AgentStateManager, Key, key_of, state_at, put_state, put_pending, collect_live,
  is_live, get, set_paused, add_instruction, consume_instructions, cleanup_expired,
}
use owlclaw_core.Triggers.Signal.State.Delivery.{
  pending_of, push_bounded-last, state_at-put_state, state_at-put_state_other,
}

-- a call of the manager
pub data Call : Type 0 where
  gets : (agent_id tenant_id : String) → Call
  sets_paused : (agent_id tenant_id : String) → Bool → Call
  adds : (agent_id tenant_id : String) → PendingInstruction → Call
  consumes : (agent_id tenant_id : String) → Time → Call
  cleans : (agent_id tenant_id : String) → Time → Call

pub step : Call → AgentStateManager → AgentStateManager
step (gets agent tenant) m = (get agent tenant m).1
step (sets_paused agent tenant paused) m = set_paused agent tenant paused m
step (adds agent tenant i) m = (add_instruction agent tenant i m).1
step (consumes agent tenant now) m = (consume_instructions agent tenant now m).1
step (cleans agent tenant now) m = (cleanup_expired agent tenant now m).1

pub run : List Call → AgentStateManager → AgentStateManager
run [] m = m
run (c ∷ calls) m = run calls (step c m)

pub record IsBounded (m : AgentStateManager) : Type 0 where
  pub positive : 0 < m.max_pending_instructions
  pub bounded : (key : Key) → length (pending_of key m) ≤ m.max_pending_instructions

put_state-IsBounded :
    (k : Key) (s : AgentState) (m : AgentStateManager)
    → length s.pending_instructions ≤ m.max_pending_instructions
    → IsBounded m
    → IsBounded (put_state k s m)
unfolding put_state
put_state-IsBounded k s m fits w = record {
  positive = w.positive;
  bounded = λ j. elim (same_or_not pair_eq j k) [
    | inl same ↦ rw same (
        omega (
          arith,
          fits,
          ap (λ (s : AgentState). length s.pending_instructions) (state_at-put_state k s m),
        ))
    | inr other ↦ omega (
      arith,
      w.bounded j,
      ap (λ (s : AgentState). length s.pending_instructions)
          (state_at-put_state_other j k s m other),
    )
  ];
}

module _ (m : AgentStateManager) (w : IsBounded m) (agent tenant : String) where
  add_instruction-IsBounded :
      (i : PendingInstruction) → IsBounded (add_instruction agent tenant i m).1
  unfolding add_instruction put_pending
  add_instruction-IsBounded i =
      let key = key_of agent tenant in
      let max = m.max_pending_instructions in
      let pending = pending_of key m in
      rw (push_bounded-last max i pending w.positive (w.bounded key)) (
        put_state-IsBounded key
          (record (state_at key m) { pending_instructions = last max (pending ++ i ∷ []) }) m
          (omega (arith, length-drop (length (pending ++ i ∷ []) - max) (pending ++ i ∷ []))) w)

  filter-IsBounded :
      (p : PendingInstruction → Bool) (s : AgentState)
      → length s.pending_instructions ≤ m.max_pending_instructions
      → IsBounded (
          put_state
            (key_of agent tenant)
            (record s { pending_instructions = filter p s.pending_instructions })
            m)
  filter-IsBounded p s fits =
      put_state-IsBounded (key_of agent tenant)
        (record s { pending_instructions = filter p s.pending_instructions }) m
        (omega (arith, fits, length-filter-le p s.pending_instructions)) w

length-collect_live :
    (now : Time) (is : List PendingInstruction) → length (collect_live now is).1 ≡ length is
unfolding collect_live
length-collect_live now [] = refl
length-collect_live now (i ∷ is) = ground (arith, length-collect_live now is)

step-IsBounded : (c : Call) (m : AgentStateManager) → IsBounded m → IsBounded (step c m)
unfolding step get set_paused consume_instructions cleanup_expired
step-IsBounded (gets agent tenant) m w =
    let key = key_of agent tenant in put_state-IsBounded key (state_at key m) m (w.bounded key) w
step-IsBounded (sets_paused agent tenant paused) m w =
    let key = key_of agent tenant in
    put_state-IsBounded key (record (state_at key m) { paused = paused }) m (w.bounded key) w
step-IsBounded (adds agent tenant i) m w = add_instruction-IsBounded m w agent tenant i
step-IsBounded (consumes agent tenant now) m w =
    let key = key_of agent tenant in
    let seen = (collect_live now (pending_of key m)).1 in
    filter-IsBounded m w agent tenant (is_live now)
      (record (state_at key m) { pending_instructions = seen })
      (omega (arith, w.bounded key, length-collect_live now (pending_of key m)))
step-IsBounded (cleans agent tenant now) m w =
    let key = key_of agent tenant in
    filter-IsBounded m w agent tenant (is_live now) (state_at key m) (w.bounded key)

-- If the limit is at least 1 and no agent has more instructions waiting than it allows, then none
-- ever has, after any sequence of calls.
pub run-IsBounded :
    (calls : List Call) (m : AgentStateManager) → IsBounded m → IsBounded (run calls m)
unfolding run
run-IsBounded [] m w = w
run-IsBounded (c ∷ calls) m w = run-IsBounded calls (step c m) (step-IsBounded c m w)
