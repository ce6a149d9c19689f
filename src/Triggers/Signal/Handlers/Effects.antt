-- ===== src/Triggers/Signal/Handlers/Effects.antt =====
-- What the handler of each type of signal does to the agents, whatever the callbacks and the runtime do.
use owlclaw_core.Common.{
  ℕ, ◌+◌, ◌≡◌, ◌≢◌, [], ◌∷◌, ◌++◌, inl, inr, refl, ap, ◌∙◌, Bool, true, false, some, String,
  if◌then◌else◌, Bool-cases,
}
use owlclaw_core.Common.Eq.{string_eq, pair_eq}
use owlclaw_core.Common.Int.{pos, pos_part, ltb_ℤ}
use owlclaw_core.Common.Result.{Result, ok, err}
use owlclaw_core.Common.Last.{last}
use owlclaw_core.Common.Time.{Time, seconds}
use owlclaw_core.Triggers.Signal.{
  PendingInstruction, Signal, SignalType, pause, resume, trigger, instruct, create_instruction,
}
use owlclaw_core.Triggers.Signal.State.{
  AgentState, AgentStateManager, Key, key_of, state_at, put_state, get, set_paused, add_instruction,
}
use owlclaw_core.Triggers.Signal.State.Delivery.{
  pending_of, add_instruction-put_state, state_at-put_state, state_at-put_state_other,
}
use owlclaw_core.Triggers.Signal.State.Bounds.{IsBounded}
use owlclaw_core.Triggers.Signal.Handlers.{
  Failure, Handler, Environment, RunResult, default_handlers, handle_pause, handle_resume,
  handle_trigger, handle_instruct, after_callback, call_back, trigger_after, triggered,
  ask_governance, queued,
}

-- the life that a signal asks the instruction to have
abbrev pub ttl_of : ℕ → Signal → ℕ
ttl_of default s = if ltb_ℤ (pos 0) s.ttl_seconds then pos_part s.ttl_seconds else default

-- the agent `key` is left in the state `a`, and every other agent and the limit are as they were
abbrev pub Leaves : Key → AgentState → AgentStateManager → AgentStateManager → Type 0
Leaves key a m m' =
    (state_at key m' ≡ a)
    × ((j : Key) → j ≢ key → state_at j m' ≡ state_at j m)
    × (m'.max_pending_instructions ≡ m.max_pending_instructions)

-- what a signal of each type does to the manager
abbrev pub Effect : ℕ → Time → SignalType → Signal → AgentStateManager → AgentStateManager → Type 0
Effect ttl now pause s m m' =
    let key = key_of s.agent_id s.tenant_id in
    Leaves key (record (state_at key m) { paused = true }) m m'
Effect ttl now resume s m m' =
    let key = key_of s.agent_id s.tenant_id in
    Leaves key (record (state_at key m) { paused = false }) m m'
Effect ttl now trigger s m m' = m' ≡ m
Effect ttl now instruct s m m' =
    let key = key_of s.agent_id s.tenant_id in
    let added : PendingInstruction = record {
      content = s.message;
      operator = s.operator;
      source = s.source;
      created_at = now;
      expires_at = now + seconds (ttl_of ttl s);
      consumed = false;
    } in
    Leaves key
      (record (state_at key m) {
        pending_instructions = last m.max_pending_instructions (pending_of key m ++ added ∷ []);
      })
      m m'

put_state-Leaves :
    (k : Key) (a : AgentState) (m : AgentStateManager) → Leaves k a m (put_state k a m)
unfolding put_state
put_state-Leaves k a m = (state_at-put_state k a m, λ j h. state_at-put_state_other j k a m h, refl)

put_state-put_state-Leaves :
    (k : Key) (a b : AgentState) (m : AgentStateManager)
    → Leaves k b m (put_state k b (put_state k a m))
put_state-put_state-Leaves k a b m =
    let (same, others, limit) = put_state-Leaves k a m in
    let (same', others', limit') = put_state-Leaves k b (put_state k a m) in
    (same', λ j h. others' j h ∙ others j h, limit' ∙ limit)

module _ {W : Type 0} where
  after_callback-manager :
      (status : String) (r : Result Failure Unit × W) (m : AgentStateManager)
      → (after_callback status r m).1.0 ≡ m
  unfolding after_callback
  after_callback-manager status (ok _, w) m = refl
  after_callback-manager status (err e, w) m = refl

  triggered-manager :
      (r : Result Failure RunResult × W) (m : AgentStateManager) → (triggered r m).1.0 ≡ m
  unfolding triggered
  triggered-manager (ok r, w) m = refl
  triggered-manager (err e, w) m = refl

  trigger_after-manager :
      (env : Environment W) (r : Result Failure Bool × W) (s : Signal) (m : AgentStateManager)
      → (trigger_after env r s m).1.0 ≡ m
  unfolding trigger_after
  trigger_after-manager env (err e, w) s m = refl
  trigger_after-manager env (ok true, w) s m = triggered-manager _ m
  trigger_after-manager env (ok false, w) s m = refl

  queued-manager : (r : Result _ Unit × AgentStateManager) (w : W) → (queued r w).1.0 ≡ r.1
  unfolding queued
  queued-manager (ok _, m) w = refl
  queued-manager (err e, m) w = refl

module _ {W : Type 0} (env : Environment W) (s : Signal) (m : AgentStateManager) (w : W) where
  set_paused_after-get :
      (paused : Bool)
      → let key = key_of s.agent_id s.tenant_id in
        Leaves key
          (record (state_at key m) { paused = paused })
          m
          (set_paused s.agent_id s.tenant_id paused (get s.agent_id s.tenant_id m).1)
  unfolding set_paused get
  set_paused_after-get paused =
      let key = key_of s.agent_id s.tenant_id in
      rw (state_at-put_state key (state_at key m) m) (
        put_state-put_state-Leaves key (state_at key m)
          (record (state_at key m) { paused = paused }) m)

  -- an agent that is already as the signal asks is only looked up
  get-Leaves :
      (paused : Bool)
      → (state_at (key_of s.agent_id s.tenant_id) m).paused ≡ paused
      → let key = key_of s.agent_id s.tenant_id in
        Leaves key (record (state_at key m) { paused = paused }) m (get s.agent_id s.tenant_id m).1
  unfolding get
  get-Leaves paused already =
      let key = key_of s.agent_id s.tenant_id in
      let (same, others, limit) = put_state-Leaves key (state_at key m) m in
      (same ∙ ap (λ p. record (state_at key m) { paused = p }) already, others, limit)

  handle_pause-Effect :
      (now : Time) → Effect env.default_ttl_seconds now pause s m (handle_pause env s m w).1.0
  unfolding handle_pause get
  handle_pause-Effect now =
      let key = key_of s.agent_id s.tenant_id in
      elim (Bool-cases (state_at key m).paused) [
        | inl already ↦ rw (already, handle_pause) (get-Leaves true already)
        | inr other ↦
            rw
              (
                other,
                handle_pause,
                after_callback-manager "paused" (call_back env.on_pause s w)
                    (set_paused s.agent_id s.tenant_id true (get s.agent_id s.tenant_id m).1),
              )
              (set_paused_after-get true)
      ]

  handle_resume-Effect :
      (now : Time) → Effect env.default_ttl_seconds now resume s m (handle_resume env s m w).1.0
  unfolding handle_resume get
  handle_resume-Effect now =
      let key = key_of s.agent_id s.tenant_id in
      elim (Bool-cases (state_at key m).paused) [
        | inr already ↦ rw (already, handle_resume) (get-Leaves false already)
        | inl other ↦
            rw
              (
                other,
                handle_resume,
                after_callback-manager "resumed" (call_back env.on_resume s w)
                    (set_paused s.agent_id s.tenant_id false (get s.agent_id s.tenant_id m).1),
              )
              (set_paused_after-get false)
      ]

  handle_trigger-Effect :
      (now : Time) → Effect env.default_ttl_seconds now trigger s m (handle_trigger env s m w).1.0
  unfolding handle_trigger
  handle_trigger-Effect now = trigger_after-manager env (ask_governance env s w) s m

  handle_instruct-Effect :
      (now : Time)
      → IsBounded m
      → Effect env.default_ttl_seconds now instruct s m (handle_instruct env now s m w).1.0
  unfolding handle_instruct create_instruction
  handle_instruct-Effect now h =
      let key = key_of s.agent_id s.tenant_id in
      let i =
        create_instruction s.message s.operator s.source (ttl_of env.default_ttl_seconds s) now in
      rw
        (
          queued-manager (add_instruction s.agent_id s.tenant_id i m) w,
          add_instruction-put_state s.agent_id s.tenant_id i m h.positive (h.bounded key),
        )
        (put_state-Leaves key
          (record (state_at key m) {
            pending_instructions = last m.max_pending_instructions (pending_of key m ++ i ∷ []);
          })
          m)

  -- the handlers, by their types
  pub default_handlers-Effect :
      (now : Time) (t : SignalType)
      → IsBounded m
      → (h : Handler W) × (default_handlers env now t ≡ some h)
        × Effect env.default_ttl_seconds now t s m (h s m w).1.0
  unfolding default_handlers
  default_handlers-Effect now pause h = (handle_pause env, refl, handle_pause-Effect now)
  default_handlers-Effect now resume h = (handle_resume env, refl, handle_resume-Effect now)
  default_handlers-Effect now trigger h = (handle_trigger env, refl, handle_trigger-Effect now)
  default_handlers-Effect now instruct h =
      (handle_instruct env now, refl, handle_instruct-Effect now h)
