-- ===== src/Triggers/Signal/State/Delivery.antt =====
-- Which instructions an agent is given, and in which order.
use owlclaw_core.Common.{
  ℕ, ◌≤◌, ◌<◌, ◌≡◌, ◌≢◌, refl, sym, ap, ◌∙◌, true, inl, inr, String, List, [], ◌∷◌, ◌++◌, arith,
  leb, leb→le, leb→gt, filter, map, length, length-append, append_assoc, append-nil, Bool-cases,
}
use owlclaw_core.Common.Dict.{lookup-insert_self, lookup-insert_other}
use owlclaw_core.Common.Eq.{string_eq, pair_eq}
use owlclaw_core.Common.Last.{last, last_of, last-append, length-last-le}
use owlclaw_core.Common.Result.{ok}
use owlclaw_core.Common.Time.{Time}
use owlclaw_core.Triggers.Signal.{PendingInstruction}
use owlclaw_core.Triggers.Signal.State.{
  AgentState, AgentStateManager, Key, key_of, state_at, put_state, push_bounded, put_pending,
  add_instruction, collect_live, is_live, consume_instructions,
}

pub state_at-put_state :
    (k : Key) (s : AgentState) (m : AgentStateManager) → state_at k (put_state k s m) ≡ s
unfolding state_at put_state
state_at-put_state k s m = rw (lookup-insert_self k s m.states) refl

pub state_at-put_state_other :
    (j k : Key) (s : AgentState) (m : AgentStateManager)
    → j ≢ k
    → state_at j (put_state k s m) ≡ state_at j m
unfolding state_at put_state
state_at-put_state_other j k s m h = rw (lookup-insert_other j k s m.states h) refl

-- an instruction that was handed over
abbrev pub mark : PendingInstruction → PendingInstruction
mark i = record i { consumed = true }

collect_live-filter :
    (now : Time) (is : List PendingInstruction)
    → (collect_live now is).0 ≡ map mark (filter (is_live now) is)
unfolding collect_live
collect_live-filter now [] = refl
collect_live-filter now (i ∷ is) = ground (arith, collect_live-filter now is)

none_live-collect_live :
    (now : Time) (is : List PendingInstruction) → filter (is_live now) (collect_live now is).1 ≡ []
unfolding collect_live
none_live-collect_live now [] = refl
none_live-collect_live now (i ∷ is) = ground (arith, none_live-collect_live now is)

abbrev pub pending_of : Key → AgentStateManager → List PendingInstruction
pending_of key m = (state_at key m).pending_instructions

-- A call hands over exactly the instructions that were neither consumed nor expired, in the order in
-- which they wait and each once, and then none waits any more; that the agent is paused or not, and
-- every other agent, stay as they are.
pub consume_instructions-Delivered :
    (agent tenant : String) (now : Time) (m : AgentStateManager)
    → let (got, m') = consume_instructions agent tenant now m in
      let key = key_of agent tenant in
      (got ≡ map mark (filter (is_live now) (pending_of key m)))
      × (pending_of key m' ≡ [])
      × ((state_at key m').paused ≡ (state_at key m).paused)
      × ((j : Key) → j ≢ key → state_at j m' ≡ state_at j m)
unfolding consume_instructions
consume_instructions-Delivered agent tenant now m =
    let key = key_of agent tenant in
    let seen = (collect_live now (pending_of key m)).1 in
    let after : AgentState = record (state_at key m) {
      pending_instructions = filter (is_live now) seen;
    } in
    (
      collect_live-filter now (pending_of key m),
      ap (λ s. s.pending_instructions) (state_at-put_state key after m)
          ∙ none_live-collect_live now (pending_of key m),
      ap (λ s. s.paused) (state_at-put_state key after m),
      λ j h. state_at-put_state_other j key after m h,
    )

pub push_bounded-last :
    (max : ℕ) (i : PendingInstruction) (pending : List PendingInstruction)
    → 0 < max
    → length pending ≤ max
    → push_bounded max i pending ≡ ok (last max (pending ++ i ∷ []))
unfolding push_bounded
push_bounded-last max i [] positive bounded = ground (arith, last_of max 0 (i ∷ []) (omega arith))
push_bounded-last max i (p ∷ pending) positive bounded =
    let grown = length-append (p ∷ pending) (i ∷ []) in
    elim (Bool-cases (leb max (length (p ∷ pending)))) [
      | inl full ↦ rw full (
          ap ok (
            sym (
              last_of max 1 (p ∷ pending ++ i ∷ [])
                (omega (arith, grown, leb→le max (length (p ∷ pending)) full)))))
      | inr room ↦ rw room (
          ap ok (
            sym (
              last_of max 0 (p ∷ pending ++ i ∷ [])
                (omega (arith, grown, leb→gt max (length (p ∷ pending)) room)))))
    ]

put_pending-pending :
    (k : Key) (pending : List PendingInstruction) (m : AgentStateManager)
    → state_at k (put_pending (ok pending) k m).1
      ≡ record (state_at k m) { pending_instructions = pending }
unfolding put_pending
put_pending-pending k pending m =
    state_at-put_state k (record (state_at k m) { pending_instructions = pending }) m

-- the calls of `add_instruction` for one agent, one after the other
pub add_all :
    (agent tenant : String) → List PendingInstruction → AgentStateManager → AgentStateManager
add_all agent tenant [] m = m
add_all agent tenant (i ∷ is) m = add_all agent tenant is (add_instruction agent tenant i m).1

module _ (agent tenant : String) where
  -- as long as it has room, the agent is left with the newest instructions
  pub add_instruction-put_state :
      (i : PendingInstruction) (m : AgentStateManager)
      → 0 < m.max_pending_instructions
      → length (pending_of (key_of agent tenant) m) ≤ m.max_pending_instructions
      → let key = key_of agent tenant in
        (add_instruction agent tenant i m).1
        ≡ put_state key
            (record (state_at key m) {
              pending_instructions = last m.max_pending_instructions (pending_of key m ++ i ∷ []);
            })
            m
  unfolding add_instruction put_pending
  add_instruction-put_state i m positive bounded =
      rw
        (push_bounded-last m.max_pending_instructions i (pending_of (key_of agent tenant) m)
          positive bounded)
        refl

  add_instruction-pending :
      (i : PendingInstruction) (m : AgentStateManager)
      → 0 < m.max_pending_instructions
      → length (pending_of (key_of agent tenant) m) ≤ m.max_pending_instructions
      → let m' = (add_instruction agent tenant i m).1 in
        (pending_of (key_of agent tenant) m'
          ≡ last m.max_pending_instructions (pending_of (key_of agent tenant) m ++ i ∷ []))
        × (m'.max_pending_instructions ≡ m.max_pending_instructions)
  unfolding add_instruction
  add_instruction-pending i m positive bounded =
      let key = key_of agent tenant in
      let kept = last m.max_pending_instructions (pending_of key m ++ i ∷ []) in
      rw (push_bounded-last m.max_pending_instructions i (pending_of key m) positive bounded)
        (ap (λ s. s.pending_instructions) (put_pending-pending key kept m), refl)

  add_all-pending :
      (is : List PendingInstruction) (m : AgentStateManager)
      → 0 < m.max_pending_instructions
      → length (pending_of (key_of agent tenant) m) ≤ m.max_pending_instructions
      → pending_of (key_of agent tenant) (add_all agent tenant is m)
        ≡ last m.max_pending_instructions (pending_of (key_of agent tenant) m ++ is)
  unfolding add_all
  add_all-pending [] m positive bounded =
      let pending = pending_of (key_of agent tenant) m in
      rw (append-nil pending)
        (sym (last_of m.max_pending_instructions 0 pending (omega (arith, bounded))))
  add_all-pending (i ∷ is) m positive bounded =
      let key = key_of agent tenant in
      let max = m.max_pending_instructions in
      let pending = pending_of key m in
      let m' = (add_instruction agent tenant i m).1 in
      let (added, same) = add_instruction-pending i m positive bounded in
      add_all-pending is m' (omega (arith, positive, same))
        (rw added (omega (arith, length-last-le max (pending ++ i ∷ []), same)))
      ∙ rw (added, same)
          (last-append max (pending ++ i ∷ []) is
            ∙ ap (last max) (append_assoc pending (i ∷ []) is))

  -- Whatever is added for an agent, the next consumption hands over the newest instructions, as many
  -- as fit (`max_pending_instructions`, which is at least 1), in the order in which they were added,
  -- less those that are consumed or have expired: nothing else is lost and nothing is there twice.
  pub add_all-consume_instructions :
      (is : List PendingInstruction) (now : Time) (m : AgentStateManager)
      → 0 < m.max_pending_instructions
      → length (pending_of (key_of agent tenant) m) ≤ m.max_pending_instructions
      → (consume_instructions agent tenant now (add_all agent tenant is m)).0
        ≡ map mark (
            filter
              (is_live now)
              (last m.max_pending_instructions (pending_of (key_of agent tenant) m ++ is)))
  add_all-consume_instructions is now m positive bounded =
      (consume_instructions-Delivered agent tenant now (add_all agent tenant is m)).0
      ∙ ap (λ xs. map mark (filter (is_live now) xs)) (add_all-pending is m positive bounded)
