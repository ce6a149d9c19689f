-- ===== src/Triggers/DbChange/Attempts.antt =====
-- How often a run is tried again, and how long the queue of retries gets.
use Prim.Native.Nat.{max}
use owlclaw_core.Common.{
  ℕ, suc, ◌+◌, ◌≤◌, ◌<◌, ◌≡◌, refl, ap, inl, inr, Bool, true, false, List, [], ◌∷◌, arith, leb,
  Bool-cases, length, length-append, All, All-append,
}
use owlclaw_core.Triggers.DbChange.{
  Item, Outcome, accepted, exhausted, dropped, lost, RetryEntry, DlqEvent, LoopState, idle, calling,
  pausing, Answer, raised, returned, Manager, Environment, Call, dispatches, starts, stops, takes,
  answers, requeues, settle, is_full, drop_oldest, append_entry, enqueue_local_retry, start, lose,
  stop, take_from, take_when, take_entry, requeue_from, requeue, call_runtime, after_dispatch,
  dispatch_agent_trigger, move_to_dlq, after_retry, answer_to, end_attempt, step, run,
}

abbrev pub HeldBelow : ℕ → LoopState → Type 0
HeldBelow n idle = Unit
HeldBelow n (calling e) = e.attempt < n
HeldBelow n (pausing e) = suc e.attempt < n

module _ {W : Type 0} where
  -- the retries that a run gets: one at least
  abbrev pub limit : Manager W → ℕ
  limit m = max 1 m.max_retry_attempts

  -- what waits has tries left, the dead letters have had all of them, and the queue is bounded
  pub record IsLimited (m : Manager W) : Type 0 where
    pub waiting : All (λ (e : RetryEntry). e.attempt < limit m) m.local_retry_queue
    pub holding : HeldBelow (limit m) m.loop_state
    pub dead : All (λ (d : DlqEvent). d.attempt ≡ limit m) m.dlq_events
    pub bounded : 1 ≤ m.local_queue_max_size → length m.local_retry_queue ≤ m.local_queue_max_size

  settle-IsLimited :
      (o : Outcome) (item : Item) (m : Manager W) → IsLimited m → IsLimited (settle o item m)
  unfolding settle
  settle-IsLimited o item m b = record {
    waiting = b.waiting;
    holding = b.holding;
    dead = b.dead;
    bounded = b.bounded;
  }

  -- a manager with another queue, no longer than before, and perhaps another place of the loop
  shorter-IsLimited :
      (es : List RetryEntry) (s : LoopState) (on : Bool) (m : Manager W)
      → All (λ (e : RetryEntry). e.attempt < limit m) es
      → HeldBelow (limit m) s
      → length es ≤ length m.local_retry_queue
      → IsLimited m
      → IsLimited (record m { local_retry_queue = es; loop_state = s; started = on })
  shorter-IsLimited es s on m waiting holding short b = record {
    waiting = waiting;
    holding = holding;
    dead = b.dead;
    bounded = λ h. omega (arith, short, b.bounded h);
  }

  append_entry-IsLimited :
      (e : RetryEntry) (m : Manager W)
      → e.attempt < limit m
      → (1 ≤ m.local_queue_max_size → length m.local_retry_queue < m.local_queue_max_size)
      → IsLimited m
      → IsLimited (append_entry e m)
  unfolding append_entry
  append_entry-IsLimited e m below room b = record {
    waiting =
        All-append (λ (e : RetryEntry). e.attempt < limit m) m.local_retry_queue (e ∷ []) b.waiting
          (below, tt);
    holding = b.holding;
    dead = b.dead;
    bounded = λ h. omega (arith, room h, length-append m.local_retry_queue (e ∷ []));
  }

  drop_then_append-IsLimited :
      (es : List RetryEntry) (e : RetryEntry) (m : Manager W)
      → m.local_retry_queue ≡ es
      → 1 ≤ length es
      → e.attempt < limit m
      → IsLimited m
      → IsLimited (append_entry e (drop_oldest es m))
  unfolding drop_oldest settle
  drop_then_append-IsLimited [] e m h some_entry below b = absurd (omega (arith, some_entry))
  drop_then_append-IsLimited (x ∷ es) e m h some_entry below b =
      append_entry-IsLimited e (drop_oldest (x ∷ es) m) below
        (λ k. omega (arith, b.bounded k, ap length h))
        (settle-IsLimited dropped x.item (record m { local_retry_queue = es })
          (shorter-IsLimited es m.loop_state m.started m (rw h at b.waiting).1 b.holding
            (omega (arith, ap length h)) b))

  enqueue_local_retry-IsLimited :
      (e : RetryEntry) (m : Manager W)
      → e.attempt < limit m
      → IsLimited m
      → IsLimited (enqueue_local_retry e m)
  unfolding enqueue_local_retry
  enqueue_local_retry-IsLimited e m below b = elim (Bool-cases (is_full m)) [
    | inl full ↦
        rw full
          (drop_then_append-IsLimited m.local_retry_queue e m refl (ground (arith, full)) below b)
    | inr room ↦ rw room (append_entry-IsLimited e m below (λ h. ground (arith, room, h)) b)
  ]

  -- the same manager with the loop somewhere else
  moved-IsLimited :
      (s : LoopState) (on : Bool) (m : Manager W)
      → HeldBelow (limit m) s
      → IsLimited m
      → IsLimited (record m { loop_state = s; started = on })
  moved-IsLimited s on m holding b =
      shorter-IsLimited m.local_retry_queue s on m b.waiting holding (omega arith) b

  lose-IsLimited : (s : LoopState) (m : Manager W) → IsLimited m → IsLimited (lose s m)
  unfolding lose
  lose-IsLimited idle m b = b
  lose-IsLimited (calling e) m b = settle-IsLimited lost e.item m b
  lose-IsLimited (pausing e) m b = settle-IsLimited lost e.item m b

  stop-IsLimited : (m : Manager W) → IsLimited m → IsLimited (stop m)
  unfolding stop
  stop-IsLimited m b = elim (Bool-cases m.started) [
    | inl on ↦ simp on (lose-IsLimited m.loop_state _ (moved-IsLimited idle false m tt b))
    | inr off ↦ simp off b
  ]

  take_from-IsLimited :
      (es : List RetryEntry) (m : Manager W)
      → m.local_retry_queue ≡ es
      → IsLimited m
      → IsLimited (take_from es m)
  unfolding take_from
  take_from-IsLimited [] m h b = b
  take_from-IsLimited (e ∷ es) m h b =
      let waiting = rw h at b.waiting in
      shorter-IsLimited es (calling e) m.started m waiting.1 waiting.0 (omega (arith, ap length h))
        b

  take_when-IsLimited : (s : LoopState) (m : Manager W) → IsLimited m → IsLimited (take_when s m)
  unfolding take_when
  take_when-IsLimited idle m b = take_from-IsLimited m.local_retry_queue m refl b
  take_when-IsLimited (calling e) m b = b
  take_when-IsLimited (pausing e) m b = b

  take_entry-IsLimited : (m : Manager W) → IsLimited m → IsLimited (take_entry m)
  unfolding take_entry
  take_entry-IsLimited m b = elim (Bool-cases m.started) [
    | inl on ↦ simp on (take_when-IsLimited m.loop_state m b)
    | inr off ↦ simp off b
  ]

  requeue_from-IsLimited :
      (s : LoopState) (m : Manager W)
      → HeldBelow (limit m) s
      → IsLimited m
      → IsLimited (requeue_from s m)
  unfolding requeue_from
  requeue_from-IsLimited idle m h b = b
  requeue_from-IsLimited (calling e) m h b = b
  requeue_from-IsLimited (pausing e) m h b =
      enqueue_local_retry-IsLimited _ _ h (moved-IsLimited idle m.started m tt b)

module _ {W : Type 0} (env : Environment W) where
  after_dispatch-IsLimited :
      (a : Answer) (item : Item) (m : Manager W) (w : W)
      → IsLimited m
      → IsLimited (after_dispatch env a item (m, w)).1.0
  unfolding after_dispatch
  after_dispatch-IsLimited returned item m w b = settle-IsLimited accepted item m b
  after_dispatch-IsLimited (raised e) item m w b = enqueue_local_retry-IsLimited _ m (omega arith) b

  after_retry-IsLimited :
      (a : Answer) (e : RetryEntry) (m : Manager W)
      → e.attempt < limit m
      → IsLimited m
      → IsLimited (after_retry env a e m)
  unfolding after_retry move_to_dlq
  after_retry-IsLimited returned e m h b = settle-IsLimited accepted e.item m b
  after_retry-IsLimited (raised error) e m h b =
      elim (Bool-cases (leb m.max_retry_attempts (e.attempt + 1))) [
        | inl over ↦ rw over (
            settle-IsLimited exhausted e.item _ (record {
              waiting = b.waiting;
              holding = b.holding;
              dead =
                  All-append (λ (d : DlqEvent). d.attempt ≡ limit m) m.dlq_events _ b.dead
                    (ground (arith, over, h), tt);
              bounded = b.bounded;
            }))
        | inr more ↦ rw more (moved-IsLimited (pausing e) m.started m (ground (arith, more)) b)
      ]

  answer_to-IsLimited :
      (s : LoopState) (m : Manager W) (w : W)
      → HeldBelow (limit m) s
      → IsLimited m
      → IsLimited (answer_to env s (m, w)).0
  unfolding answer_to
  answer_to-IsLimited idle m w h b = b
  answer_to-IsLimited (pausing e) m w h b = b
  answer_to-IsLimited (calling e) m w h b =
      after_retry-IsLimited (call_runtime env e.item w).0 e _ h
        (moved-IsLimited idle m.started m tt b)

  step-IsLimited :
      (c : Call) (m : Manager W) (w : W) → IsLimited m → IsLimited (step env c (m, w)).0
  unfolding step dispatch_agent_trigger start requeue end_attempt
  step-IsLimited (dispatches item) m w b =
      after_dispatch-IsLimited (call_runtime env item w).0 item m (call_runtime env item w).1 b
  step-IsLimited starts m w b = moved-IsLimited m.loop_state true m b.holding b
  step-IsLimited stops m w b = stop-IsLimited m b
  step-IsLimited takes m w b = take_entry-IsLimited m b
  step-IsLimited answers m w b = answer_to-IsLimited m.loop_state m w b.holding b
  step-IsLimited requeues m w b = requeue_from-IsLimited m.loop_state m b.holding b

  -- Whatever happens, no run that waits has had all its retries, a run is in the dead letters only
  -- after exactly as many retries as are allowed, and one at least, and a queue with a bound keeps
  -- within it.
  pub run-IsLimited :
      (calls : List Call) (m : Manager W) (w : W) → IsLimited m → IsLimited (run env calls (m, w)).0
  unfolding run
  run-IsLimited [] m w b = b
  run-IsLimited (c ∷ calls) m w b =
      run-IsLimited calls (step env c (m, w)).0 (step env c (m, w)).1 (step-IsLimited c m w b)
