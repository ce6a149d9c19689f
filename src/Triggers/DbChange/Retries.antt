-- ===== src/Triggers/DbChange/Retries.antt =====
-- Where every run goes that the manager dispatches, and how often it is tried.
use owlclaw_core.Common.{
  ℕ, suc, ◌+◌, ◌≡◌, refl, ap, ◌∙◌, inl, inr, Bool, false, List, [], ◌∷◌, ◌++◌, arith, leb,
  Bool-cases, if◌then◌else◌,
}
use owlclaw_core.Triggers.DbChange.{
  Item, Outcome, accepted, exhausted, dropped, lost, RetryEntry, LoopState, idle, calling, pausing,
  Answer, raised, returned, Manager, Environment, Call, dispatches, starts, stops, takes, answers,
  requeues, settle, is_full, drop_oldest, append_entry, enqueue_local_retry, start, lose, stop,
  take_from, take_when, take_entry, requeue_from, requeue, call_runtime, after_dispatch,
  dispatch_agent_trigger, move_to_dlq, after_retry, answer_to, end_attempt, step, run,
}

-- how many items of a list pass a test
abbrev pub total {ℓ} : {A : Type ℓ} → (A → Bool) → List A → ℕ
total p [] = 0
total p (x ∷ xs) = (if p x then 1 else 0) + total p xs

total-append :
    {A : Type 0} (p : A → Bool) (xs ys : List A) → total p (xs ++ ys) ≡ total p xs + total p ys
total-append p [] ys = omega arith
total-append p (x ∷ xs) ys = omega (arith, total-append p xs ys)

-- the runs that the calls dispatch
abbrev pub dispatched : List Call → List Item
dispatched [] = []
dispatched (dispatches item ∷ calls) = item ∷ dispatched calls
dispatched (starts ∷ calls) = dispatched calls
dispatched (stops ∷ calls) = dispatched calls
dispatched (takes ∷ calls) = dispatched calls
dispatched (answers ∷ calls) = dispatched calls
dispatched (requeues ∷ calls) = dispatched calls

dispatched-append :
    (c : Call) (calls : List Call)
    → dispatched (c ∷ calls) ≡ dispatched (c ∷ []) ++ dispatched calls
dispatched-append (dispatches item) calls = refl
dispatched-append starts calls = refl
dispatched-append stops calls = refl
dispatched-append takes calls = refl
dispatched-append answers calls = refl
dispatched-append requeues calls = refl

abbrev pub bit : Bool → ℕ
bit b = if b then 1 else 0

abbrev pub held : (Item → Bool) → LoopState → ℕ
held p idle = 0
held p (calling e) = bit (p e.item)
held p (pausing e) = bit (p e.item)

module _ {W : Type 0} (p : Item → Bool) where
  -- the runs that are settled, in the queue, or with the retry loop
  abbrev pub tally : Manager W → ℕ
  tally m =
      total (λ s. p s.1) m.settled
      + total (λ (e : RetryEntry). p e.item) m.local_retry_queue
      + held p m.loop_state

  tally-settle :
      (o : Outcome) (item : Item) (m : Manager W) → tally (settle o item m) ≡ tally m + bit (p item)
  unfolding settle
  tally-settle o item m = omega (arith, total-append (λ s. p s.1) m.settled ((o, item) ∷ []))

  tally-append_entry :
      (e : RetryEntry) (m : Manager W) → tally (append_entry e m) ≡ tally m + bit (p e.item)
  unfolding append_entry
  tally-append_entry e m =
      omega (arith, total-append (λ (e : RetryEntry). p e.item) m.local_retry_queue (e ∷ []))

  tally-drop_oldest :
      (es : List RetryEntry) (m : Manager W)
      → m.local_retry_queue ≡ es
      → tally (drop_oldest es m) ≡ tally m
  unfolding drop_oldest
  tally-drop_oldest [] m h = refl
  tally-drop_oldest (e ∷ es) m h = omega (
    arith,
    tally-settle dropped e.item (record m { local_retry_queue = es }),
    ap (total (λ (e : RetryEntry). p e.item)) h,
  )

  tally-enqueue_local_retry :
      (e : RetryEntry) (m : Manager W) → tally (enqueue_local_retry e m) ≡ tally m + bit (p e.item)
  unfolding enqueue_local_retry
  tally-enqueue_local_retry e m = elim (Bool-cases (is_full m)) [
    | inl full ↦ rw full (
        tally-append_entry e (drop_oldest m.local_retry_queue m)
        ∙ ap (λ n. n + bit (p e.item)) (tally-drop_oldest m.local_retry_queue m refl))
    | inr room ↦ rw room (tally-append_entry e m)
  ]

  tally-lose :
      (s : LoopState) (m : Manager W) → m.loop_state ≡ idle → tally (lose s m) ≡ tally m + held p s
  unfolding lose
  tally-lose idle m h = omega arith
  tally-lose (calling e) m h = tally-settle lost e.item m
  tally-lose (pausing e) m h = tally-settle lost e.item m

  tally-stop : (m : Manager W) → tally (stop m) ≡ tally m
  unfolding stop
  tally-stop m = elim (Bool-cases m.started) [
    | inl on ↦ simp on (
        omega
          (arith, tally-lose m.loop_state (record m { started = false; loop_state = idle }) refl))
    | inr off ↦ simp off refl
  ]

  tally-take_from :
      (es : List RetryEntry) (m : Manager W)
      → m.local_retry_queue ≡ es
      → m.loop_state ≡ idle
      → tally (take_from es m) ≡ tally m
  unfolding take_from
  tally-take_from [] m h i = refl
  tally-take_from (e ∷ es) m h i =
      omega (arith, ap (total (λ (e : RetryEntry). p e.item)) h, ap (held p) i)

  tally-take_when :
      (s : LoopState) (m : Manager W) → m.loop_state ≡ s → tally (take_when s m) ≡ tally m
  unfolding take_when
  tally-take_when idle m h = tally-take_from m.local_retry_queue m refl h
  tally-take_when (calling e) m h = refl
  tally-take_when (pausing e) m h = refl

  tally-take_entry : (m : Manager W) → tally (take_entry m) ≡ tally m
  unfolding take_entry
  tally-take_entry m = elim (Bool-cases m.started) [
    | inl on ↦ simp on (tally-take_when m.loop_state m refl)
    | inr off ↦ simp off refl
  ]

  tally-requeue_from :
      (s : LoopState) (m : Manager W) → m.loop_state ≡ s → tally (requeue_from s m) ≡ tally m
  unfolding requeue_from
  tally-requeue_from idle m h = refl
  tally-requeue_from (calling e) m h = refl
  tally-requeue_from (pausing e) m h = omega (
    arith,
    ap (held p) h,
    tally-enqueue_local_retry (record e { attempt = suc e.attempt })
        (record m { loop_state = idle }),
  )

  module _ (env : Environment W) where
    tally-after_dispatch :
        (a : Answer) (item : Item) (m : Manager W) (w : W)
        → tally (after_dispatch env a item (m, w)).1.0 ≡ tally m + bit (p item)
    unfolding after_dispatch
    tally-after_dispatch returned item m w = tally-settle accepted item m
    tally-after_dispatch (raised e) item m w =
        tally-enqueue_local_retry (record { item = item; attempt = 0 }) m

    tally-after_retry :
        (a : Answer) (e : RetryEntry) (m : Manager W)
        → m.loop_state ≡ idle
        → tally (after_retry env a e m) ≡ tally m + bit (p e.item)
    unfolding after_retry move_to_dlq
    tally-after_retry returned e m h = tally-settle accepted e.item m
    tally-after_retry (raised error) e m h =
        elim (Bool-cases (leb m.max_retry_attempts (e.attempt + 1))) [
          | inl over ↦ rw over (omega (arith, ap (held p) h, tally-settle exhausted e.item m))
          | inr more ↦ rw more (omega (arith, ap (held p) h))
        ]

    tally-answer_to :
        (s : LoopState) (m : Manager W) (w : W)
        → m.loop_state ≡ s
        → tally (answer_to env s (m, w)).0 ≡ tally m
    unfolding answer_to
    tally-answer_to idle m w h = refl
    tally-answer_to (pausing e) m w h = refl
    tally-answer_to (calling e) m w h = omega (
      arith,
      ap (held p) h,
      tally-after_retry (call_runtime env e.item w).0 e (record m { loop_state = idle }) refl,
    )

    tally-step :
        (c : Call) (m : Manager W) (w : W)
        → tally (step env c (m, w)).0 ≡ tally m + total p (dispatched (c ∷ []))
    unfolding step dispatch_agent_trigger start requeue end_attempt
    tally-step (dispatches item) m w =
        omega (
          arith,
          tally-after_dispatch (call_runtime env item w).0 item m (call_runtime env item w).1,
        )
    tally-step starts m w = omega arith
    tally-step stops m w = omega (arith, tally-stop m)
    tally-step takes m w = omega (arith, tally-take_entry m)
    tally-step answers m w = omega (arith, tally-answer_to m.loop_state m w refl)
    tally-step requeues m w = omega (arith, tally-requeue_from m.loop_state m refl)

    -- However dispatches, retries, pauses, starts and stops follow one another, and whatever the
    -- runtime answers: every run that was dispatched is in exactly one place. It is settled once (as
    -- accepted, with its attempts used up, dropped by a full queue, or lost by a stop), or it waits in
    -- the queue, or the retry loop has it; this holds for the runs of any kind `p`.
    pub tally-run :
        (calls : List Call) (m : Manager W) (w : W)
        → tally (run env calls (m, w)).0 ≡ tally m + total p (dispatched calls)
    unfolding run
    tally-run [] m w = omega arith
    tally-run (c ∷ calls) m w = omega (
      arith,
      tally-step c m w,
      tally-run calls (step env c (m, w)).0 (step env c (m, w)).1,
      total-append p (dispatched (c ∷ [])) (dispatched calls),
      ap (total p) (dispatched-append c calls),
    )
