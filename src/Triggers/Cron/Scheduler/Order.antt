-- ===== src/Triggers/Cron/Scheduler/Order.antt =====
-- In which order the tasks of the scheduler run.
use owlclaw_core.Common.{
  ℕ, ◌+◌, ◌<◌, ◌≡◌, ◌⊎◌, refl, inl, inr, true, false, Option, none, some, String, List, [], ◌∷◌,
  arith, All, Bool-cases,
}
use owlclaw_core.Common.Int.{ℤ, ◌<ℤ◌, eq_of_parts}
use owlclaw_core.Common.Sorting.{insert_by, All-insert_by}
use owlclaw_core.Triggers.Cron.Scheduler.{
  PrioritizedTask, PriorityScheduler, Call, schedules, executes, index_le, init, schedule,
  execute_next, run,
}

module _ {A : Type 0} where
  -- `a` runs before `b`: it has the higher priority, or the same and was scheduled earlier
  abbrev pub Before : PrioritizedTask A → PrioritizedTask A → Type 0
  Before a b = (b.priority <ℤ a.priority) ⊎ ((a.priority ≡ b.priority) × (a.sequence < b.sequence))

  abbrev pub InOrder : List (PrioritizedTask A) → Type 0
  InOrder [] = Unit
  InOrder (t ∷ ts) = All (Before t) ts × InOrder ts

  -- every task that waits got its number before the next
  pub record IsOrdered (s : PriorityScheduler A) : Type 0 where
    pub in_order : InOrder s.queue
    pub numbered : All (λ t. t.sequence < s.next_sequence) s.queue

  Before-trans : (a b c : PrioritizedTask A) → Before a b → Before b c → Before a c
  Before-trans a b c (inl h) (inl k) = inl (omega (arith, h, k))
  Before-trans a b c (inl h) (inr k) = inl (rw (k.0) at h)
  Before-trans a b c (inr h) (inl k) = inl (rw h.0 k)
  Before-trans a b c (inr h) (inr k) = inr (rw h.0 k.0, omega (arith, h.1, k.1))

  Before-All :
      (a b : PrioritizedTask A) (ts : List (PrioritizedTask A))
      → Before a b
      → All (Before b) ts
      → All (Before a) ts
  Before-All a b [] h all = tt
  Before-All a b (t ∷ ts) h all = (Before-trans a b t h all.0, Before-All a b ts h all.1)

  -- a new task, which has the highest number
  Before-of_le :
      (a b : PrioritizedTask A)
      → b.sequence < a.sequence
      → index_le a b ≡ true
      → b.priority <ℤ a.priority
  Before-of_le a b h le = ground arith

  Before-of_gt :
      (a b : PrioritizedTask A) → b.sequence < a.sequence → index_le a b ≡ false → Before b a
  Before-of_gt a b h gt = ground (arith, eq_of_parts b.priority a.priority)

  insert_by-InOrder :
      (a : PrioritizedTask A) (ts : List (PrioritizedTask A))
      → InOrder ts
      → All (λ t. t.sequence < a.sequence) ts
      → InOrder (insert_by index_le a ts)
  unfolding insert_by
  insert_by-InOrder a [] h new = (tt, tt)
  insert_by-InOrder a (t ∷ ts) h new = elim (Bool-cases (index_le a t)) [
    | inl first ↦
        let before : Before a t = inl (Before-of_le a t new.0 first) in
        rw first ((before, Before-All a t ts before h.0), h)
    | inr later ↦ rw later (
      All-insert_by (Before t) index_le a ts (Before-of_gt a t new.0 later) h.0,
      insert_by-InOrder a ts h.1 new.1,
    )
  ]

  All-lt_suc :
      (n : ℕ) (ts : List (PrioritizedTask A))
      → All (λ t. t.sequence < n) ts
      → All (λ t. t.sequence < n + 1) ts
  All-lt_suc n [] h = tt
  All-lt_suc n (t ∷ ts) h = (omega (arith, h.0), All-lt_suc n ts h.1)

  schedule-IsOrdered :
      (task_id fresh_id : String) (f : A) (priority : ℤ) (s : PriorityScheduler A)
      → IsOrdered s
      → IsOrdered (schedule task_id fresh_id f priority s)
  unfolding schedule
  schedule-IsOrdered task_id fresh_id f priority s w = record {
    in_order = insert_by-InOrder _ s.queue w.in_order w.numbered;
    numbered =
        All-insert_by (λ t. t.sequence < s.next_sequence + 1) index_le _ s.queue (omega arith)
          (All-lt_suc s.next_sequence s.queue w.numbered);
  }

  -- the task that is run stands before all that wait then
  abbrev pub Ran : Option (PrioritizedTask A) × PriorityScheduler A → Type 0
  Ran (none, s) = s.queue ≡ []
  Ran (some t, s) = All (Before t) s.queue

  execute_next-IsOrdered :
      (s : PriorityScheduler A) → IsOrdered s → Ran (execute_next s) × IsOrdered (execute_next s).1
  unfolding execute_next
  execute_next-IsOrdered s w = by_cases s.queue refl w.in_order w.numbered
    where
      by_cases :
          (q : List (PrioritizedTask A))
          → s.queue ≡ q
          → InOrder q
          → All (λ t. t.sequence < s.next_sequence) q
          → Ran (execute_next s) × IsOrdered (execute_next s).1
      by_cases [] h o n = rw (h, execute_next) (h, w)
      by_cases (t ∷ ts) h o n =
          rw (h, execute_next) (o.0, record { in_order = o.1; numbered = n.1 })

  run-IsOrdered :
      (calls : List (Call A)) (s : PriorityScheduler A) → IsOrdered s → IsOrdered (run calls s).1
  unfolding run
  run-IsOrdered [] s w = w
  run-IsOrdered (schedules task_id fresh_id f priority ∷ calls) s w =
      run-IsOrdered calls _ (schedule-IsOrdered task_id fresh_id f priority s w)
  run-IsOrdered (executes ∷ calls) s w = run-IsOrdered calls _ (execute_next-IsOrdered s w).1

  -- After any calls, the task that is run next has the highest priority of those that wait, and was
  -- scheduled before the others of its priority; only an empty queue runs nothing.
  pub run-Ran : (calls : List (Call A)) → Ran (execute_next (run calls init).1)
  unfolding init
  run-Ran calls =
      (execute_next-IsOrdered _ (run-IsOrdered calls _ (record { in_order = tt; numbered = tt }))).0
