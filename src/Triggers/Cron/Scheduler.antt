-- ===== src/Triggers/Cron/Scheduler.antt =====
-- `PriorityScheduler` of owlclaw/triggers/cron.py. The heap is its items in the order in which `heapq`
-- gives them: by the index, which is the negated priority and then the number of the task.
pub mod Order
use owlclaw_core.Common.{
  ℕ, suc, ◌+◌, Bool, ◌&&◌, ◌||◌, Option, none, some, String, List, [], ◌∷◌, leb, if◌then◌else◌,
  length,
}
use owlclaw_core.Common.Int.{ℤ, ltb_ℤ, leb_ℤ}
use owlclaw_core.Common.Sorting.{insert_by}
use owlclaw_core.Common.Text.{strip, is_blank}

-- `PrioritizedTask`; `A` is the type of the factories
pub record PrioritizedTask (A : Type 0) : Type 0 where
  pub sequence : ℕ
  pub task_id : String
  pub task_factory : A
  pub priority : ℤ

pub record PriorityScheduler (A : Type 0) : Type 0 where
  pub queue : List (PrioritizedTask A)
  pub next_sequence : ℕ

pub data Call (A : Type 0) : Type 0 where
  schedules : (task_id fresh_id : String) → A → (priority : ℤ) → Call A
  executes : Call A

module _ {A : Type 0} where
  -- (-a.priority, a.sequence) <= (-b.priority, b.sequence)
  abbrev pub index_le : PrioritizedTask A → PrioritizedTask A → Bool
  index_le a b =
      ltb_ℤ b.priority a.priority || (leb_ℤ a.priority b.priority && leb a.sequence b.sequence)

  pub init : PriorityScheduler A
  init = record { queue = []; next_sequence = 0 }

  -- `schedule`; `fresh_id` is the id that a task with a blank one gets
  pub schedule :
      (task_id fresh_id : String) → A → (priority : ℤ) → PriorityScheduler A → PriorityScheduler A
  unfolding insert_by
  schedule task_id fresh_id task_factory priority s = record {
    queue =
        insert_by index_le
          (record {
            sequence = s.next_sequence;
            task_id = if is_blank (strip task_id) then fresh_id else strip task_id;
            task_factory = task_factory;
            priority = priority;
          })
          s.queue;
    next_sequence = s.next_sequence + 1;
  }

  -- `execute_next`: the task that is run, if there is one
  pub execute_next : PriorityScheduler A → Option (PrioritizedTask A) × PriorityScheduler A
  execute_next s = elim s.queue [ [] ↦ (none, s) | t ∷ rest ↦ (some t, record s { queue = rest }) ]

  -- `size`
  pub size : PriorityScheduler A → ℕ
  size s = length s.queue

  -- the calls in their order, and the tasks that were run
  pub run : List (Call A) → PriorityScheduler A → List (PrioritizedTask A) × PriorityScheduler A
  unfolding schedule execute_next
  run [] s = ([], s)
  run (schedules task_id fresh_id f priority ∷ calls) s =
      run calls (schedule task_id fresh_id f priority s)
  run (executes ∷ calls) s =
      let (t, s') = execute_next s in
      let (ran, after) = run calls s' in (elim t [ none ↦ ran | some task ↦ task ∷ ran ], after)
