-- ===== src/Governance/LedgerWriter.antt =====
-- The class `Ledger` of owlclaw/governance/ledger.py: records wait in a bounded queue, and a background
-- task writes them to the database in batches. `R` is the type of the records, as they are after their
-- names have been checked; `W` is the state of the database and of the fallback log. `settled` has
-- every record that the writer is done with, with where it went. A stop cancels the writer while it
-- waits for a record (`stops`), or during the flush of its round, between two commits
-- (`stops_in_flush`); a commit that the cancellation interrupts is taken not to have happened.
pub mod Accounting
pub mod Flushing
pub mod Kept
pub mod Losses
mod Tests
use owlclaw_core.Common.{
  ℕ, zero, suc, ◌+◌, Bool, true, false, not, ◌&&◌, ◌||◌, Option, none, some, String, List, [], ◌∷◌,
  ◌++◌, map, leb, ltb, if◌then◌else◌, length,
}
use owlclaw_core.Common.Result.{Result, ok, err}
use owlclaw_core.Common.Text.{strip, is_blank}

-- where a record went: the database, the fallback log, or nowhere, since the log cannot be written
-- or the flush was cancelled and is not made up for
pub data Destination : Type 0 where
  stored logged unlogged lost : Destination

pub record Ledger (R : Type 0) : Type 0 where
  pub batch_size : ℕ
  pub queue_maxsize : ℕ
  pub write_queue : List R
  -- the local variable of the writer
  pub batch : List R
  pub running : Bool
  pub dropped : ℕ
  pub settled : List (Destination × R)

pub data Error : Type 0 where
  bad_batch_size bad_flush_interval bad_fallback_log_path bad_queue_maxsize : Error

-- what happens to a ledger
pub data Call (R : Type 0) : Type 0 where
  records : R → Call R
  starts wakes stops : Call R
  stops_in_flush : (attempts : ℕ) → Call R

-- `self._flush_max_retries`
abbrev pub flush_max_retries : ℕ
flush_max_retries = 3

-- `__init__` on numbers and a path
pub init :
    {R : Type 0}
    → (batch_size flush_interval : ℕ) (fallback_log_path : String) (queue_maxsize : ℕ)
    → Result Error (Ledger R)
init batch_size flush_interval fallback_log_path queue_maxsize =
    if ltb batch_size 1
    then err bad_batch_size
    else if ltb flush_interval 1
    then err bad_flush_interval
    else if is_blank (strip fallback_log_path)
    then err bad_fallback_log_path
    else if ltb queue_maxsize 1
    then err bad_queue_maxsize
    else ok (record {
      batch_size = batch_size;
      queue_maxsize = queue_maxsize;
      write_queue = [];
      batch = [];
      running = false;
      dropped = 0;
      settled = [];
    })

module _ {R : Type 0} where
  -- the queue without its oldest record
  abbrev drop_oldest : List R → List R
  drop_oldest [] = []
  drop_oldest (r ∷ rs) = rs

  -- the end of `record_execution`: a full queue loses its oldest record
  pub enqueue : R → Ledger R → Ledger R
  enqueue r l =
      if ltb (length l.write_queue) l.queue_maxsize
      then record l { write_queue = l.write_queue ++ r ∷ [] }
      else record l { write_queue = drop_oldest l.write_queue ++ r ∷ []; dropped = l.dropped + 1 }

  -- `start`; a writer that runs goes on
  pub start : Ledger R → Ledger R
  start l = record l { running = true }

  -- while len(batch) < batch_size and not queue.empty(): the batch, and what is left of the queue
  pub drain : ℕ → List R → List R → List R × List R
  drain batch_size batch [] = (batch, [])
  drain batch_size batch (r ∷ rs) =
      let more = drain batch_size (batch ++ r ∷ []) rs in
      if ltb (length batch) batch_size then more else (batch, r ∷ rs)

module _ {R W : Type 0} (commit : List R → W → Bool × W) (write_line : R → W → Bool × W) where
  -- `_write_to_fallback_log`; a line that cannot be written is only reported
  pub write_to_fallback_log : List R → W → List (Destination × R) × W
  write_to_fallback_log [] w = ([], w)
  write_to_fallback_log (r ∷ rs) w =
      let (written, w₁) = write_line r w in
      let (rest, w₂) = write_to_fallback_log rs w₁ in
      (((if written then logged else unlogged), r) ∷ rest, w₂)

  -- the loop of `_flush_batch` with the attempts that are left
  flush_attempts : ℕ → List R → W → List (Destination × R) × W
  unfolding write_to_fallback_log
  flush_attempts zero rs w = ([], w)
  flush_attempts (suc left) rs w =
      let again = flush_attempts left rs (commit rs w).1 in
      let given_up = write_to_fallback_log rs (commit rs w).1 in
      elim (commit rs w).0 [
        | true ↦ (map (λ r. (stored, r)) rs, (commit rs w).1)
        | false ↦ elim left [ zero ↦ given_up | suc _ ↦ again ]
      ]

  -- `_flush_batch`
  pub flush_batch : List R → W → List (Destination × R) × W
  unfolding flush_attempts
  flush_batch = flush_attempts flush_max_retries

  -- the batch is flushed and is empty after that
  pub flush_now : Ledger R × W → Ledger R × W
  unfolding flush_batch
  flush_now (l, w) =
      let (done, w') = flush_batch l.batch w in
      (record l { batch = []; settled = l.settled ++ done }, w')

  -- one round of `_background_writer` in which `get` gave a record
  take_records : R → List R → Ledger R × W → Ledger R × W
  unfolding drain flush_now
  take_records r rs (l, w) =
      let (batch, queue) = drain l.batch_size (l.batch ++ r ∷ []) rs in
      let l' = record l { batch = batch; write_queue = queue } in
      if leb l.batch_size (length batch) then flush_now (l', w) else (l', w)

  -- one round of a writer that runs: it gets records, or none has come for the interval
  pub wake : Ledger R × W → Ledger R × W
  unfolding take_records flush_now
  wake (l, w) = if not l.running then (l, w) else elim l.write_queue [
    | r ∷ rs ↦ take_records r rs (l, w)
    | [] ↦ elim l.batch [ [] ↦ (l, w) | _ ∷ _ ↦ flush_now (l, w) ]
  ]

  -- `stop`: the task is cancelled, flushes its batch and ends; the queue stays as it is
  pub stop : Ledger R × W → Ledger R × W
  unfolding flush_now
  stop (l, w) = if not l.running then (l, w) else elim l.batch [
    | [] ↦ (record l { running = false }, w)
    | _ ∷ _ ↦ let (l', w') = flush_now (l, w) in (record l' { running = false }, w')
  ]

  -- the first `n` attempts of a flush: whether one of them commits, and the state after them
  attempts_made : ℕ → List R → W → Bool × W
  attempts_made zero rs w = (false, w)
  attempts_made (suc n) rs w =
      let more = attempts_made n rs (commit rs w).1 in
      if (commit rs w).0 then (true, (commit rs w).1) else more

  -- the cancellation comes too late: the flush has ended
  abbrev has_ended : ℕ → List R → W → Bool
  has_ended n rs w = leb flush_max_retries n || (attempts_made n rs w).0

  stop_after : Ledger R × W → Ledger R × W
  stop_after (l, w) = (record l { running = false }, w)

  -- a cancellation in the flush of a full batch, in the body of the `try`: its handler flushes the
  -- batch again
  cancel_full : ℕ → Ledger R × W → Ledger R × W
  unfolding attempts_made flush_now stop_after
  cancel_full n (l, w) =
      if has_ended n l.batch w
      then stop_after (flush_now (l, w))
      else stop_after (flush_now (l, (attempts_made n l.batch w).1))

  -- a cancellation in the flush of a batch that has waited, in the handler of `TimeoutError`: no other
  -- handler of the same `try` catches it, and the batch is lost
  cancel_waiting : ℕ → Ledger R × W → Ledger R × W
  unfolding attempts_made flush_now stop_after
  cancel_waiting n (l, w) =
      if has_ended n l.batch w
      then stop_after (flush_now (l, w))
      else stop_after (
        record l { batch = []; settled = l.settled ++ map (λ r. (lost, r)) l.batch },
        (attempts_made n l.batch w).1,
      )

  cancel_records : ℕ → R → List R → Ledger R × W → Ledger R × W
  unfolding drain cancel_full stop
  cancel_records n r rs (l, w) =
      let (batch, queue) = drain l.batch_size (l.batch ++ r ∷ []) rs in
      let l' = record l { batch = batch; write_queue = queue } in
      if leb l.batch_size (length batch) then cancel_full n (l', w) else stop (l', w)

  -- `stop` in a round of the writer, after `n` attempts of its flush if it makes one
  pub stop_in_flush : ℕ → Ledger R × W → Ledger R × W
  unfolding cancel_records cancel_waiting stop_after
  stop_in_flush n (l, w) = if not l.running then (l, w) else elim l.write_queue [
    | r ∷ rs ↦ cancel_records n r rs (l, w)
    | [] ↦ elim l.batch [ [] ↦ stop_after (l, w) | _ ∷ _ ↦ cancel_waiting n (l, w) ]
  ]

  pub step : Call R → Ledger R × W → Ledger R × W
  unfolding enqueue start wake stop stop_in_flush
  step (records r) (l, w) = (enqueue r l, w)
  step starts (l, w) = (start l, w)
  step wakes s = wake s
  step stops s = stop s
  step (stops_in_flush n) s = stop_in_flush n s

  -- any calls, and rounds of the writer between them
  pub run : List (Call R) → Ledger R × W → Ledger R × W
  unfolding step
  run [] s = s
  run (c ∷ calls) s = run calls (step c s)
