-- ===== src/Governance/LedgerWriter/Losses.antt =====
-- When the writer of the ledger loses records that it has taken.
use owlclaw_core.Common.{
  ℕ, zero, suc, ◌≡◌, refl, ltb, length, inl, inr, Bool, true, false, List, [], ◌∷◌, ◌++◌, map, leb,
  All, All-append, Bool-cases,
}
use owlclaw_core.Governance.LedgerWriter.{
  Destination, stored, logged, unlogged, lost, Ledger, Call, records, starts, wakes, stops,
  stops_in_flush, enqueue, start, drain, write_to_fallback_log, flush_attempts, flush_batch,
  flush_max_retries, flush_now, take_records, wake, stop, step, run,
}

abbrev pub is_lost : Destination → Bool
is_lost stored = false
is_lost logged = false
is_lost unlogged = false
is_lost lost = true

module _ {R : Type 0} where
  abbrev pub NoneLost : List (Destination × R) → Type 0
  NoneLost settled = All (λ (p : Destination × R). is_lost p.0 ≡ false) settled

  abbrev pub cuts_off : Call R → Bool
  cuts_off (records r) = false
  cuts_off starts = false
  cuts_off wakes = false
  cuts_off stops = false
  cuts_off (stops_in_flush n) = true

  stored-NoneLost : (rs : List R) → NoneLost (map (λ r. (stored, r)) rs)
  stored-NoneLost [] = tt
  stored-NoneLost (r ∷ rs) = (refl, stored-NoneLost rs)

module _ {R W : Type 0} (commit : List R → W → Bool × W) (write_line : R → W → Bool × W) where
  write_to_fallback_log-NoneLost :
      (rs : List R) (w : W) → NoneLost (write_to_fallback_log commit write_line rs w).0
  unfolding write_to_fallback_log
  write_to_fallback_log-NoneLost [] w = tt
  write_to_fallback_log-NoneLost (r ∷ rs) w =
      let rest = write_to_fallback_log-NoneLost rs (write_line r w).1 in
      elim (Bool-cases (write_line r w).0) [
        | inl written ↦ rw (written, write_to_fallback_log) (refl, rest)
        | inr failed ↦ rw (failed, write_to_fallback_log) (refl, rest)
      ]

  flush_attempts-NoneLost :
      (left : ℕ) (rs : List R) (w : W) → NoneLost (flush_attempts commit write_line left rs w).0
  unfolding flush_attempts
  flush_attempts-NoneLost zero rs w = tt
  flush_attempts-NoneLost (suc zero) rs w = elim (Bool-cases (commit rs w).0) [
    | inl done ↦ rw (done, flush_attempts) (stored-NoneLost rs)
    | inr failed ↦ rw (failed, flush_attempts) (write_to_fallback_log-NoneLost rs (commit rs w).1)
  ]
  flush_attempts-NoneLost (suc (suc left)) rs w = elim (Bool-cases (commit rs w).0) [
    | inl done ↦ rw (done, flush_attempts) (stored-NoneLost rs)
    | inr failed ↦
        rw (failed, flush_attempts) (flush_attempts-NoneLost (suc left) rs (commit rs w).1)
  ]

  flush_now-NoneLost :
      (l : Ledger R) (w : W)
      → NoneLost l.settled
      → NoneLost (flush_now commit write_line (l, w)).0.settled
  unfolding flush_now flush_batch
  flush_now-NoneLost l w h =
      All-append _ l.settled _ h (flush_attempts-NoneLost flush_max_retries l.batch w)

  take_records-NoneLost :
      (r : R) (queue : List R) (l : Ledger R) (w : W)
      → NoneLost l.settled
      → NoneLost (take_records commit write_line r queue (l, w)).0.settled
  unfolding take_records
  take_records-NoneLost r queue l w h =
      let (batch, rest) = drain l.batch_size (l.batch ++ r ∷ []) queue in
      elim (Bool-cases (leb l.batch_size (length batch))) [
        | inl full ↦
            rw (full, take_records)
              (flush_now-NoneLost (record l { batch = batch; write_queue = rest }) w h)
        | inr room ↦ rw (room, take_records) h
      ]

  wake-NoneLost :
      (l : Ledger R) (w : W)
      → NoneLost l.settled
      → NoneLost (wake commit write_line (l, w)).0.settled
  unfolding wake
  wake-NoneLost l w h = by_cases l.running refl l.write_queue refl l.batch refl
    where
      by_cases :
          (b : Bool)
          → l.running ≡ b
          → (q : List R) → l.write_queue ≡ q
          → (xs : List R) → l.batch ≡ xs
          → NoneLost (wake commit write_line (l, w)).0.settled
      by_cases false idle q e xs e' = rw (idle, wake) h
      by_cases true runs [] e [] e' = rw (runs, e, e', wake) h
      by_cases true runs [] e (x ∷ xs) e' = rw (runs, e, e', wake) (flush_now-NoneLost l w h)
      by_cases true runs (r ∷ q) e xs e' = rw (runs, e, wake) (take_records-NoneLost r q l w h)

  stop-NoneLost :
      (l : Ledger R) (w : W)
      → NoneLost l.settled
      → NoneLost (stop commit write_line (l, w)).0.settled
  unfolding stop
  stop-NoneLost l w h = by_cases l.running refl l.batch refl
    where
      by_cases :
          (b : Bool)
          → l.running ≡ b
          → (xs : List R) → l.batch ≡ xs
          → NoneLost (stop commit write_line (l, w)).0.settled
      by_cases false idle xs e = rw (idle, stop) h
      by_cases true runs [] e = rw (runs, e, stop) h
      by_cases true runs (x ∷ xs) e = rw (runs, e, stop) (flush_now-NoneLost l w h)

  enqueue-NoneLost : (r : R) (l : Ledger R) → NoneLost l.settled → NoneLost (enqueue r l).settled
  unfolding enqueue
  enqueue-NoneLost r l h = elim (Bool-cases (ltb (length l.write_queue) l.queue_maxsize)) [
    | inl room ↦ rw (room, enqueue) h
    | inr full ↦ rw (full, enqueue) h
  ]

  pub run-NoneLost :
      (calls : List (Call R)) (l : Ledger R) (w : W)
      → All (λ (c : Call R). cuts_off c ≡ false) calls
      → NoneLost l.settled
      → NoneLost (run commit write_line calls (l, w)).0.settled
  unfolding run step start
  run-NoneLost [] l w calm h = h
  run-NoneLost (records r ∷ calls) l w calm h =
      run-NoneLost calls (enqueue r l) w calm.1 (enqueue-NoneLost r l h)
  run-NoneLost (starts ∷ calls) l w calm h = run-NoneLost calls _ w calm.1 h
  run-NoneLost (wakes ∷ calls) l w calm h = run-NoneLost calls _ _ calm.1 (wake-NoneLost l w h)
  run-NoneLost (stops ∷ calls) l w calm h = run-NoneLost calls _ _ calm.1 (stop-NoneLost l w h)
  run-NoneLost (stops_in_flush n ∷ calls) l w calm h = cc
