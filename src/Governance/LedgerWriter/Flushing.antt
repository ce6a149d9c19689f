-- ===== src/Governance/LedgerWriter/Flushing.antt =====
-- How a batch is flushed, and what a stop leaves.
use owlclaw_core.Common.{
  ℕ, zero, suc, ◌<◌, ◌≡◌, refl, inl, inr, Bool, true, false, List, [], ◌∷◌, map, arith, Bool-cases,
}
use owlclaw_core.Governance.LedgerWriter.{
  Destination, stored, Ledger, flush_attempts, flush_batch, flush_now, stop, wake,
  write_to_fallback_log,
}

module _ {R W : Type 0} (commit : List R → W → Bool × W) (write_line : R → W → Bool × W) where
  -- the state before the attempt `k`, counted from 0, if those before have all failed
  abbrev pub state_before : List R → ℕ → W → W
  state_before rs zero w = w
  state_before rs (suc k) w = state_before rs k (commit rs w).1

  abbrev pub commits : List R → ℕ → W → Bool
  commits rs k w = (commit rs (state_before rs k w)).0

  -- the flush of a batch: the first of the attempts that succeeds stores it, and if none does, each
  -- of its records goes to the log
  pub data Flushed (attempts : ℕ) (rs : List R) (w : W) (result : List (Destination × R) × W)
      : Type 0 where
    by_attempt :
        (k : ℕ)
        → k < attempts
        → ((j : ℕ) → j < k → commits rs j w ≡ false)
        → commits rs k w ≡ true
        → result ≡ (map (λ r. (stored, r)) rs, state_before rs (suc k) w)
        → Flushed attempts rs w result
    by_log :
        ((j : ℕ) → j < attempts → commits rs j w ≡ false)
        → result ≡ write_to_fallback_log commit write_line rs (state_before rs attempts w)
        → Flushed attempts rs w result

  earlier :
      (n : ℕ) (rs : List R) (w : W)
      → commits rs 0 w ≡ false
      → ((j : ℕ) → j < n → commits rs j (commit rs w).1 ≡ false)
      → (j : ℕ) → j < suc n
      → commits rs j w ≡ false
  earlier n rs w first later zero h = first
  earlier n rs w first later (suc j) h = later j (omega (arith, h))

  after_failure :
      (n : ℕ) (rs : List R) (w : W) (result : List (Destination × R) × W)
      → commits rs 0 w ≡ false
      → Flushed n rs (commit rs w).1 result
      → Flushed (suc n) rs w result
  after_failure n rs w result first (by_attempt k h failures success done) =
      by_attempt (suc k) (omega (arith, h)) (earlier k rs w first failures) success done
  after_failure n rs w result first (by_log failures done) =
      by_log (earlier n rs w first failures) done

  flush_attempts-Flushed :
      (left : ℕ) (rs : List R) (w : W)
      → Flushed (suc left) rs w (flush_attempts commit write_line (suc left) rs w)
  unfolding flush_attempts
  flush_attempts-Flushed zero rs w = elim (Bool-cases (commit rs w).0) [
    | inl success ↦
        by_attempt 0 (omega arith) (λ j h. absurd (omega (arith, h))) success
          (rw (success, flush_attempts) refl)
    | inr failed ↦
        by_log (earlier 0 rs w failed (λ j h. absurd (omega (arith, h))))
          (rw (failed, flush_attempts) refl)
  ]
  flush_attempts-Flushed (suc left) rs w = elim (Bool-cases (commit rs w).0) [
    | inl success ↦
        by_attempt 0 (omega arith) (λ j h. absurd (omega (arith, h))) success
          (rw (success, flush_attempts) refl)
    | inr failed ↦
        after_failure (suc left) rs w _ failed
          (rw (failed, flush_attempts) (flush_attempts-Flushed left rs (commit rs w).1))
  ]

  -- A batch is tried at most three times: the first commit that succeeds stores all of it and ends
  -- the attempts, and only if all three fail are its records written to the fallback log.
  pub flush_batch-Flushed :
      (rs : List R) (w : W) → Flushed 3 rs w (flush_batch commit write_line rs w)
  unfolding flush_batch
  flush_batch-Flushed rs w = flush_attempts-Flushed 2 rs w

  wake-idle : (l : Ledger R) (w : W) → l.running ≡ false → wake commit write_line (l, w) ≡ (l, w)
  unfolding wake
  wake-idle l w h = rw (h, wake) refl

  abbrev Halted : Ledger R → Ledger R × W → Type 0
  Halted l (l', w) = (l'.write_queue ≡ l.write_queue) × (l'.running ≡ false)

  stop-Halted : (l : Ledger R) (w : W) → Halted l (stop commit write_line (l, w))
  unfolding stop flush_now
  stop-Halted l w = by_cases l.running refl l.batch refl
    where
      by_cases :
          (b : Bool)
          → l.running ≡ b
          → (xs : List R) → l.batch ≡ xs
          → Halted l (stop commit write_line (l, w))
      by_cases false h xs e = rw (h, stop) (refl, refl)
      by_cases true h [] e = rw (h, e, stop) (refl, refl)
      by_cases true h (x ∷ xs) e = rw (h, e, stop) (refl, refl)

  -- Stopping the writer settles its batch, but not one record of the queue: they stay where they
  -- are, and no round writes them until the writer is started again.
  pub stop-leaves_queue :
      (l : Ledger R) (w v : W)
      → ((stop commit write_line (l, w)).0.write_queue ≡ l.write_queue)
        × (wake commit write_line ((stop commit write_line (l, w)).0, v)
            ≡ ((stop commit write_line (l, w)).0, v))
  stop-leaves_queue l w v = let (queue, halted) = stop-Halted l w in (queue, wake-idle _ v halted)
