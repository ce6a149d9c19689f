-- ===== src/Triggers/Queue/Retry.antt =====
-- `_trigger_agent_with_retry` of owlclaw/triggers/queue/trigger.py: a call that is tried again when it
-- raises. The pauses between the attempts are left out.
pub mod Attempts
use owlclaw_core.Common.{ℕ, zero, suc}
use owlclaw_core.Common.Result.{Result, ok, err}

module _ {E A W : Type 0} (call : W → Result E A × W) where
  after_attempt : ℕ × (Result E A × W) → ℕ × (Result E A × W)
  after_attempt (retries, r) = (suc retries, r)

  -- the attempts of the loop when `retries_left` more are allowed after the next: the number of
  -- retries that are recorded, and how the last attempt ended
  unfoldable pub retry : (retries_left : ℕ) → W → ℕ × (Result E A × W)
  unfolding after_attempt
  retry zero w = (0, call w)
  retry (suc n) w =
      let rest = retry n (call w).1 in
      elim (call w).0 [ ok a ↦ (0, (ok a, (call w).1)) | err e ↦ after_attempt rest ]
