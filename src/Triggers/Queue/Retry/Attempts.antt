-- ===== src/Triggers/Queue/Retry/Attempts.antt =====
-- The retries are the attempts up to the first that returns.
use owlclaw_core.Common.{ℕ, zero, suc, ◌≤◌, ◌<◌, ◌≡◌, ◌⊎◌, inl, inr, refl, sym, true, false, arith}
use owlclaw_core.Common.Result.{Result, ok, err, is_ok}
use owlclaw_core.Triggers.Queue.Retry.{after_attempt, retry}

module _ {E A W : Type 0} (call : W → Result E A × W) where
  -- the state before the attempt `k`, counted from 0, if all are made, and how that one ends
  abbrev pub state_before : ℕ → W → W
  state_before zero w = w
  state_before (suc k) w = state_before k (call w).1

  abbrev pub outcome : ℕ → W → Result E A
  outcome k w = (call (state_before k w)).0

  pub record FirstSuccess (max : ℕ) (w : W) (run : ℕ × (Result E A × W)) : Type 0 where
    pub within : run.0 ≤ max
    pub failures : (j : ℕ) → j < run.0 → is_ok (outcome j w) ≡ false
    pub result : run.1.0 ≡ outcome run.0 w
    pub state : run.1.1 ≡ state_before (suc run.0) w
    pub ends : (is_ok run.1.0 ≡ true) ⊎ (run.0 ≡ max)

  failures_after :
      {w : W} {e : E} {n : ℕ}
      → (call w).0 ≡ err e
      → ((j : ℕ) → j < n → is_ok (outcome j (call w).1) ≡ false)
      → (j : ℕ) → j < suc n
      → is_ok (outcome j w) ≡ false
  failures_after h later zero l = rw h refl
  failures_after h later (suc j) l = later j (omega (arith, l))

  -- With `max` retries, the call is made at most `max` + 1 times: the attempts before the last all
  -- raised, the result and the state are those of the last, and that one returned or was the last
  -- that is allowed.
  pub retry-FirstSuccess : (max : ℕ) (w : W) → FirstSuccess max w (retry call max w)
  unfolding retry
  retry-FirstSuccess zero w = record {
    within = omega arith;
    failures = λ j h. absurd (omega (arith, h));
    result = refl;
    state = refl;
    ends = inr refl;
  }
  retry-FirstSuccess (suc n) w = by_cases (retry-FirstSuccess n (call w).1) (call w).0 refl
    where
      by_cases :
          FirstSuccess n (call w).1 (retry call n (call w).1)
          → (r : Result E A) → (call w).0 ≡ r
          → FirstSuccess (suc n) w (retry call (suc n) w)
      by_cases rest (ok a) h =
          rw (h, retry)
            (record {
              within = omega arith;
              failures = λ j l. absurd (omega (arith, l));
              result = sym h;
              state = refl;
              ends = inl refl;
            })
      by_cases rest (err e) h =
          rw (h, retry, after_attempt)
            (record {
              within = omega (arith, rest.within);
              failures = λ j l. failures_after h rest.failures j (omega (arith, l));
              result = rest.result;
              state = rest.state;
              ends = elim rest.ends [
                | inl returned ↦ inl returned
                | inr last ↦ inr (omega (arith, last))
              ];
            })
