-- ===== src/Triggers/EventAggregator/Tests.antt =====
-- An aggregator of numbers that waits for a quiet moment, and the theorems at it.
use owlclaw_core.Common.{ℕ, ◌≡◌, refl, true, false, none, some, List, [], ◌∷◌}
use owlclaw_core.Triggers.EventAggregator.{
  EventAggregator, Call, pushes, flushes, times_out, batch, debounce, init, timeout, run,
}
use owlclaw_core.Triggers.EventAggregator.Order.{Accounts, pushed, run-Accounts}

abbrev calls : List (Call ℕ)
calls = pushes 1 ∷ pushes 2 ∷ pushes 3 ∷ flushes ∷ pushes 4 ∷ times_out ∷ []

run-Accounts_example :
    Accounts (pushed calls) (run calls (init debounce (λ b. false) (some 5) none 2))
run-Accounts_example = run-Accounts calls debounce (λ b. false) (some 5) none 2

abbrev waiting : EventAggregator ℕ
waiting = record {
  mode = debounce;
  on_flush_suspends = λ b. true;
  debounce_seconds = some 5;
  batch_size = none;
  max_buffer_events = 10;
  buffer = 7 ∷ 8 ∷ [];
  debounce_task = true;
  dropped_events = 0;
  handed = (true, 6 ∷ []) ∷ [];
}

-- the end of the timer cancels the call that it makes
timer_cuts_off : timeout waiting ≡ record waiting {
  buffer = [];
  debounce_task = false;
  handed = (true, 6 ∷ []) ∷ (false, 7 ∷ 8 ∷ []) ∷ [];
}
unfolding timeout
timer_cuts_off = refl

oldest_dropped :
    (run calls (init debounce (λ b. false) (some 5) none 2)).handed
    ≡ (true, 2 ∷ 3 ∷ []) ∷ (true, 4 ∷ []) ∷ []
unfolding run init
oldest_dropped = refl

batches_of_two :
    (run calls (init batch (λ b. true) none (some 2) 10)).handed
    ≡ (true, 1 ∷ 2 ∷ []) ∷ (true, 3 ∷ []) ∷ []
unfolding run init
batches_of_two = refl
