-- ===== src/Triggers/EventAggregator/Order.antt =====
-- Where every event goes that was pushed: it is handed over, it waits, or it was dropped.
use owlclaw_core.Common.{
  ℕ, ◌+◌, ◌-◌, ◌≡◌, inl, inr, refl, sym, ap, ◌∙◌, Bool, true, false, ◌&&◌, Option, List, [], ◌∷◌,
  ◌++◌, arith, eqb, is_some, drop, length, length-append, length-drop, append_assoc, append-nil,
  Bool-cases,
}
use owlclaw_core.Common.Subsequence.{Subsequence, done, Subsequence-append, Subsequence-drop}
use owlclaw_core.Triggers.EventAggregator.{
  AggregationMode, EventAggregator, Call, pushes, flushes, times_out, in_batches, in_debounces,
  is_passthrough, reached, init, enforce_memory_bound, hand_over, flush_locked, reset_debounce_task,
  push, flush, timeout, step, run,
}

module _ {E : Type 0} where
  -- the events that were handed over
  abbrev pub all_handed : List (Bool × List E) → List E
  all_handed [] = []
  all_handed ((_, events) ∷ handed) = events ++ all_handed handed

  abbrev pub pushed : List (Call E) → List E
  pushed [] = []
  pushed (pushes e ∷ calls) = e ∷ pushed calls
  pushed (flushes ∷ calls) = pushed calls
  pushed (times_out ∷ calls) = pushed calls

  all_handed-append :
      (handed : List (Bool × List E)) (completed : Bool) (events : List E)
      → all_handed (handed ++ (completed, events) ∷ []) ≡ all_handed handed ++ events
  all_handed-append [] completed events = append-nil events
  all_handed-append ((c, es) ∷ handed) completed events =
      ap (λ xs. es ++ xs) (all_handed-append handed completed events)
      ∙ sym (append_assoc es (all_handed handed) events)

  -- the events that were handed over and those that wait, in order
  abbrev pub kept : EventAggregator E → List E
  kept a = all_handed a.handed ++ a.buffer

  -- `events` are all that were pushed: what is kept comes from them by leaving out as many as were
  -- counted as dropped
  pub record Accounts (events : List E) (a : EventAggregator E) : Type 0 where
    pub in_order : Subsequence (kept a) events
    pub counted : length events ≡ length (kept a) + a.dropped_events

  enforce_memory_bound-Accounts :
      (events : List E) (a : EventAggregator E)
      → Accounts events a
      → Accounts events (enforce_memory_bound a)
  unfolding enforce_memory_bound
  enforce_memory_bound-Accounts events a w =
      let overflow = length a.buffer - a.max_buffer_events in
      elim (Bool-cases (eqb overflow 0)) [
        | inl fits ↦ rw fits w
        | inr full ↦ rw full (record {
          in_order = Subsequence-drop (all_handed a.handed) overflow a.buffer events w.in_order;
          counted = omega (
            arith,
            w.counted,
            length-append (all_handed a.handed) a.buffer,
            length-append (all_handed a.handed) (drop overflow a.buffer),
            length-drop overflow a.buffer,
          );
        })
      ]

  same_kept-Accounts :
      (events : List E) (a a' : EventAggregator E)
      → kept a' ≡ kept a
      → a'.dropped_events ≡ a.dropped_events
      → Accounts events a
      → Accounts events a'
  same_kept-Accounts events a a' same dropped w = record {
    in_order = rw same w.in_order;
    counted = omega (arith, w.counted, ap length same, dropped);
  }

  flush_locked-Accounts :
      (by_timer : Bool) (events : List E) (a : EventAggregator E)
      → Accounts events a
      → Accounts events (flush_locked by_timer a)
  unfolding flush_locked
  flush_locked-Accounts by_timer events a w = by_cases a.buffer refl
    where
      by_cases : (b : List E) → a.buffer ≡ b → Accounts events (flush_locked by_timer a)
      by_cases [] h = rw (h, flush_locked) w
      by_cases (e ∷ es) h =
          rw (h, flush_locked)
            (same_kept-Accounts events a (hand_over by_timer (e ∷ es) a)
              (append-nil _
                ∙ all_handed-append a.handed _ (e ∷ es)
                ∙ ap (λ b. all_handed a.handed ++ b) (sym h))
              refl w)

  buffer-Accounts :
      (events : List E) (e : E) (a : EventAggregator E)
      → Accounts events a
      → Accounts (events ++ e ∷ []) (record a { buffer = a.buffer ++ e ∷ [] })
  buffer-Accounts events e a w = record {
    in_order =
        rw (sym (append_assoc (all_handed a.handed) a.buffer (e ∷ [])))
          (Subsequence-append (e ∷ []) w.in_order);
    counted = omega (
      arith,
      w.counted,
      length-append events (e ∷ []),
      ap length (append_assoc (all_handed a.handed) a.buffer (e ∷ [])),
      length-append (kept a) (e ∷ []),
    );
  }

  push-Accounts :
      (events : List E) (e : E) (a : EventAggregator E)
      → Accounts events a
      → Accounts (events ++ e ∷ []) (push e a)
  unfolding push reset_debounce_task
  push-Accounts events e a w =
      let a' = enforce_memory_bound (record a { buffer = a.buffer ++ e ∷ [] }) in
      let grown : Accounts (events ++ e ∷ []) a' =
        enforce_memory_bound-Accounts (events ++ e ∷ []) _ (buffer-Accounts events e a w) in
      let flushed = flush_locked-Accounts false (events ++ e ∷ []) a' grown in
      elim (Bool-cases (is_passthrough a.mode)) [
        | inl direct ↦ rw direct flushed
        | inr held ↦
            elim (Bool-cases (in_batches a.mode && reached a.batch_size (length a'.buffer))) [
              | inl full ↦ rw (held, full) flushed
              | inr waits ↦ elim (Bool-cases (in_debounces a.mode && is_some a.debounce_seconds)) [
                | inl timed ↦
                    rw (held, waits, timed)
                      (same_kept-Accounts (events ++ e ∷ []) a' (reset_debounce_task a') refl refl
                        grown)
                | inr untimed ↦ rw (held, waits, untimed) grown
              ]
            ]
      ]

  timeout-Accounts :
      (events : List E) (a : EventAggregator E) → Accounts events a → Accounts events (timeout a)
  unfolding timeout
  timeout-Accounts events a w = elim (Bool-cases a.debounce_task) [
    | inl runs ↦ simp runs (flush_locked-Accounts true events a w)
    | inr stopped ↦ simp stopped w
  ]

  run-Accounts_from :
      (calls : List (Call E)) (events : List E) (a : EventAggregator E)
      → Accounts events a
      → Accounts (events ++ pushed calls) (run calls a)
  unfolding run step flush
  run-Accounts_from [] events a w = rw (append-nil events) w
  run-Accounts_from (pushes e ∷ calls) events a w =
      rw (sym (append_assoc events (e ∷ []) (pushed calls)))
        (run-Accounts_from calls (events ++ e ∷ []) (push e a) (push-Accounts events e a w))
  run-Accounts_from (flushes ∷ calls) events a w =
      run-Accounts_from calls events (flush a) (flush_locked-Accounts false events a w)
  run-Accounts_from (times_out ∷ calls) events a w =
      run-Accounts_from calls events (timeout a) (timeout-Accounts events a w)

  -- After any pushes, flushes and ends of timers, the batches that `on_flush` was called with and the
  -- buffer are, in order, the events that were pushed less exactly `dropped_events` of them: no event
  -- is handed over twice or before an older one, and one that was neither handed over nor waits is
  -- counted as dropped. A batch whose call of `on_flush` is cancelled counts as handed over.
  pub run-Accounts :
      (calls : List (Call E)) (mode : AggregationMode) (suspends : List E → Bool)
      (debounce_seconds batch_size : Option ℕ) (max : ℕ)
      → Accounts (pushed calls) (run calls (init mode suspends debounce_seconds batch_size max))
  unfolding init
  run-Accounts calls mode suspends debounce_seconds batch_size max =
      run-Accounts_from calls [] _ (record { in_order = done; counted = omega arith })
