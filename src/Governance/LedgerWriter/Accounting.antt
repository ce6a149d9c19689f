-- ===== src/Governance/LedgerWriter/Accounting.antt =====
-- Where every record goes that is handed to the ledger.
use owlclaw_core.Common.{
  ℕ, ◌≤◌, ◌≡◌, refl, sym, ap, ◌∙◌, inl, inr, Bool, true, false, List, [], ◌∷◌, ◌++◌, map, arith,
  leb, leb→gt, Bool-cases, length, append_assoc, append-nil,
}
use owlclaw_core.Governance.LedgerWriter.{
  lost, Ledger, Call, records, starts, wakes, stops, stops_in_flush, enqueue, start, drain,
  take_records, wake, stop, attempts_made, has_ended, stop_after, cancel_full, cancel_waiting,
  cancel_records, stop_in_flush, step, run,
}
use owlclaw_core.Governance.LedgerWriter.Kept.{
  sent, kept, recorded, Accounted, sent-append, sent-map, drain-append, enqueue-Accounted,
  same_kept-Accounted, flush_now-Accounted,
}

module _ {R W : Type 0} (commit : List R → W → Bool × W) (write_line : R → W → Bool × W) where
  take_records-Accounted :
      (rs : List R) (r : R) (queue : List R) (l : Ledger R) (w : W)
      → l.write_queue ≡ r ∷ queue
      → Accounted rs l
      → Accounted rs (take_records commit write_line r queue (l, w)).0
  unfolding take_records
  take_records-Accounted rs r queue l w h a =
      let taken = drain l.batch_size (l.batch ++ r ∷ []) queue in
      let (same, short) = drain-append l.batch_size (l.batch ++ r ∷ []) queue in
      let l' = record l { batch = taken.0; write_queue = taken.1 } in
      let kept_all : kept l' ≡ kept l =
        ap (λ xs. sent l.settled ++ xs)
          (same ∙ append_assoc l.batch (r ∷ []) queue ∙ ap (λ q. l.batch ++ q) (sym h)) in
      let shorter : length taken.1 ≤ length l.write_queue = omega (arith, short, ap length h) in
      elim (Bool-cases (leb l.batch_size (length taken.0))) [
        | inl full ↦
            rw full (
              flush_now-Accounted commit write_line rs l l' w kept_all (refl, refl, refl) shorter a)
        | inr room ↦
            rw room
              (same_kept-Accounted rs l l' kept_all (refl, refl, refl) shorter (leb→gt _ _ room) a)
      ]

  wake-Accounted :
      (rs : List R) (l : Ledger R) (w : W)
      → Accounted rs l
      → Accounted rs (wake commit write_line (l, w)).0
  unfolding wake
  wake-Accounted rs l w a = elim (Bool-cases l.running) [
    | inr stopped ↦ simp stopped a
    | inl runs ↦ by_queue l.write_queue refl runs
  ]
    where
      by_batch :
          (b : List R)
          → l.batch ≡ b
          → l.write_queue ≡ []
          → l.running ≡ true
          → Accounted rs (wake commit write_line (l, w)).0
      by_batch [] h e runs = rw (runs, e, h, wake) a
      by_batch (x ∷ xs) h e runs =
          rw (runs, e, h, wake)
            (flush_now-Accounted commit write_line rs l l w refl (refl, refl, refl) (omega arith) a)

      by_queue :
          (q : List R)
          → l.write_queue ≡ q
          → l.running ≡ true
          → Accounted rs (wake commit write_line (l, w)).0
      by_queue [] h runs = by_batch l.batch refl h runs
      by_queue (r ∷ queue) h runs = rw (runs, h, wake) (take_records-Accounted rs r queue l w h a)

  stopped-Accounted :
      (rs : List R) (l : Ledger R) → Accounted rs l → Accounted rs (record l { running = false })
  stopped-Accounted rs l a =
      same_kept-Accounted rs l _ refl (refl, refl, refl) (omega arith) a.batch_bounded a

  stop-Accounted :
      (rs : List R) (l : Ledger R) (w : W)
      → Accounted rs l
      → Accounted rs (stop commit write_line (l, w)).0
  unfolding stop
  stop-Accounted rs l w a = elim (Bool-cases l.running) [
    | inr stopped ↦ simp stopped a
    | inl runs ↦ by_batch l.batch refl runs
  ]
    where
      by_batch :
          (b : List R)
          → l.batch ≡ b
          → l.running ≡ true
          → Accounted rs (stop commit write_line (l, w)).0
      by_batch [] e runs = rw (runs, e, stop) (stopped-Accounted rs l a)
      by_batch (x ∷ xs) e runs =
          rw (runs, e, stop)
            (stopped-Accounted rs _ (
              flush_now-Accounted commit write_line rs l l w refl (refl, refl, refl) (omega arith)
                a))

  -- a batch that is lost is settled too
  lost-Accounted :
      (rs : List R) (l : Ledger R)
      → Accounted rs l
      → Accounted rs (record l {
        running = false;
        batch = [];
        settled = l.settled ++ map (λ r. (lost, r)) l.batch;
      })
  lost-Accounted rs l a =
      same_kept-Accounted rs l _
        (ap (λ xs. xs ++ l.write_queue)
            (sent-append l.settled (map (λ r. (lost, r)) l.batch)
              ∙ ap (λ xs. sent l.settled ++ xs) (sent-map lost l.batch))
          ∙ append_assoc (sent l.settled) l.batch l.write_queue)
        (refl, refl, refl) (omega arith) (omega (arith, a.positive)) a

  cancel_waiting-Accounted :
      (n : ℕ) (rs : List R) (l : Ledger R) (w : W)
      → Accounted rs l
      → Accounted rs (cancel_waiting commit write_line n (l, w)).0
  unfolding cancel_waiting stop_after
  cancel_waiting-Accounted n rs l w a =
      elim (Bool-cases (has_ended commit write_line n l.batch w)) [
        | inl ended ↦
            rw (ended, cancel_waiting)
              (stopped-Accounted rs _ (
                flush_now-Accounted commit write_line rs l l w refl (refl, refl, refl) (omega arith)
                  a))
        | inr cut_off ↦ rw (cut_off, cancel_waiting) (lost-Accounted rs l a)
      ]

  cancel_full-Accounted :
      (n : ℕ) (rs : List R) (l l' : Ledger R) (w : W)
      → kept l' ≡ kept l
      → (l'.dropped ≡ l.dropped)
        × (l'.queue_maxsize ≡ l.queue_maxsize)
        × (l'.batch_size ≡ l.batch_size)
      → length l'.write_queue ≤ length l.write_queue
      → Accounted rs l
      → Accounted rs (cancel_full commit write_line n (l', w)).0
  unfolding cancel_full stop_after
  cancel_full-Accounted n rs l l' w same sizes queue a =
      let flushed = λ (w : W).
        stopped-Accounted rs _
          (flush_now-Accounted commit write_line rs l l' w same sizes queue a) in
      elim (Bool-cases (has_ended commit write_line n l'.batch w)) [
        | inl ended ↦ rw (ended, cancel_full) (flushed w)
        | inr cut_off ↦
            rw (cut_off, cancel_full) (flushed (attempts_made commit write_line n l'.batch w).1)
      ]

  cancel_records-Accounted :
      (n : ℕ) (rs : List R) (r : R) (queue : List R) (l : Ledger R) (w : W)
      → l.write_queue ≡ r ∷ queue
      → Accounted rs l
      → Accounted rs (cancel_records commit write_line n r queue (l, w)).0
  unfolding cancel_records
  cancel_records-Accounted n rs r queue l w h a =
      let taken = drain l.batch_size (l.batch ++ r ∷ []) queue in
      let (same, short) = drain-append l.batch_size (l.batch ++ r ∷ []) queue in
      let l' = record l { batch = taken.0; write_queue = taken.1 } in
      let kept_all : kept l' ≡ kept l =
        ap (λ xs. sent l.settled ++ xs)
          (same ∙ append_assoc l.batch (r ∷ []) queue ∙ ap (λ q. l.batch ++ q) (sym h)) in
      let shorter : length taken.1 ≤ length l.write_queue = omega (arith, short, ap length h) in
      elim (Bool-cases (leb l.batch_size (length taken.0))) [
        | inl full ↦
            rw full (cancel_full-Accounted n rs l l' w kept_all (refl, refl, refl) shorter a)
        | inr room ↦ rw room (
            stop-Accounted rs l' w
              (same_kept-Accounted rs l l' kept_all (refl, refl, refl) shorter (leb→gt _ _ room) a))
      ]

  stop_in_flush-Accounted :
      (n : ℕ) (rs : List R) (l : Ledger R) (w : W)
      → Accounted rs l
      → Accounted rs (stop_in_flush commit write_line n (l, w)).0
  unfolding stop_in_flush stop_after
  stop_in_flush-Accounted n rs l w a = elim (Bool-cases l.running) [
    | inr stopped ↦ simp stopped a
    | inl runs ↦ by_queue l.write_queue refl runs
  ]
    where
      by_batch :
          (b : List R)
          → l.batch ≡ b
          → l.write_queue ≡ []
          → l.running ≡ true
          → Accounted rs (stop_in_flush commit write_line n (l, w)).0
      by_batch [] e h runs = rw (runs, h, e, stop_in_flush) (stopped-Accounted rs l a)
      by_batch (x ∷ xs) e h runs =
          rw (runs, h, e, stop_in_flush) (cancel_waiting-Accounted n rs l w a)

      by_queue :
          (q : List R)
          → l.write_queue ≡ q
          → l.running ≡ true
          → Accounted rs (stop_in_flush commit write_line n (l, w)).0
      by_queue [] h runs = by_batch l.batch refl h runs
      by_queue (r ∷ queue) h runs =
          rw (runs, h, stop_in_flush) (cancel_records-Accounted n rs r queue l w h a)

  -- From a ledger that accounts for its records, as a new one does, after any records, rounds,
  -- starts and stops, and whatever the database and the fallback log do: the records that are
  -- settled, in the batch or in the queue are, in order, those that were handed to the ledger less
  -- exactly as many as a full queue has dropped. Settled are those that are in the database or the
  -- fallback log, those that the log could not take, and those of a batch whose flush a stop has cut
  -- off. None is settled twice or before an older one, the queue never exceeds its size, and a batch
  -- that waits is smaller than the batch size.
  pub run-Accounted :
      (calls : List (Call R)) (rs : List R) (l : Ledger R) (w : W)
      → Accounted rs l
      → Accounted (rs ++ recorded calls) (run commit write_line calls (l, w)).0
  unfolding run step start
  run-Accounted [] rs l w a = rw (append-nil rs) a
  run-Accounted (records r ∷ calls) rs l w a =
      rw (sym (append_assoc rs (r ∷ []) (recorded calls)))
        (run-Accounted calls (rs ++ r ∷ []) (enqueue r l) w (enqueue-Accounted rs r l a))
  run-Accounted (starts ∷ calls) rs l w a =
      run-Accounted calls rs (record l { running = true }) w
        (same_kept-Accounted rs l _ refl (refl, refl, refl) (omega arith) a.batch_bounded a)
  run-Accounted (wakes ∷ calls) rs l w a =
      run-Accounted calls rs (wake commit write_line (l, w)).0 (wake commit write_line (l, w)).1
        (wake-Accounted rs l w a)
  run-Accounted (stops ∷ calls) rs l w a =
      run-Accounted calls rs (stop commit write_line (l, w)).0 (stop commit write_line (l, w)).1
        (stop-Accounted rs l w a)
  run-Accounted (stops_in_flush n ∷ calls) rs l w a =
      run-Accounted calls rs (stop_in_flush commit write_line n (l, w)).0
        (stop_in_flush commit write_line n (l, w)).1 (stop_in_flush-Accounted n rs l w a)
