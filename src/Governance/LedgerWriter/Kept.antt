-- ===== src/Governance/LedgerWriter/Kept.antt =====
-- What is kept of the records: they are settled, in the writer's batch or in the queue.
use owlclaw_core.Common.{
  ℕ, zero, suc, ◌+◌, ◌≤◌, ◌<◌, ◌≡◌, refl, sym, ap, ◌∙◌, inl, inr, Bool, List, [], ◌∷◌, ◌++◌, map,
  arith, ltb, ltb→ge, Bool-cases, length, length-append, append_assoc, drop,
}
use owlclaw_core.Common.Subsequence.{Subsequence, Subsequence-append, Subsequence-drop}
use owlclaw_core.Governance.LedgerWriter.{
  Destination, stored, Ledger, Call, records, starts, wakes, stops, stops_in_flush, drop_oldest,
  enqueue, drain, write_to_fallback_log, flush_attempts, flush_batch, flush_now, flush_max_retries,
}

module _ {R : Type 0} where
  abbrev pub sent : List (Destination × R) → List R
  sent settled = map (λ p. p.1) settled

  -- the records that are settled, in the writer's batch, or in the queue, in order
  abbrev pub kept : Ledger R → List R
  kept l = sent l.settled ++ (l.batch ++ l.write_queue)

  -- the records that were handed to the ledger
  abbrev pub recorded : List (Call R) → List R
  recorded [] = []
  recorded (records r ∷ calls) = r ∷ recorded calls
  recorded (starts ∷ calls) = recorded calls
  recorded (wakes ∷ calls) = recorded calls
  recorded (stops ∷ calls) = recorded calls
  recorded (stops_in_flush n ∷ calls) = recorded calls

  pub record Accounted (rs : List R) (l : Ledger R) : Type 0 where
    pub in_order : Subsequence (kept l) rs
    pub counted : length rs ≡ length (kept l) + l.dropped
    pub positive : (1 ≤ l.queue_maxsize) × (1 ≤ l.batch_size)
    pub queue_bounded : length l.write_queue ≤ l.queue_maxsize
    pub batch_bounded : length l.batch < l.batch_size

  pub sent-append : (xs ys : List (Destination × R)) → sent (xs ++ ys) ≡ sent xs ++ sent ys
  sent-append [] ys = refl
  sent-append (x ∷ xs) ys = ap (◌∷◌ x.1) (sent-append xs ys)

  pub sent-map : (d : Destination) (rs : List R) → sent (map (λ r. (d, r)) rs) ≡ rs
  sent-map d [] = refl
  sent-map d (r ∷ rs) = ap (◌∷◌ r) (sent-map d rs)

  pub drain-append :
      (n : ℕ) (batch rs : List R)
      → ((drain n batch rs).0 ++ (drain n batch rs).1 ≡ batch ++ rs)
        × (length (drain n batch rs).1 ≤ length rs)
  unfolding drain
  drain-append n batch [] = (refl, omega arith)
  drain-append n batch (r ∷ rs) = elim (Bool-cases (ltb (length batch) n)) [
    | inl room ↦
        let (same, short) = drain-append n (batch ++ r ∷ []) rs in
        rw room (same ∙ append_assoc batch (r ∷ []) rs, omega (arith, short))
    | inr full ↦ rw full (refl, omega arith)
  ]

  -- the queue loses its oldest record and gets a new one
  drop_oldest-drop : (rs : List R) → drop_oldest rs ≡ drop 1 rs
  drop_oldest-drop [] = refl
  drop_oldest-drop (r ∷ rs) = refl

  length-drop_oldest : (rs : List R) → 1 ≤ length rs → suc (length (drop_oldest rs)) ≡ length rs
  length-drop_oldest [] h = absurd (omega (arith, h))
  length-drop_oldest (r ∷ rs) h = refl

  append_queue :
      (xs batch queue : List R) (r : R)
      → xs ++ (batch ++ (queue ++ r ∷ [])) ≡ (xs ++ (batch ++ queue)) ++ r ∷ []
  append_queue xs batch queue r =
      ap (λ ys. xs ++ ys) (sym (append_assoc batch queue (r ∷ [])))
      ∙ sym (append_assoc xs (batch ++ queue) (r ∷ []))

  length_three : (xs ys zs : List R) → length (xs ++ (ys ++ zs)) ≡ length xs + length ys + length zs
  length_three xs ys zs = omega (arith, length-append xs (ys ++ zs), length-append ys zs)

  pub enqueue-Accounted :
      (rs : List R) (r : R) (l : Ledger R) → Accounted rs l → Accounted (rs ++ r ∷ []) (enqueue r l)
  unfolding enqueue
  enqueue-Accounted rs r l a = elim (Bool-cases (ltb (length l.write_queue) l.queue_maxsize)) [
    | inl room ↦ rw room (record {
      in_order =
          rw (append_queue (sent l.settled) l.batch l.write_queue r)
            (Subsequence-append (r ∷ []) a.in_order);
      counted = omega (
        arith,
        a.counted,
        length-append rs (r ∷ []),
        ap length (append_queue (sent l.settled) l.batch l.write_queue r),
        length-append (kept l) (r ∷ []),
      );
      positive = a.positive;
      queue_bounded = ground (arith, room, length-append l.write_queue (r ∷ []));
      batch_bounded = a.batch_bounded;
    })
    | inr full ↦ rw full (record {
      in_order =
          rw
            (
              append_queue (sent l.settled) l.batch (drop_oldest l.write_queue) r,
              drop_oldest-drop l.write_queue,
              sym (append_assoc (sent l.settled) l.batch (drop 1 l.write_queue)),
            )
            (Subsequence-append (r ∷ []) (
              Subsequence-drop (sent l.settled ++ l.batch) 1 l.write_queue rs
                (rw (append_assoc (sent l.settled) l.batch l.write_queue) a.in_order)));
      counted = omega (
        arith,
        a.counted,
        length-append rs (r ∷ []),
        length_three (sent l.settled) l.batch l.write_queue,
        length_three (sent l.settled) l.batch (drop_oldest l.write_queue ++ r ∷ []),
        length-append (drop_oldest l.write_queue) (r ∷ []),
        length-drop_oldest l.write_queue (omega (arith, ltb→ge _ _ full, a.positive)),
      );
      positive = a.positive;
      queue_bounded = omega (
        arith,
        a.queue_bounded,
        length-append (drop_oldest l.write_queue) (r ∷ []),
        length-drop_oldest l.write_queue (omega (arith, ltb→ge _ _ full, a.positive)),
      );
      batch_bounded = a.batch_bounded;
    })
  ]

  -- the same records, with some of the queue or the batch moved on
  pub same_kept-Accounted :
      (rs : List R) (l l' : Ledger R)
      → kept l' ≡ kept l
      → (l'.dropped ≡ l.dropped)
        × (l'.queue_maxsize ≡ l.queue_maxsize)
        × (l'.batch_size ≡ l.batch_size)
      → length l'.write_queue ≤ length l.write_queue
      → length l'.batch < l.batch_size
      → Accounted rs l
      → Accounted rs l'
  same_kept-Accounted rs l l' same (dropped, queue_size, batch_size) queue batch a = record {
    in_order = rw same a.in_order;
    counted = omega (arith, a.counted, ap length same, dropped);
    positive = (omega (arith, a.positive, queue_size), omega (arith, a.positive, batch_size));
    queue_bounded = omega (arith, a.queue_bounded, queue, queue_size);
    batch_bounded = omega (arith, batch, batch_size);
  }

module _ {R W : Type 0} (commit : List R → W → Bool × W) (write_line : R → W → Bool × W) where
  sent-write_to_fallback_log :
      (rs : List R) (w : W) → sent (write_to_fallback_log commit write_line rs w).0 ≡ rs
  unfolding write_to_fallback_log
  sent-write_to_fallback_log [] w = refl
  sent-write_to_fallback_log (r ∷ rs) w =
      ap (◌∷◌ r) (sent-write_to_fallback_log rs (write_line r w).1)

  sent-flush_attempts :
      (left : ℕ) (rs : List R) (w : W)
      → sent (flush_attempts commit write_line (suc left) rs w).0 ≡ rs
  unfolding flush_attempts
  sent-flush_attempts zero rs w = elim (Bool-cases (commit rs w).0) [
    | inl done_now ↦ rw (done_now, flush_attempts) (sent-map stored rs)
    | inr failed ↦ rw (failed, flush_attempts) (sent-write_to_fallback_log rs (commit rs w).1)
  ]
  sent-flush_attempts (suc left) rs w = elim (Bool-cases (commit rs w).0) [
    | inl done_now ↦ rw (done_now, flush_attempts) (sent-map stored rs)
    | inr failed ↦ rw (failed, flush_attempts) (sent-flush_attempts left rs (commit rs w).1)
  ]

  flush_now-kept : (l : Ledger R) (w : W) → kept (flush_now commit write_line (l, w)).0 ≡ kept l
  unfolding flush_now flush_batch
  flush_now-kept l w =
      let flushed = (flush_attempts commit write_line flush_max_retries l.batch w).0 in
      ap (λ xs. xs ++ l.write_queue)
        (sent-append l.settled flushed
          ∙ ap (λ xs. sent l.settled ++ xs) (sent-flush_attempts 2 l.batch w))
      ∙ append_assoc (sent l.settled) l.batch l.write_queue

  pub flush_now-Accounted :
      (rs : List R) (l l' : Ledger R) (w : W)
      → kept l' ≡ kept l
      → (l'.dropped ≡ l.dropped)
        × (l'.queue_maxsize ≡ l.queue_maxsize)
        × (l'.batch_size ≡ l.batch_size)
      → length l'.write_queue ≤ length l.write_queue
      → Accounted rs l
      → Accounted rs (flush_now commit write_line (l', w)).0
  unfolding flush_now
  flush_now-Accounted rs l l' w same sizes queue a =
      same_kept-Accounted rs l _ (flush_now-kept l' w ∙ same) sizes queue
        (omega (arith, a.positive)) a
