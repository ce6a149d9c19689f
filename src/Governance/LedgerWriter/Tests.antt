-- ===== src/Governance/LedgerWriter/Tests.antt =====
-- A database that is down for a number of commits.
use owlclaw_core.Common.{ℕ, ◌-◌, ◌≡◌, refl, Bool, true, false, [], ◌∷◌, ltb, List, arith}
use owlclaw_core.Common.Subsequence.{done}
use owlclaw_core.Governance.LedgerWriter.{
  logged, unlogged, stored, lost, Ledger, records, starts, wakes, stops, stops_in_flush,
  flush_batch, run,
}
use owlclaw_core.Governance.LedgerWriter.Accounting.{run-Accounted}
use owlclaw_core.Governance.LedgerWriter.Kept.{Accounted}
use owlclaw_core.Governance.LedgerWriter.Losses.{NoneLost, run-NoneLost}
use owlclaw_core.Governance.LedgerWriter.Flushing.{Flushed, flush_batch-Flushed}

-- the state is the number of commits that fail
abbrev commit : List ℕ → ℕ → Bool × ℕ
commit rs w = (ltb w 1, w - 1)

abbrev write_line : ℕ → ℕ → Bool × ℕ
write_line r w = (ltb r 10, w)

abbrev new_ledger : Ledger ℕ
new_ledger = record {
  batch_size = 2;
  queue_maxsize = 2;
  write_queue = [];
  batch = [];
  running = false;
  dropped = 0;
  settled = [];
}

run-Accounted_example :
    Accounted
      (5 ∷ 6 ∷ 7 ∷ [])
      (run commit write_line
        (records 5 ∷ starts ∷ records 6 ∷ records 7 ∷ wakes ∷ [])
        (new_ledger, 1)).0
run-Accounted_example =
    run-Accounted commit write_line (records 5 ∷ starts ∷ records 6 ∷ records 7 ∷ wakes ∷ []) []
      new_ledger 1
      (record {
        in_order = done;
        counted = refl;
        positive = (omega arith, omega arith);
        queue_bounded = omega arith;
        batch_bounded = omega arith;
      })

-- the oldest record was dropped, and the two others are written
two_of_three :
    (run commit write_line
      (records 5 ∷ starts ∷ records 6 ∷ records 7 ∷ wakes ∷ [])
      (new_ledger, 1)).0
    ≡ record new_ledger { running = true; dropped = 1; settled = (stored, 6) ∷ (stored, 7) ∷ [] }
unfolding run
two_of_three = refl

run-NoneLost_example :
    NoneLost
      (run commit write_line
        (records 5 ∷ records 50 ∷ starts ∷ wakes ∷ stops ∷ [])
        (new_ledger, 4)).0.settled
run-NoneLost_example =
    run-NoneLost commit write_line (records 5 ∷ records 50 ∷ starts ∷ wakes ∷ stops ∷ []) new_ledger
      4 (refl, (refl, (refl, (refl, (refl, tt))))) tt

-- the database is down once, and a stop comes before the second attempt: a batch that has waited is
-- lost, and a full one is written after all
cut_off_waiting :
    (run commit write_line (records 5 ∷ starts ∷ wakes ∷ stops_in_flush 1 ∷ []) (new_ledger, 1)).0
    ≡ record new_ledger { settled = (lost, 5) ∷ [] }
unfolding run
cut_off_waiting = refl

cut_off_full :
    (run commit write_line
      (records 5 ∷ records 6 ∷ starts ∷ stops_in_flush 1 ∷ [])
      (new_ledger, 1)).0
    ≡ record new_ledger { settled = (stored, 5) ∷ (stored, 6) ∷ [] }
unfolding run
cut_off_full = refl

flush_batch-Flushed_example :
    Flushed commit write_line 3 (5 ∷ 50 ∷ []) 4 (flush_batch commit write_line (5 ∷ 50 ∷ []) 4)
flush_batch-Flushed_example = flush_batch-Flushed commit write_line (5 ∷ 50 ∷ []) 4

three_attempts :
    flush_batch commit write_line (5 ∷ 50 ∷ []) 4 ≡ ((logged, 5) ∷ (unlogged, 50) ∷ [], 1)
unfolding flush_batch
three_attempts = refl

abbrev busy_ledger : Ledger ℕ
busy_ledger = record new_ledger { running = true; batch = 1 ∷ []; write_queue = 2 ∷ 3 ∷ [] }
