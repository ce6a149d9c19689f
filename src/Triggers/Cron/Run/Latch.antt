-- ===== src/Triggers/Cron/Run/Latch.antt =====
-- What becomes of a trigger whose breaker is open.
use mathlib.Core.Path.{subst}
use owlclaw_core.Common.{
  ◌+◌, ◌≤◌, ◌<◌, ◌≡◌, refl, sym, true, false, Option, some, String, List, [], ◌∷◌, arith, length,
  length-append, All, All-append,
}
use owlclaw_core.Common.Eq.{string_eq, pair_eq}
use owlclaw_core.Common.Time.{Time}
use owlclaw_core.Governance.Ledger.{LedgerRecord, InMemoryLedger}
use owlclaw_core.Governance.Ledger.Newest.{OlderThan, stored}
use owlclaw_core.Governance.Ledger.Recording.{IsName}
use owlclaw_core.Triggers.Cron.{CronTriggerConfig}
use owlclaw_core.Triggers.Cron.Breaker.{is_open}
use owlclaw_core.Triggers.Cron.Execution.{Environment, Inputs}
use owlclaw_core.Triggers.Cron.Registry.{Registry}
use owlclaw_core.Triggers.Cron.Run.{RunResult, holds_slot, begin_run, record_of, run_slot}
use owlclaw_core.Triggers.Cron.Run.Skipped.{
  Latched, IsSkipped, IsRecorded, ledger_after, run_slot-Kept,
}

module _ {W : Type 0} (env : Environment W) (config : CronTriggerConfig W) (tenant : String) where
  -- the runs one after the other, each with nothing in between
  pub run_all :
      List Inputs
      → Registry W × (Option InMemoryLedger × W)
      → List RunResult × (Registry W × (Option InMemoryLedger × W))
  run_all [] s = ([], s)
  run_all (inputs ∷ runs) s =
      let (result, s') =
        run_slot env config tenant inputs (begin_run (tenant, config.event_name) s.0) s in
      let (results, after) = run_all runs s' in (result ∷ results, after)

  -- each run records itself later than all before
  abbrev pub Increasing : Time → List Inputs → Type 0
  Increasing t [] = Unit
  Increasing t (i ∷ runs) =
      (t < i.recorded_at) × IsName i.execution_id × Increasing i.recorded_at runs

  OlderThan-later :
      (t t' : Time) (rs : List LedgerRecord) → t < t' → OlderThan t rs → OlderThan t' rs
  OlderThan-later t t' [] h older = tt
  OlderThan-later t t' (r ∷ rs) h older =
      (omega (arith, older.0), OlderThan-later t t' rs h older.1)

  -- every record of the ledger is as old as the last run or older
  abbrev pub UpTo : Time → InMemoryLedger → Type 0
  UpTo t l = All (λ (r : LedgerRecord). r.created_at ≤ t) l.records

  UpTo-OlderThan :
      (t t' : Time) (rs : List LedgerRecord)
      → t < t'
      → All (λ (r : LedgerRecord). r.created_at ≤ t) rs
      → OlderThan t' rs
  UpTo-OlderThan t t' [] h all = tt
  UpTo-OlderThan t t' (r ∷ rs) h all = (omega (arith, all.0), UpTo-OlderThan t t' rs h all.1)

  UpTo-later :
      (t t' : Time) (rs : List LedgerRecord)
      → t < t'
      → All (λ (r : LedgerRecord). r.created_at ≤ t) rs
      → All (λ (r : LedgerRecord). r.created_at ≤ t') rs
  UpTo-later t t' [] h all = tt
  UpTo-later t t' (r ∷ rs) h all = (omega (arith, all.0), UpTo-later t t' rs h all.1)

  pub StaysShut : List RunResult × (Registry W × (Option InMemoryLedger × W)) → W → Type 0
  StaysShut (results, (r, (ledger, w'))) w =
      All IsSkipped results × (is_open config.event_name r.breaker ≡ true) × (w' ≡ w)

  -- An open breaker never closes by itself: if the newest records of a trigger would open it again,
  -- then every later run is skipped, neither the runtime nor a fallback handler is called, and the
  -- breaker stays open, for any number of runs one after the other. The slot of the trigger is free,
  -- the names that go into a record are neither blank nor have blanks around them, each run is
  -- recorded later than those before, and the ledger has room.
  pub breaker_stays_open :
      (runs : List Inputs) (t : Time) (r : Registry W) (l : InMemoryLedger) (w : W)
      → IsRecorded env config tenant
      → Increasing t runs
      → UpTo t l
      → length l.records + length runs ≤ l.max_records
      → Latched env config tenant r.breaker l
      → holds_slot (tenant, config.event_name) r ≡ false
      → StaysShut (run_all runs (r, (some l, w))) w
  unfolding run_all StaysShut
  breaker_stays_open [] t r l w named later old room latched free = (tt, latched.0, refl)
  breaker_stays_open (inputs ∷ runs) t r l w named later old room latched free =
      let s =
        run_slot env config tenant inputs (begin_run (tenant, config.event_name) r)
          (r, (some l, w)) in
      let (x, is_skipped, ledger, same, still, free') =
        run_slot-Kept env config tenant inputs r l w named later.1 (omega (arith, room))
          (UpTo-OlderThan t inputs.recorded_at l.records later.0 old) latched free in
      let l' = ledger_after env config tenant inputs x l in
      let after : s.1 ≡ (s.1.0, (some l', w)) = λ i. (s.1.0, (ledger i, same i)) in
      let rest =
        breaker_stays_open runs inputs.recorded_at s.1.0 l' w named later.2
          (All-append (λ (r : LedgerRecord). r.created_at ≤ inputs.recorded_at) l.records _
            (UpTo-later t inputs.recorded_at l.records later.0 old) (omega arith, tt))
          (omega (
            arith,
            room,
            length-append l.records (
                stored (record_of env config tenant inputs x) inputs.record_id inputs.recorded_at
                ∷ []),
          ))
          still free' in
      let (skips, shut, idle) = subst (λ z. StaysShut (run_all runs z) w) (sym after) rest in
      ((is_skipped, skips), shut, idle)
