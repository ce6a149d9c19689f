-- ===== src/Governance/Ledger/Counting.antt =====
-- How an accepted run changes the number of records of a day.
use owlclaw_core.Common.{
  ℕ, suc, ◌≤◌, ◌<◌, ◌≡◌, refl, ap, Bool, Option, none, some, String, List, [], ◌∷◌, ◌++◌, arith,
  length, length-append, filter,
}
use owlclaw_core.Common.Eq.{string_eq, same_refl}
use owlclaw_core.Common.Result.{ok}
use owlclaw_core.Common.Time.{Time, Date, day_start, day_end}
use owlclaw_core.Governance.Ledger.{
  Execution, LedgerRecord, LedgerQueryFilters, InMemoryLedger, no_filters, append_record, as_object,
  make_record, narrow, matching_records, order_results, query_records, record_execution,
}
use owlclaw_core.Governance.Ledger.Recording.{IsName}

filter-append :
    (p : LedgerRecord → Bool) (xs ys : List LedgerRecord)
    → filter p (xs ++ ys) ≡ filter p xs ++ filter p ys
filter-append p [] ys = refl
filter-append p (x ∷ xs) ys = ground (arith, filter-append p xs ys)

narrow-append :
    {A : Type 0} (o : Option A) (test : A → LedgerRecord → Bool) (xs ys : List LedgerRecord)
    → narrow o test (xs ++ ys) ≡ narrow o test xs ++ narrow o test ys
unfolding narrow
narrow-append none test xs ys = refl
narrow-append (some a) test xs ys = filter-append (test a) xs ys

matching_records-append :
    (t : String) (f : LedgerQueryFilters) (xs ys : List LedgerRecord)
    → matching_records t f (xs ++ ys) ≡ matching_records t f xs ++ matching_records t f ys
unfolding matching_records
matching_records-append t f xs ys = simp (filter-append, narrow-append)

-- the filters of the daily count
abbrev pub on_day : String → String → Date → LedgerQueryFilters
on_day agent name day = record no_filters {
  agent_id = some agent;
  capability_name = some name;
  start_date = some day;
  end_date = some day;
}

matching_one :
    (r : LedgerRecord) (day : Date)
    → day_start day ≤ r.created_at
    → r.created_at ≤ day_end day
    → matching_records r.tenant_id (on_day r.agent_id r.capability_name day) (r ∷ []) ≡ r ∷ []
unfolding matching_records narrow
matching_one r day early late = ground (
  arith,
  same_refl string_eq r.tenant_id,
  same_refl string_eq r.agent_id,
  same_refl string_eq r.capability_name,
)

query_on_day :
    (t agent name : String) (day : Date) (l : InMemoryLedger)
    → query_records t (on_day agent name day) l
      ≡ matching_records t (on_day agent name day) l.records
unfolding query_records order_results
query_on_day t agent name day l = refl

pub append_record-room :
    (r : LedgerRecord) (l : InMemoryLedger)
    → length l.records < l.max_records
    → append_record r l ≡ record l { records = l.records ++ r ∷ [] }
unfolding append_record
append_record-room r l room = ground (arith, length-append l.records (r ∷ []))

-- names that are trimmed already are stored as they are
pub record HasNames (e : Execution) : Type 0 where
  pub tenant_id : IsName e.tenant_id
  pub agent_id : IsName e.agent_id
  pub run_id : IsName e.run_id
  pub capability_name : IsName e.capability_name
  pub task_type : IsName e.task_type

pub make_record-HasNames :
    (e : Execution) (id : String) (now : Time)
    → HasNames e
    → make_record e id now
      ≡ ok (record {
        id = id;
        execution = record e { input_params = as_object e.input_params };
        created_at = now;
      })
unfolding make_record
make_record-HasNames e id now h = ground arith

abbrev pub count_on_day : Execution → Date → InMemoryLedger → ℕ
count_on_day e day l =
    length (query_records e.tenant_id (on_day e.agent_id e.capability_name day) l)

-- what the ledger is after an accepted run
abbrev pub Counted : Execution → Date → InMemoryLedger → InMemoryLedger → Type 0
Counted e day l l' =
    (count_on_day e day l' ≡ suc (count_on_day e day l))
    × (length l'.records ≡ suc (length l.records))
    × (l'.max_records ≡ l.max_records)

pub record_execution-Counted :
    (e : Execution) (id : String) (now : Time) (day : Date) (l : InMemoryLedger)
    → HasNames e
    → length l.records < l.max_records
    → day_start day ≤ now
    → now ≤ day_end day
    → (l' : InMemoryLedger) × (record_execution e id now l ≡ ok l') × Counted e day l l'
unfolding record_execution
record_execution-Counted e id now day l h room early late =
    let r : LedgerRecord = record {
      id = id;
      execution = record e { input_params = as_object e.input_params };
      created_at = now;
    } in
    let f : LedgerQueryFilters = on_day e.agent_id e.capability_name day in
    (
      record l { records = l.records ++ r ∷ [] },
      rw (make_record-HasNames e id now h) (ap ok (append_record-room r l room)),
      (
        rw
            (
              query_on_day e.tenant_id e.agent_id e.capability_name day,
              query_on_day e.tenant_id e.agent_id e.capability_name day,
            )
            (omega (
              arith,
              ap length (matching_records-append e.tenant_id f l.records (r ∷ [])),
              ap length (matching_one r day early late),
              length-append (matching_records e.tenant_id f l.records)
                  (matching_records e.tenant_id f (r ∷ [])),
            )),
        omega (arith, length-append l.records (r ∷ [])),
        refl,
      ),
    )
