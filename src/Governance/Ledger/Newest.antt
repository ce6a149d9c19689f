-- ===== src/Governance/Ledger/Newest.antt =====
-- A record that is newer than the others comes first in a query that asks for the newest.
use owlclaw_core.Common.{
  ℕ, ◌<◌, ◌≡◌, refl, ap, ◌∙◌, some, String, List, [], ◌∷◌, ◌++◌, All, arith, filter, take, true,
  Bool, length,
}
use owlclaw_core.Common.Eq.{string_eq, same_refl, ◌==◌}
use owlclaw_core.Common.Result.{ok}
use owlclaw_core.Common.Sorting.{insert_by, sort_by, descending}
use owlclaw_core.Common.Time.{Time}
use owlclaw_core.Governance.Ledger.{
  Execution, LedgerRecord, LedgerQueryFilters, InMemoryLedger, no_filters, as_object, narrow,
  matching_records, order_results, query_records, record_execution,
}
use owlclaw_core.Governance.Ledger.Counting.{HasNames, append_record-room, make_record-HasNames}

abbrev pub OlderThan : Time → List LedgerRecord → Type 0
OlderThan now rs = All (λ r. r.created_at < now) rs

-- the newest `k` records of a capability
abbrev pub newest_of : String → ℕ → LedgerQueryFilters
newest_of name k = record no_filters {
  capability_name = some name;
  order_by = some "created_at DESC";
  limit = some k;
}

abbrev pub newest_first : String → String → InMemoryLedger → List LedgerRecord
newest_first tenant name l =
    descending (λ r. r.created_at)
      (filter (λ r. r.capability_name == name) (filter (λ r. r.tenant_id == tenant) l.records))

pub query_newest :
    (tenant name : String) (k : ℕ) (l : InMemoryLedger)
    → query_records tenant (newest_of name k) l ≡ take k (newest_first tenant name l)
unfolding query_records order_results matching_records narrow
query_newest tenant name k l = refl

sort_by-newest :
    (r : LedgerRecord) (rs : List LedgerRecord)
    → OlderThan r.created_at rs
    → descending (λ x. x.created_at) (rs ++ r ∷ []) ≡ r ∷ descending (λ x. x.created_at) rs
unfolding sort_by insert_by
sort_by-newest r [] h = refl
sort_by-newest r (x ∷ rs) h = rw (sort_by-newest r rs h.1) (ground (arith, h.0))

All-filter :
    (P : LedgerRecord → Type 0) (p : LedgerRecord → Bool) (rs : List LedgerRecord)
    → All P rs
    → All P (filter p rs)
All-filter P p [] h = tt
All-filter P p (r ∷ rs) h = ground (arith, All-filter P p rs h.1)

filter-append_last :
    (p : LedgerRecord → Bool) (r : LedgerRecord) (rs : List LedgerRecord)
    → p r ≡ true
    → filter p (rs ++ r ∷ []) ≡ filter p rs ++ r ∷ []
filter-append_last p r [] h = rw h refl
filter-append_last p r (x ∷ rs) h = ground (arith, filter-append_last p r rs h)

-- the ledger after a run that it accepts, and the record that it gets
abbrev pub stored : Execution → String → Time → LedgerRecord
stored e id now = record {
  id = id;
  execution = record e { input_params = as_object e.input_params };
  created_at = now;
}

pub record_execution-room :
    (e : Execution) (id : String) (now : Time) (l : InMemoryLedger)
    → HasNames e
    → length l.records < l.max_records
    → record_execution e id now l ≡ ok (record l { records = l.records ++ stored e id now ∷ [] })
unfolding record_execution
record_execution-room e id now l h room =
    rw (make_record-HasNames e id now h) (ap ok (append_record-room (stored e id now) l room))

pub query_newest-append :
    (r : LedgerRecord) (k : ℕ) (l : InMemoryLedger)
    → OlderThan r.created_at l.records
    → query_records r.tenant_id
        (newest_of r.capability_name k)
        (record l { records = l.records ++ r ∷ [] })
      ≡ take k (r ∷ newest_first r.tenant_id r.capability_name l)
query_newest-append r k l older =
    let of_tenant = filter (λ (x : LedgerRecord). x.tenant_id == r.tenant_id) l.records in
    query_newest r.tenant_id r.capability_name k (record l { records = l.records ++ r ∷ [] })
    ∙ ap
        (λ rs. take k (
          descending (λ x. x.created_at) (filter (λ x. x.capability_name == r.capability_name) rs)))
        (filter-append_last (λ x. x.tenant_id == r.tenant_id) r l.records
          (same_refl string_eq r.tenant_id))
    ∙ ap (λ rs. take k (descending (λ x. x.created_at) rs))
        (filter-append_last (λ x. x.capability_name == r.capability_name) r of_tenant
          (same_refl string_eq r.capability_name))
    ∙ ap (take k) (
        sort_by-newest r _ (
          All-filter (λ x. x.created_at < r.created_at)
            (λ x. x.capability_name == r.capability_name) of_tenant
            (All-filter (λ x. x.created_at < r.created_at) (λ x. x.tenant_id == r.tenant_id)
              l.records older)))
