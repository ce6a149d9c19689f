-- ===== src/Governance/Ledger/Queries.antt =====
-- Which records a query gives, and in which order.
use owlclaw_core.Common.{
  ℕ, ◌≤◌, ◌≡◌, ◌↔◌, inl, inr, Bool, true, Option, none, some, List, String, arith, filter,
  Bool-cases, In, In-filter, In-filter_of, In-take, In-drop, leb,
}
use owlclaw_core.Common.Eq.{string_eq, option_eq, ◌==◌}
use owlclaw_core.Common.Sorting.{In-sort_by, In-of-sort_by}
use owlclaw_core.Common.Time.{day_start, day_end}
use owlclaw_core.Governance.Ledger.{
  LedgerQueryFilters, LedgerRecord, InMemoryLedger, narrow, matching_records, order_results,
  cut_limit, cut_offset, query_records,
}

-- a filter that is set holds of the record
abbrev pub Holds : {A : Type 0} → Option A → (A → Type 0) → Type 0
Holds none P = Unit
Holds (some a) P = P a

-- the record is of the tenant, and every filter that is set holds of it
abbrev pub Matches : String → LedgerQueryFilters → LedgerRecord → Type 0
Matches tenant f r =
    (r.tenant_id ≡ tenant)
    × Holds f.agent_id (λ a. r.agent_id ≡ a)
    × Holds f.capability_name (λ c. r.capability_name ≡ c)
    × Holds f.status (λ s. r.status ≡ s)
    × Holds f.execution_mode (λ m. r.execution_mode ≡ some m)
    × Holds f.start_date (λ day. day_start day ≤ r.created_at)
    × Holds f.end_date (λ day. r.created_at ≤ day_end day)

module _ {A : Type 0} (P : A → LedgerRecord → Type 0) (test : A → LedgerRecord → Bool)
    (reads : (a : A) (r : LedgerRecord) → (test a r ≡ true) ↔ P a r) where
  In-narrow :
      (o : Option A) (r : LedgerRecord) (rs : List LedgerRecord)
      → In r (narrow o test rs) ↔ (In r rs × Holds o (λ a. P a r))
  unfolding narrow
  In-narrow none r rs = (λ h. (h, tt), λ h. h.0)
  In-narrow (some a) r rs = (
    λ h. let (m, t) = In-filter_of (test a) r rs h in (m, (reads a r).0 t),
    λ h. In-filter (test a) r rs h.0 ((reads a r).1 h.1),
  )

In-matching_records :
    (tenant : String) (f : LedgerQueryFilters) (r : LedgerRecord) (rs : List LedgerRecord)
    → In r (matching_records tenant f rs) ↔ (In r rs × Matches tenant f r)
unfolding matching_records
In-matching_records tenant f r rs =
    let base = filter (λ (x : LedgerRecord). x.tenant_id == tenant) rs in
    let by_agent = narrow f.agent_id (λ a (x : LedgerRecord). x.agent_id == a) base in
    let by_name =
      narrow f.capability_name (λ c (x : LedgerRecord). x.capability_name == c) by_agent in
    let by_status = narrow f.status (λ s (x : LedgerRecord). x.status == s) by_name in
    let by_mode =
      narrow f.execution_mode (λ m (x : LedgerRecord). x.execution_mode == some m) by_status in
    let by_start =
      narrow f.start_date (λ day (x : LedgerRecord). leb (day_start day) x.created_at) by_mode in
    let step_agent =
      In-narrow (λ a x. x.agent_id ≡ a) (λ a x. x.agent_id == a)
        (λ a x. string_eq.same_iff x.agent_id a) f.agent_id r base in
    let step_name =
      In-narrow (λ a x. x.capability_name ≡ a) (λ a x. x.capability_name == a)
        (λ a x. string_eq.same_iff x.capability_name a) f.capability_name r by_agent in
    let step_status =
      In-narrow (λ a x. x.status ≡ a) (λ a x. x.status == a) (λ a x. string_eq.same_iff x.status a)
        f.status r by_name in
    let step_mode =
      In-narrow (λ a x. x.execution_mode ≡ some a) (λ a x. x.execution_mode == some a)
        (λ a x. option_eq.same_iff x.execution_mode (some a)) f.execution_mode r by_status in
    let step_start =
      In-narrow (λ day x. day_start day ≤ x.created_at) (λ day x. leb (day_start day) x.created_at)
        (λ day x. ground arith) f.start_date r by_mode in
    let step_end =
      In-narrow (λ day x. x.created_at ≤ day_end day) (λ day x. leb x.created_at (day_end day))
        (λ day x. ground arith) f.end_date r by_start in
    (
      λ h.
          let (h₁, e₁) = step_end.0 h in
          let (h₂, e₂) = step_start.0 h₁ in
          let (h₃, e₃) = step_mode.0 h₂ in
          let (h₄, e₄) = step_status.0 h₃ in
          let (h₅, e₅) = step_name.0 h₄ in
          let (h₆, e₆) = step_agent.0 h₅ in
          let (h₇, e₇) = In-filter_of (λ (x : LedgerRecord). x.tenant_id == tenant) r rs h₆ in
          (h₇, ((string_eq.same_iff r.tenant_id tenant).0 e₇, e₆, e₅, e₄, e₃, e₂, e₁)),
      λ h. step_end.1 (
        step_start.1 (
          step_mode.1 (
            step_status.1 (
              step_name.1 (
                step_agent.1 (
                  In-filter (λ (x : LedgerRecord). x.tenant_id == tenant) r rs h.0
                      ((string_eq.same_iff r.tenant_id tenant).1 h.1.0),
                  h.1.1,
                ),
                h.1.2,
              ),
              h.1.3,
            ),
            h.1.4,
          ),
          h.1.5,
        ),
        h.1.6,
      ),
    )

In-order_results :
    (o : Option String) (r : LedgerRecord) (rs : List LedgerRecord)
    → In r (order_results o rs) ↔ In r rs
unfolding order_results
In-order_results o r rs = elim (Bool-cases (o == some "created_at DESC")) [
  | inl down ↦ rw down (In-of-sort_by _ r rs, In-sort_by _ r rs)
  | inr other ↦ rw other (elim (Bool-cases (o == some "created_at ASC")) [
    | inl up ↦ rw up (In-of-sort_by _ r rs, In-sort_by _ r rs)
    | inr unordered ↦ rw unordered (λ h. h, λ h. h)
  ])
]

In-cut_offset :
    (o : Option ℕ) (r : LedgerRecord) (rs : List LedgerRecord) → In r (cut_offset o rs) → In r rs
In-cut_offset none r rs h = h
In-cut_offset (some n) r rs h = In-drop n r rs h

In-cut_limit :
    (o : Option ℕ) (r : LedgerRecord) (rs : List LedgerRecord) → In r (cut_limit o rs) → In r rs
In-cut_limit none r rs h = h
In-cut_limit (some n) r rs h = In-take n r rs h

-- Whatever the order, the offset and the limit, a query gives only records of the ledger that
-- belong to the tenant and pass every filter that is set.
pub query_records-Matches :
    (tenant : String) (f : LedgerQueryFilters) (l : InMemoryLedger) (r : LedgerRecord)
    → In r (query_records tenant f l)
    → In r l.records × Matches tenant f r
unfolding query_records
query_records-Matches tenant f l r h =
    (In-matching_records tenant f r l.records).0 (
      (In-order_results f.order_by r _).0 (In-cut_offset f.offset r _ (In-cut_limit f.limit r _ h)))

-- With neither offset nor limit, a query gives exactly the records of the ledger that belong to the
-- tenant and pass every filter that is set.
pub query_records_exact :
    (tenant : String) (f : LedgerQueryFilters) (l : InMemoryLedger) (r : LedgerRecord)
    → f.offset ≡ none
    → f.limit ≡ none
    → In r (query_records tenant f l) ↔ (In r l.records × Matches tenant f r)
unfolding query_records
query_records_exact tenant f l r no_offset no_limit =
    rw (no_limit, no_offset)
      (
        λ h. (In-matching_records tenant f r l.records).0 ((In-order_results f.order_by r _).0 h),
        λ h. (In-order_results f.order_by r _).1 ((In-matching_records tenant f r l.records).1 h),
      )
