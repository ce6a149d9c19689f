-- ===== src/Governance/ApprovalQueue/Listing.antt =====
-- What `list` shows, and what `expire_pending` counts.
use owlclaw_core.Common.{
  ◌≡◌, refl, Bool, true, false, Option, String, List, [], ◌∷◌, arith, filter, length, All, In,
  In-filter,
}
use owlclaw_core.Common.Dict.{Dict, values}
use owlclaw_core.Common.Eq.{string_eq, ◌==◌}
use owlclaw_core.Common.Sorting.{Ascends, ascending-Ascends, All-sort_by, In-sort_by}
use owlclaw_core.Common.Time.{Time}
use owlclaw_core.Governance.ApprovalQueue.{
  ApprovalQueue, ApprovalRequest, ApprovalStatus, is_due, has_status, expire_pending, expire_items,
  expire_request, list_requests,
}

module _ {P : Type 0} where
  expire_request-not_due :
      (now : Time) (r : ApprovalRequest P) → is_due now (expire_request now r) ≡ false
  unfolding expire_request
  expire_request-not_due now r = ground arith

  none_due :
      (now : Time) (items : Dict String (ApprovalRequest P))
      → All (λ r. is_due now r ≡ false) (values (expire_items now items).1)
  unfolding expire_items
  none_due now [] = tt
  none_due now ((k, r) ∷ items) = (expire_request-not_due now r, none_due now items)

  count-expire_items :
      (now : Time) (items : Dict String (ApprovalRequest P))
      → (expire_items now items).0 ≡ length (filter (is_due now) (values items))
  unfolding expire_items
  count-expire_items now [] = refl
  count-expire_items now ((k, r) ∷ items) = ground (arith, count-expire_items now items)

  -- `expire_pending` reports how many pending requests were past their expiry, and leaves none.
  pub expire_pending_counts :
      (now : Time) (q : ApprovalQueue P)
      → let (count, q') = expire_pending now q in
        (count ≡ length (filter (is_due now) (values q.items)))
        × All (λ r. is_due now r ≡ false) (values q'.items)
  unfolding expire_pending
  expire_pending_counts now q = (count-expire_items now q.items, none_due now q.items)

  All-filter_test :
      (p : ApprovalRequest P → Bool) (rs : List (ApprovalRequest P))
      → All (λ r. p r ≡ true) (filter p rs)
  All-filter_test p [] = tt
  All-filter_test p (r ∷ rs) = ground (arith, All-filter_test p rs)

  All-filter_of {κ} :
      (Q : ApprovalRequest P → Type κ) (p : ApprovalRequest P → Bool)
      (rs : List (ApprovalRequest P))
      → All Q rs
      → All Q (filter p rs)
  All-filter_of Q p [] h = tt
  All-filter_of Q p (r ∷ rs) h = ground (arith, All-filter_of Q p rs h.1)

  abbrev pub Shown : String → Option ApprovalStatus → Time → ApprovalRequest P → Type 0
  Shown tenant status now r =
      (r.tenant_id ≡ tenant) × (has_status status r ≡ true) × (is_due now r ≡ false)

  rows-Shown :
      (tenant : String) (status : Option ApprovalStatus) (now : Time)
      (rs : List (ApprovalRequest P))
      → All (λ r. is_due now r ≡ false) rs
      → All (Shown tenant status now) (
          filter (has_status status) (filter (λ (r : ApprovalRequest P). r.tenant_id == tenant) rs))
  rows-Shown tenant status now [] h = tt
  rows-Shown tenant status now (r ∷ rs) h =
      ground (arith, rows-Shown tenant status now rs h.1, string_eq.same_iff r.tenant_id tenant)

  -- `list` gives, in order of creation, only requests of the tenant that have the status asked for,
  -- and never as pending one whose time has run out.
  pub list_requests-Shown :
      (tenant : String) (status : Option ApprovalStatus) (now : Time) (q : ApprovalQueue P)
      → let rows = (list_requests tenant status now q).0 in
        Ascends (λ r. r.created_at) rows × All (Shown tenant status now) rows
  unfolding list_requests
  list_requests-Shown tenant status now q = (
    ascending-Ascends (λ r. r.created_at) _,
    All-sort_by (Shown tenant status now) _ _
        (rows-Shown tenant status now _ (none_due now q.items)),
  )

  -- And it leaves none of them out.
  pub list_requests_complete :
      (tenant : String) (status : Option ApprovalStatus) (now : Time) (q : ApprovalQueue P)
      (r : ApprovalRequest P)
      → In r (values (expire_pending now q).1.items)
      → r.tenant_id ≡ tenant
      → has_status status r ≡ true
      → In r (list_requests tenant status now q).0
  unfolding list_requests
  list_requests_complete tenant status now q r here own fits = In-sort_by _ r _ (
      In-filter (has_status status) r _
        (In-filter (λ x. x.tenant_id == tenant) r _ here ((string_eq.same_iff _ _).1 own)) fits)
