-- ===== src/Governance/ApprovalQueue/Decisions.antt =====
-- When `approve` and `reject` succeed, and what they leave behind on each branch.
use owlclaw_core.Common.{
  ◌<◌, ◌≤◌, ◌≡◌, ◌↔◌, ◌⊎◌, refl, true, Option, some, String, arith, Option-cases, Bool-cases, ◌∙◌,
  inl, inr, if◌then◌else◌,
}
use owlclaw_core.Common.Dict.{lookup, insert, lookup-insert}
use owlclaw_core.Common.Eq.{string_eq, ◌==◌}
use owlclaw_core.Common.Result.{Result, ok, err, is_ok}
use owlclaw_core.Common.Time.{Time}
use owlclaw_core.Governance.ApprovalQueue.{
  ApprovalQueue, ApprovalRequest, pending, expired, not_pending, has_expired, approve, reject,
  decide, refuse, Error, settle, require_active, check_active,
}

module _ {P : Type 0} where
  -- the request is there, nobody has decided it, and its time has not run out
  abbrev pub IsActive : String → Time → ApprovalQueue P → ApprovalRequest P → Type 0
  IsActive id now q r = (lookup id q.items ≡ some r) × (r.status ≡ pending) × (now < r.expires_at)

  -- `approve` succeeds exactly on a request that is known, pending and not past its expiry.
  pub approve-ok_iff :
      (id approver : String) (payload : Option P) (checked now : Time) (q : ApprovalQueue P)
      → (is_ok (approve id approver payload checked now q).0 ≡ true)
        ↔ ((r : ApprovalRequest P) × IsActive id checked q r)
  unfolding approve
  approve-ok_iff id approver payload checked now q = elim (Option-cases (lookup id q.items)) [
    | inl missing ↦ (λ h. ground arith, λ a. ground arith)
    | inr (r, found) ↦ (λ h. (r, ground arith), λ a. ground arith)
  ]

  -- every request is as before, but for pending ones past their expiry, now marked as expired
  abbrev pub Spares : Time → ApprovalQueue P → ApprovalQueue P → Type 0
  Spares checked q q' =
      (j : String)
      → (lookup j q'.items ≡ lookup j q.items)
        ⊎ ((r : ApprovalRequest P) × (lookup j q.items ≡ some r)
            × (r.status ≡ pending)
            × (r.expires_at ≤ checked)
            × (lookup j q'.items ≡ some (record r { status = expired })))

  -- what a decision on `id` may do, by how it ended
  abbrev pub Outcome :
      String
      → (ApprovalRequest P → ApprovalRequest P)
      → Time
      → ApprovalQueue P
      → Result Error (ApprovalRequest P) × ApprovalQueue P
      → Type 0
  Outcome id change checked q (ok r', q') =
      (r : ApprovalRequest P) × IsActive id checked q r
      × (r' ≡ change r)
      × ((j : String) → lookup j q'.items ≡ (if j == id then some r' else lookup j q.items))
  Outcome id change checked q (err e, q') = Spares checked q q'

  -- the three ways of `_require_active` with a request that is there
  check_active_cases :
      (id : String) (checked : Time) (q : ApprovalQueue P) (r : ApprovalRequest P)
      → ((r.status ≡ pending)
          × (r.expires_at ≤ checked)
          × (check_active id checked q (some r) ≡ (
            err has_expired,
            record q { items = insert id (record r { status = expired }) q.items },
          )))
        ⊎ ((r.status ≡ pending)
            × (checked < r.expires_at)
            × (check_active id checked q (some r) ≡ (ok r, q)))
        ⊎ (check_active id checked q (some r) ≡ (err (not_pending r.status), q))
  unfolding check_active
  check_active_cases id checked q r = ground arith

  mark-Spares :
      (id : String) (checked : Time) (q : ApprovalQueue P) (r : ApprovalRequest P)
      → lookup id q.items ≡ some r
      → r.status ≡ pending
      → r.expires_at ≤ checked
      → Spares checked q (record q { items = insert id (record r { status = expired }) q.items })
  mark-Spares id checked q r found waits due j = elim (Bool-cases (j == id)) [
    | inl same ↦ inr (
      r,
      cc (found, (string_eq.same_iff j id).0 same),
      waits,
      due,
      lookup-insert j id (record r { status = expired }) q.items ∙ rw same,
    )
    | inr other ↦ inl (lookup-insert j id (record r { status = expired }) q.items ∙ rw other)
  ]

  settle-Outcome :
      (id : String) (change : ApprovalRequest P → ApprovalRequest P) (checked : Time)
      (q : ApprovalQueue P)
      → Outcome id change checked q (settle id change (require_active id checked q))
  unfolding require_active
  settle-Outcome id change checked q = elim (Option-cases (lookup id q.items)) [
    | inl missing ↦ rw (missing, require_active, check_active) (λ j. inl refl)
    | inr (r, found) ↦
        rw (found, require_active)
          (elim (check_active_cases id checked q r) [
            | inl (waits, due, e) ↦ rw e (mark-Spares id checked q r found waits due)
            | inr (inl (waits, early, e)) ↦
                rw e (r, (found, waits, early), refl, λ j. lookup-insert j id (change r) q.items)
            | inr (inr e) ↦ rw e (λ j. inl refl)
          ])
  ]

  -- `approve` and `reject` raise and decide nothing (at most a pending request past its expiry is
  -- marked as expired), or they rewrite one active request, by `decide` or `refuse`, and leave every
  -- other request as it was.
  pub decision-Outcome :
      (id approver : String) (payload : Option P) (checked now : Time) (q : ApprovalQueue P)
      → Outcome id
          (decide payload approver now)
          checked
          q
          (approve id approver payload checked now q)
        × Outcome id (refuse approver now) checked q (reject id approver checked now q)
  unfolding approve reject
  decision-Outcome id approver payload checked now q = (
    settle-Outcome id (decide payload approver now) checked q,
    settle-Outcome id (refuse approver now) checked q,
  )
