-- ===== src/Governance/ApprovalQueue/Consistency.antt =====
-- What every request in the queue satisfies: who decided it and on what, by its status.
use mathlib.Core.Path.{subst}
use owlclaw_core.Common.{
  ℕ, ◌+◌, ◌≡◌, ◌∙◌, sym, refl, true, Option, none, some, String, List, [], ◌∷◌, arith, Option-cases,
  Bool-cases, inl, inr, is_some,
}
use owlclaw_core.Common.Dict.{lookup, lookup-insert}
use owlclaw_core.Common.Eq.{string_eq, ◌==◌}
use owlclaw_core.Common.Int.{ℤ}
use owlclaw_core.Common.Result.{Result, ok, err}
use owlclaw_core.Common.Time.{Time, seconds}
use owlclaw_core.Governance.ApprovalQueue.{
  ApprovalQueue, ApprovalRequest, ApprovalStatus, Error, pending, approved, rejected, modified,
  expired, Call, creates, lists, approves, rejects, expires, init, step, run, create,
  expire_pending, expire_request, approve, reject, decide, refuse,
}
use owlclaw_core.Governance.ApprovalQueue.Decisions.{Outcome, decision-Outcome}
use owlclaw_core.Governance.ApprovalQueue.Histories.{lookup-expire_items}

module _ {P : Type 0} where
  -- the approver and the payload that go with each status
  abbrev pub Fits : ApprovalStatus → Option String → Option P → P → Type 0
  Fits pending approver payload suggestion = (approver ≡ none) × (payload ≡ none)
  Fits approved approver payload suggestion =
      (is_some approver ≡ true) × (payload ≡ some suggestion)
  Fits modified approver payload suggestion = (is_some approver ≡ true) × (is_some payload ≡ true)
  Fits rejected approver payload suggestion = (is_some approver ≡ true) × (payload ≡ none)
  Fits expired approver payload suggestion = (approver ≡ none) × (payload ≡ none)

  pub record IsConsistent (timeout : ℕ) (id : String) (r : ApprovalRequest P) : Type 0 where
    pub fits : Fits r.status r.approver r.approved_payload r.suggestion
    pub keyed : r.id ≡ id
    pub term : r.expires_at ≡ r.created_at + seconds timeout

  abbrev pub AllConsistent : ApprovalQueue P → Type 0
  AllConsistent q =
      (id : String) (r : ApprovalRequest P)
      → lookup id q.items ≡ some r
      → IsConsistent q.timeout_seconds id r

  decide-IsConsistent :
      (t : ℕ) (id : String) (payload : Option P) (approver : String) (now : Time)
      (r : ApprovalRequest P)
      → IsConsistent t id r
      → IsConsistent t id (decide payload approver now r)
  unfolding decide
  decide-IsConsistent t id none approver now r h = record {
    fits = (refl, refl);
    keyed = h.keyed;
    term = h.term;
  }
  decide-IsConsistent t id (some p) approver now r h = record {
    fits = (refl, refl);
    keyed = h.keyed;
    term = h.term;
  }

  refuse-IsConsistent :
      (t : ℕ) (id approver : String) (now : Time) (r : ApprovalRequest P)
      → IsConsistent t id r
      → IsConsistent t id (refuse approver now r)
  unfolding refuse
  refuse-IsConsistent t id approver now r h = record {
    fits = (refl, refl);
    keyed = h.keyed;
    term = h.term;
  }

  -- a pending request has neither approver nor payload, and keeps that when it expires
  Fits-pending :
      (s : ApprovalStatus) (a : Option String) (p : Option P) (x : P)
      → Fits s a p x
      → s ≡ pending
      → (a ≡ none) × (p ≡ none)
  Fits-pending pending a p x h e = h
  Fits-pending approved a p x h e = cc
  Fits-pending modified a p x h e = cc
  Fits-pending rejected a p x h e = cc
  Fits-pending expired a p x h e = h

  mark-IsConsistent :
      (t : ℕ) (id : String) (r : ApprovalRequest P)
      → IsConsistent t id r
      → r.status ≡ pending
      → IsConsistent t id (record r { status = expired })
  mark-IsConsistent t id r h waits = record {
    fits = Fits-pending r.status r.approver r.approved_payload r.suggestion h.fits waits;
    keyed = h.keyed;
    term = h.term;
  }

  expire_request-IsConsistent :
      (t : ℕ) (id : String) (now : Time) (r : ApprovalRequest P)
      → IsConsistent t id r
      → IsConsistent t id (expire_request now r)
  unfolding expire_request
  expire_request-IsConsistent t id now r h =
      ground (arith, Fits-pending r.status r.approver r.approved_payload r.suggestion h.fits)

  Outcome-AllConsistent :
      (id : String) (change : ApprovalRequest P → ApprovalRequest P) (checked : Time)
      (q : ApprovalQueue P) (x : Result Error (ApprovalRequest P) × ApprovalQueue P)
      → x.1.timeout_seconds ≡ q.timeout_seconds
      → ((r : ApprovalRequest P)
          → IsConsistent q.timeout_seconds id r
          → IsConsistent q.timeout_seconds id (change r))
      → Outcome id change checked q x
      → AllConsistent q
      → AllConsistent x.1
  Outcome-AllConsistent id change checked q (ok r', q') same_term keep (r₀, a, e, after) h j r
        found =
      rw same_term (elim (Bool-cases (j == id)) [
        | inl same ↦
            subst (λ z. IsConsistent q.timeout_seconds j z) (ground (arith, after j))
              (subst (λ k. IsConsistent q.timeout_seconds k (change r₀))
                (sym ((string_eq.same_iff j id).0 same)) (keep r₀ (h id r₀ a.0)))
        | inr other ↦ h j r (sym (after j ∙ rw other) ∙ found)
      ])
  Outcome-AllConsistent id change checked q (err _, q') same_term keep spares h j r found =
      rw same_term (elim (spares j) [
        | inl same ↦ h j r (sym same ∙ found)
        | inr (r₀, found₀, waits, _, after) ↦
            subst (λ z. IsConsistent q.timeout_seconds j z) (cc (found, after))
              (mark-IsConsistent q.timeout_seconds j r₀ (h j r₀ found₀) waits)
      ])

  expire-AllConsistent :
      (now : Time) (q : ApprovalQueue P) → AllConsistent q → AllConsistent (expire_pending now q).1
  unfolding expire_pending
  expire-AllConsistent now q h id r found = elim (Option-cases (lookup id q.items)) [
    | inl missing ↦ ground (arith, lookup-expire_items now id q.items)
    | inr (r₀, e) ↦
        subst (λ z. IsConsistent q.timeout_seconds id z)
          (ground (arith, lookup-expire_items now id q.items))
          (expire_request-IsConsistent q.timeout_seconds id now r₀ (h id r₀ e))
  ]

  create-AllConsistent :
      (id tenant agent skill : String) (p : P) (why : Option String) (now : Time)
      (q : ApprovalQueue P)
      → AllConsistent q
      → AllConsistent (create id tenant agent skill p why now q).1
  unfolding create
  create-AllConsistent id tenant agent skill p why now q h j r found =
      let new = (create id tenant agent skill p why now q).0 in
      let after = lookup-insert j id new q.items in
      elim (Bool-cases (j == id)) [
        | inl same ↦
            let written : new ≡ r = ground (arith, after) in
            subst (λ z. IsConsistent q.timeout_seconds j z) written
              (record {
                fits = (refl, refl);
                keyed = sym ((string_eq.same_iff j id).0 same);
                term = refl;
              })
        | inr other ↦ h j r (ground (arith, after))
      ]

  decision-timeout :
      (id approver : String) (payload : Option P) (checked now : Time) (q : ApprovalQueue P)
      → ((approve id approver payload checked now q).1.timeout_seconds ≡ q.timeout_seconds)
        × ((reject id approver checked now q).1.timeout_seconds ≡ q.timeout_seconds)
  unfolding approve reject
  decision-timeout id approver payload checked now q = (ground arith, ground arith)

  step-AllConsistent :
      (c : Call P) (q : ApprovalQueue P) → AllConsistent q → AllConsistent (step q c)
  unfolding step
  step-AllConsistent (creates id tenant agent skill p why now) q h =
      create-AllConsistent id tenant agent skill p why now q h
  step-AllConsistent (lists _ _ now) q h = expire-AllConsistent now q h
  step-AllConsistent (approves id approver payload checked now) q h =
      Outcome-AllConsistent id (decide payload approver now) checked q _
        (decision-timeout id approver payload checked now q).0
        (decide-IsConsistent q.timeout_seconds id payload approver now)
        (decision-Outcome id approver payload checked now q).0 h
  step-AllConsistent (rejects id approver checked now) q h =
      Outcome-AllConsistent id (refuse approver now) checked q _
        (decision-timeout id approver none checked now q).1
        (refuse-IsConsistent q.timeout_seconds id approver now)
        (decision-Outcome id approver none checked now q).1 h
  step-AllConsistent (expires now) q h = expire-AllConsistent now q h

  run-AllConsistent :
      (cs : List (Call P)) (q : ApprovalQueue P) → AllConsistent q → AllConsistent (run q cs)
  unfolding run
  run-AllConsistent [] q h = h
  run-AllConsistent (c ∷ cs) q h = run-AllConsistent cs (step q c) (step-AllConsistent c q h)

  -- After any calls on a new queue, every request carries an approver exactly if a human decided
  -- it, and a payload exactly if it was approved, with or without changes; without changes the payload
  -- is the suggestion. It is kept under its own id, and it runs out one timeout after it was created.
  pub run-init-AllConsistent :
      (timeout : ℤ) (q : ApprovalQueue P) (cs : List (Call P))
      → init timeout ≡ ok q
      → AllConsistent (run q cs)
  unfolding init lookup
  run-init-AllConsistent timeout q cs e = run-AllConsistent cs q (λ id r found. ground arith)
