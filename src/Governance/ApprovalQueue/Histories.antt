-- ===== src/Governance/ApprovalQueue/Histories.antt =====
-- What holds of the queue after any sequence of calls.
use mathlib.Core.Option
use owlclaw_core.Common.{
  ◌≡◌, ◌≢◌, ◌∙◌, refl, none, some, String, List, [], ◌∷◌, arith, Bool-cases, inl, inr, All,
}
use owlclaw_core.Common.Dict.{Dict, lookup, lookup-insert}
use owlclaw_core.Common.Eq.{string_eq, ◌==◌}
use owlclaw_core.Common.Result.{Result, ok, err}
use owlclaw_core.Common.Time.{Time}
use owlclaw_core.Governance.ApprovalQueue.{
  ApprovalQueue, ApprovalRequest, Error, pending, Call, creates, lists, approves, rejects, expires,
  step, run, expire_items, expire_request, decide, refuse,
}
use owlclaw_core.Governance.ApprovalQueue.Decisions.{Outcome, decision-Outcome}

module _ {P : Type 0} where
  pub lookup-expire_items :
      (now : Time) (k : String) (items : Dict String (ApprovalRequest P))
      → lookup k (expire_items now items).1 ≡ Option.map (expire_request now) (lookup k items)
  unfolding expire_items lookup
  lookup-expire_items now k [] = refl
  lookup-expire_items now k ((j, r) ∷ items) = ground (arith, lookup-expire_items now k items)

  -- the call does not bring in a request under this id
  abbrev pub Avoids : String → Call P → Type 0
  Avoids id (creates id' _ _ _ _ _ _) = id ≢ id'
  Avoids id _ = Unit

  outcome_keeps_decided :
      (id id' : String) (change : ApprovalRequest P → ApprovalRequest P) (checked : Time)
      (q : ApprovalQueue P) (x : Result Error (ApprovalRequest P) × ApprovalQueue P)
      (r : ApprovalRequest P)
      → Outcome id' change checked q x
      → lookup id q.items ≡ some r
      → r.status ≢ pending
      → lookup id x.1.items ≡ some r
  outcome_keeps_decided id id' change checked q (ok r', q') r (r₀, a, _, after) found decided =
      elim (Bool-cases (id == id')) [
        | inl same ↦ absurd (decided (cc (a.0, a.1, found, (string_eq.same_iff id id').0 same)))
        | inr other ↦ after id ∙ rw other found
      ]
  outcome_keeps_decided id id' change checked q (err e, q') r spares found decided =
      elim (spares id) [
        | inl same ↦ same ∙ found
        | inr (r₀, found₀, waits, _, _) ↦ absurd (decided (cc (found, found₀, waits)))
      ]

  expire_keeps_decided :
      (now : Time) (id : String) (items : Dict String (ApprovalRequest P)) (r : ApprovalRequest P)
      → lookup id items ≡ some r
      → r.status ≢ pending
      → lookup id (expire_items now items).1 ≡ some r
  unfolding expire_request
  expire_keeps_decided now id items r found decided =
      lookup-expire_items now id items ∙ rw found (ground arith)

  step_keeps_decided :
      (id : String) (c : Call P) (q : ApprovalQueue P) (r : ApprovalRequest P)
      → Avoids id c
      → lookup id q.items ≡ some r
      → r.status ≢ pending
      → lookup id (step q c).items ≡ some r
  unfolding step
  step_keeps_decided id (creates id' _ _ _ _ _ now) q r new found decided =
      lookup-insert id id' _ q.items ∙ ground (arith, string_eq.same_iff id id')
  step_keeps_decided id (lists _ _ now) q r new found decided =
      expire_keeps_decided now id q.items r found decided
  step_keeps_decided id (approves id' approver payload checked now) q r new found decided =
      outcome_keeps_decided id id' (decide payload approver now) checked q _ r
        (decision-Outcome id' approver payload checked now q).0 found decided
  step_keeps_decided id (rejects id' approver checked now) q r new found decided =
      outcome_keeps_decided id id' (refuse approver now) checked q _ r
        (decision-Outcome id' approver none checked now q).1 found decided
  step_keeps_decided id (expires now) q r new found decided =
      expire_keeps_decided now id q.items r found decided

  -- A request that is approved, modified, rejected or expired stays exactly as it is, whatever calls
  -- follow, as long as no new request is given its id.
  pub decided_forever :
      (id : String) (cs : List (Call P)) (q : ApprovalQueue P) (r : ApprovalRequest P)
      → All (Avoids id) cs
      → lookup id q.items ≡ some r
      → r.status ≢ pending
      → lookup id (run q cs).items ≡ some r
  unfolding run
  decided_forever id [] q r new found decided = found
  decided_forever id (c ∷ cs) q r new found decided =
      decided_forever id cs (step q c) r new.1 (step_keeps_decided id c q r new.0 found decided)
        decided
