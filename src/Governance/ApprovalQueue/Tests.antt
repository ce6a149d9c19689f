-- ===== src/Governance/ApprovalQueue/Tests.antt =====
-- A queue with one open request and one that was approved, and the theorems at it.
use owlclaw_core.Common.{ℕ, ◌≡◌, refl, none, some, List, [], ◌∷◌, arith}
use owlclaw_core.Common.Dict.{lookup, insert}
use owlclaw_core.Common.Eq.{string_eq}
use owlclaw_core.Common.Int.{pos}
use owlclaw_core.Governance.ApprovalQueue.{
  ApprovalQueue, ApprovalRequest, pending, approved, creates, approves, rejects, Call, init, create,
  approve, reject, run, decide, refuse,
}
use owlclaw_core.Governance.ApprovalQueue.Decisions.{Outcome, decision-Outcome}
use owlclaw_core.Governance.ApprovalQueue.Histories.{decided_forever}
use owlclaw_core.Governance.ApprovalQueue.Consistency.{AllConsistent, run-init-AllConsistent}

abbrev fresh : ApprovalQueue ℕ
fresh = record { timeout_seconds = 60; items = [] }

abbrev open_request : ApprovalRequest ℕ
open_request = record {
  id = "r2";
  tenant_id = "t";
  agent_id = "a";
  skill_name = "s";
  suggestion = 7;
  reasoning = none;
  status = pending;
  created_at = 5;
  expires_at = 60000005;
  updated_at = 5;
  approver = none;
  approved_payload = none;
}

abbrev closed_request : ApprovalRequest ℕ
closed_request = record open_request {
  id = "r1";
  status = approved;
  approver = some "ann";
  approved_payload = some 7;
}

abbrev queue : ApprovalQueue ℕ
queue = record fresh { items = ("r1", closed_request) ∷ ("r2", open_request) ∷ [] }

abbrev calls : List (Call ℕ)
calls =
    creates "r3" "t" "a" "s" 1 none 9 ∷ rejects "r1" "bob" 9 9 ∷ approves "r2" "bob" none 10 11 ∷ []

decision-Outcome_example :
    Outcome "r2" (decide (some 9) "bob" 11) 10 queue (approve "r2" "bob" (some 9) 10 11 queue)
    × Outcome "r2" (refuse "bob" 11) 10 queue (reject "r2" "bob" 10 11 queue)
decision-Outcome_example = decision-Outcome "r2" "bob" (some 9) 10 11 queue

decided_forever_example : lookup "r1" (run queue calls).items ≡ some closed_request
unfolding lookup
decided_forever_example =
    decided_forever "r1" calls queue closed_request
      ((ground (arith, string_eq.same_iff "r1" "r3")), (tt, (tt, tt))) refl (λ e. cc)

run-init-AllConsistent_example : AllConsistent (run fresh calls)
unfolding init
run-init-AllConsistent_example = run-init-AllConsistent (pos 60) fresh calls refl

approve_twice :
    (run queue calls).items
    ≡ ("r1", closed_request)
      ∷ (
        "r2",
        record open_request {
          status = approved;
          updated_at = 11;
          approver = some "bob";
          approved_payload = some 7;
        },
      )
      ∷ ("r3", (create "r3" "t" "a" "s" 1 none 9 queue).0)
      ∷ []
unfolding run create insert lookup
approve_twice = refl
