-- ===== src/Governance/ApprovalQueue.antt =====
-- owlclaw/governance/approval_queue.py: the queue of decisions that wait for a human. The clock and
-- the new ids are arguments; a call that raises gives the queue that it leaves behind.
pub mod Decisions
pub mod Histories
pub mod Consistency
pub mod Listing
mod Tests
use owlclaw_core.Common.{
  ℕ, suc, ◌+◌, Bool, true, false, ◌&&◌, Option, none, some, List, [], ◌∷◌, String, leb, ◌≡◌, refl,
  if◌then◌else◌, filter,
}
use owlclaw_core.Common.Dict.{Dict, values, lookup, insert}
use owlclaw_core.Common.Eq.{string_eq, ◌==◌}
use owlclaw_core.Common.Int.{ℤ, pos, leb_ℤ, to_ℕ}
use owlclaw_core.Common.Result.{Result, ok, err}
use owlclaw_core.Common.Sorting.{ascending}
use owlclaw_core.Common.Time.{Time, seconds}

pub data ApprovalStatus : Type 0 where
  pending approved rejected modified expired : ApprovalStatus

abbrev pub status_beq : ApprovalStatus → ApprovalStatus → Bool
status_beq pending pending = true
status_beq approved approved = true
status_beq rejected rejected = true
status_beq modified modified = true
status_beq expired expired = true
status_beq _ _ = false

-- `P` stands for the dictionaries that hold a suggestion
pub record ApprovalRequest (P : Type 0) : Type 0 where
  pub id : String
  pub tenant_id : String
  pub agent_id : String
  pub skill_name : String
  pub suggestion : P
  pub reasoning : Option String
  pub status : ApprovalStatus
  pub created_at : Time
  pub expires_at : Time
  pub updated_at : Time
  pub approver : Option String
  pub approved_payload : Option P

pub data Error : Type 0 where
  bad_timeout : Error
  unknown_request : String → Error
  not_pending : ApprovalStatus → Error
  has_expired : Error

pub record ApprovalQueue (P : Type 0) : Type 0 where
  pub timeout_seconds : ℕ
  pub items : Dict String (ApprovalRequest P)

-- one call on the queue, with the values of the clock and of `uuid4` that it reads
pub data Call (P : Type 0) : Type 0 where
  creates : (id tenant_id agent_id skill_name : String) → P → Option String → (now : Time) → Call P
  lists : (tenant_id : String) → Option ApprovalStatus → (now : Time) → Call P
  approves : (request_id approver : String) → Option P → (checked now : Time) → Call P
  rejects : (request_id approver : String) → (checked now : Time) → Call P
  expires : (now : Time) → Call P

module _ {P : Type 0} where
  -- `InMemoryApprovalQueue.__init__`
  pub init : ℤ → Result Error (ApprovalQueue P)
  init timeout_seconds =
      if leb_ℤ timeout_seconds (pos 0)
      then err bad_timeout
      else ok (record { timeout_seconds = to_ℕ timeout_seconds; items = [] })

  -- `id` is the text of a new UUID
  pub create :
      (id tenant_id agent_id skill_name : String)
      → P
      → Option String
      → Time
      → ApprovalQueue P
      → ApprovalRequest P × ApprovalQueue P
  create id tenant_id agent_id skill_name suggestion reasoning now q =
      let request : ApprovalRequest P = record {
        id = id;
        tenant_id = tenant_id;
        agent_id = agent_id;
        skill_name = skill_name;
        suggestion = suggestion;
        reasoning = reasoning;
        status = pending;
        created_at = now;
        expires_at = now + seconds q.timeout_seconds;
        updated_at = now;
        approver = none;
        approved_payload = none;
      } in
      (request, record q { items = insert id request q.items })

  abbrev is_due : Time → ApprovalRequest P → Bool
  is_due now r = status_beq r.status pending && leb r.expires_at now

  -- the body of the loop of `expire_pending`
  pub expire_request : Time → ApprovalRequest P → ApprovalRequest P
  expire_request now r = if is_due now r then record r { status = expired; updated_at = now } else r

  pub expire_items : Time → Dict String (ApprovalRequest P) → ℕ × Dict String (ApprovalRequest P)
  unfolding expire_request
  expire_items now [] = (0, [])
  expire_items now ((k, r) ∷ items) =
      let (count, rest) = expire_items now items in
      (if is_due now r then suc count else count, (k, expire_request now r) ∷ rest)

  pub expire_pending : Time → ApprovalQueue P → ℕ × ApprovalQueue P
  unfolding expire_items
  expire_pending now q =
      let (count, items) = expire_items now q.items in (count, record q { items = items })

  abbrev has_status : Option ApprovalStatus → ApprovalRequest P → Bool
  has_status none r = true
  has_status (some s) r = status_beq r.status s

  -- `InMemoryApprovalQueue.list`
  pub list_requests :
      String
      → Option ApprovalStatus
      → Time
      → ApprovalQueue P
      → List (ApprovalRequest P) × ApprovalQueue P
  unfolding expire_pending
  list_requests tenant_id status now q =
      let (_, q') = expire_pending now q in
      let rows = filter (λ (r : ApprovalRequest P). r.tenant_id == tenant_id) (values q'.items) in
      (ascending (λ r. r.created_at) (filter (has_status status) rows), q')

  check_active :
      String
      → Time
      → ApprovalQueue P
      → Option (ApprovalRequest P)
      → Result Error (ApprovalRequest P) × ApprovalQueue P
  check_active request_id now q none = (err (unknown_request request_id), q)
  check_active request_id now q (some r) =
      if status_beq r.status pending
      then if leb r.expires_at now
        then (
          err has_expired,
          record q { items = insert request_id (record r { status = expired }) q.items },
        )
        else (ok r, q)
      else (err (not_pending r.status), q)

  -- `_require_active`: a request that has run out is marked before the error is raised
  require_active :
      String → Time → ApprovalQueue P → Result Error (ApprovalRequest P) × ApprovalQueue P
  unfolding check_active
  require_active request_id now q = check_active request_id now q (lookup request_id q.items)

  -- the writes of `approve`
  pub decide : Option P → (approver : String) → Time → ApprovalRequest P → ApprovalRequest P
  decide none approver now r = record r {
    updated_at = now;
    approver = some approver;
    status = approved;
    approved_payload = some r.suggestion;
  }
  decide (some payload) approver now r = record r {
    updated_at = now;
    approver = some approver;
    status = modified;
    approved_payload = some payload;
  }

  pub refuse : (approver : String) → Time → ApprovalRequest P → ApprovalRequest P
  refuse approver now r = record r {
    updated_at = now;
    approver = some approver;
    status = rejected;
    approved_payload = none;
  }

  -- the request found by `require_active` is rewritten in place
  abbrev settle :
      String
      → (ApprovalRequest P → ApprovalRequest P)
      → Result Error (ApprovalRequest P) × ApprovalQueue P
      → Result Error (ApprovalRequest P) × ApprovalQueue P
  settle request_id change (err e, q) = (err e, q)
  settle request_id change (ok r, q) =
      (ok (change r), record q { items = insert request_id (change r) q.items })

  -- the two readings of the clock: in `_require_active`, and for `updated_at`
  pub approve :
      (request_id approver : String)
      → Option P
      → (checked now : Time) → ApprovalQueue P
      → Result Error (ApprovalRequest P) × ApprovalQueue P
  unfolding require_active decide
  approve request_id approver payload checked now q =
      settle request_id (decide payload approver now) (require_active request_id checked q)

  pub reject :
      (request_id approver : String)
      → (checked now : Time) → ApprovalQueue P
      → Result Error (ApprovalRequest P) × ApprovalQueue P
  unfolding require_active refuse
  reject request_id approver checked now q =
      settle request_id (refuse approver now) (require_active request_id checked q)

  pub step : ApprovalQueue P → Call P → ApprovalQueue P
  unfolding create list_requests approve reject expire_pending
  step q (creates id tenant_id agent_id skill_name suggestion reasoning now) =
      (create id tenant_id agent_id skill_name suggestion reasoning now q).1
  step q (lists tenant_id status now) = (list_requests tenant_id status now q).1
  step q (approves id approver payload checked now) = (approve id approver payload checked now q).1
  step q (rejects id approver checked now) = (reject id approver checked now q).1
  step q (expires now) = (expire_pending now q).1

  pub run : ApprovalQueue P → List (Call P) → ApprovalQueue P
  unfolding step
  run q [] = q
  run q (c ∷ cs) = run (step q c) cs
