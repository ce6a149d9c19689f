-- ===== src/Governance/Ledger/Recording.antt =====
-- What `record_execution` stores, and how much of it is kept.
use owlclaw_core.Common.{
  ℕ, ◌-◌, ◌<◌, ◌≤◌, ◌≡◌, inl, inr, false, List, [], ◌∷◌, ◌++◌, String, arith, Bool-cases, All,
  All-append, All-drop, length, length-drop, ltb, eqb,
}
use mathlib.Core.Path.{subst}
use owlclaw_core.Common.Result.{ok, >>=-eq-ok, ok_inj}
use owlclaw_core.Common.Text.{strip, is_blank, strip_idem}
use owlclaw_core.Common.Time.{Time}
use owlclaw_core.Governance.Ledger.{
  Execution, LedgerRecord, InMemoryLedger, require_name, make_record, append_record, keep_last,
  record_execution,
}

-- a name without spaces at its ends, and not empty
abbrev pub IsName : String → Type 0
IsName s = (strip s ≡ s) × (is_blank s ≡ false)

pub record IsNamed (r : LedgerRecord) : Type 0 where
  pub tenant_id : IsName r.tenant_id
  pub agent_id : IsName r.agent_id
  pub run_id : IsName r.run_id
  pub capability_name : IsName r.capability_name
  pub task_type : IsName r.task_type

pub record IsWellFormed (l : InMemoryLedger) : Type 0 where
  pub named : All IsNamed l.records
  pub bounded : 0 < l.max_records → length l.records ≤ l.max_records

require_name-IsName : (value name : String) (v : String) → require_name value name ≡ ok v → IsName v
unfolding require_name
require_name-IsName value name v h = ground (arith, strip_idem value)

make_record-IsNamed :
    (e : Execution) (id : String) (now : Time) (r : LedgerRecord)
    → make_record e id now ≡ ok r
    → IsNamed r
unfolding make_record
make_record-IsNamed e id now r h = ground (
  arith,
  strip_idem e.tenant_id,
  strip_idem e.agent_id,
  strip_idem e.run_id,
  strip_idem e.capability_name,
  strip_idem e.task_type,
)

keep_last-length : {A : Type 0} (n : ℕ) (xs : List A) → 0 < n → length (keep_last n xs) ≤ n
unfolding keep_last
keep_last-length n xs h = ground (arith, length-drop (length xs - n) xs)

keep_last-All :
    {A : Type 0} (P : A → Type 0) (n : ℕ) (xs : List A) → All P xs → All P (keep_last n xs)
unfolding keep_last
keep_last-All P n xs h = elim (Bool-cases (eqb n 0)) [
  | inl zero ↦ rw zero h
  | inr positive ↦ rw positive (All-drop P (length xs - n) xs h)
]

append_record-IsWellFormed :
    (r : LedgerRecord) (l : InMemoryLedger)
    → IsNamed r
    → IsWellFormed l
    → IsWellFormed (append_record r l)
unfolding append_record
append_record-IsWellFormed r l named w =
    let grown : All IsNamed (l.records ++ r ∷ []) =
      All-append IsNamed l.records (r ∷ []) w.named (named, tt) in
    elim (Bool-cases (ltb l.max_records (length (l.records ++ r ∷ [])))) [
      | inl full ↦ rw full (record {
        named = keep_last-All IsNamed l.max_records _ grown;
        bounded = λ h. keep_last-length l.max_records (l.records ++ r ∷ []) h;
      })
      | inr room ↦ rw room (record { named = grown; bounded = λ h. ground arith })
    ]

-- Recording a run that is accepted keeps the ledger well formed: all five names of every record are
-- trimmed and not empty, and a positive `max_records` is never exceeded.
pub record_execution-IsWellFormed :
    (e : Execution) (id : String) (now : Time) (l l' : InMemoryLedger)
    → IsWellFormed l
    → record_execution e id now l ≡ ok l'
    → IsWellFormed l'
unfolding record_execution
record_execution-IsWellFormed e id now l l' w h =
    let (r, made, stored) = >>=-eq-ok (make_record e id now) (λ r. ok (append_record r l)) h in
    subst IsWellFormed (ok_inj stored)
      (append_record-IsWellFormed r l (make_record-IsNamed e id now r made) w)
