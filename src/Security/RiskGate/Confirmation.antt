-- ===== src/Security/RiskGate/Confirmation.antt =====
-- When a confirmation or a rejection finds its operation.
use owlclaw_core.Common.{
  ℕ, ◌-◌, ◌+◌, ◌≡◌, ◌∙◌, ap, refl, Bool, false, not, Option, none, some, String, List, [], ◌∷◌,
  arith, ltb, leb, if◌then◌else◌, Bool-cases, inl, inr, any, is_some,
}
use owlclaw_core.Common.Dict.{
  Dict, IsDict, lookup, lookup-erase, lookup-erase_self, erase-IsDict, insert-IsDict,
  lookup-insert_self,
}
use owlclaw_core.Common.Eq.{string_eq, ◌==◌}
use owlclaw_core.Common.Time.{Time, seconds}
use owlclaw_core.Security.RiskGate.{
  RiskGate, PendingRiskOperation, pause, evaluate, pause_operation, normalize, is_stale,
  expired_ids, drop_expired, expire_pending, settle, confirm, reject_operation,
}

abbrev live : ℕ → Time → Option PendingRiskOperation → Option PendingRiskOperation
live timeout now none = none
live timeout now (some operation) = if is_stale timeout now operation then none else some operation

abbrev is_among : String → List String → Bool
is_among j = any (λ i. j == i)

lookup-drop_expired :
    (j : String) (ids : List String) (now : Time) (g : RiskGate)
    → lookup j (drop_expired ids now g).pending
      ≡ (if is_among j ids then none else lookup j g.pending)
unfolding drop_expired
lookup-drop_expired j [] now g = refl
lookup-drop_expired j (id ∷ ids) now g =
    lookup-drop_expired j ids now _ ∙ ground (arith, lookup-erase j id g.pending)

abbrev stale_at : ℕ → Time → Option PendingRiskOperation → Bool
stale_at timeout now none = false
stale_at timeout now (some operation) = is_stale timeout now operation

is_among-expired_ids :
    (j : String) (timeout : ℕ) (now : Time) (d : Dict String PendingRiskOperation)
    → IsDict d
    → is_among j (expired_ids timeout now d) ≡ stale_at timeout now (lookup j d)
unfolding expired_ids lookup
is_among-expired_ids j timeout now [] h = refl
is_among-expired_ids j timeout now ((id, operation) ∷ d) h =
    elim (Bool-cases (is_stale timeout now operation)) [
      | inl stale ↦
          rw stale (
            ground
              (arith, stale, is_among-expired_ids j timeout now d h.1, string_eq.same_iff j id))
      | inr fresh ↦
          rw fresh (
            ground
              (arith, fresh, is_among-expired_ids j timeout now d h.1, string_eq.same_iff j id))
    ]

live-stale_at :
    (timeout : ℕ) (now : Time) (x : Option PendingRiskOperation)
    → (if stale_at timeout now x then none else x) ≡ live timeout now x
live-stale_at timeout now none = refl
live-stale_at timeout now (some operation) = refl

-- what `_expire_pending` leaves under an id
lookup-expire_pending :
    (j : String) (now : Time) (g : RiskGate)
    → IsDict g.pending
    → lookup j (expire_pending now g).pending ≡ live g.timeout now (lookup j g.pending)
unfolding expire_pending
lookup-expire_pending j now g h =
    lookup-drop_expired j (expired_ids g.timeout now g.pending) now g
    ∙ rw (is_among-expired_ids j g.timeout now g.pending h)
        (live-stale_at g.timeout now (lookup j g.pending))

drop_expired-IsDict :
    (ids : List String) (now : Time) (g : RiskGate)
    → IsDict g.pending
    → IsDict (drop_expired ids now g).pending
unfolding drop_expired
drop_expired-IsDict [] now g h = h
drop_expired-IsDict (id ∷ ids) now g h = drop_expired-IsDict ids now _ (erase-IsDict id g.pending h)

settle-IsDict :
    (found missing id : String) (now : Time) (g : RiskGate)
    → IsDict g.pending
    → IsDict (settle found missing id now g).1.pending
unfolding settle
settle-IsDict found missing id now g h =
    erase-IsDict id _ (drop_expired-IsDict (expired_ids g.timeout now g.pending) now g h)

settle-success :
    (found missing id : String) (now : Time) (g : RiskGate)
    → IsDict g.pending
    → (settle found missing id now g).0 ≡ is_some (live g.timeout now (lookup id g.pending))
unfolding settle
settle-success found missing id now g h = ap is_some (lookup-expire_pending id now g h)

settle-gone :
    (found missing id : String) (now : Time) (g : RiskGate)
    → lookup id (settle found missing id now g).1.pending ≡ none
unfolding settle
settle-gone found missing id now g = lookup-erase_self id (expire_pending now g).pending

settle_twice :
    (found missing found' missing' id : String) (now later : Time) (g : RiskGate)
    → IsDict g.pending
    → (settle found' missing' id later (settle found missing id now g).1).0 ≡ false
settle_twice found missing found' missing' id now later g h =
    settle-success found' missing' id later _ (settle-IsDict found missing id now g h)
    ∙ rw (settle-gone found missing id now g)

-- An operation is settled at most once: after a confirmation or a rejection, found or not, neither
-- finds the id again.
pub settled_once :
    (id : String) (now later : Time) (g : RiskGate)
    → IsDict g.pending
    → ((confirm id later (confirm id now g).1).0 ≡ false)
      × ((reject_operation id later (confirm id now g).1).0 ≡ false)
      × ((confirm id later (reject_operation id now g).1).0 ≡ false)
      × ((reject_operation id later (reject_operation id now g).1).0 ≡ false)
unfolding confirm reject_operation
settled_once id now later g h = (
  settle_twice "risk_confirmed" "risk_confirm_missing" "risk_confirmed" "risk_confirm_missing" id
      now later g h,
  settle_twice "risk_confirmed" "risk_confirm_missing" "risk_rejected_manual" "risk_reject_missing"
      id now later g h,
  settle_twice "risk_rejected_manual" "risk_reject_missing" "risk_confirmed" "risk_confirm_missing"
      id now later g h,
  settle_twice "risk_rejected_manual" "risk_reject_missing" "risk_rejected_manual"
      "risk_reject_missing" id now later g h,
)

paused_lookup :
    (name level reason id : String) (now later : Time) (g : RiskGate)
    → IsDict g.pending
    → (confirm id later (pause_operation name level reason id now g)).0
      ≡ not (ltb now (later - seconds g.timeout))
unfolding confirm pause_operation
paused_lookup name level reason id now later g h =
    settle-success "risk_confirmed" "risk_confirm_missing" id later _
      (insert-IsDict id _ g.pending h)
    ∙ rw (lookup-insert_self id _ g.pending) (ground arith)

pub confirm-evaluate :
    (name risk_level : String) (confirmation : Bool) (ratio : ℕ) (id : String) (now later : Time)
    (g : RiskGate)
    → IsDict g.pending
    → (evaluate name risk_level confirmation ratio id now g).0.0 ≡ pause
    → (confirm id later (evaluate name risk_level confirmation ratio id now g).1).0
      ≡ leb later (now + seconds g.timeout)
unfolding evaluate
confirm-evaluate name risk_level confirmation ratio id now later g h paused = ground (
  arith,
  paused_lookup name (normalize risk_level) "critical capability" id now later g h,
  paused_lookup name (normalize risk_level) "manual confirmation required" id now later g h,
  paused_lookup name (normalize risk_level) "budget ratio exceeds threshold" id now later g h,
)
