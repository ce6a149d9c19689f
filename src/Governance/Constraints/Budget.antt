-- ===== src/Governance/Constraints/Budget.antt =====
-- owlclaw/governance/constraints/budget.py: an agent with a budget is shown a costly capability only
-- if what is left of the budget covers it, and its cost is then reserved for a while. Amounts are
-- whole multiples of a smallest step; the lock makes each call one step.
pub mod Limit
pub mod Histories
use owlclaw_core.Common.{
  ℕ, ◌+◌, Bool, true, false, not, ◌&&◌, ◌||◌, Option, none, some, String, List, [], ◌∷◌, ◌++◌, leb,
  ltb, if◌then◌else◌, filter,
}
use owlclaw_core.Common.Dict.{Dict, lookup, insert, erase}
use owlclaw_core.Common.Eq.{string_eq, pair_eq, ◌==◌}
use owlclaw_core.Common.Int.{ℤ, pos, ◌+ℤ◌, ◌-ℤ◌, ltb_ℤ, leb_ℤ}
use owlclaw_core.Common.Time.{Time, Date}
use owlclaw_core.Governance.Ledger.{LedgerApi}
use owlclaw_core.Governance.Visibility.{FilterResult, shown, hidden}

-- an amount as it is written: missing, or a text that is an amount or (`none`) is not
abbrev pub RawAmount : Type 0
RawAmount = Option (Option ℤ)

-- `_safe_decimal`
unfoldable pub safe_decimal : RawAmount → ℤ → ℤ
safe_decimal none default = default
safe_decimal (some none) default = default
safe_decimal (some (some d)) default = d

-- (expiry, amount)
abbrev pub Reservation : Type 0
Reservation = Time × ℤ

-- a budget limit that is missing, empty or zero counts as no limit
pub record BudgetLimit : Type 0 where
  pub is_set : Bool
  pub amount : RawAmount

pub record Budget : Type 0 where
  pub high_cost_threshold : ℤ
  pub budget_limits : Dict String BudgetLimit
  pub reservation_ttl : Time
  pub reservations : Dict (String × String) (List Reservation)

-- the default cost, 0.05, in the smallest step
module _ (default_cost : ℤ) where
  -- `_estimate_capability_cost`
  abbrev pub estimate_capability_cost : RawAmount → ℤ
  estimate_capability_cost none = default_cost
  estimate_capability_cost (some raw) = safe_decimal (some raw) default_cost

abbrev or_empty : Option (List Reservation) → List Reservation
or_empty none = []
or_empty (some entries) = entries

unfoldable pub entries_of : String × String → Budget → List Reservation
entries_of key b = or_empty (lookup key b.reservations)

unfoldable pub live_entries : Time → List Reservation → List Reservation
live_entries now = filter (λ (e : Reservation). ltb now e.0)

-- self._reservations[key] = kept, or pop(key) if there are none
abbrev store_entries : String × String → List Reservation → Budget → Budget
store_entries key [] b = record b { reservations = erase key b.reservations }
store_entries key (e ∷ es) b = record b { reservations = insert key (e ∷ es) b.reservations }

store_live : String × String → Time → List Reservation → Budget → Budget
unfolding live_entries
store_live key now [] b = b
store_live key now (e ∷ es) b = store_entries key (live_entries now (e ∷ es)) b

-- `_purge_expired_reservations`
unfoldable pub purge_expired : String × String → Time → Budget → Budget
unfolding entries_of store_live
purge_expired key now b = store_live key now (entries_of key b) b

unfoldable pub sum_reserved : List Reservation → ℤ
sum_reserved [] = pos 0
sum_reserved ((_, amount) ∷ es) = amount +ℤ sum_reserved es

-- the part of `evaluate` under the lock
pub reserve : String × String → (limit used cost : ℤ) → Time → Budget → FilterResult × Budget
unfolding purge_expired sum_reserved
reserve key limit used cost now b =
    let needed = ltb_ℤ b.high_cost_threshold cost in
    let b' = purge_expired key now b in
    let remaining = limit -ℤ used -ℤ sum_reserved (entries_of key b') in
    if needed && (leb_ℤ remaining (pos 0) || ltb_ℤ remaining cost)
    then (hidden "Budget exhausted", b')
    else if needed
    then (
      shown,
      record b' {
        reservations =
            insert key (entries_of key b' ++ (now + b.reservation_ttl, cost) ∷ []) b'.reservations;
      },
    )
    else (shown, b')

-- `evaluate`; `now` is the monotonic clock, `month_start` and `today` the range of the costs
pub evaluate :
    LedgerApi
    → (default_cost : ℤ) → (tenant_id agent_id : String) → RawAmount
    → (month_start today : Date) → Time
    → Budget
    → FilterResult × Budget
unfolding reserve
evaluate ledger default_cost tenant_id agent_id estimated month_start today now b =
    elim (lookup agent_id b.budget_limits) [
      | none ↦ (shown, b)
      | some limit ↦
          if not limit.is_set
          then (shown, b)
          else reserve (tenant_id, agent_id) (safe_decimal limit.amount (pos 0))
              (ledger.cost_summary tenant_id agent_id month_start today).total_cost
              (estimate_capability_cost default_cost estimated) now b
    ]

-- the loop of `refund_reservation`, from the last entry to the first: at most one is dropped. The
-- Boolean says that one has been.
pub drop_last_covering : ℤ → List Reservation → Bool × List Reservation
drop_last_covering amount [] = (false, [])
drop_last_covering amount (e ∷ es) =
    let (done, rest) = drop_last_covering amount es in
    if done then (true, e ∷ rest) else if leb_ℤ amount e.1 then (true, rest) else (false, e ∷ rest)

pub refund_reservation : (tenant_id agent_id : String) → RawAmount → Time → Budget → Budget
unfolding purge_expired drop_last_covering
refund_reservation tenant_id agent_id amount now b =
    let safe_amount = safe_decimal amount (pos 0) in
    let key : String × String = (tenant_id, agent_id) in
    if leb_ℤ safe_amount (pos 0)
    then b
    else let b' = purge_expired key now b in
      store_entries key (drop_last_covering safe_amount (entries_of key b')).1 b'
