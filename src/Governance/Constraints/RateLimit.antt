-- ===== src/Governance/Constraints/RateLimit.antt =====
-- owlclaw/governance/constraints/rate_limit.py: a daily limit on the runs of a capability and a pause
-- between two of them.
pub mod Daily
use owlclaw_core.Common.{
  ℕ, ◌+◌, Bool, true, false, Option, none, some, String, List, [], ◌∷◌, leb, ltb, length,
  if◌then◌else◌,
}
use owlclaw_core.Common.Int.{ℤ, pos, negsuc}
use owlclaw_core.Common.Time.{Time, Date, seconds}
use owlclaw_core.Governance.Ledger.{LedgerApi, LedgerRecord, LedgerQueryFilters, no_filters}
use owlclaw_core.Governance.Visibility.{FilterResult, shown, hidden}

-- a constraint as it is written: nothing, a bool, something that `int()` reads (or rejects, `none`),
-- or a value of another type
pub data RawLimit : Type 0 where
  absent other : RawLimit
  flag : Bool → RawLimit
  readable : Option ℤ → RawLimit

-- `_parse_non_negative_int`
unfoldable pub parse_non_negative_int : RawLimit → Option ℕ
parse_non_negative_int absent = none
parse_non_negative_int other = none
parse_non_negative_int (flag b) = none
parse_non_negative_int (readable none) = none
parse_non_negative_int (readable (some (negsuc n))) = none
parse_non_negative_int (readable (some (pos n))) = some n

abbrev first_time : List LedgerRecord → Option Time
first_time [] = none
first_time (r ∷ rs) = some r.created_at

-- the test of the cooldown: elapsed < cooldown_seconds
abbrev pub check_cooldown : Option ℕ → Option Time → Time → FilterResult
check_cooldown none last now = shown
check_cooldown (some cooldown) none now = shown
check_cooldown (some cooldown) (some last) now =
    if ltb now (last + seconds cooldown) then hidden "Cooldown active" else shown

-- the two tests of `evaluate`
abbrev pub check_limits : (max cooldown : Option ℕ) (count : ℕ) → Option Time → Time → FilterResult
check_limits none cooldown count last now = check_cooldown cooldown last now
check_limits (some max_daily_calls) cooldown count last now =
    if leb max_daily_calls count
    then hidden "Daily call limit exceeded"
    else check_cooldown cooldown last now

module _ (ledger : LedgerApi) where
  -- `_get_daily_call_count`
  unfoldable pub get_daily_call_count : (tenant_id agent_id capability_name : String) → Date → ℕ
  get_daily_call_count tenant_id agent_id capability_name today = length (
      ledger.query tenant_id (record no_filters {
        agent_id = some agent_id;
        capability_name = some capability_name;
        start_date = some today;
        end_date = some today;
      }))

  -- `_get_last_call_time`; all times are in UTC
  unfoldable pub get_last_call_time : (tenant_id agent_id capability_name : String) → Option Time
  get_last_call_time tenant_id agent_id capability_name = first_time (
      ledger.query tenant_id (record no_filters {
        agent_id = some agent_id;
        capability_name = some capability_name;
        limit = some 1;
        order_by = some "created_at DESC";
      }))

  -- `evaluate`, on the two constraints that it reads
  unfoldable pub evaluate :
      (max_daily_calls cooldown_seconds : RawLimit) (tenant_id agent_id capability_name : String)
      → Date
      → Time
      → FilterResult
  evaluate raw_max raw_cooldown tenant_id agent_id capability_name today now =
      check_limits (parse_non_negative_int raw_max) (parse_non_negative_int raw_cooldown)
        (get_daily_call_count tenant_id agent_id capability_name today)
        (get_last_call_time tenant_id agent_id capability_name) now
