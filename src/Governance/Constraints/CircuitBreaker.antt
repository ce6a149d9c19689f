-- ===== src/Governance/Constraints/CircuitBreaker.antt =====
-- owlclaw/governance/constraints/circuit_breaker.py: a capability that keeps failing is hidden for a
-- while. The reading of the clock is an argument; both readings of one call are the same here.
pub mod Circuit
use owlclaw_core.Common.{
  ℕ, suc, ◌+◌, Bool, true, false, ◌||◌, Option, none, some, String, List, [], ◌∷◌, leb, ltb,
  if◌then◌else◌,
}
use owlclaw_core.Common.Dict.{Dict, lookup, insert}
use owlclaw_core.Common.Eq.{string_eq, pair_eq, ◌==◌}
use owlclaw_core.Common.Time.{Time, seconds}
use owlclaw_core.Governance.Ledger.{LedgerApi, LedgerRecord, no_filters}
use owlclaw_core.Governance.Visibility.{FilterResult, shown, hidden}

pub data CircuitState : Type 0 where
  closed open_circuit half_open : CircuitState

pub record CircuitBreaker : Type 0 where
  pub failure_threshold : ℕ
  pub recovery_timeout : ℕ
  pub states : Dict (String × String) (CircuitState × Option Time)

-- the loop over the records, newest first: it stops at the first that did not fail
unfoldable pub count_failures : List LedgerRecord → ℕ
count_failures [] = 0
count_failures (r ∷ rs) =
    if r.status == "error" || r.status == "timeout" then suc (count_failures rs) else 0

-- the query of `_get_recent_failures`
abbrev pub recent_records :
    LedgerApi → ℕ → (tenant_id agent_id capability_name : String) → List LedgerRecord
recent_records ledger failure_threshold tenant_id agent_id capability_name =
    ledger.query tenant_id (record no_filters {
      agent_id = some agent_id;
      capability_name = some capability_name;
      limit = some (failure_threshold + 1);
      order_by = some "created_at DESC";
    })

-- `_get_recent_failures`
unfoldable pub get_recent_failures :
    LedgerApi → ℕ → (tenant_id agent_id capability_name : String) → ℕ
unfolding count_failures
get_recent_failures ledger failure_threshold tenant_id agent_id capability_name =
    count_failures (recent_records ledger failure_threshold tenant_id agent_id capability_name)

-- the state of a circuit that was never used
abbrev or_closed : Option (CircuitState × Option Time) → CircuitState × Option Time
or_closed none = (closed, none)
or_closed (some s) = s

unfoldable pub state_of : CircuitBreaker → String → String → CircuitState × Option Time
state_of b agent_id name = or_closed (lookup (agent_id, name) b.states)

abbrev set_state : String → String → CircuitState × Option Time → CircuitBreaker → CircuitBreaker
set_state agent_id name s b = record b { states = insert (agent_id, name) s b.states }

-- a circuit that is not open counts the failures
check_failures :
    (failures : ℕ) (agent_id name : String) → Time → CircuitBreaker → FilterResult × CircuitBreaker
check_failures failures agent_id name now b =
    if leb b.failure_threshold failures
    then (
      hidden "Circuit open (consecutive failures)",
      set_state agent_id name (open_circuit, some now) b,
    )
    else (shown, b)

-- `evaluate` after the state has been read
dispatch :
    CircuitState × Option Time
    → (failures : ℕ) (agent_id name : String) → Time
    → CircuitBreaker
    → FilterResult × CircuitBreaker
unfolding check_failures
dispatch (open_circuit, none) failures agent_id name now b =
    (hidden "Circuit open (capability recently failed)", b)
dispatch (open_circuit, some since) failures agent_id name now b =
    if ltb (since + seconds b.recovery_timeout) now
    then (shown, set_state agent_id name (half_open, none) b)
    else (hidden "Circuit open (capability recently failed)", b)
dispatch (closed, _) failures agent_id name now b = check_failures failures agent_id name now b
dispatch (half_open, _) failures agent_id name now b = check_failures failures agent_id name now b

pub evaluate :
    LedgerApi
    → (tenant_id agent_id name : String) → Time
    → CircuitBreaker
    → FilterResult × CircuitBreaker
unfolding dispatch state_of get_recent_failures
evaluate ledger tenant_id agent_id name now b =
    dispatch (state_of b agent_id name)
      (get_recent_failures ledger b.failure_threshold tenant_id agent_id name) agent_id name now b

pub on_capability_success : (agent_id name : String) → CircuitBreaker → CircuitBreaker
on_capability_success agent_id name b = elim (lookup (agent_id, name) b.states) [
  | none ↦ b
  | some _ ↦ set_state agent_id name (closed, none) b
]
