-- ===== src/Triggers/Cron/Breaker.antt =====
-- `CircuitBreaker` of owlclaw/triggers/cron.py, as the registry makes it: with no store of its own.
pub mod Window
use owlclaw_core.Common.{
  ℕ, ◌*◌, Bool, true, false, not, ◌&&◌, ◌||◌, String, List, [], ◌∷◌, leb, ltb, if◌then◌else◌, any,
  filter, take, length,
}
use owlclaw_core.Common.Eq.{string_eq, ◌==◌}
use owlclaw_core.Common.Text.{strip, lower}
use owlclaw_core.Governance.Ledger.{LedgerRecord}

-- the threshold is in millionths; the set of the open events is a list without repetitions
pub record CircuitBreaker : Type 0 where
  pub failure_threshold : ℕ
  pub window_size : ℕ
  pub open_events : List String

abbrev pub is_open : String → CircuitBreaker → Bool
is_open name b = any (λ e. name == e) b.open_events

-- `open` and `close`
pub open_event : String → CircuitBreaker → CircuitBreaker
open_event name b = if is_open name b then b else record b { open_events = name ∷ b.open_events }

pub close_event : String → CircuitBreaker → CircuitBreaker
close_event name b = record b { open_events = filter (λ e. not (name == e)) b.open_events }

-- `check`, without its text
abbrev pub check : String → CircuitBreaker → Bool
check name b = not (is_open name b)

-- status not in {"success", "fallback"}
unfoldable pub is_failure : LedgerRecord → Bool
is_failure r = let s = lower (strip r.status) in not (s == "success" || s == "fallback")

unfoldable pub failures : List LedgerRecord → ℕ
unfolding is_failure
failures rs = length (filter is_failure rs)

-- the window is full and its failure rate is above the threshold
unfoldable pub trips : CircuitBreaker → List LedgerRecord → Bool
unfolding failures
trips b records =
    let window = take b.window_size records in
    leb b.window_size (length window)
    && ltb (b.failure_threshold * length window) (failures window * 1000000)

-- `evaluate`
pub evaluate : String → List LedgerRecord → CircuitBreaker → Bool × CircuitBreaker
unfolding trips open_event close_event
evaluate name [] b = (false, close_event name b)
evaluate name (r ∷ rs) b =
    if trips b (r ∷ rs) then (true, open_event name b) else (false, close_event name b)
