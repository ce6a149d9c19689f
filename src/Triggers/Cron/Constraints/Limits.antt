-- ===== src/Triggers/Cron/Constraints/Limits.antt =====
-- When the checks of a run pass.
use owlclaw_core.Common.{
  ℕ, ◌+◌, ◌≤◌, ◌<◌, ◌≡◌, ◌↔◌, refl, inl, inr, true, false, Option, none, some, String, arith, ltb,
  Bool-cases, Option-cases, length,
}
use owlclaw_core.Common.Int.{ℤ, ◌<ℤ◌}
use owlclaw_core.Common.Time.{Time, Date, seconds}
use owlclaw_core.Governance.Ledger.{LedgerApi, LedgerRecord}
use owlclaw_core.Triggers.Cron.{CronTriggerConfig, Reason, breaker_open}
use owlclaw_core.Triggers.Cron.Breaker.{CircuitBreaker, is_open}
use owlclaw_core.Triggers.Cron.Constraints.{
  Verdict, last_success, today_records, sum_costs, day_of, and_then, since_last, cooldown,
  daily_runs, daily_cost, check_cooldown, check_daily_runs, check_daily_cost, check_breaker,
  check_constraints,
}

abbrev Failed : Verdict → Type 0
Failed v = (reason : Reason) × (v.1 ≡ some reason)

abbrev Passed : Verdict → Type 0
Passed v = v.1 ≡ none

Failed-and_then :
    (name : String) (o : Option Reason) (rest : Verdict)
    → Failed rest
    → Failed (and_then name o rest)
Failed-and_then name none (checks, verdict) h = h
Failed-and_then name (some reason) rest h = (reason, refl)

Passed-and_then :
    (name : String) (o : Option Reason) (rest : Verdict)
    → Passed (and_then name o rest) ↔ ((o ≡ none) × Passed rest)
Passed-and_then name none (checks, verdict) = ground arith
Passed-and_then name (some reason) (checks, verdict) = ground arith

-- the last success, if there is one, is at least the cooldown ago
abbrev pub Rested : Option LedgerRecord → ℕ → Time → Type 0
Rested none cooldown now = Unit
Rested (some r) cooldown now = r.created_at + seconds cooldown ≤ now

abbrev pub BelowRuns : Option ℕ → ℕ → Type 0
BelowRuns none runs = Unit
BelowRuns (some max) runs = runs < max

abbrev pub BelowCost : Option ℤ → ℤ → Type 0
BelowCost none cost = Unit
BelowCost (some max) cost = cost <ℤ max

module _ {W : Type 0} (ledger : LedgerApi) (tenant : String) (config : CronTriggerConfig W) where
  since_last-none :
      (o : Option LedgerRecord) (now : Time)
      → (since_last ledger tenant config o now ≡ none) ↔ Rested o config.cooldown_seconds now
  unfolding since_last
  since_last-none none now = ground arith
  since_last-none (some r) now = ground arith

  check_cooldown-Passed :
      (now : Time) (rest : Verdict)
      → Passed (check_cooldown ledger tenant config now rest) ↔ (
          (0 < config.cooldown_seconds
            → Rested (last_success ledger tenant config.event_name) config.cooldown_seconds now)
          × Passed rest)
  unfolding check_cooldown cooldown
  check_cooldown-Passed now rest = elim (Bool-cases (ltb 0 config.cooldown_seconds)) [
    | inl limited ↦ rw limited (
      λ p.
          let (a, b) = (Passed-and_then "cooldown" _ rest).0 p in
          (λ _. (since_last-none _ now).0 a, b),
      λ (a, b).
          (Passed-and_then "cooldown" _ rest).1 ((since_last-none _ now).1 (a (ground arith)), b),
    )
    | inr free ↦ rw free (λ p. (λ h. absurd (ground arith), p), λ (_, b). b)
  ]

  check_daily_runs-Passed :
      (day : Date) (o : Option ℕ) (rest : Verdict)
      → Passed (check_daily_runs ledger tenant config day o rest)
        ↔ (BelowRuns o (length (today_records ledger tenant config.event_name day)) × Passed rest)
  unfolding check_daily_runs daily_runs
  check_daily_runs-Passed day none rest = ground arith
  check_daily_runs-Passed day (some max) rest = ground arith

  check_daily_cost-Passed :
      (day : Date) (o : Option ℤ) (rest : Verdict)
      → Passed (check_daily_cost ledger tenant config day o rest) ↔ (
          BelowCost o (sum_costs (today_records ledger tenant config.event_name day)) × Passed rest)
  unfolding check_daily_cost daily_cost
  check_daily_cost-Passed day none rest = ground arith
  check_daily_cost-Passed day (some max) rest = ground arith

  pub check_constraints-passed_iff :
      (b : CircuitBreaker) (triggered_at now : Time)
      → ((check_constraints (some ledger) tenant config b triggered_at now).1 ≡ none) ↔ (
          (0 < config.cooldown_seconds
            → Rested (last_success ledger tenant config.event_name) config.cooldown_seconds now)
          × BelowRuns config.max_daily_runs
              (length (today_records ledger tenant config.event_name (day_of triggered_at)))
          × BelowCost config.max_daily_cost
              (sum_costs (today_records ledger tenant config.event_name (day_of triggered_at)))
          × (is_open config.event_name b ≡ false))
  unfolding check_constraints
  check_constraints-passed_iff b triggered_at now =
      let day = day_of triggered_at in
      let last = check_breaker config.event_name b in
      let costs = check_daily_cost ledger tenant config day config.max_daily_cost last in
      let runs = check_daily_runs ledger tenant config day config.max_daily_runs costs in
      let step_cooldown = check_cooldown-Passed now runs in
      let step_runs = check_daily_runs-Passed day config.max_daily_runs costs in
      let step_costs = check_daily_cost-Passed day config.max_daily_cost last in
      (
        λ p.
            let (a, p₁) = step_cooldown.0 p in
            let (r, p₂) = step_runs.0 p₁ in
            let (c, p₃) = step_costs.0 p₂ in (a, r, c, ground arith),
        λ (a, r, c, o). step_cooldown.1 (a, step_runs.1 (r, step_costs.1 (c, ground arith))),
      )

  check_constraints-open_with :
      (b : CircuitBreaker) (triggered_at now : Time)
      → is_open config.event_name b ≡ true
      → Failed (check_constraints (some ledger) tenant config b triggered_at now)
  check_constraints-open_with b triggered_at now h =
      elim (Option-cases (check_constraints (some ledger) tenant config b triggered_at now).1) [
        | inl passed ↦ cc (h, ((check_constraints-passed_iff b triggered_at now).0 passed).3)
        | inr failed ↦ failed
      ]

-- an open breaker fails the checks, with a ledger or without one
pub check_constraints-open :
    {W : Type 0} (ledger : Option LedgerApi) (tenant : String) (config : CronTriggerConfig W)
    (b : CircuitBreaker) (triggered_at now : Time)
    → is_open config.event_name b ≡ true
    → (reason : Reason) × ((check_constraints ledger tenant config b triggered_at now).1
        ≡ some reason)
unfolding check_constraints
check_constraints-open none tenant config b triggered_at now h = (breaker_open, ground arith)
check_constraints-open (some l) tenant config b triggered_at now h =
    check_constraints-open_with l tenant config b triggered_at now h
