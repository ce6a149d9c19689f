-- ===== src/Governance/Constraints/RateLimit/Daily.antt =====
-- The daily limit, over the ledger in memory: how many runs of a capability it lets through.
use Prim.Native.Nat.{min}
use owlclaw_core.Common.{
  ℕ, suc, ◌+◌, ◌-◌, ◌≤◌, ◌<◌, ◌≡◌, ◌↔◌, Bool, true, Option, none, some, String, List, [], ◌∷◌,
  arith, if◌then◌else◌, Bool-cases, inl, inr, All, tests, length, ltb,
}
use owlclaw_core.Common.Eq.{string_eq}
use owlclaw_core.Common.Int.{pos}
use owlclaw_core.Common.Result.{Result, ok, err}
use owlclaw_core.Common.Time.{Time, Date, day_start, day_end, seconds}
use owlclaw_core.Governance.Ledger.{
  Error, Execution, LedgerApi, InMemoryLedger, api, record_execution,
}
use owlclaw_core.Governance.Ledger.Counting.{HasNames, count_on_day, record_execution-Counted}
use owlclaw_core.Governance.Constraints.RateLimit.{
  RawLimit, absent, readable, parse_non_negative_int, get_daily_call_count, get_last_call_time,
  check_limits, evaluate,
}

abbrev pub Below : Option ℕ → ℕ → Type 0
Below none count = Unit
Below (some limit) count = count < limit

abbrev pub Rested : Option ℕ → Option Time → Time → Type 0
Rested none last now = Unit
Rested (some cooldown) none now = Unit
Rested (some cooldown) (some last) now = last + seconds cooldown ≤ now

check_limits-visible_iff :
    (max cooldown : Option ℕ) (count : ℕ) (last : Option Time) (now : Time)
    → ((check_limits max cooldown count last now).visible ≡ true)
      ↔ (Below max count × Rested cooldown last now)
check_limits-visible_iff none none count last now = ground arith
check_limits-visible_iff none (some c) count none now = ground arith
check_limits-visible_iff none (some c) count (some t) now = ground arith
check_limits-visible_iff (some m) none count last now = ground arith
check_limits-visible_iff (some m) (some c) count none now = ground arith
check_limits-visible_iff (some m) (some c) count (some t) now = ground arith

-- Over any ledger, a capability is shown exactly if today's runs are below the daily limit and the
-- last run is at least the cooldown ago; a limit that is missing or malformed asks nothing.
pub evaluate-visible_iff :
    (ledger : LedgerApi) (max cooldown : RawLimit) (tenant agent name : String) (today : Date)
    (now : Time)
    → ((evaluate ledger max cooldown tenant agent name today now).visible ≡ true) ↔ (
        Below (parse_non_negative_int max) (get_daily_call_count ledger tenant agent name today)
        × Rested
            (parse_non_negative_int cooldown)
            (get_last_call_time ledger tenant agent name)
            now)
unfolding evaluate
evaluate-visible_iff ledger max cooldown tenant agent name today now =
    check_limits-visible_iff (parse_non_negative_int max) (parse_non_negative_int cooldown)
      (get_daily_call_count ledger tenant agent name today)
      (get_last_call_time ledger tenant agent name) now

-- One attempt at a capability with the limit `m` and no cooldown: it runs, and its run is recorded,
-- if it is shown.
module _ (e : Execution) (m : ℕ) (today : Date) where
  after_record : Result Error InMemoryLedger → InMemoryLedger → InMemoryLedger
  after_record (ok l') l = l'
  after_record (err _) l = l

  pub is_shown : Time → InMemoryLedger → Bool
  is_shown now l =
      (evaluate (api l) (readable (some (pos m))) absent e.tenant_id e.agent_id e.capability_name
        today now).visible

  -- the attempts, each with the id and the time of its record; the number of those that ran
  pub attempt_all : List (String × Time) → InMemoryLedger → ℕ × InMemoryLedger
  unfolding after_record is_shown
  attempt_all [] l = (0, l)
  attempt_all ((id, now) ∷ attempts) l =
      let runs = is_shown now l in
      let l' = (if runs then after_record (record_execution e id now l) l else l) in
      let (n, after) = attempt_all attempts l' in (if runs then suc n else n, after)

  is_shown-eq : (now : Time) (l : InMemoryLedger) → is_shown now l ≡ ltb (count_on_day e today l) m
  unfolding is_shown evaluate api get_daily_call_count parse_non_negative_int
  is_shown-eq now l = ground arith

  abbrev pub OnDay : String × Time → Type 0
  OnDay (_, now) = (day_start today ≤ now) × (now ≤ day_end today)

  pub runs_exact :
      (attempts : List (String × Time)) (l : InMemoryLedger)
      → HasNames e
      → All OnDay attempts
      → length l.records + length attempts ≤ l.max_records
      → count_on_day e today l ≤ m
      → (attempt_all attempts l).0 ≡ min (length attempts) (m - count_on_day e today l)
  unfolding attempt_all
  runs_exact [] l names days room within = omega arith
  runs_exact ((id, now) ∷ attempts) l names days room within =
      elim (Bool-cases (ltb (count_on_day e today l) m)) [
        | inl below ↦
            let (l', recorded, counted) =
              record_execution-Counted e id now today l names (omega arith) days.0.0 days.0.1 in
            rw (is_shown-eq now l, below, recorded, after_record)
              (omega (
                tests,
                runs_exact attempts l' names days.1 (omega (arith, counted))
                    (omega (tests, counted)),
                counted,
              ))
        | inr full ↦
            rw (is_shown-eq now l, full)
              (omega (tests, runs_exact attempts l names days.1 (omega arith) within))
      ]
