-- ===== src/Governance/Constraints/Tests.antt =====
-- The theorems on the constraints at small ledgers.
use owlclaw_core.Common.{◌≡◌, refl, inl, true, none, some, List, [], ◌∷◌, arith}
use owlclaw_core.Common.Dict.{lookup}
use owlclaw_core.Common.Eq.{string_eq, pair_eq}
use owlclaw_core.Common.Int.{pos}
use owlclaw_core.Common.Text.{strip, is_blank}
use owlclaw_core.Common.Value.{object, end}
use owlclaw_core.Governance.Ledger.{Execution, InMemoryLedger, api, query_records}
use owlclaw_core.Governance.Ledger.Counting.{HasNames}
use owlclaw_core.Governance.Constraints.Budget.{Budget, entries_of}
use owlclaw_core.Governance.Constraints.Budget.Histories.{
  Call, evaluates, refunds, run, AllWithin, run-AllWithin,
}
use owlclaw_core.Governance.Constraints.CircuitBreaker
use owlclaw_core.Governance.Constraints.CircuitBreaker.{
  CircuitBreaker, closed, open_circuit, state_of, recent_records, get_recent_failures,
}
use owlclaw_core.Governance.Constraints.CircuitBreaker.Circuit.{Step, Others, evaluate-Step}
use owlclaw_core.Governance.Constraints.RateLimit.Daily.{runs_exact, attempt_all}

abbrev execution : Execution
execution = record {
  tenant_id = "t";
  agent_id = "a";
  run_id = "r";
  capability_name = "pay";
  task_type = "task";
  input_params = object end;
  output_result = none;
  decision_reasoning = none;
  execution_time_ms = 3;
  llm_model = "m";
  llm_tokens_input = 1;
  llm_tokens_output = 2;
  estimated_cost = pos 5;
  status = "success";
  error_message = none;
  migration_weight = none;
  execution_mode = none;
  risk_level = none;
  approval_by = none;
  approval_time = none;
}

abbrev empty_ledger : InMemoryLedger
empty_ledger = record { records = []; max_records = 100 }

names : HasNames execution
unfolding strip is_blank
names = record {
  tenant_id = (refl, refl);
  agent_id = (refl, refl);
  run_id = (refl, refl);
  capability_name = (refl, refl);
  task_type = (refl, refl);
}

runs_exact_example :
    (attempt_all execution 2 0 (("1", 10) ∷ ("2", 20) ∷ ("3", 30) ∷ []) empty_ledger).0 ≡ 2
unfolding query_records
runs_exact_example =
    runs_exact execution 2 0 (("1", 10) ∷ ("2", 20) ∷ ("3", 30) ∷ []) empty_ledger names
      (
        (ground arith, ground arith),
        ((ground arith, ground arith), ((ground arith, ground arith), tt)),
      )
      (ground arith) (ground arith)

abbrev breaker : CircuitBreaker
breaker = record { failure_threshold = 1; recovery_timeout = 300; states = [] }

abbrev open_breaker : CircuitBreaker
open_breaker = record breaker { states = (("a", "pay"), (open_circuit, some 7)) ∷ [] }

abbrev failing_ledger : InMemoryLedger
failing_ledger = record {
  records =
      record { id = "1"; execution = record execution { status = "timeout" }; created_at = 5 } ∷ [];
  max_records = 100;
}

evaluate-Step_example :
    let (r, b') = CircuitBreaker.evaluate (api failing_ledger) "t" "a" "pay" 9 breaker in
    Step 1
      (get_recent_failures (api failing_ledger) 1 "t" "a" "pay")
      300
      9
      (state_of breaker "a" "pay")
      r.visible
      (state_of b' "a" "pay")
    × Others "a" "pay" breaker b'
evaluate-Step_example = evaluate-Step (api failing_ledger) "t" "a" "pay" 9 breaker

abbrev budget : Budget
budget = record {
  high_cost_threshold = pos 10;
  budget_limits = ("a", record { is_set = true; amount = some (some (pos 100)) }) ∷ [];
  reservation_ttl = 60000000;
  reservations = [];
}

abbrev budget_calls : List Call
budget_calls =
    evaluates "t" "a" (some (some (pos 40))) 1
    ∷ evaluates "t" "b" none 2
    ∷ evaluates "t" "a" (some (some (pos 50))) 3
    ∷ refunds "t" "a" (some (some (pos 30))) 4
    ∷ []

none_reserved : AllWithin (api empty_ledger) (pos 5) 0 0 budget
unfolding entries_of lookup
none_reserved = record {
  threshold = ground arith;
  within = λ tenant agent limit h. record { positive = tt; covered = inl refl };
}

run-AllWithin_example :
    AllWithin
      (api empty_ledger)
      (pos 5)
      0
      0
      (run (api empty_ledger) (pos 5) 0 0 budget_calls budget)
run-AllWithin_example =
    run-AllWithin (api empty_ledger) (pos 5) 0 0 budget_calls budget none_reserved
