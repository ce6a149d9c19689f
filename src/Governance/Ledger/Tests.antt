-- ===== src/Governance/Ledger/Tests.antt =====
-- A ledger with two runs of an agent, and the theorems at it.
use owlclaw_core.Common.{◌≡◌, refl, ◌↔◌, none, some, [], ◌∷◌, arith, In}
use owlclaw_core.Common.Eq.{string_eq}
use owlclaw_core.Common.Int.{pos}
use owlclaw_core.Common.Result.{err}
use owlclaw_core.Common.Sorting.{sort_by}
use owlclaw_core.Common.Text.{strip, is_blank}
use owlclaw_core.Common.Value.{object, end}
use owlclaw_core.Governance.Ledger.{
  Execution, LedgerRecord, LedgerQueryFilters, InMemoryLedger, empty_string, no_filters,
  append_record, query_records, record_execution,
}
use owlclaw_core.Governance.Ledger.Queries.{Matches, query_records_exact}
use owlclaw_core.Governance.Ledger.Recording.{IsWellFormed}

abbrev execution : Execution
execution = record {
  tenant_id = "t";
  agent_id = "a";
  run_id = "r";
  capability_name = "pay";
  task_type = "task";
  input_params = object end;
  output_result = none;
  decision_reasoning = none;
  execution_time_ms = 3;
  llm_model = "m";
  llm_tokens_input = 1;
  llm_tokens_output = 2;
  estimated_cost = pos 5;
  status = "success";
  error_message = none;
  migration_weight = none;
  execution_mode = none;
  risk_level = none;
  approval_by = none;
  approval_time = none;
}

abbrev old_run : LedgerRecord
old_run = record { id = "1"; execution = execution; created_at = 10 }

abbrev new_run : LedgerRecord
new_run = record {
  id = "2";
  execution = record execution {
    capability_name = "mail";
    estimated_cost = pos 2;
    status = "error";
  };
  created_at = 20;
}

abbrev ledger : InMemoryLedger
ledger = record { records = old_run ∷ new_run ∷ []; max_records = 2 }

abbrev errors : LedgerQueryFilters
errors = record no_filters { status = some "error"; end_date = some 0 }

query_records_exact_example :
    In new_run (query_records "t" errors ledger)
    ↔ (In new_run ledger.records × Matches "t" errors new_run)
query_records_exact_example = query_records_exact "t" errors ledger new_run refl refl

well_formed : IsWellFormed ledger
unfolding strip is_blank
well_formed = record {
  named = (
    record {
      tenant_id = (refl, refl);
      agent_id = (refl, refl);
      run_id = (refl, refl);
      capability_name = (refl, refl);
      task_type = (refl, refl);
    },
    (
      record {
        tenant_id = (refl, refl);
        agent_id = (refl, refl);
        run_id = (refl, refl);
        capability_name = (refl, refl);
        task_type = (refl, refl);
      },
      tt,
    ),
  );
  bounded = λ h. ground arith;
}

newest_first :
    query_records "t"
      (record no_filters { order_by = some "created_at DESC"; limit = some 1 })
      ledger
    ≡ new_run ∷ []
unfolding query_records sort_by
newest_first = refl

blank_tenant :
    record_execution (record execution { tenant_id = "  " }) "3" 30 ledger
    ≡ err (empty_string "tenant_id")
unfolding record_execution strip is_blank
blank_tenant = refl

oldest_dropped : (append_record old_run ledger).records ≡ new_run ∷ old_run ∷ []
unfolding append_record
oldest_dropped = refl
