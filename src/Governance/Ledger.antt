-- ===== src/Governance/Ledger.antt =====
-- owlclaw/governance/ledger_inmemory.py, and the query filters of owlclaw/governance/ledger.py: the
-- record of every run of a capability. `LedgerApi` is what the constraints use of a ledger.
pub mod Costs
pub mod Counting
pub mod Newest
pub mod Queries
pub mod Recording
mod Tests
use owlclaw_core.Common.{
  ℕ, ◌-◌, Bool, true, ◌&&◌, Option, none, some, String, List, [], ◌∷◌, ◌++◌, ltb, leb, eqb,
  if◌then◌else◌, filter, take, drop, length,
}
use owlclaw_core.Common.Dict.{Dict, lookup, insert}
use owlclaw_core.Common.Eq.{string_eq, option_eq, ◌==◌}
use owlclaw_core.Common.Int.{ℤ, pos, ◌+ℤ◌}
use owlclaw_core.Common.Result.{Result, ok, err, ◌>>=◌}
use owlclaw_core.Common.Sorting.{ascending, descending}
use owlclaw_core.Common.Text.{strip, is_blank}
use owlclaw_core.Common.Time.{Time, Date, day_start, day_end}
use owlclaw_core.Common.Value.{Value, object, end}

-- `LedgerQueryFilters`
pub record LedgerQueryFilters : Type 0 where
  pub agent_id : Option String
  pub capability_name : Option String
  pub status : Option String
  pub execution_mode : Option String
  pub start_date : Option Date
  pub end_date : Option Date
  pub limit : Option ℕ
  pub offset : Option ℕ
  pub order_by : Option String

abbrev pub no_filters : LedgerQueryFilters
no_filters = record {
  agent_id = none;
  capability_name = none;
  status = none;
  execution_mode = none;
  start_date = none;
  end_date = none;
  limit = none;
  offset = none;
  order_by = none;
}

-- the arguments of `record_execution`
pub record Execution : Type 0 where
  pub tenant_id : String
  pub agent_id : String
  pub run_id : String
  pub capability_name : String
  pub task_type : String
  pub input_params : Value
  pub output_result : Option Value
  pub decision_reasoning : Option String
  pub execution_time_ms : ℕ
  pub llm_model : String
  pub llm_tokens_input : ℕ
  pub llm_tokens_output : ℕ
  pub estimated_cost : ℤ
  pub status : String
  pub error_message : Option String
  pub migration_weight : Option ℕ
  pub execution_mode : Option String
  pub risk_level : Option ℤ
  pub approval_by : Option String
  pub approval_time : Option Time

-- `InMemoryRecord`: the arguments, with the five names stripped, an id and a time
pub record LedgerRecord : Type 0 where
  pub id : String
  pub execution : Execution
  pub open execution use *
  pub created_at : Time

pub record InMemoryLedger : Type 0 where
  pub records : List LedgerRecord
  pub max_records : ℕ

-- the name of the argument that is empty
pub data Error : Type 0 where
  empty_string : String → Error

-- `_require`
require_name : String → String → Result Error String
require_name value name =
    let v = strip value in if is_blank v then err (empty_string name) else ok v

-- xs[-n:]
keep_last {ℓ} : {A : Type ℓ} → ℕ → List A → List A
keep_last n xs = if eqb n 0 then xs else drop (length xs - n) xs

-- self._records.append(record), and the oldest are dropped
pub append_record : LedgerRecord → InMemoryLedger → InMemoryLedger
unfolding keep_last
append_record r l =
    let records = l.records ++ r ∷ [] in
    record l {
      records =
          if ltb l.max_records (length records) then keep_last l.max_records records else records;
    }

-- input_params if isinstance(input_params, dict) else {}
unfoldable pub as_object : Value → Value
as_object (object fields) = object fields
as_object _ = object end

-- the record that is stored, or the first name that is empty
pub make_record : Execution → String → Time → Result Error LedgerRecord
unfolding require_name as_object
make_record e id now = do
  tenant_id ← require_name e.tenant_id "tenant_id"
  agent_id ← require_name e.agent_id "agent_id"
  run_id ← require_name e.run_id "run_id"
  capability_name ← require_name e.capability_name "capability_name"
  task_type ← require_name e.task_type "task_type"
  ok (record {
    id = id;
    execution = record e {
      tenant_id = tenant_id;
      agent_id = agent_id;
      run_id = run_id;
      capability_name = capability_name;
      task_type = task_type;
      input_params = as_object e.input_params;
    };
    created_at = now;
  })

pub record_execution : Execution → String → Time → InMemoryLedger → Result Error InMemoryLedger
unfolding make_record append_record
record_execution e id now l = do r ← make_record e id now; ok (append_record r l)

-- if filters.x is not None: results = [r for r in results if test(x, r)]
narrow {ℓ} :
    {A : Type ℓ} → Option A → (A → LedgerRecord → Bool) → List LedgerRecord → List LedgerRecord
narrow none test results = results
narrow (some a) test results = filter (test a) results

order_results : Option String → List LedgerRecord → List LedgerRecord
order_results order_by results =
    if order_by == some "created_at DESC"
    then descending (λ r. r.created_at) results
    else if order_by == some "created_at ASC"
    then ascending (λ r. r.created_at) results
    else results

abbrev cut_offset : Option ℕ → List LedgerRecord → List LedgerRecord
cut_offset none results = results
cut_offset (some n) results = drop n results

abbrev cut_limit : Option ℕ → List LedgerRecord → List LedgerRecord
cut_limit none results = results
cut_limit (some n) results = take n results

-- the records that fit, before they are ordered and cut
matching_records : String → LedgerQueryFilters → List LedgerRecord → List LedgerRecord
unfolding narrow
matching_records tenant_id f records =
    narrow f.end_date (λ day r. leb r.created_at (day_end day))
      (narrow f.start_date (λ day r. leb (day_start day) r.created_at)
        (narrow f.execution_mode (λ m r. r.execution_mode == some m)
          (narrow f.status (λ s r. r.status == s)
            (narrow f.capability_name (λ c r. r.capability_name == c)
              (narrow f.agent_id (λ a r. r.agent_id == a)
                (filter (λ r. r.tenant_id == tenant_id) records))))))

unfoldable pub query_records : String → LedgerQueryFilters → InMemoryLedger → List LedgerRecord
unfolding matching_records order_results
query_records tenant_id f l =
    cut_limit f.limit
      (cut_offset f.offset (order_results f.order_by (matching_records tenant_id f l.records)))

pub record CostSummary : Type 0 where
  pub total_cost : ℤ
  pub by_agent : Dict String ℤ
  pub by_capability : Dict String ℤ

abbrev in_summary : String → String → Date → Date → LedgerRecord → Bool
in_summary tenant_id agent_id start_date end_date r =
    r.tenant_id == tenant_id
    && r.agent_id == agent_id
    && (leb (day_start start_date) r.created_at && leb r.created_at (day_end end_date))

add_costs : ℤ → List LedgerRecord → ℤ
add_costs total [] = total
add_costs total (r ∷ rs) = add_costs (total +ℤ r.estimated_cost) rs

abbrev or_zero : Option ℤ → ℤ
or_zero none = pos 0
or_zero (some c) = c

-- the loop that fills `by_capability`
add_by_capability : Dict String ℤ → List LedgerRecord → Dict String ℤ
add_by_capability d [] = d
add_by_capability d (r ∷ rs) =
    add_by_capability
      (insert r.capability_name (or_zero (lookup r.capability_name d) +ℤ r.estimated_cost) d) rs

pub get_cost_summary : String → String → Date → Date → InMemoryLedger → CostSummary
unfolding add_costs add_by_capability
get_cost_summary tenant_id agent_id start_date end_date l =
    let matching = filter (in_summary tenant_id agent_id start_date end_date) l.records in
    let total = add_costs (pos 0) matching in
    record {
      total_cost = total;
      by_agent = (agent_id, total) ∷ [];
      by_capability = add_by_capability [] matching;
    }

-- what the constraints call on a ledger, in memory or behind a database
pub record LedgerApi : Type 0 where
  pub query : String → LedgerQueryFilters → List LedgerRecord
  pub cost_summary : String → String → Date → Date → CostSummary

unfoldable pub api : InMemoryLedger → LedgerApi
api l = record {
  query = λ tenant_id filters. query_records tenant_id filters l;
  cost_summary = λ tenant_id agent_id start_date end_date.
      get_cost_summary tenant_id agent_id start_date end_date l;
}
