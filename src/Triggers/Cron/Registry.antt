-- ===== src/Triggers/Cron/Registry.antt =====
-- `CronTriggerRegistry` of owlclaw/triggers/cron.py: the triggers that are registered, and the calls
-- that manage them. The calls of the Hatchet client are left out, as is what only reports.
pub mod Laws
use owlclaw_core.Common.{
  ℕ, ◌+◌, Bool, true, false, not, ◌&&◌, Option, none, some, String, List, [], ◌∷◌, ◌++◌, ltb,
  if◌then◌else◌, length, drop,
}
use Prim.Native.String.{◌++◌ as join}
use owlclaw_core.Common.Dict.{Dict, lookup, insert, contains, values}
use owlclaw_core.Common.Eq.{string_eq}
use owlclaw_core.Common.Int.{ℤ, pos, leb_ℤ, to_ℕ}
use owlclaw_core.Common.Last.{last}
use owlclaw_core.Common.Result.{Result, ok, err, ◌>>=◌, ◌>>◌, raise_if}
use owlclaw_core.Common.Text.{strip, is_blank}
use owlclaw_core.Common.Time.{Time}
use owlclaw_core.Common.Value.{Value, text, object, end, field}
use owlclaw_core.Governance.Ledger.{Execution, InMemoryLedger, record_execution}
use owlclaw_core.Triggers.Cron.{CronTriggerConfig}
use owlclaw_core.Triggers.Cron.Breaker.{CircuitBreaker}

-- the exceptions that the calls raise
pub data Error : Type 0 where
  empty_event_name empty_expression empty_tenant_id invalid_weight no_client : Error
  already_registered invalid_expression not_found : String → Error

-- what `apply_settings` reads of the settings
pub record Defaults : Type 0 where
  pub max_daily_runs : Option (Option ℕ)
  pub max_daily_cost : Option (Option ℤ)
  pub cooldown_seconds : Option ℕ
  pub retry_on_failure : Option Bool
  pub max_retries : Option ℕ

pub record Registry (W : Type 0) : Type 0 where
  pub triggers : Dict String (CronTriggerConfig W)
  pub recent_executions : Dict String (List (String × Option Time))
  pub breaker : CircuitBreaker
  pub active_tasks : ℕ
  pub active_runs : List (String × String)
  pub defaults : Defaults
  pub runtime_cron_enabled : Bool

-- the keyword arguments of `register`: each may be left out
pub record RegisterArgs (W : Type 0) : Type 0 where
  pub focus : Option String
  pub fallback_handler : Option (W → Result String (Unit {0}) × W)
  pub fallback_strategy : Option String
  -- none if the weight is no number
  pub migration_weight : Option (Option ℤ)
  pub max_cost_per_run : Option ℤ
  pub max_duration : Option ℕ
  pub priority : Option ℤ
  pub enabled : Option Bool
  pub own : Defaults

-- `_normalize_event_name`
normalize_event_name : String → Result Error String
normalize_event_name name =
    let normalized = strip name in
    if is_blank normalized then err empty_event_name else ok normalized

-- `_normalize_tenant_id`
unfoldable pub normalize_tenant_id : String → Result Error String
normalize_tenant_id tenant_id =
    let normalized = strip tenant_id in
    if is_blank normalized then err empty_tenant_id else ok normalized

-- focus.strip() or None
abbrev clean_focus : Option String → Option String
clean_focus none = none
clean_focus (some f) = if is_blank (strip f) then none else some (strip f)

-- merged_kwargs.get(key, default): the call's own value, else that of the settings
abbrev pub or_default {ℓ} : {A : Type ℓ} → Option A → Option A → A → A
or_default (some a) _ _ = a
or_default none (some a) _ = a
or_default none none a = a

-- a weight that was left out is 1.0; NaN, which the code's two comparisons let pass, is not among the
-- weights here
check_weight : Option (Option ℤ) → Result Error ℕ
check_weight none = ok 1000000
check_weight (some none) = err invalid_weight
check_weight (some (some w)) =
    if leb_ℤ (pos 0) w && leb_ℤ w (pos 1000000) then ok (to_ℕ w) else err invalid_weight

-- self._recent_executions.setdefault(key, deque(maxlen=50))
abbrev recent_of : Option (List (String × Option Time)) → List (String × Option Time)
recent_of none = []
recent_of (some samples) = samples

module _ {W : Type 0} where
  -- the settings of a new trigger
  abbrev config_of : Registry W → RegisterArgs W → String → String → ℕ → CronTriggerConfig W
  config_of r args name expression weight = record {
    event_name = name;
    expression = expression;
    focus = clean_focus args.focus;
    fallback_handler = args.fallback_handler;
    fallback_strategy = or_default args.fallback_strategy none "on_failure";
    migration_weight = weight;
    max_cost_per_run = args.max_cost_per_run;
    max_daily_cost = or_default args.own.max_daily_cost r.defaults.max_daily_cost none;
    max_duration = args.max_duration;
    cooldown_seconds = or_default args.own.cooldown_seconds r.defaults.cooldown_seconds 0;
    max_daily_runs = or_default args.own.max_daily_runs r.defaults.max_daily_runs none;
    retry_on_failure = or_default args.own.retry_on_failure r.defaults.retry_on_failure true;
    max_retries = or_default args.own.max_retries r.defaults.max_retries 3;
    priority = or_default args.priority none (pos 0);
    enabled = r.runtime_cron_enabled && or_default args.enabled none true;
  }

  -- `register`; `is_valid` is `croniter.is_valid`, with false where it raises
  unfoldable pub register :
      (is_valid : String → Bool)
      → (event_name expression : String) → RegisterArgs W
      → Registry W
      → Result Error (Registry W)
  unfolding normalize_event_name check_weight
  register is_valid event_name expression args r = do
    name ← normalize_event_name event_name
    let trimmed = strip expression
    raise_if (is_blank trimmed) empty_expression
    raise_if (contains name r.triggers) (already_registered name)
    raise_if (not (is_valid trimmed)) (invalid_expression trimmed)
    weight ← check_weight args.migration_weight
    ok (record r { triggers = insert name (config_of r args name trimmed weight) r.triggers })

  -- `apply_settings`
  pub apply_settings : Defaults → (enabled : Bool) → Registry W → Registry W
  apply_settings defaults enabled r = record r {
    defaults = defaults;
    runtime_cron_enabled = enabled;
  }

  -- `get_trigger`
  unfoldable pub get_trigger : String → Registry W → Option (CronTriggerConfig W)
  unfolding normalize_event_name
  get_trigger event_name r = elim (normalize_event_name event_name) [
    | err _ ↦ none
    | ok name ↦ lookup name r.triggers
  ]

  -- `list_triggers`
  pub list_triggers : Registry W → List (CronTriggerConfig W)
  list_triggers r = values r.triggers

  put_enabled :
      Bool → String → Option (CronTriggerConfig W) → Registry W → Result Error (Registry W)
  put_enabled on name none r = err (not_found name)
  put_enabled on name (some config) r =
      ok (record r { triggers = insert name (record config { enabled = on }) r.triggers })

  -- the part that `pause_trigger` and `resume_trigger` share
  set_enabled : Bool → String → Registry W → Result Error (Registry W)
  unfolding normalize_event_name put_enabled
  set_enabled on event_name r = elim (normalize_event_name event_name) [
    | err _ ↦ err (not_found "")
    | ok name ↦ put_enabled on name (lookup name r.triggers) r
  ]

  pub pause_trigger : String → Registry W → Result Error (Registry W)
  unfolding set_enabled
  pause_trigger = set_enabled false

  pub resume_trigger : String → Registry W → Result Error (Registry W)
  unfolding set_enabled
  resume_trigger = set_enabled true

  -- `_record_recent_execution`: the newest 50 for each event
  unfoldable pub record_recent_execution : String → String → Option Time → Registry W → Registry W
  record_recent_execution event_name status duration r =
      let key = strip event_name in
      if is_blank key then r else record r {
        recent_executions =
            insert key
              (last 50 (recent_of (lookup key r.recent_executions) ++ (status, duration) ∷ []))
              r.recent_executions;
      }

-- (self.app.name if self.app else "") or event_name
abbrev pub agent_name : Option String → String → String
agent_name none event_name = event_name
agent_name (some name) event_name = if is_blank name then event_name else name

-- a call of `record_execution` on the ledger: an exception is caught and logged
unfoldable pub try_record : Execution → String → Time → InMemoryLedger → InMemoryLedger
try_record e id now l = elim (record_execution e id now l) [ ok l' ↦ l' | err _ ↦ l ]

-- the fields of an execution that no model runs for
abbrev pub plain_execution : String → String → String → String → String → Execution
plain_execution tenant_id agent_id run_id event_name task_type = record {
  tenant_id = tenant_id;
  agent_id = agent_id;
  run_id = run_id;
  capability_name = event_name;
  task_type = task_type;
  input_params = object end;
  output_result = none;
  decision_reasoning = none;
  execution_time_ms = 0;
  llm_model = "";
  llm_tokens_input = 0;
  llm_tokens_output = 0;
  estimated_cost = pos 0;
  status = "success";
  error_message = none;
  migration_weight = none;
  execution_mode = none;
  risk_level = none;
  approval_by = none;
  approval_time = none;
}

-- `_record_management_action`; `action` is "pause" or "resume"
pub record_management_action :
    (app_name : Option String) (event_name action tenant_id run_id record_id : String) (now : Time)
    → InMemoryLedger
    → InMemoryLedger
unfolding try_record
record_management_action app_name event_name action tenant_id run_id record_id now l =
    try_record
      (record (plain_execution tenant_id (agent_name app_name event_name) run_id event_name
        "cron_management") {
          input_params =
              object (field "action" (text action) (field "trigger_type" (text "management") end));
          output_result =
              some
                (object (field "event_name" (text event_name) (field "action" (text action) end)));
          decision_reasoning = some (join "trigger_" action);
        })
      record_id now l
