-- ===== src/Triggers/Webhook/Execution.antt =====
-- owlclaw/triggers/webhook/execution.py: a request starts a run once, is tried again when it fails for a
-- while, and is answered from memory when it comes again. `A` is the type of the inputs and `W` the state
-- of the runtime. All readings of the clock in one call are the same, the pauses between the attempts
-- are left out, and so are the locks: a call with a key is one step.
pub mod Once
use owlclaw_core.Common.{
  ℕ, zero, suc, ◌+◌, ◌-◌, Bool, true, false, not, ◌&&◌, ◌||◌, Option, none, some, String, List, [],
  ◌∷◌, eqb, leb, if◌then◌else◌, length, filter, drop,
}
use Prim.Native.Nat.{max}
use owlclaw_core.Common.Dict.{Dict, lookup, insert, erase}
use owlclaw_core.Common.Eq.{string_eq, ◌==◌}
use owlclaw_core.Common.Int.{ℤ, pos, to_ℕ}
use owlclaw_core.Common.Result.{Result, ok, err}
use owlclaw_core.Common.Text.{is_blank, one_of}
use owlclaw_core.Common.Time.{Time, seconds}
use owlclaw_core.Common.Value.{Value}
use owlclaw_core.Triggers.Webhook.{RetryPolicy}

-- an exception of the runtime: the name of its class, its text, and whether it is a `TimeoutError` or
-- a `ConnectionError`
pub record Failure : Type 0 where
  pub type : String
  pub message : String
  pub is_retriable : Bool

-- what the runtime answers
pub record RuntimeResult : Type 0 where
  pub execution_id : Option String
  pub status : Option String
  pub output : Option Value
  pub error : Option Value

-- the error of a result: what the runtime gave, or the exception with its status code
pub data ExecutionError : Type 0 where
  of_runtime : Value → ExecutionError
  of_failure : Failure → (status_code : ℕ) → ExecutionError

-- `ExecutionResult`
pub record ExecutionResult : Type 0 where
  pub execution_id : String
  pub status : String
  pub started_at : Time
  pub completed_at : Option Time
  pub output : Option Value
  pub error : Option ExecutionError

-- `ExecutionOptions`; the runtime keeps the timeout itself
pub record ExecutionOptions : Type 0 where
  pub mode : String
  pub idempotency_key : Option String
  pub retry_policy : Option RetryPolicy

pub record ExecutionTrigger : Type 0 where
  pub max_idempotency_entries : ℕ
  pub max_execution_entries : ℕ
  pub idempotency : Dict String (ExecutionResult × Time)
  pub executions : Dict String ExecutionResult

-- `__init__`
pub init : (max_idempotency_entries max_execution_entries : ℤ) → ExecutionTrigger
init max_idempotency_entries max_execution_entries = record {
  max_idempotency_entries = max 1 (to_ℕ max_idempotency_entries);
  max_execution_entries = max 1 (to_ℕ max_execution_entries);
  idempotency = [];
  executions = [];
}

check_entry :
    Option (ExecutionResult × Time)
    → String
    → Time
    → ExecutionTrigger
    → Option ExecutionResult × ExecutionTrigger
check_entry none key now s = (none, s)
check_entry (some (result, expires_at)) key now s =
    if leb expires_at now
    then (none, record s { idempotency = erase key s.idempotency })
    else (some result, s)

-- `check_idempotency`
unfoldable pub check_idempotency :
    String → Time → ExecutionTrigger → Option ExecutionResult × ExecutionTrigger
unfolding check_entry
check_idempotency key now s = check_entry (lookup key s.idempotency) key now s

abbrev lives : Time → String × (ExecutionResult × Time) → Bool
lives now (_, (_, expires_at)) = not (leb expires_at now)

-- the oldest entries are dropped until at most `most` are left
abbrev trim {ℓ} : {A : Type ℓ} → ℕ → List A → List A
trim most d = drop (length d - most) d

-- `record_idempotency` and `_trim_idempotency_cache`
record_idempotency :
    String → ExecutionResult → (ttl_seconds : ℕ) → Time → ExecutionTrigger → ExecutionTrigger
record_idempotency key result ttl_seconds now s = record s {
  idempotency =
      trim s.max_idempotency_entries
        (filter (lives now) (insert key (result, now + seconds ttl_seconds) s.idempotency));
}

-- self._executions[id] = result, and `_trim_execution_cache`
record_run : ExecutionResult → ExecutionTrigger → ExecutionTrigger
record_run result s = record s {
  executions = trim s.max_execution_entries (insert result.execution_id result s.executions);
}

-- `get_execution_status`
pub get_execution_status : String → ExecutionTrigger → Option ExecutionResult
get_execution_status id s = lookup id s.executions

-- `_normalize_execution_status`
abbrev normalize_status : String → String
normalize_status s = if one_of s "accepted" "running" "completed" "failed" then s else "failed"

abbrev or_else {ℓ} : {A : Type ℓ} → Option A → A → A
or_else none a = a
or_else (some b) a = b

abbrev runtime_error : Option Value → Option ExecutionError
runtime_error none = none
runtime_error (some v) = some (of_runtime v)

-- `_to_execution_result`; `fresh_id` is the id of a run whose answer has none
to_execution_result : RuntimeResult → String → String → Time → ExecutionResult
to_execution_result r mode fresh_id now =
    if mode == "async"
    then record {
      execution_id = or_else r.execution_id fresh_id;
      status = "accepted";
      started_at = now;
      completed_at = none;
      output = r.output;
      error = none;
    }
    else record {
      execution_id = or_else r.execution_id fresh_id;
      status = normalize_status (or_else r.status "completed");
      started_at = now;
      completed_at = some now;
      output = r.output;
      error = runtime_error r.error;
    }

abbrev status_code_of : Failure → ℕ
status_code_of e = if e.type == "TimeoutError" || e.type == "ConnectionError" then 503 else 500

abbrev failure_error : Option Failure → Option ExecutionError
failure_error none = none
failure_error (some e) = some (of_failure e (status_code_of e))

failed_result : Option Failure → String → Time → ExecutionResult
failed_result e fresh_id now = record {
  execution_id = fresh_id;
  status = "failed";
  started_at = now;
  completed_at = some now;
  output = none;
  error = failure_error e;
}

abbrev attempts_of : Option RetryPolicy → ℕ
attempts_of none = 1
attempts_of (some p) = to_ℕ p.max_attempts

-- options.idempotency_key, which does not count if it is empty
abbrev pub key_of : Option String → Option String
key_of none = none
key_of (some k) = if is_blank k then none else some k

module _ {A W : Type 0} (runtime : A → W → Result Failure RuntimeResult × W) where
  -- the loop with the attempts that are left: the answer, or the last exception
  attempts : ℕ → A → Option Failure → W → Result (Option Failure) RuntimeResult × W
  attempts zero input last w = (err last, w)
  attempts (suc left) input last w =
      let again = λ (e : Failure). attempts left input (some e) (runtime input w).1 in
      elim (runtime input w).0 [
        | ok r ↦ (ok r, (runtime input w).1)
        | err e ↦
            if eqb left 0 || not e.is_retriable
            then (err (some e), (runtime input w).1)
            else again e
      ]

  -- what the loop ended with, as a result
  abbrev result_of :
      ExecutionOptions → String → Time → Result (Option Failure) RuntimeResult → ExecutionResult
  result_of options fresh_id now (ok r) = to_execution_result r options.mode fresh_id now
  result_of options fresh_id now (err e) = failed_result e fresh_id now

  remember : Option String → ExecutionResult → Time → ExecutionTrigger → ExecutionTrigger
  unfolding record_idempotency
  remember none result now s = s
  remember (some key) result now s = record_idempotency key result 3600 now s

  run_new :
      A
      → ExecutionOptions
      → String
      → Time
      → ExecutionTrigger × W
      → ExecutionResult × (ExecutionTrigger × W)
  unfolding attempts remember record_run
  run_new input options fresh_id now (s, w) =
      let (answer, w') = attempts (attempts_of options.retry_policy) input none w in
      let result = result_of options fresh_id now answer in
      (result, (remember (key_of options.idempotency_key) result now (record_run result s), w'))

  or_run :
      A
      → ExecutionOptions
      → String
      → Time
      → W
      → Option ExecutionResult × ExecutionTrigger
      → ExecutionResult × (ExecutionTrigger × W)
  unfolding run_new
  or_run input options fresh_id now w (some existing, s) = (existing, (s, w))
  or_run input options fresh_id now w (none, s) = run_new input options fresh_id now (s, w)

  look_up : Option String → Time → ExecutionTrigger → Option ExecutionResult × ExecutionTrigger
  unfolding check_idempotency
  look_up none now s = (none, s)
  look_up (some key) now s = check_idempotency key now s

  -- `trigger`
  pub trigger :
      A
      → ExecutionOptions
      → (fresh_id : String) (now : Time) → ExecutionTrigger × W
      → ExecutionResult × (ExecutionTrigger × W)
  unfolding look_up or_run
  trigger input options fresh_id now (s, w) =
      or_run input options fresh_id now w (look_up (key_of options.idempotency_key) now s)
