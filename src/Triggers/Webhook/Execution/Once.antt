-- ===== src/Triggers/Webhook/Execution/Once.antt =====
-- A request with a key runs once, and the caches are bounded.
use owlclaw_core.Common.{
  ℕ, ◌+◌, ◌-◌, ◌≤◌, ◌<◌, ◌≡◌, refl, ap, inl, inr, Bool, true, false, Option, none, some, String,
  List, [], ◌∷◌, ◌++◌, arith, leb, leb→gt, Bool-cases, length, length-append, length-drop, filter,
  drop, All, All-drop,
}
use owlclaw_core.Common.Dict.{Dict, lookup, insert, erase, lookup-erase_self, length-erase-le}
use owlclaw_core.Common.Eq.{string_eq, ◌==◌, same_refl}
use owlclaw_core.Common.Last.{drop-append}
use owlclaw_core.Common.Result.{Result}
use owlclaw_core.Common.Time.{Time, seconds}
use owlclaw_core.Triggers.Webhook.Execution.{
  Failure, RuntimeResult, ExecutionResult, ExecutionOptions, ExecutionTrigger, check_entry,
  check_idempotency, lives, trim, record_idempotency, record_run, attempts, attempts_of, result_of,
  remember, run_new, or_run, look_up, trigger, key_of,
}

module _ {V : Type 0} (key : String) where
  -- no item has the key
  abbrev Lacks : Dict String V → Type 0
  Lacks d = All (λ (p : String × V). (key == p.0) ≡ false) d

  lookup-Lacks : (d : Dict String V) → lookup key d ≡ none → Lacks d
  unfolding lookup
  lookup-Lacks [] h = tt
  lookup-Lacks ((k, v) ∷ d) h = elim (Bool-cases (key == k)) [
    | inl same ↦ cc (rw same at h)
    | inr differ ↦ (differ, lookup-Lacks d (rw differ at h))
  ]

  insert-append : (v : V) (d : Dict String V) → Lacks d → insert key v d ≡ d ++ (key, v) ∷ []
  unfolding insert
  insert-append v [] h = refl
  insert-append v ((k, u) ∷ d) h = rw h.0 (ap (◌∷◌ (k, u)) (insert-append v d h.1))

  lookup-append_last :
      (v : V) (d : Dict String V) → Lacks d → lookup key (d ++ (key, v) ∷ []) ≡ some v
  unfolding lookup
  lookup-append_last v [] h = rw (same_refl string_eq key) refl
  lookup-append_last v ((k, u) ∷ d) h = rw h.0 (lookup-append_last v d h.1)

  Lacks-filter : (p : String × V → Bool) (d : Dict String V) → Lacks d → Lacks (filter p d)
  Lacks-filter p [] h = tt
  Lacks-filter p (x ∷ d) h = ground (arith, Lacks-filter p d h.1)

filter-append_last :
    {A : Type 0} (p : A → Bool) (x : A) (xs : List A)
    → p x ≡ true
    → filter p (xs ++ x ∷ []) ≡ filter p xs ++ x ∷ []
filter-append_last p x [] h = rw h refl
filter-append_last p x (y ∷ xs) h = ground (arith, filter-append_last p x xs h)

-- a new key is there after it has been recorded
lookup-record_idempotency :
    (key : String) (result : ExecutionResult) (now : Time) (s : ExecutionTrigger)
    → lookup key s.idempotency ≡ none
    → 1 ≤ s.max_idempotency_entries
    → lookup key (record_idempotency key result 3600 now s).idempotency
      ≡ some (result, now + seconds 3600)
unfolding record_idempotency
lookup-record_idempotency key result now s absent room =
    let d = s.idempotency in
    let entry : ExecutionResult × Time = (result, now + seconds 3600) in
    let lacks = lookup-Lacks key d absent in
    let live = filter (lives now) d in
    let most = s.max_idempotency_entries in
    let k = length (live ++ (key, entry) ∷ []) - most in
    rw
      (
        insert-append key entry d lacks,
        filter-append_last (lives now) (key, entry) d (ground arith),
        drop-append k live ((key, entry) ∷ [])
            (omega (arith, length-append live ((key, entry) ∷ []), room)),
      )
      (lookup-append_last key entry (drop k live)
        (All-drop _ k live (Lacks-filter key (lives now) d lacks)))

-- how a lookup can end
data Looked (key : String) (now : Time) (s : ExecutionTrigger)
    (found : Option ExecutionResult × ExecutionTrigger) : Type 0 where
  present :
      (result : ExecutionResult) (expires_at : Time)
      → lookup key s.idempotency ≡ some (result, expires_at)
      → now < expires_at
      → found ≡ (some result, s)
      → Looked key now s found
  absent :
      (d : Dict String (ExecutionResult × Time))
      → lookup key d ≡ none
      → found ≡ (none, record s { idempotency = d })
      → Looked key now s found

check_idempotency-Looked :
    (key : String) (now : Time) (s : ExecutionTrigger)
    → Looked key now s (check_idempotency key now s)
unfolding check_idempotency
check_idempotency-Looked key now s = by_cases (lookup key s.idempotency) refl
  where
    by_cases :
        (o : Option (ExecutionResult × Time))
        → lookup key s.idempotency ≡ o
        → Looked key now s (check_entry o key now s)
    by_cases none h = absent s.idempotency h refl
    by_cases (some (result, expires_at)) h = elim (Bool-cases (leb expires_at now)) [
      | inl over ↦
          absent (erase key s.idempotency) (lookup-erase_self key s.idempotency)
            (rw (over, check_entry) refl)
      | inr lives_on ↦
          present result expires_at h (leb→gt _ _ lives_on) (rw (lives_on, check_entry) refl)
    ]

module _ {A W : Type 0} (runtime : A → W → Result Failure RuntimeResult × W) where
  -- a call whose key was given and is not remembered, or not any more
  abbrev pub IsNew : String → Time → ExecutionTrigger → Type 0
  IsNew key now s = (check_idempotency key now s).0 ≡ none

  run_new-remembers :
      (input : A) (options : ExecutionOptions) (fresh_id key : String) (now : Time)
      (s : ExecutionTrigger) (w : W)
      → key_of options.idempotency_key ≡ some key
      → 1 ≤ s.max_idempotency_entries
      → lookup key s.idempotency ≡ none
      → let r = run_new runtime input options fresh_id now (s, w) in
        lookup key r.1.0.idempotency ≡ some (r.0, now + seconds 3600)
  unfolding run_new record_run
  run_new-remembers input options fresh_id key now s w given room lacks =
      let result =
        result_of runtime options fresh_id now
          (attempts runtime (attempts_of options.retry_policy) input none w).0 in
      rw (given, remember)
        (lookup-record_idempotency key result now (record_run result s) lacks room)

  -- the answers of a call that finds its key, and of one that does not
  trigger-found :
      (input : A) (options : ExecutionOptions) (fresh_id key : String) (now : Time)
      (s : ExecutionTrigger) (w : W) (o : Option ExecutionResult) (s' : ExecutionTrigger)
      → key_of options.idempotency_key ≡ some key
      → check_idempotency key now s ≡ (o, s')
      → trigger runtime input options fresh_id now (s, w)
        ≡ or_run runtime input options fresh_id now w (o, s')
  unfolding trigger
  trigger-found input options fresh_id key now s w o s' given is = rw (given, look_up) (rw is refl)

  trigger-new :
      (input : A) (options : ExecutionOptions) (fresh_id key : String) (now : Time)
      (s : ExecutionTrigger) (w : W)
      → key_of options.idempotency_key ≡ some key
      → 1 ≤ s.max_idempotency_entries
      → IsNew key now s
      → let r = trigger runtime input options fresh_id now (s, w) in
        lookup key r.1.0.idempotency ≡ some (r.0, now + seconds 3600)
  unfolding or_run
  trigger-new input options fresh_id key now s w given room new =
      by_cases (check_idempotency-Looked key now s)
    where
      by_cases :
          Looked key now s (check_idempotency key now s)
          → lookup key (trigger runtime input options fresh_id now (s, w)).1.0.idempotency
            ≡ some ((trigger runtime input options fresh_id now (s, w)).0, now + seconds 3600)
      by_cases (present result expires_at h alive is) = cc (new, is)
      by_cases (absent d h is) =
          rw (trigger-found input options fresh_id key now s w none _ given is) (
            run_new-remembers input options fresh_id key now (record s { idempotency = d }) w given
              room h)

  check_entry-live :
      (key : String) (result : ExecutionResult) (expires_at now : Time) (s : ExecutionTrigger)
      → lookup key s.idempotency ≡ some (result, expires_at)
      → now < expires_at
      → check_idempotency key now s ≡ (some result, s)
  unfolding check_idempotency
  check_entry-live key result expires_at now s h alive = rw (h, check_entry) (ground arith)

  -- A request whose key is not remembered is remembered with its result, whether it succeeded or not:
  -- the next request with the key in the hour that follows gets the same result, the runtime is not
  -- called, and nothing changes.
  pub trigger_once :
      (first second : A) (options options' : ExecutionOptions) (id id' key : String)
      (now later : Time) (s : ExecutionTrigger) (w : W)
      → key_of options.idempotency_key ≡ some key
      → key_of options'.idempotency_key ≡ some key
      → 1 ≤ s.max_idempotency_entries
      → IsNew key now s
      → later < now + seconds 3600
      → trigger runtime second options' id' later (trigger runtime first options id now (s, w)).1
        ≡ trigger runtime first options id now (s, w)
  unfolding or_run
  trigger_once first second options options' id id' key now later s w given given' room new soon =
      let (result, (s', w')) = trigger runtime first options id now (s, w) in
      trigger-found second options' id' key later s' w' (some result) s' given' (
        check_entry-live key result (now + seconds 3600) later s'
          (trigger-new first options id key now s w given room new) soon)

-- the caches hold no more than they may
pub record IsBounded (s : ExecutionTrigger) : Type 0 where
  pub positive : (1 ≤ s.max_idempotency_entries) × (1 ≤ s.max_execution_entries)
  pub idempotency : length s.idempotency ≤ s.max_idempotency_entries
  pub executions : length s.executions ≤ s.max_execution_entries

length-trim : {A : Type 0} (most : ℕ) (d : List A) → length (trim most d) ≤ most
length-trim most d = omega (arith, length-drop (length d - most) d)

check_idempotency-IsBounded :
    (key : String) (now : Time) (s : ExecutionTrigger)
    → IsBounded s
    → IsBounded (check_idempotency key now s).1
unfolding check_idempotency
check_idempotency-IsBounded key now s b = by_cases (lookup key s.idempotency)
  where
    by_cases : (o : Option (ExecutionResult × Time)) → IsBounded (check_entry o key now s).1
    by_cases none = b
    by_cases (some (result, expires_at)) = elim (Bool-cases (leb expires_at now)) [
      | inl over ↦
          rw (over, check_entry)
            (record {
              positive = b.positive;
              idempotency = omega (arith, b.idempotency, length-erase-le key s.idempotency);
              executions = b.executions;
            })
      | inr alive ↦ rw (alive, check_entry) b
    ]

module _ {A W : Type 0} (runtime : A → W → Result Failure RuntimeResult × W) where
  remember-IsBounded :
      (o : Option String) (result : ExecutionResult) (now : Time) (s : ExecutionTrigger)
      → IsBounded s
      → IsBounded (remember runtime o result now (record_run result s))
  unfolding remember record_run record_idempotency
  remember-IsBounded none result now s b = record {
    positive = b.positive;
    idempotency = b.idempotency;
    executions = length-trim s.max_execution_entries _;
  }
  remember-IsBounded (some key) result now s b = record {
    positive = b.positive;
    idempotency = length-trim s.max_idempotency_entries _;
    executions = length-trim s.max_execution_entries _;
  }

  -- Every call of `trigger` keeps both caches within their sizes.
  pub trigger-IsBounded :
      (input : A) (options : ExecutionOptions) (fresh_id : String) (now : Time)
      (s : ExecutionTrigger) (w : W)
      → IsBounded s
      → IsBounded (trigger runtime input options fresh_id now (s, w)).1.0
  unfolding trigger
  trigger-IsBounded input options fresh_id now s w b =
      by_result (look_up runtime (key_of options.idempotency_key) now s)
        (looked (key_of options.idempotency_key))
    where
      looked : (o : Option String) → IsBounded (look_up runtime o now s).1
      looked none = b
      looked (some key) = check_idempotency-IsBounded key now s b

      by_result :
          (found : Option ExecutionResult × ExecutionTrigger)
          → IsBounded found.1
          → IsBounded (or_run runtime input options fresh_id now w found).1.0
      by_result (some result, s') b' = b'
      by_result (none, s') b' = remember-IsBounded (key_of options.idempotency_key) _ now s' b'
