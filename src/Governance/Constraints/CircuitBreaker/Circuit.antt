-- ===== src/Governance/Constraints/CircuitBreaker/Circuit.antt =====
-- The circuit of one capability as a state machine, and the breaker's calls as its steps.
use owlclaw_core.Common.{
  ℕ, zero, suc, ◌+◌, ◌≤◌, ◌<◌, ◌≡◌, ◌≢◌, ◌↔◌, ◌⊎◌, inl, inr, refl, Bool, true, false, Option, none,
  some, String, List, [], ◌∷◌, arith, leb, ltb, if◌then◌else◌, Bool-cases, take, length, All,
}
use owlclaw_core.Common.Dict.{lookup, insert, lookup-insert_other, lookup-insert_self}
use owlclaw_core.Common.Eq.{string_eq, pair_eq}
use owlclaw_core.Common.Time.{Time, seconds}
use owlclaw_core.Governance.Ledger.{LedgerApi, LedgerRecord}
use owlclaw_core.Governance.Visibility.{FilterResult}
use owlclaw_core.Governance.Constraints.CircuitBreaker.{
  CircuitState, CircuitBreaker, closed, open_circuit, half_open, count_failures,
  get_recent_failures, recent_records, state_of, check_failures, dispatch, evaluate,
}

abbrev pub HasFailed : LedgerRecord → Type 0
HasFailed r = (r.status ≡ "error") ⊎ (r.status ≡ "timeout")

-- The number of failures reaches the threshold exactly if there are that many records and the newest
-- of them, as many as the threshold, have all failed.
pub count_failures_iff :
    (n : ℕ) (rs : List LedgerRecord)
    → (n ≤ count_failures rs) ↔ ((n ≤ length rs) × All HasFailed (take n rs))
unfolding count_failures
count_failures_iff zero rs = ground arith
count_failures_iff (suc n) [] = ground arith
count_failures_iff (suc n) (r ∷ rs) = ground (
  arith,
  count_failures_iff n rs,
  string_eq.same_iff r.status "error",
  string_eq.same_iff r.status "timeout",
)

-- One evaluation: the failures in a row, the timeout and the time, the circuit before and after, and
-- if the capability is shown.
pub data Step (threshold failures timeout : ℕ) (now : Time)
    : CircuitState × Option Time → Bool → CircuitState × Option Time → Type 0 where
  -- an open circuit hides until its timeout has passed, and then lets one evaluation probe
  waits :
      (since : Time)
      → now ≤ since + seconds timeout
      → Step threshold failures timeout now
          (open_circuit, some since)
          false
          (open_circuit, some since)
  probes :
      (since : Time)
      → since + seconds timeout < now
      → Step threshold failures timeout now (open_circuit, some since) true (half_open, none)
  stuck : Step threshold failures timeout now (open_circuit, none) false (open_circuit, none)
  -- any other circuit opens when the failures reach the threshold, and else stays as it is
  trips :
      (state : CircuitState) (at : Option Time)
      → state ≢ open_circuit
      → threshold ≤ failures
      → Step threshold failures timeout now (state, at) false (open_circuit, some now)
  passes :
      (state : CircuitState) (at : Option Time)
      → state ≢ open_circuit
      → failures < threshold
      → Step threshold failures timeout now (state, at) true (state, at)

state_of-same :
    (b : CircuitBreaker) (agent name : String) (s : CircuitState × Option Time)
    → state_of (record b { states = insert (agent, name) s b.states }) agent name ≡ s
unfolding state_of
state_of-same b agent name s = rw (lookup-insert_self (agent, name) s b.states) refl

abbrev pub Others : String → String → CircuitBreaker → CircuitBreaker → Type 0
Others agent name b b' =
    ((key : String × String) → key ≢ (agent, name) → lookup key b'.states ≡ lookup key b.states)
    × (b'.failure_threshold ≡ b.failure_threshold)
    × (b'.recovery_timeout ≡ b.recovery_timeout)

module _ (failures : ℕ) (agent name : String) (now : Time) (b : CircuitBreaker) where
  abbrev Stepped : CircuitState × Option Time → FilterResult × CircuitBreaker → Type 0
  Stepped s (r, b') =
      Step b.failure_threshold failures b.recovery_timeout now s r.visible (state_of b' agent name)
      × Others agent name b b'

  set-Others :
      (s : CircuitState × Option Time)
      → Others agent name b (record b { states = insert (agent, name) s b.states })
  set-Others s = (λ key other. lookup-insert_other key (agent, name) s b.states other, refl, refl)

  check_failures-Step :
      (state : CircuitState) (at : Option Time)
      → state ≢ open_circuit
      → state_of b agent name ≡ (state, at)
      → Stepped (state, at) (check_failures failures agent name now b)
  unfolding check_failures
  check_failures-Step state at other h = elim (Bool-cases (leb b.failure_threshold failures)) [
    | inl full ↦
        rw (full, state_of-same b agent name (open_circuit, some now))
          (trips state at other (ground arith), set-Others (open_circuit, some now))
    | inr room ↦ rw (room, h) (passes state at other (ground arith), (λ key o. refl, refl, refl))
  ]

  dispatch-Step :
      (s : CircuitState × Option Time)
      → state_of b agent name ≡ s
      → Stepped s (dispatch s failures agent name now b)
  unfolding dispatch
  dispatch-Step (open_circuit, none) h = rw h (stuck, (λ key o. refl, refl, refl))
  dispatch-Step (open_circuit, some since) h =
      elim (Bool-cases (ltb (since + seconds b.recovery_timeout) now)) [
        | inl late ↦
            rw (late, state_of-same b agent name (half_open, none))
              (probes since (ground arith), set-Others (half_open, none))
        | inr early ↦ rw (early, h) (waits since (ground arith), (λ key o. refl, refl, refl))
      ]
  dispatch-Step (closed, at) h = check_failures-Step closed at (λ e. cc) h
  dispatch-Step (half_open, at) h = check_failures-Step half_open at (λ e. cc) h

-- what the steps of a circuit that is not open have in common
module _ {T F R : ℕ} {now : Time} where
  hidden-full :
      {s s' : CircuitState × Option Time} {v : Bool}
      → s.0 ≢ open_circuit
      → v ≡ false
      → Step T F R now s v s'
      → T ≤ F
  hidden-full shut h (waits since early) = absurd (shut refl)
  hidden-full shut h (probes since late) = absurd (shut refl)
  hidden-full shut h stuck = absurd (shut refl)
  hidden-full shut h (trips state at other full) = full
  hidden-full shut h (passes state at other room) = cc

  full-hidden :
      {s s' : CircuitState × Option Time} {v : Bool}
      → s.0 ≢ open_circuit
      → T ≤ F
      → Step T F R now s v s'
      → v ≡ false
  full-hidden shut h (waits since early) = refl
  full-hidden shut h (probes since late) = absurd (shut refl)
  full-hidden shut h stuck = refl
  full-hidden shut h (trips state at other full) = refl
  full-hidden shut h (passes state at other room) = ground arith

  hidden-opens :
      {s s' : CircuitState × Option Time} {v : Bool}
      → s.0 ≢ open_circuit
      → v ≡ false
      → Step T F R now s v s'
      → s' ≡ (open_circuit, some now)
  hidden-opens shut h (waits since early) = absurd (shut refl)
  hidden-opens shut h (probes since late) = absurd (shut refl)
  hidden-opens shut h stuck = absurd (shut refl)
  hidden-opens shut h (trips state at other full) = refl
  hidden-opens shut h (passes state at other room) = cc

module _ (ledger : LedgerApi) (tenant agent name : String) where
  -- Each evaluation is a step of the circuit of its agent and capability, by the failures that the
  -- ledger reports, and leaves every other circuit and the settings alone.
  pub evaluate-Step :
      (now : Time) (b : CircuitBreaker)
      → let (r, b') = evaluate ledger tenant agent name now b in
        Step b.failure_threshold
          (get_recent_failures ledger b.failure_threshold tenant agent name)
          b.recovery_timeout
          now
          (state_of b agent name)
          r.visible
          (state_of b' agent name)
        × Others agent name b b'
  unfolding evaluate
  evaluate-Step now b =
      dispatch-Step (get_recent_failures ledger b.failure_threshold tenant agent name) agent name
        now b (state_of b agent name) refl

  -- A circuit that is not open hides its capability exactly if the newest records that the ledger
  -- gives, as many as the threshold, are there and have all failed; it is then open from now on.
  pub evaluate-hidden_iff :
      (now : Time) (b : CircuitBreaker)
      → (state_of b agent name).0 ≢ open_circuit
      → let (r, b') = evaluate ledger tenant agent name now b in
        let rs = recent_records ledger b.failure_threshold tenant agent name in
        ((r.visible ≡ false)
          ↔ ((b.failure_threshold ≤ length rs) × All HasFailed (take b.failure_threshold rs)))
        × (r.visible ≡ false → state_of b' agent name ≡ (open_circuit, some now))
  unfolding get_recent_failures
  evaluate-hidden_iff now b shut =
      let rs = recent_records ledger b.failure_threshold tenant agent name in
      let step = evaluate-Step now b in
      (
        (
          λ h. (count_failures_iff b.failure_threshold rs).0 (hidden-full shut h step.0),
          λ h. full-hidden shut ((count_failures_iff b.failure_threshold rs).1 h) step.0,
        ),
        λ h. hidden-opens shut h step.0,
      )

  -- the evaluations at the given times: how many were shown, and the breaker after them
  pub evaluate_all : List Time → CircuitBreaker → ℕ × CircuitBreaker
  evaluate_all [] b = (0, b)
  evaluate_all (now ∷ times) b =
      let (r, b₁) = evaluate ledger tenant agent name now b in
      let (n, b₂) = evaluate_all times b₁ in (if r.visible then suc n else n, b₂)

  evaluate-early :
      (since now : Time) (b : CircuitBreaker)
      → state_of b agent name ≡ (open_circuit, some since)
      → now ≤ since + seconds b.recovery_timeout
      → ((evaluate ledger tenant agent name now b).0.visible ≡ false)
        × ((evaluate ledger tenant agent name now b).1 ≡ b)
  unfolding evaluate dispatch
  evaluate-early since now b h early = rw (h, dispatch) (ground arith)

  -- As long as the recovery timeout of an open circuit has not passed, no evaluation at all is
  -- shown, whatever the ledger says, and the breaker stays as it is.
  pub stays_open :
      (times : List Time) (since : Time) (b : CircuitBreaker)
      → state_of b agent name ≡ (open_circuit, some since)
      → All (λ now. now ≤ since + seconds b.recovery_timeout) times
      → evaluate_all times b ≡ (0, b)
  unfolding evaluate_all
  stays_open [] since b h early = refl
  stays_open (now ∷ times) since b h early =
      let (hides, same) = evaluate-early since now b h early.0 in
      rw (hides, same, stays_open times since b h early.1) refl
