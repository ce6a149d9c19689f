-- ===== src/Triggers/Cron/Breaker/Window.antt =====
-- When the breaker of an event is open after an evaluation, and how a new failure moves the window.
use owlclaw_core.Common.{
  ℕ, zero, suc, ◌≤◌, ◌≡◌, refl, sym, ap, inl, inr, true, false, not, String, List, [], ◌∷◌, arith,
  Bool-cases, if◌then◌else◌, any, filter, take, length, length-take-le,
}
use owlclaw_core.Common.Eq.{string_eq, ◌==◌}
use owlclaw_core.Governance.Ledger.{LedgerRecord}
use owlclaw_core.Triggers.Cron.Breaker.{
  CircuitBreaker, is_open, open_event, close_event, is_failure, failures, trips, evaluate,
}

any-filter_other :
    (name other : String) (xs : List String)
    → any (λ e. other == e) (filter (λ e. not (name == e)) xs)
      ≡ (if name == other then false else any (λ e. other == e) xs)
any-filter_other name other [] = ground arith
any-filter_other name other (x ∷ xs) = ground (
  arith,
  any-filter_other name other xs,
  string_eq.same_iff name x,
  string_eq.same_iff other x,
  string_eq.same_iff name other,
)

is_open-open_event :
    (name other : String) (b : CircuitBreaker)
    → is_open other (open_event name b) ≡ (if name == other then true else is_open other b)
unfolding open_event
is_open-open_event name other b =
    ground (arith, string_eq.same_iff name other, string_eq.same_iff other name)

trips-empty : (b : CircuitBreaker) → trips b [] ≡ false
unfolding trips failures
trips-empty b = by_size b.window_size refl
  where
    by_size : (n : ℕ) → b.window_size ≡ n → trips b [] ≡ false
    by_size zero h = rw h (ground arith)
    by_size (suc n) h = rw h (ground arith)

-- The answer of an evaluation is whether the window of records trips the breaker; after it, the
-- breaker of the event is open exactly in that case, and those of the other events are as before.
pub evaluate-is_open :
    (name other : String) (rs : List LedgerRecord) (b : CircuitBreaker)
    → ((evaluate name rs b).0 ≡ trips b rs)
      × (is_open other (evaluate name rs b).1
          ≡ (if name == other then trips b rs else is_open other b))
unfolding evaluate close_event
evaluate-is_open name other [] b =
    rw (trips-empty b) (refl, any-filter_other name other b.open_events)
evaluate-is_open name other (r ∷ rs) b = elim (Bool-cases (trips b (r ∷ rs))) [
  | inl over ↦ rw over (refl, is_open-open_event name other b)
  | inr under ↦ rw under (refl, any-filter_other name other b.open_events)
]

pub take-take : {A : Type 0} (n k : ℕ) (xs : List A) → n ≤ k → take n (take k xs) ≡ take n xs
take-take zero k xs h = refl
take-take (suc n) zero xs h = absurd (omega (arith, h))
take-take (suc n) (suc k) [] h = refl
take-take (suc n) (suc k) (x ∷ xs) h = ap (◌∷◌ x) (take-take n k xs (omega (arith, h)))

length-take-more :
    {A : Type 0} (n : ℕ) (x : A) (xs : List A)
    → n ≤ length (take n xs)
    → n ≤ length (take n (x ∷ xs))
length-take-more zero x xs h = h
length-take-more (suc n) x [] h = absurd (omega (arith, h))
length-take-more (suc n) x (y ∷ xs) h = omega (arith, length-take-more n y xs (omega (arith, h)))

-- a newer failure in front, and the oldest of the window left out
failures-take :
    (n : ℕ) (rs : List LedgerRecord) → failures (take (suc n) rs) ≤ suc (failures (take n rs))
unfolding failures
failures-take n [] = ground arith
failures-take zero (r ∷ rs) = ground arith
failures-take (suc n) (r ∷ rs) = ground (arith, failures-take n rs)

failures-newer :
    (n : ℕ) (r : LedgerRecord) (rs : List LedgerRecord)
    → is_failure r ≡ true
    → failures (take n rs) ≤ failures (take n (r ∷ rs))
unfolding failures
failures-newer zero r rs h = omega arith
failures-newer (suc n) r rs h = ground (arith, failures-take n rs, h)

length-take-prefix : {A : Type 0} (n k : ℕ) (xs : List A) → length (take n (take k xs)) ≤ k
length-take-prefix zero k xs = omega arith
length-take-prefix (suc n) zero xs = omega arith
length-take-prefix (suc n) (suc k) [] = omega arith
length-take-prefix (suc n) (suc k) (x ∷ xs) = omega (arith, length-take-prefix n k xs)

trips_full :
    (b : CircuitBreaker) (rs : List LedgerRecord)
    → trips b rs ≡ true
    → b.window_size ≤ length (take b.window_size rs)
unfolding trips
trips_full b rs h = ground arith

-- A breaker that trips on the newest `k` records trips again after one more failure.
pub trips-newer :
    (b : CircuitBreaker) (k : ℕ) (r : LedgerRecord) (rs : List LedgerRecord)
    → is_failure r ≡ true
    → trips b (take k rs) ≡ true
    → trips b (take k (r ∷ rs)) ≡ true
unfolding trips
trips-newer b k r rs failed h =
    let n = b.window_size in
    let full = trips_full b (take k rs) h in
    let within : n ≤ k = omega (arith, length-take-prefix n k rs, full) in
    let more = length-take-more n r rs (rw (sym (take-take n k rs within)) full) in
    ground (
      arith,
      ap length (take-take n k rs within),
      ap failures (take-take n k rs within),
      ap length (take-take n k (r ∷ rs) within),
      ap failures (take-take n k (r ∷ rs) within),
      failures-newer n r rs failed,
      more,
      length-take-le n (r ∷ rs),
      length-take-le n rs,
    )

-- a breaker that is open and trips again does not change
pub evaluate-latched :
    (name : String) (rs : List LedgerRecord) (b : CircuitBreaker)
    → is_open name b ≡ true
    → trips b rs ≡ true
    → (evaluate name rs b).1 ≡ b
unfolding evaluate open_event
evaluate-latched name [] b o t = cc (t, trips-empty b)
evaluate-latched name (r ∷ rs) b o t = rw t (rw o refl)
