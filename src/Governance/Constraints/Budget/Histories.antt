-- ===== src/Governance/Constraints/Budget/Histories.antt =====
-- Sequences of calls of the budget constraint: the reservations stay within the limits.
use owlclaw_core.Common.{
  ◌+◌, ◌≡◌, ◌≢◌, inl, inr, refl, sym, ◌∙◌, ◌||◌, some, String, List, [], ◌∷◌, ◌++◌, Bool-cases,
  Option-cases,
}
use mathlib.Core.Path.{subst}
use mathlib.Core.Option.{some-injective}
use owlclaw_core.Common.Dict.{lookup, lookup-insert_other}
use owlclaw_core.Common.Eq.{string_eq, pair_eq, same_or_not}
use owlclaw_core.Common.Int.{ℤ, pos, ◌-ℤ◌, ◌≤ℤ◌, leb_ℤ, ltb_ℤ}
use owlclaw_core.Common.Time.{Time, Date}
use owlclaw_core.Governance.Ledger.{LedgerApi}
use owlclaw_core.Governance.Constraints.Budget.{
  Budget, BudgetLimit, Reservation, RawAmount, safe_decimal, estimate_capability_cost, entries_of,
  live_entries, store_entries, store_live, purge_expired, sum_reserved, reserve, evaluate,
  drop_last_covering, refund_reservation,
}
use owlclaw_core.Governance.Constraints.Budget.Limit.{
  Key, Within, reserve-Within, Lighter-Within, live_entries-Lighter, drop_last_covering-Lighter,
  entries_of-store, entries_of-store_other, entries_of-purge, entries_of-purge_other,
}

-- the settings are the same, only reservations may differ
abbrev SameSettings : Budget → Budget → Type 0
SameSettings b b' =
    (b'.high_cost_threshold ≡ b.high_cost_threshold) × (b'.budget_limits ≡ b.budget_limits)

store_entries-SameSettings :
    (k : Key) (es : List Reservation) (b : Budget) → SameSettings b (store_entries k es b)
store_entries-SameSettings k [] b = (refl, refl)
store_entries-SameSettings k (e ∷ es) b = (refl, refl)

purge_expired-SameSettings :
    (k : Key) (now : Time) (b : Budget) → SameSettings b (purge_expired k now b)
unfolding purge_expired store_live
purge_expired-SameSettings k now b = by_cases (entries_of k b)
  where
    by_cases : (es : List Reservation) → SameSettings b (store_live k now es b)
    by_cases [] = (refl, refl)
    by_cases (e ∷ es) = store_entries-SameSettings k (live_entries now (e ∷ es)) b

module _ (k : Key) (limit used cost : ℤ) (now : Time) (b : Budget) where
  -- the call leaves the settings and the reservations of every other agent alone
  reserve-others :
      SameSettings b (reserve k limit used cost now b).1
      × ((j : Key) → j ≢ k → entries_of j (reserve k limit used cost now b).1 ≡ entries_of j b)
  unfolding reserve
  reserve-others =
      let b' = purge_expired k now b in
      let purged : SameSettings b b' × ((j : Key) → j ≢ k → entries_of j b' ≡ entries_of j b) =
        (purge_expired-SameSettings k now b, λ j h. entries_of-purge_other j k now b h) in
      let remaining = limit -ℤ used -ℤ sum_reserved (entries_of k b') in
      elim (Bool-cases (ltb_ℤ b.high_cost_threshold cost)) [
        | inr cheap ↦ rw cheap purged
        | inl costly ↦ elim (Bool-cases (leb_ℤ remaining (pos 0) || ltb_ℤ remaining cost)) [
          | inl refused ↦ rw (costly, refused) purged
          | inr reserved ↦
              rw (costly, reserved)
                (
                  purged.0,
                  λ j h.
                      rw
                        (
                          lookup-insert_other j k
                              (entries_of k b' ++ (now + b.reservation_ttl, cost) ∷ [])
                              b'.reservations h,
                          entries_of,
                        )
                        (purged.1 j h),
                )
        ]
      ]

-- a call, for any agent
pub data Call : Type 0 where
  evaluates : (tenant_id agent_id : String) → RawAmount → Time → Call
  refunds : (tenant_id agent_id : String) → RawAmount → Time → Call

module _ (ledger : LedgerApi) (default_cost : ℤ) (month_start today : Date) where
  pub step : Call → Budget → Budget
  step (evaluates tenant agent estimated now) b =
      (evaluate ledger default_cost tenant agent estimated month_start today now b).1
  step (refunds tenant agent amount now) b = refund_reservation tenant agent amount now b

  pub run : List Call → Budget → Budget
  run [] b = b
  run (c ∷ calls) b = run calls (step c b)

  abbrev pub used_by : Key → ℤ
  used_by (tenant, agent) = (ledger.cost_summary tenant agent month_start today).total_cost

  -- no negative threshold is set, and for every agent that has a limit and reservations, these and
  -- its costs are within it
  pub record AllWithin (b : Budget) : Type 0 where
    pub threshold : pos 0 ≤ℤ b.high_cost_threshold
    pub within :
        (tenant agent : String) (limit : BudgetLimit)
        → lookup agent b.budget_limits ≡ some limit
        → Within
            (safe_decimal limit.amount (pos 0))
            (used_by (tenant, agent))
            (entries_of (tenant, agent) b)

module _ (ledger : LedgerApi) (default_cost : ℤ) (month_start today : Date) where
  -- a call that changes the reservations of one agent only
  change-AllWithin :
      (k : Key) (b b' : Budget)
      → AllWithin ledger default_cost month_start today b
      → SameSettings b b'
      → ((j : Key) → j ≢ k → entries_of j b' ≡ entries_of j b)
      → ((limit : BudgetLimit)
          → lookup k.1 b.budget_limits ≡ some limit
          → Within
              (safe_decimal limit.amount (pos 0))
              (used_by ledger default_cost month_start today k)
              (entries_of k b'))
      → AllWithin ledger default_cost month_start today b'
  change-AllWithin k b b' w (same_threshold, same_limits) others own = record {
    threshold = rw same_threshold w.threshold;
    within = λ tenant agent limit h.
        let h' : lookup agent b.budget_limits ≡ some limit = rw same_limits at h in
        elim (same_or_not pair_eq (tenant, agent) k) [
          | inl same ↦
              subst
                (λ (j : Key).
                  lookup j.1 b.budget_limits ≡ some limit
                  → Within (safe_decimal limit.amount (pos 0))
                      (used_by ledger default_cost month_start today j) (entries_of j b'))
                (sym same) (own limit) h'
          | inr other ↦ rw (others (tenant, agent) other) (w.within tenant agent limit h')
        ];
  }

  evaluate-AllWithin :
      (tenant agent : String) (estimated : RawAmount) (now : Time) (b : Budget)
      → AllWithin ledger default_cost month_start today b
      → AllWithin ledger default_cost month_start today
          (evaluate ledger default_cost tenant agent estimated month_start today now b).1
  unfolding evaluate
  evaluate-AllWithin tenant agent estimated now b w =
      elim (Option-cases (lookup agent b.budget_limits)) [
        | inl unlimited ↦ rw (unlimited, evaluate) w
        | inr (limit, limited) ↦ elim (Bool-cases limit.is_set) [
          | inr unset ↦ rw (limited, unset, evaluate) w
          | inl set ↦
              let amount = safe_decimal limit.amount (pos 0) in
              let used = (ledger.cost_summary tenant agent month_start today).total_cost in
              let cost = estimate_capability_cost default_cost estimated in
              let (settings, others) = reserve-others (tenant, agent) amount used cost now b in
              rw (limited, set, evaluate)
                (change-AllWithin (tenant, agent) b
                  (reserve (tenant, agent) amount used cost now b).1 w settings others
                  (λ l h.
                    subst
                      (λ l. Within (safe_decimal l.amount (pos 0)) used (
                        entries_of (tenant, agent)
                          (reserve (tenant, agent) amount used cost now b).1))
                      (some-injective limit l (sym limited ∙ h))
                      (reserve-Within amount used cost now b w.threshold (tenant, agent)
                        (w.within tenant agent limit limited))))
        ]
      ]

  refund-AllWithin :
      (tenant agent : String) (amount : RawAmount) (now : Time) (b : Budget)
      → AllWithin ledger default_cost month_start today b
      → AllWithin ledger default_cost month_start today
          (refund_reservation tenant agent amount now b)
  unfolding refund_reservation
  refund-AllWithin tenant agent raw now b w =
      let amount = safe_decimal raw (pos 0) in
      let key : Key = (tenant, agent) in
      let b' = purge_expired key now b in
      let rest = (drop_last_covering amount (entries_of key b')).1 in
      elim (Bool-cases (leb_ℤ amount (pos 0))) [
        | inl nothing ↦ rw nothing w
        | inr positive ↦
            let (t₁, l₁) = purge_expired-SameSettings key now b in
            let (t₂, l₂) = store_entries-SameSettings key rest b' in
            rw positive (
              change-AllWithin key b (store_entries key rest b') w (t₂ ∙ t₁, l₂ ∙ l₁)
                (λ j other.
                  entries_of-store_other j key rest b' other
                  ∙ entries_of-purge_other j key now b other)
                (λ limit h. rw (entries_of-store key rest b') (
                  Lighter-Within rest (entries_of key b')
                    (drop_last_covering-Lighter amount (entries_of key b'))
                    (rw (entries_of-purge key now b) (
                      Lighter-Within _ _ (live_entries-Lighter now (entries_of key b))
                        (w.within tenant agent limit h))))))
      ]

  -- If the threshold for high costs is not negative and the reservations are within the limits (as
  -- when there are none), then whatever evaluations and refunds are made for whichever agents, as long
  -- as the ledger's costs stay: for every agent that has a limit, each reservation is positive, and if
  -- it has any, they and its costs together are within its limit. The costs alone, which come from the
  -- ledger, may exceed it.
  pub run-AllWithin :
      (calls : List Call) (b : Budget)
      → AllWithin ledger default_cost month_start today b
      → AllWithin ledger default_cost month_start today
          (run ledger default_cost month_start today calls b)
  unfolding run step
  run-AllWithin [] b w = w
  run-AllWithin (evaluates tenant agent estimated now ∷ calls) b w =
      run-AllWithin calls _ (evaluate-AllWithin tenant agent estimated now b w)
  run-AllWithin (refunds tenant agent amount now ∷ calls) b w =
      run-AllWithin calls _ (refund-AllWithin tenant agent amount now b w)
