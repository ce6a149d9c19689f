-- ===== src/Agent/Maintenance/Limits.antt =====
-- After its maintenance an agent has no more active memories than its limit.
use owlclaw_core.Common.{
  ℕ, zero, suc, ◌+◌, ◌-◌, is_some, ◌≤◌, ◌≡◌, refl, ap, true, false, String, List, [], ◌∷◌, arith,
  ltb, ltb→lt, filter, take, length, All-take, inl, inr, Bool-cases,
}
use Prim.Native.Nat.{max}
use owlclaw_core.Common.Dict.{values}
use owlclaw_core.Common.Sorting.{sort_by, length-sort_by, All-sort_by}
use owlclaw_core.Common.Text.{strip, is_blank}
use owlclaw_core.Common.Time.{Time}
use owlclaw_core.Agent.MemoryStore.{
  MemoryEntry, InMemoryStore, is_active, count, archive, delete, list_entries,
  get_expired_entry_ids,
}
use owlclaw_core.Agent.MemoryStore.Counting.{
  Keyed, DistinctIds, IsFound, AllActive, Keyed-IsFound, Keyed-DistinctIds, All-filter,
  filter-DistinctIds, take-DistinctIds, sort_by-DistinctIds, archive_all-count_in,
  delete_all-count_in,
}
use owlclaw_core.Agent.Maintenance.{
  MemoryConfig, first_datetime, cutoff_of, error_of, before_in_archive, entries_to_archive,
  archive_overflow, days, delete_expired, run_maintenance,
}

length-take : {A : Type 0} (n : ℕ) (xs : List A) → n ≤ length xs → length (take n xs) ≡ n
length-take zero xs h = refl
length-take (suc n) [] h = absurd (omega (arith, h))
length-take (suc n) (x ∷ xs) h = ap suc (length-take n xs (omega (arith, h)))

module _ (config : MemoryConfig) (agent tenant : String) (s : InMemoryStore)
    (keyed : Keyed s.store) where
  -- the active entries, the oldest first
  abbrev listed : List MemoryEntry
  listed = list_entries agent tenant true (count agent tenant s) false s

  listed-length : length listed ≡ count agent tenant s
  unfolding list_entries count
  listed-length =
      length-take _ _
        (omega (arith, length-sort_by _ (filter (is_active agent tenant) (values s.store))))

  listed-AllActive : AllActive agent tenant s.store listed
  unfolding list_entries count
  listed-AllActive = All-take _ _ _ (
      All-sort_by _ _ _ (
        All-filter (IsFound s.store) (is_active agent tenant) (values s.store)
          (Keyed-IsFound s.store keyed)))

  listed-DistinctIds : DistinctIds listed
  unfolding list_entries count
  listed-DistinctIds = take-DistinctIds _ _ (
      sort_by-DistinctIds _ _ (
        filter-DistinctIds (is_active agent tenant) (values s.store)
          (Keyed-DistinctIds s.store keyed)))

  archive_overflow-count :
      (count agent tenant (archive_overflow config agent tenant s).1 ≤ config.max_entries)
      × ((archive_overflow config agent tenant s).0 ≡ count agent tenant s - config.max_entries)
  unfolding archive_overflow archive count
  archive_overflow-count = elim (Bool-cases (ltb config.max_entries (count agent tenant s))) [
    | inr fits ↦ rw fits (ground arith, ground arith)
    | inl over ↦
        let chosen = entries_to_archive config agent tenant s in
        let sorted = sort_by before_in_archive listed in
        let n = max 1 (count agent tenant s - config.max_entries) in
        let more = ltb→lt config.max_entries (count agent tenant s) over in
        let overflow : n ≡ count agent tenant s - config.max_entries = omega (arith, more) in
        let chosen_length : length chosen ≡ n =
          length-take n sorted (
            omega
              (arith, more, overflow, length-sort_by before_in_archive listed, listed-length)) in
        let (counted, archived) =
          archive_all-count_in agent tenant chosen 0 s.store
            (take-DistinctIds n sorted
              (sort_by-DistinctIds before_in_archive listed listed-DistinctIds))
            (All-take _ n sorted (All-sort_by _ before_in_archive listed listed-AllActive)) in
        rw over (
          omega (arith, counted, more, overflow, chosen_length),
          omega (arith, archived, overflow, chosen_length),
        )
  ]

module _ (config : MemoryConfig) (agent tenant : String) (now : Time) (s : InMemoryStore) where
  -- what raises is the cutoff, and either way no entry becomes active
  delete_expired-count :
      let (deleted, s') = delete_expired config agent tenant now s in
      (is_some (error_of deleted) ≡ ltb (now + first_datetime) (days config.retention_days))
      × (count agent tenant s' ≤ count agent tenant s)
  unfolding delete_expired cutoff_of delete count
  delete_expired-count =
      elim (Bool-cases (ltb (now + first_datetime) (days config.retention_days))) [
        | inl early ↦ rw (early, delete_expired) (refl, omega arith)
        | inr fits ↦
            rw (fits, delete_expired)
              (
                refl,
                delete_all-count_in agent tenant
                    (get_expired_entry_ids agent tenant (now - days config.retention_days) 2 s) 0
                    s.store,
              )
      ]

pub run_maintenance-count :
    (config : MemoryConfig) (agent tenant : String) (now : Time) (s : InMemoryStore)
    → Keyed s.store
    → is_blank (strip agent) ≡ false
    → is_blank (strip tenant) ≡ false
    → let (result, s') = run_maintenance config agent tenant now s in
      (is_some result.error ≡ ltb (now + first_datetime) (days config.retention_days))
      × (result.archived_count ≡ count (strip agent) (strip tenant) s - config.max_entries)
      × (count (strip agent) (strip tenant) s' ≤ config.max_entries)
unfolding run_maintenance
run_maintenance-count config agent tenant now s keyed named named' =
    let (limited, archived) = archive_overflow-count config (strip agent) (strip tenant) s keyed in
    let s₁ = (archive_overflow config (strip agent) (strip tenant) s).1 in
    let (raised, fewer) = delete_expired-count config (strip agent) (strip tenant) now s₁ in
    rw (named, named') (raised, archived, omega (arith, limited, fewer))
