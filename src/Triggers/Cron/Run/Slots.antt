-- ===== src/Triggers/Cron/Run/Slots.antt =====
-- The slots of the runs, over any interleaving of runs.
use owlclaw_core.Common.{
  suc, ◌≡◌, refl, sym, ap, inl, inr, Bool, true, false, not, none, some, String, List, [], ◌∷◌,
  arith, length, any, filter, Bool-cases, if◌then◌else◌,
}
use owlclaw_core.Common.Eq.{string_eq, pair_eq, ◌==◌}
use owlclaw_core.Triggers.Cron.Registry.{Registry}
use owlclaw_core.Triggers.Cron.Run.{holds_slot, begin_run, release_run}

abbrev Key : Type 0
Key = String × String

-- the list without the first item that is `key`
abbrev pub remove_one : Key → List Key → List Key
remove_one key [] = []
remove_one key (k ∷ ks) = if key == k then ks else k ∷ remove_one key ks

abbrev holds : Key → List Key → Bool
holds key ks = any (λ k. key == k) ks

-- no key is there twice
abbrev pub Distinct : List Key → Type 0
Distinct [] = Unit
Distinct (k ∷ ks) = (holds k ks ≡ false) × Distinct ks

-- a registry, and the runs that have begun and not ended
abbrev pub System : Type 0 → Type 0
System W = Registry W × List Key

module _ {W : Type 0} where
  -- A run begins and takes its slot, or finds it taken; a run ends; or the registry changes in what
  -- is not about slots.
  pub data Step : System W → System W → Type 0 where
    begins :
        (key : Key) (r r' : Registry W) (ks : List Key)
        → begin_run key r ≡ some r'
        → Step (r, ks) (r', key ∷ ks)
    refused :
        (key : Key) (r : Registry W) (ks : List Key) → begin_run key r ≡ none → Step (r, ks) (r, ks)
    ends :
        (key : Key) (r : Registry W) (ks : List Key)
        → holds key ks ≡ true
        → Step (r, ks) (release_run key r, remove_one key ks)
    changes :
        (r r' : Registry W) (ks : List Key)
        → r'.active_runs ≡ r.active_runs
        → r'.active_tasks ≡ r.active_tasks
        → Step (r, ks) (r', ks)

  pub data Reach : System W → System W → Type 0 where
    here : (s : System W) → Reach s s
    later : (s t u : System W) → Reach s t → Step t u → Reach s u

  -- the registry holds exactly the runs that go on, none twice, and counts them
  pub record Exact (s : System W) : Type 0 where
    pub held : s.0.active_runs ≡ s.1
    pub distinct : Distinct s.1
    pub counted : s.0.active_tasks ≡ length s.1

filter-others :
    (key : Key) (ks : List Key) → holds key ks ≡ false → filter (λ k. not (key == k)) ks ≡ ks
filter-others key [] h = refl
filter-others key (k ∷ ks) h = ground (arith, filter-others key ks)

remove_one-filter :
    (key : Key) (ks : List Key) → Distinct ks → filter (λ k. not (key == k)) ks ≡ remove_one key ks
remove_one-filter key [] h = refl
remove_one-filter key (k ∷ ks) h = elim (Bool-cases (pair_eq.same key k)) [
  | inl same ↦ rw same (filter-others key ks (rw ((pair_eq.same_iff key k).0 same) h.0))
  | inr differ ↦ rw differ (ap (◌∷◌ k) (remove_one-filter key ks h.1))
]

holds-remove_one :
    (key other : Key) (ks : List Key)
    → holds other ks ≡ false
    → holds other (remove_one key ks) ≡ false
holds-remove_one key other [] h = refl
holds-remove_one key other (k ∷ ks) h = ground (arith, holds-remove_one key other ks)

remove_one-Distinct : (key : Key) (ks : List Key) → Distinct ks → Distinct (remove_one key ks)
remove_one-Distinct key [] h = tt
remove_one-Distinct key (k ∷ ks) h =
    ground (arith, holds-remove_one key k ks h.0, remove_one-Distinct key ks h.1)

length-remove_one :
    (key : Key) (ks : List Key) → holds key ks ≡ true → suc (length (remove_one key ks)) ≡ length ks
length-remove_one key [] h = cc
length-remove_one key (k ∷ ks) h = ground (arith, length-remove_one key ks)

module _ {W : Type 0} where
  begin_run-Exact :
      (key : Key) (r r' : Registry W) (ks : List Key)
      → begin_run key r ≡ some r'
      → Exact (r, ks)
      → Exact (r', key ∷ ks)
  unfolding begin_run
  begin_run-Exact key r r' ks h e = elim (Bool-cases (holds_slot key r)) [
    | inl taken ↦ cc (rw taken at h)
    | inr free ↦
        let got = rw free at h in
        record {
          held = ground (arith, got, e.held);
          distinct = (rw (sym e.held) free, e.distinct);
          counted = ground (arith, got, e.counted);
        }
  ]

  Step-Exact : {s t : System W} → Step s t → Exact s → Exact t
  unfolding release_run
  Step-Exact (begins key r r' ks h) e = begin_run-Exact key r r' ks h e
  Step-Exact (refused key r ks h) e = e
  Step-Exact (ends key r ks h) e = record {
    held = rw e.held (remove_one-filter key ks e.distinct);
    distinct = remove_one-Distinct key ks e.distinct;
    counted = omega (arith, e.counted, length-remove_one key ks h);
  }
  Step-Exact (changes r r' ks runs tasks) e = record {
    held = rw runs e.held;
    distinct = e.distinct;
    counted = rw tasks e.counted;
  }

  -- However runs begin and end, the registry holds exactly the slots of the runs that go on, no
  -- trigger of a tenant has two runs at the same time, and `active_tasks` is their number.
  pub Reach-Exact : {s t : System W} → Reach s t → Exact s → Exact t
  Reach-Exact (here s) e = e
  Reach-Exact (later s t u r st) e = Step-Exact st (Reach-Exact r e)
