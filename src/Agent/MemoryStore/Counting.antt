-- ===== src/Agent/MemoryStore/Counting.antt =====
-- How archiving and deleting change the number of an agent's active entries.
use owlclaw_core.Common.{
  ℕ, zero, suc, ◌+◌, ◌≤◌, ◌≡◌, ◌≢◌, refl, sym, ap, ◌∙◌, Bool, true, false, Option, none, some,
  String, List, [], ◌∷◌, arith, filter, take, length, All, All-take, inl, inr, Bool-cases,
}
use mathlib.Core.Option.{some-injective}
use owlclaw_core.Common.Dict.{Dict, values, lookup, insert, erase, lookup-insert_other}
use owlclaw_core.Common.Eq.{string_eq, ◌==◌}
use owlclaw_core.Common.Sorting.{sort_by, insert_by, All-insert_by, All-sort_by}
use owlclaw_core.Agent.MemoryStore.{
  MemoryEntry, ids_of, is_active, archive_one, archive_all, delete_one, delete_all,
}

-- each entry is kept under its own id, and no id is there twice
abbrev pub Keyed : Dict String MemoryEntry → Type 0
Keyed [] = Unit
Keyed ((k, e) ∷ d) = (e.id ≡ k) × (lookup k d ≡ none) × Keyed d

abbrev pub DistinctIds : List MemoryEntry → Type 0
DistinctIds [] = Unit
DistinctIds (e ∷ es) = All (λ (f : MemoryEntry). f.id ≢ e.id) es × DistinctIds es

All-imp :
    {A : Type 0} (P Q : A → Type 0) (xs : List A) → ((x : A) → P x → Q x) → All P xs → All Q xs
All-imp P Q [] f h = tt
All-imp P Q (x ∷ xs) f h = (f x h.0, All-imp P Q xs f h.1)

All-both :
    {A : Type 0} (P Q R : A → Type 0) (xs : List A)
    → ((x : A) → P x → Q x → R x)
    → All P xs
    → All Q xs
    → All R xs
All-both P Q R [] f h g = tt
All-both P Q R (x ∷ xs) f h g = (f x h.0 g.0, All-both P Q R xs f h.1 g.1)

pub All-filter :
    {A : Type 0} (P : A → Type 0) (p : A → Bool) (xs : List A)
    → All P xs
    → All (λ x. P x × (p x ≡ true)) (filter p xs)
All-filter P p [] h = tt
All-filter P p (x ∷ xs) h = elim (Bool-cases (p x)) [
  | inl holds ↦ rw holds ((h.0, holds), All-filter P p xs h.1)
  | inr fails ↦ rw fails (All-filter P p xs h.1)
]

pub filter-DistinctIds :
    (p : MemoryEntry → Bool) (es : List MemoryEntry) → DistinctIds es → DistinctIds (filter p es)
filter-DistinctIds p [] h = tt
filter-DistinctIds p (e ∷ es) h = elim (Bool-cases (p e)) [
  | inl holds ↦ rw holds (
    All-imp _ (λ (f : MemoryEntry). f.id ≢ e.id) (filter p es) (λ f g. g.0)
        (All-filter (λ (f : MemoryEntry). f.id ≢ e.id) p es h.0),
    filter-DistinctIds p es h.1,
  )
  | inr fails ↦ rw fails (filter-DistinctIds p es h.1)
]

pub take-DistinctIds : (n : ℕ) (es : List MemoryEntry) → DistinctIds es → DistinctIds (take n es)
take-DistinctIds zero es h = tt
take-DistinctIds (suc n) [] h = tt
take-DistinctIds (suc n) (e ∷ es) h =
    (All-take (λ (f : MemoryEntry). f.id ≢ e.id) n es h.0, take-DistinctIds n es h.1)

insert_by-DistinctIds :
    (le : MemoryEntry → MemoryEntry → Bool) (e : MemoryEntry) (es : List MemoryEntry)
    → DistinctIds (e ∷ es)
    → DistinctIds (insert_by le e es)
unfolding insert_by
insert_by-DistinctIds le e [] h = (tt, tt)
insert_by-DistinctIds le e (f ∷ es) h = elim (Bool-cases (le e f)) [
  | inl first ↦ rw first h
  | inr later ↦ rw later (
    All-insert_by (λ (g : MemoryEntry). g.id ≢ f.id) le e es (λ same. h.0.0 (sym same)) h.1.0,
    insert_by-DistinctIds le e es (h.0.1, h.1.1),
  )
]

pub sort_by-DistinctIds :
    (le : MemoryEntry → MemoryEntry → Bool) (es : List MemoryEntry)
    → DistinctIds es
    → DistinctIds (sort_by le es)
unfolding sort_by
sort_by-DistinctIds le [] h = tt
sort_by-DistinctIds le (e ∷ es) h =
    insert_by-DistinctIds le e (sort_by le es)
      (All-sort_by (λ (f : MemoryEntry). f.id ≢ e.id) le es h.0, sort_by-DistinctIds le es h.1)

abbrev pub IsFound : Dict String MemoryEntry → MemoryEntry → Type 0
IsFound d e = lookup e.id d ≡ some e

pub Keyed-IsFound : (d : Dict String MemoryEntry) → Keyed d → All (IsFound d) (values d)
unfolding lookup
Keyed-IsFound [] h = tt
Keyed-IsFound ((k, v) ∷ d) h = (
  ground (arith, h.0, string_eq.same_iff v.id k),
  All-imp (IsFound d) (IsFound ((k, v) ∷ d)) (values d)
      (λ (e : MemoryEntry) found. ground (arith, h.1, string_eq.same_iff e.id k))
      (Keyed-IsFound d h.2),
)

pub Keyed-DistinctIds : (d : Dict String MemoryEntry) → Keyed d → DistinctIds (values d)
Keyed-DistinctIds [] h = tt
Keyed-DistinctIds ((k, v) ∷ d) h = (
  All-imp (IsFound d) (λ (f : MemoryEntry). f.id ≢ v.id) (values d)
      (λ (f : MemoryEntry) found same. cc (found, same, h.0, h.1)) (Keyed-IsFound d h.2),
  Keyed-DistinctIds d h.2,
)

module _ (agent tenant : String) where
  abbrev pub count_in : Dict String MemoryEntry → ℕ
  count_in d = length (filter (is_active agent tenant) (values d))

  archived-inactive :
      (e : MemoryEntry) → is_active agent tenant (record e { archived = true }) ≡ false
  archived-inactive e = ground arith

  archived-count_in :
      (k : String) (e : MemoryEntry) (d : Dict String MemoryEntry)
      → lookup k d ≡ some e
      → is_active agent tenant e ≡ true
      → suc (count_in (insert k (record e { archived = true }) d)) ≡ count_in d
  unfolding lookup insert
  archived-count_in k e [] found active = cc
  archived-count_in k e ((j, v) ∷ d) found active = elim (Bool-cases (k == j)) [
    | inl same ↦
        let here : v ≡ e = some-injective v e (simp same at found) in
        rw (same, here, active, archived-inactive e) refl
    | inr other ↦
        let rest = archived-count_in k e d (simp other at found) active in
        simp other (elim (Bool-cases (is_active agent tenant v)) [
          | inl counts ↦ simp counts (ap suc rest)
          | inr idle ↦ simp idle rest
        ])
  ]

  pub erase-count_in :
      (k : String) (d : Dict String MemoryEntry) → count_in (erase k d) ≤ count_in d
  unfolding erase
  erase-count_in k [] = omega arith
  erase-count_in k ((j, v) ∷ d) = ground (arith, erase-count_in k d)

  delete_one-count_in :
      (id : String) (o : Option MemoryEntry) (n : ℕ) (d : Dict String MemoryEntry)
      → count_in (delete_one id o (n, d)).1 ≤ count_in d
  unfolding delete_one
  delete_one-count_in id none n d = omega arith
  delete_one-count_in id (some e) n d = erase-count_in id d

  pub delete_all-count_in :
      (ids : List String) (n : ℕ) (d : Dict String MemoryEntry)
      → count_in (delete_all ids (n, d)).1 ≤ count_in d
  unfolding delete_all
  delete_all-count_in [] n d = omega arith
  delete_all-count_in (id ∷ ids) n d =
      let (deleted, d') = delete_one id (lookup id d) (n, d) in
      omega (arith, delete_all-count_in ids deleted d', delete_one-count_in id (lookup id d) n d)

  -- each id is that of an active entry
  abbrev pub AllActive : Dict String MemoryEntry → List MemoryEntry → Type 0
  AllActive d = All (λ (e : MemoryEntry). IsFound d e × (is_active agent tenant e ≡ true))

  pub archive_all-count_in :
      (es : List MemoryEntry) (n : ℕ) (d : Dict String MemoryEntry)
      → DistinctIds es
      → AllActive d es
      → (count_in (archive_all (ids_of es) (n, d)).1 + length es ≡ count_in d)
        × ((archive_all (ids_of es) (n, d)).0 ≡ n + length es)
  unfolding archive_all
  archive_all-count_in [] n d distinct active = (omega arith, omega arith)
  archive_all-count_in (e ∷ es) n d distinct active =
      let d' = insert e.id (record e { archived = true }) d in
      let (counted, archived) = archive_all-count_in es (suc n) d' distinct.1 (
        All-both (λ (f : MemoryEntry). f.id ≢ e.id) _
          (λ (f : MemoryEntry). IsFound d' f × (is_active agent tenant f ≡ true)) es
          (λ f other was. (lookup-insert_other f.id e.id _ d other ∙ was.0, was.1)) distinct.0
          active.1) in
      let one = archived-count_in e.id e d active.0.0 active.0.1 in
      rw (active.0.0, archive_all, archive_one)
        (omega (arith, counted, one), omega (arith, archived))
