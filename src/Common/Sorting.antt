-- ===== src/Common/Sorting.antt =====
-- Python's `sorted(xs, key=…)`: stable, here by insertion, for keys that are numbers (times).
use owlclaw_core.Common.{
  ℕ, ◌≤◌, ◌≡◌, refl, Bool, inl, inr, List, [], ◌∷◌, arith, leb, leb→le, leb→gt, Bool-cases,
  if◌then◌else◌, length, All, In,
}

module _ {ℓ} {A : Type ℓ} where
  -- `le a b`: `a` may stand before `b`
  unfoldable pub insert_by : (A → A → Bool) → A → List A → List A
  insert_by le a [] = a ∷ []
  insert_by le a (b ∷ xs) = if le a b then a ∷ b ∷ xs else b ∷ insert_by le a xs

  unfoldable pub sort_by : (A → A → Bool) → List A → List A
  unfolding insert_by
  sort_by le [] = []
  sort_by le (a ∷ xs) = insert_by le a (sort_by le xs)

  pub length-insert_by :
      (le : A → A → Bool) (a : A) (xs : List A) → length (insert_by le a xs) ≡ length (a ∷ xs)
  unfolding insert_by
  length-insert_by le a [] = refl
  length-insert_by le a (b ∷ xs) = ground (arith, length-insert_by le a xs)

  pub length-sort_by : (le : A → A → Bool) (xs : List A) → length (sort_by le xs) ≡ length xs
  unfolding sort_by
  length-sort_by le [] = refl
  length-sort_by le (a ∷ xs) =
      omega (arith, length-insert_by le a (sort_by le xs), length-sort_by le xs)

  pub All-insert_by {κ} :
      (P : A → Type κ) (le : A → A → Bool) (a : A) (xs : List A)
      → P a
      → All P xs
      → All P (insert_by le a xs)
  unfolding insert_by
  All-insert_by P le a [] h hs = (h, tt)
  All-insert_by P le a (b ∷ xs) h hs = ground (arith, All-insert_by P le a xs h hs.1)

  pub All-sort_by {κ} :
      (P : A → Type κ) (le : A → A → Bool) (xs : List A) → All P xs → All P (sort_by le xs)
  unfolding sort_by
  All-sort_by P le [] h = tt
  All-sort_by P le (a ∷ xs) h = All-insert_by P le a (sort_by le xs) h.0 (All-sort_by P le xs h.1)

module _ {A : Type 0} where
  -- the same items
  pub In-insert_by :
      (le : A → A → Bool) (x a : A) (xs : List A) → In x (a ∷ xs) → In x (insert_by le a xs)
  unfolding insert_by
  In-insert_by le x a [] h = h
  In-insert_by le x a (b ∷ xs) h = ground (arith, In-insert_by le x a xs)

  pub In-sort_by : (le : A → A → Bool) (x : A) (xs : List A) → In x xs → In x (sort_by le xs)
  unfolding sort_by
  In-sort_by le x [] h = h
  In-sort_by le x (a ∷ xs) h =
      In-insert_by le x a (sort_by le xs) (ground (arith, In-sort_by le x xs))

  In-of-insert_by :
      (le : A → A → Bool) (x a : A) (xs : List A) → In x (insert_by le a xs) → In x (a ∷ xs)
  unfolding insert_by
  In-of-insert_by le x a [] h = h
  In-of-insert_by le x a (b ∷ xs) h = ground (arith, In-of-insert_by le x a xs)

  pub In-of-sort_by : (le : A → A → Bool) (x : A) (xs : List A) → In x (sort_by le xs) → In x xs
  unfolding sort_by
  In-of-sort_by le x [] h = h
  In-of-sort_by le x (a ∷ xs) h =
      ground (arith, In-of-insert_by le x a (sort_by le xs) h, In-of-sort_by le x xs)

module _ {A : Type 0} (key : A → ℕ) where
  -- sorted(xs, key=key) and sorted(xs, key=key, reverse=True), both stable
  abbrev pub ascending : List A → List A
  ascending = sort_by (λ a b. leb (key a) (key b))

  abbrev pub descending : List A → List A
  descending = sort_by (λ a b. leb (key b) (key a))

  -- every item's key is at most those behind it
  abbrev pub Ascends : List A → Type 0
  Ascends [] = Unit
  Ascends (a ∷ xs) = All (λ b. key a ≤ key b) xs × Ascends xs

  All-le_trans :
      (k : ℕ) (a : A) (xs : List A)
      → k ≤ key a
      → All (λ b. key a ≤ key b) xs
      → All (λ b. k ≤ key b) xs
  All-le_trans k a [] h hs = tt
  All-le_trans k a (b ∷ xs) h hs = (omega arith, All-le_trans k a xs h hs.1)

  insert_by-Ascends :
      (a : A) (xs : List A) → Ascends xs → Ascends (insert_by (λ a b. leb (key a) (key b)) a xs)
  unfolding insert_by
  insert_by-Ascends a [] h = (tt, tt)
  insert_by-Ascends a (b ∷ xs) h = elim (Bool-cases (leb (key a) (key b))) [
    | inl first ↦ rw first ((leb→le _ _ first, All-le_trans (key a) b xs (leb→le _ _ first) h.0), h)
    | inr later ↦ rw later (
      All-insert_by (λ c. key b ≤ key c) (λ a b. leb (key a) (key b)) a xs
          (omega (arith, leb→gt _ _ later)) h.0,
      insert_by-Ascends a xs h.1,
    )
  ]

  pub ascending-Ascends : (xs : List A) → Ascends (ascending xs)
  unfolding sort_by
  ascending-Ascends [] = tt
  ascending-Ascends (a ∷ xs) = insert_by-Ascends a (ascending xs) (ascending-Ascends xs)
