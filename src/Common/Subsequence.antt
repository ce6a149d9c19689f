-- ===== src/Common/Subsequence.antt =====
-- Lists that come from others by leaving out items.
use owlclaw_core.Common.{ℕ, zero, suc, List, [], ◌∷◌, ◌++◌, drop}

module _ {E : Type 0} where
  -- the first list comes from the second by leaving out items
  pub data Subsequence : List E → List E → Type 0 where
    done : Subsequence [] []
    keep : (x : E) (xs ys : List E) → Subsequence xs ys → Subsequence (x ∷ xs) (x ∷ ys)
    skip : (y : E) (xs ys : List E) → Subsequence xs ys → Subsequence xs (y ∷ ys)

  pub Subsequence-self : (xs : List E) → Subsequence xs xs
  Subsequence-self [] = done
  Subsequence-self (x ∷ xs) = keep x xs xs (Subsequence-self xs)

  pub Subsequence-append :
      {xs ys : List E} (zs : List E) → Subsequence xs ys → Subsequence (xs ++ zs) (ys ++ zs)
  Subsequence-append zs done = Subsequence-self zs
  Subsequence-append zs (keep x xs ys s) = keep x (xs ++ zs) (ys ++ zs) (Subsequence-append zs s)
  Subsequence-append zs (skip y xs ys s) = skip y (xs ++ zs) (ys ++ zs) (Subsequence-append zs s)

  pub Subsequence-trans :
      {ys zs : List E} → Subsequence ys zs → {xs : List E} → Subsequence xs ys → Subsequence xs zs
  Subsequence-trans done s = s
  Subsequence-trans (keep y ys zs t) (keep x xs _ s) = keep x xs zs (Subsequence-trans t s)
  Subsequence-trans (keep y ys zs t) (skip x xs _ s) = skip x xs zs (Subsequence-trans t s)
  Subsequence-trans (skip y ys zs t) s = skip y _ zs (Subsequence-trans t s)

  pub Subsequence-prepend :
      (xs : List E) {ys zs : List E} → Subsequence ys zs → Subsequence (xs ++ ys) (xs ++ zs)
  Subsequence-prepend [] s = s
  Subsequence-prepend (x ∷ xs) s = keep x _ _ (Subsequence-prepend xs s)

  pub drop-Subsequence : (n : ℕ) (zs : List E) → Subsequence (drop n zs) zs
  drop-Subsequence zero zs = Subsequence-self zs
  drop-Subsequence (suc n) [] = done
  drop-Subsequence (suc n) (z ∷ zs) = skip z (drop n zs) zs (drop-Subsequence n zs)

  pub Subsequence-drop :
      (xs : List E) (n : ℕ) (zs ys : List E)
      → Subsequence (xs ++ zs) ys
      → Subsequence (xs ++ drop n zs) ys
  Subsequence-drop xs n zs ys s =
      Subsequence-trans s (Subsequence-prepend xs (drop-Subsequence n zs))
