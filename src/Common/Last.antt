-- ===== src/Common/Last.antt =====
-- The last items of a list, Python's `xs[-n:]` for n > 0.
use owlclaw_core.Common.{
  ℕ, zero, suc, ◌+◌, ◌-◌, ◌≤◌, ◌≡◌, refl, sym, ap, ◌∙◌, List, [], ◌∷◌, ◌++◌, arith, length, drop,
  length-append, length-drop,
}

module _ {A : Type 0} where
  -- the last items, `n` at most
  abbrev pub last : ℕ → List A → List A
  last n xs = drop (length xs - n) xs

  pub drop-append : (n : ℕ) (xs ys : List A) → n ≤ length xs → drop n (xs ++ ys) ≡ drop n xs ++ ys
  drop-append zero xs ys h = refl
  drop-append (suc n) [] ys h = absurd (omega (arith, h))
  drop-append (suc n) (x ∷ xs) ys h = drop-append n xs ys (omega (arith, h))

  drop_none : (n : ℕ) → ◌≡◌ {A = List A} (drop n []) []
  drop_none zero = refl
  drop_none (suc n) = refl

  pub drop-drop : (n k : ℕ) (xs : List A) → drop n (drop k xs) ≡ drop (k + n) xs
  drop-drop n zero xs = ap (λ i. drop i xs) (omega arith)
  drop-drop n (suc k) [] = drop_none n ∙ sym (drop_none (suc k + n))
  drop-drop n (suc k) (x ∷ xs) =
      drop-drop n k xs ∙ ap (λ i. drop i (x ∷ xs)) {x = suc (k + n)} (omega arith)

  pub last-append : (n : ℕ) (xs ys : List A) → last n (last n xs ++ ys) ≡ last n (xs ++ ys)
  last-append n xs ys =
      let k = length xs - n in
      rw
        (
          sym (drop-append k xs ys (omega arith)),
          drop-drop (length (drop k (xs ++ ys)) - n) k (xs ++ ys),
        )
        (ap (λ i. drop i (xs ++ ys)) (omega (arith, length-drop k (xs ++ ys), length-append xs ys)))

pub last_of : {A : Type 0} (max k : ℕ) (xs : List A) → length xs - max ≡ k → last max xs ≡ drop k xs
last_of max k xs h = ap (λ i. drop i xs) h

pub length-last-le : {A : Type 0} (n : ℕ) (xs : List A) → length (last n xs) ≤ n
length-last-le n xs = omega (arith, length-drop (length xs - n) xs)
