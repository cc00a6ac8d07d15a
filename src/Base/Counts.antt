-- ===== src/Base/Counts.antt =====
-- How many elements pass a test, and sums over a list, when a list grows or one element changes.
use Prim.Native.Nat.{ℕ, suc, ◌+◌, ◌≤◌}
use mathlib.Core.Path.{◌≡◌, refl}
use mathlib.Core.Logic.{inl, inr}
use mathlib.Core.Bool.{Bool, true, false}
use mathlib.Core.Option.{none, some}
use mathlib.Core.List.{List, [], ◌∷◌, ◌++◌}
use native.Mathlib.Omega.{arith}
use passeur.Base.Tests.{if◌then◌else◌, Bool-cases}
use passeur.Base.Lists.{any, find, update_first}

module _ {ℓ} {A : Type ℓ} where
  abbrev pub sum_of : (A → ℕ) → List A → ℕ
  sum_of f [] = 0
  sum_of f (x ∷ xs) = f x + sum_of f xs

  abbrev pub count : (A → Bool) → List A → ℕ
  count p [] = 0
  count p (x ∷ xs) = if p x then suc (count p xs) else count p xs

  pub sum_of-append : (f : A → ℕ) (xs ys : List A) → sum_of f (xs ++ ys) ≡ sum_of f xs + sum_of f ys
  sum_of-append f [] ys = omega arith
  sum_of-append f (x ∷ xs) ys = omega (arith, sum_of-append f xs ys)

  -- One element is replaced: the sum changes by the difference of the two.
  pub sum_of-replace :
      (f : A → ℕ) (q : A → Bool) (xs : List A) (a b : A)
      → find q xs ≡ some a
      → sum_of f (update_first q (λ _. b) xs) + f a ≡ sum_of f xs + f b
  sum_of-replace f q [] a b h = absurd (cc)
  sum_of-replace f q (x ∷ xs) a b h = elim (Bool-cases (q x)) [
    | inl e ↦
        let same : some x ≡ some a = rw e at h in
        let here : x ≡ a = cc in rw (e, here) (omega arith)
    | inr e ↦ rw e (omega (arith, sum_of-replace f q xs a b (rw e at h)))
  ]

  pub count-append : (p : A → Bool) (xs ys : List A) → count p (xs ++ ys) ≡ count p xs + count p ys
  count-append p [] ys = omega arith
  count-append p (x ∷ xs) ys = ground (arith, count-append p xs ys)

  pub count_none : (p : A → Bool) (xs : List A) → any p xs ≡ false → count p xs ≡ 0
  count_none p [] h = refl
  count_none p (x ∷ xs) h = ground (arith, count_none p xs)

  pub count_find-none : (p : A → Bool) (xs : List A) → find p xs ≡ none → count p xs ≡ 0
  count_find-none p [] h = refl
  count_find-none p (x ∷ xs) h = ground (arith, count_find-none p xs)

  -- An element that is added where none passes is the only one.
  pub count-append_fresh :
      (p : A → Bool) (xs : List A) (x : A)
      → (p x ≡ true → any p xs ≡ false)
      → count p xs ≤ 1
      → count p (xs ++ x ∷ []) ≤ 1
  count-append_fresh p xs x fresh h = elim (Bool-cases (p x)) [
    | inl e ↦ ground (arith, count-append p xs (x ∷ []), count_none p xs (fresh e), e)
    | inr e ↦ ground (arith, count-append p xs (x ∷ []), e)
  ]

  -- An element that is replaced by one that passes only if it did.
  pub count-replace :
      (p q : A → Bool) (xs : List A) (a b : A)
      → find q xs ≡ some a
      → (p b ≡ true → p a ≡ true)
      → count p (update_first q (λ _. b) xs) ≤ count p xs
  count-replace p q [] a b h keep = omega arith
  count-replace p q (x ∷ xs) a b h keep = elim (Bool-cases (q x)) [
    | inl e ↦
        let same : some x ≡ some a = rw e at h in
        let here : x ≡ a = cc in
        rw (e, here)
          (elim (Bool-cases (p b)) [
            | inl pb ↦ ground (arith, keep pb, pb)
            | inr pb ↦ ground (arith, pb)
          ])
    | inr e ↦ rw e (ground (arith, count-replace p q xs a b (rw e at h) keep))
  ]

  -- The replaced element is found in the place of the old one.
  pub find-replace :
      (q : A → Bool) (xs : List A) (a b : A)
      → find q xs ≡ some a
      → q b ≡ true
      → find q (update_first q (λ _. b) xs) ≡ some b
  find-replace q [] a b h k = absurd (cc)
  find-replace q (x ∷ xs) a b h k = elim (Bool-cases (q x)) [
    | inl e ↦ rw (e, k) refl
    | inr e ↦ rw (e, e) (find-replace q xs a b (rw e at h) k)
  ]

  -- A search that neither the old nor the new element passes does not see the replacement.
  pub find-replace_other :
      (p q : A → Bool) (xs : List A) (a b : A)
      → find q xs ≡ some a
      → p a ≡ false
      → p b ≡ false
      → find p (update_first q (λ _. b) xs) ≡ find p xs
  find-replace_other p q [] a b h pa pb = refl
  find-replace_other p q (x ∷ xs) a b h pa pb = elim (Bool-cases (q x)) [
    | inl e ↦
        let same : some x ≡ some a = rw e at h in
        let here : x ≡ a = cc in rw (e, here) (ground (arith, pa, pb))
    | inr e ↦ rw e (ground (arith, find-replace_other p q xs a b (rw e at h) pa pb))
  ]
