-- ===== src/Base/Lists.antt =====
-- Arrays as lists: the searches, filters and in-place updates that the code makes.
use Prim.Native.Nat.{ℕ, suc, ◌+◌, ◌≤◌}
use Prim.Native.String.{String}
use mathlib.Core.Path.{◌≡◌, refl, ap, subst}
use mathlib.Core.Logic.{◌↔◌, inl, inr}
use mathlib.Core.Bool.{Bool, true, false, ◌&&◌, ◌||◌}
use mathlib.Core.Option.{Option, none, some}
use mathlib.Core.List.{List, [], ◌∷◌, ◌++◌, map}
use native.Mathlib.Omega.{arith}
use text.Mathlib.TextEquality.{eq_iff}
use passeur.Base.Tests.{◌==◌, if◌then◌else◌, str_eq, Bool-cases}

module _ {ℓ} {A : Type ℓ} where
  abbrev pub length : List A → ℕ
  length [] = 0
  length (x ∷ xs) = suc (length xs)

  abbrev pub any : (A → Bool) → List A → Bool
  any p [] = false
  any p (x ∷ xs) = p x || any p xs

  abbrev pub all : (A → Bool) → List A → Bool
  all p [] = true
  all p (x ∷ xs) = p x && all p xs

  abbrev pub find : (A → Bool) → List A → Option A
  find p [] = none
  find p (x ∷ xs) = if p x then some x else find p xs

  abbrev pub filter : (A → Bool) → List A → List A
  filter p [] = []
  filter p (x ∷ xs) = if p x then x ∷ filter p xs else filter p xs

  -- Assignment to the element that `find` returns: the first that passes.
  abbrev pub update_first : (A → Bool) → (A → A) → List A → List A
  update_first p f [] = []
  update_first p f (x ∷ xs) = if p x then f x ∷ xs else x ∷ update_first p f xs

  pub length-append : (xs ys : List A) → length (xs ++ ys) ≡ length xs + length ys
  length-append [] ys = omega arith
  length-append (x ∷ xs) ys = omega (arith, length-append xs ys)

  pub length-filter-le : (p : A → Bool) (xs : List A) → length (filter p xs) ≤ length xs
  length-filter-le p [] = omega arith
  length-filter-le p (x ∷ xs) = ground (arith, length-filter-le p xs)

  pub any-append : (p : A → Bool) (xs ys : List A) → any p (xs ++ ys) ≡ (any p xs || any p ys)
  any-append p [] ys = refl
  any-append p (x ∷ xs) ys = ground (arith, any-append p xs ys)

  pub all-append : (p : A → Bool) (xs ys : List A) → all p (xs ++ ys) ≡ (all p xs && all p ys)
  all-append p [] ys = refl
  all-append p (x ∷ xs) ys = ground (arith, all-append p xs ys)

  -- What `find` returns passes the test.
  pub find-pass : (p : A → Bool) (xs : List A) (x : A) → find p xs ≡ some x → p x ≡ true
  find-pass p [] x h = cc
  find-pass p (y ∷ xs) x h = elim (Bool-cases (p y)) [
    | inl e ↦ ground (arith, e)
    | inr e ↦ find-pass p xs x (rw e at h)
  ]

  pub find-any : (p : A → Bool) (xs : List A) (x : A) → find p xs ≡ some x → any p xs ≡ true
  find-any p [] x h = cc
  find-any p (y ∷ xs) x h = ground (arith, find-any p xs x)

  pub any_of_find-none : (p : A → Bool) (xs : List A) → find p xs ≡ none → any p xs ≡ false
  any_of_find-none p [] h = refl
  any_of_find-none p (y ∷ xs) h = ground (arith, any_of_find-none p xs)

  pub find-none-of_any : (p : A → Bool) (xs : List A) → any p xs ≡ false → find p xs ≡ none
  find-none-of_any p [] h = refl
  find-none-of_any p (x ∷ xs) h = ground (arith, find-none-of_any p xs)

  pub find-append_none :
      (p : A → Bool) (xs ys : List A) → find p xs ≡ none → find p (xs ++ ys) ≡ find p ys
  find-append_none p [] ys h = refl
  find-append_none p (x ∷ xs) ys h = ground (arith, find-append_none p xs ys)

  pub find-append_some :
      (p : A → Bool) (xs ys : List A) (x : A) → find p xs ≡ some x → find p (xs ++ ys) ≡ some x
  find-append_some p [] ys x h = cc
  find-append_some p (y ∷ xs) ys x h = ground (arith, find-append_some p xs ys x)

  pub length-update_first :
      (p : A → Bool) (f : A → A) (xs : List A) → length (update_first p f xs) ≡ length xs
  length-update_first p f [] = refl
  length-update_first p f (x ∷ xs) = ground (arith, length-update_first p f xs)

module _ {ℓ κ} {A : Type ℓ} {B : Type κ} where
  pub length-map : (f : A → B) (xs : List A) → length (map f xs) ≡ length xs
  length-map f [] = refl
  length-map f (x ∷ xs) = ap suc (length-map f xs)

  pub any-map : (p : B → Bool) (f : A → B) (xs : List A) → any p (map f xs) ≡ any (λ x. p (f x)) xs
  any-map p f [] = refl
  any-map p f (x ∷ xs) = rw (any-map p f xs)

  pub all-map :
      (p : A → Bool) (q : B → Bool) (f : A → B)
      → ((a : A) → p a ≡ true → q (f a) ≡ true)
      → (xs : List A) → all p xs ≡ true
      → all q (map f xs) ≡ true
  all-map p q f keep [] h = refl
  all-map p q f keep (x ∷ xs) h = ground (arith, keep x, all-map p q f keep xs)

  -- A map that leaves what `g` reads alone.
  pub map-map_same :
      (g : A → B) (f : A → A)
      → ((a : A) → g (f a) ≡ g a)
      → (xs : List A) → map g (map f xs) ≡ map g xs
  map-map_same g f same [] = refl
  map-map_same g f same (x ∷ xs) = rw (same x, map-map_same g f same xs)

  pub map-update_first_same :
      (g : A → B) (p : A → Bool) (f : A → A)
      → ((a : A) → g (f a) ≡ g a)
      → (xs : List A) → map g (update_first p f xs) ≡ map g xs
  map-update_first_same g p f same [] = refl
  map-update_first_same g p f same (x ∷ xs) =
      ground (arith, same x, map-update_first_same g p f same xs)

  pub map-append : (f : A → B) (xs ys : List A) → map f (xs ++ ys) ≡ map f xs ++ map f ys
  map-append f [] ys = refl
  map-append f (x ∷ xs) ys = rw (map-append f xs ys)

module _ {ℓ} {A : Type ℓ} where
  pub all_mono :
      (p q : A → Bool)
      → ((a : A) → p a ≡ true → q a ≡ true)
      → (xs : List A) → all p xs ≡ true
      → all q xs ≡ true
  all_mono p q keep [] h = refl
  all_mono p q keep (x ∷ xs) h = ground (arith, keep x, all_mono p q keep xs)

  pub all-true : (xs : List A) → all (λ x. true) xs ≡ true
  all-true [] = refl
  all-true (x ∷ xs) = all-true xs

  pub any-false : (xs : List A) → any (λ x. false) xs ≡ false
  any-false [] = refl
  any-false (x ∷ xs) = any-false xs

  -- An update of the first element that passes needs a look at that element only.
  pub all-update_first :
      (q p : A → Bool) (f : A → A) (xs : List A)
      → ((a : A) → find p xs ≡ some a → q a ≡ true → q (f a) ≡ true)
      → all q xs ≡ true
      → all q (update_first p f xs) ≡ true
  all-update_first q p f [] keep h = refl
  all-update_first q p f (x ∷ xs) keep h = elim (Bool-cases (p x)) [
    | inl e ↦ rw e (ground (arith, keep x (rw e refl)))
    | inr e ↦ rw e (ground (arith, all-update_first q p f xs (λ a found. keep a (rw e found))))
  ]

  pub any-update_first :
      (q p : A → Bool) (f : A → A) (xs : List A)
      → ((a : A) → find p xs ≡ some a → q a ≡ false → q (f a) ≡ false)
      → any q xs ≡ false
      → any q (update_first p f xs) ≡ false
  any-update_first q p f [] keep h = refl
  any-update_first q p f (x ∷ xs) keep h = elim (Bool-cases (p x)) [
    | inl e ↦ rw e (ground (arith, keep x (rw e refl)))
    | inr e ↦ rw e (ground (arith, any-update_first q p f xs (λ a found. keep a (rw e found))))
  ]

  pub any-map_keep :
      (q : A → Bool) (f : A → A)
      → ((a : A) → q a ≡ false → q (f a) ≡ false)
      → (xs : List A) → any q xs ≡ false
      → any q (map f xs) ≡ false
  any-map_keep q f keep [] h = refl
  any-map_keep q f keep (x ∷ xs) h = ground (arith, keep x, any-map_keep q f keep xs)

  pub any_mono :
      (p q : A → Bool)
      → ((a : A) → p a ≡ true → q a ≡ true)
      → (xs : List A) → any p xs ≡ true
      → any q xs ≡ true
  any_mono p q keep [] h = cc
  any_mono p q keep (x ∷ xs) h = ground (arith, keep x, any_mono p q keep xs)

module _ {ℓ κ} {A : Type ℓ} (P : A → Type κ) where
  abbrev pub All : List A → Type κ
  All [] = Unit
  All (x ∷ xs) = P x × All xs

module _ {ℓ κ} {A : Type ℓ} (P : A → Type κ) where
  pub All-append : (xs ys : List A) → All P xs → All P ys → All P (xs ++ ys)
  All-append [] ys h k = k
  All-append (x ∷ xs) ys (p, h) k = (p, All-append xs ys h k)

  pub All-map :
      (f : A → A) → ((a : A) → P a → P (f a)) → (xs : List A) → All P xs → All P (map f xs)
  All-map f keep [] h = tt
  All-map f keep (x ∷ xs) (p, h) = (keep x p, All-map f keep xs h)

  pub All-filter : (p : A → Bool) (xs : List A) → All P xs → All P (filter p xs)
  All-filter p [] h = tt
  All-filter p (x ∷ xs) (q, h) = elim (Bool-cases (p x)) [
    | inl e ↦ rw e (q, All-filter p xs h)
    | inr e ↦ rw e (All-filter p xs h)
  ]

  pub All-update_first :
      (p : A → Bool) (f : A → A)
      → ((a : A) → p a ≡ true → P a → P (f a))
      → (xs : List A) → All P xs
      → All P (update_first p f xs)
  All-update_first p f keep [] h = tt
  All-update_first p f keep (x ∷ xs) (q, h) = elim (Bool-cases (p x)) [
    | inl e ↦ rw e (keep x e q, h)
    | inr e ↦ rw e (q, All-update_first p f keep xs h)
  ]

  pub All-mono {μ} : {Q : A → Type μ} → ((a : A) → P a → Q a) → (xs : List A) → All P xs → All Q xs
  All-mono keep [] h = tt
  All-mono keep (x ∷ xs) (p, h) = (keep x p, All-mono keep xs h)

  pub find-All : (p : A → Bool) (xs : List A) (x : A) → All P xs → find p xs ≡ some x → P x
  find-All p [] x h e = absurd (cc)
  find-All p (y ∷ xs) x (q, h) e = elim (Bool-cases (p y)) [
    | inl t ↦ let same : some y ≡ some x = rw t at e in subst P (cc) q
    | inr t ↦ find-All p xs x h (rw t at e)
  ]

module _ {ℓ} {A : Type ℓ} where
  pub All-of_all : (p : A → Bool) (xs : List A) → all p xs ≡ true → All (λ x. p x ≡ true) xs
  All-of_all p [] h = tt
  All-of_all p (x ∷ xs) h = (ground arith, All-of_all p xs (ground arith))

  pub all_of_All : (p : A → Bool) (xs : List A) → All (λ x. p x ≡ true) xs → all p xs ≡ true
  all_of_All p [] h = refl
  all_of_All p (x ∷ xs) (q, h) = rw (q, all_of_All p xs h)

  pub All-of_not_any : (p : A → Bool) (xs : List A) → any p xs ≡ false → All (λ x. p x ≡ false) xs
  All-of_not_any p [] h = tt
  All-of_not_any p (x ∷ xs) h = (ground arith, All-of_not_any p xs (ground arith))

  pub not_any_of_All : (p : A → Bool) (xs : List A) → All (λ x. p x ≡ false) xs → any p xs ≡ false
  not_any_of_All p [] h = refl
  not_any_of_All p (x ∷ xs) (q, h) = rw (q, not_any_of_All p xs h)

-- `includes` on an array of strings, and `new Set(keys).size`.
abbrev pub contains : String → List String → Bool
contains s [] = false
contains s (t ∷ ts) = str_eq s t || contains s ts

abbrev pub set_size : List String → ℕ
set_size [] = 0
set_size (s ∷ ss) = if contains s ss then set_size ss else suc (set_size ss)

-- No text occurs twice.
abbrev pub Distinct : List String → Type 0
Distinct [] = Unit
Distinct (s ∷ ss) = (contains s ss ≡ false) × Distinct ss

pub set_size-le-length : (ss : List String) → set_size ss ≤ length ss
set_size-le-length [] = omega arith
set_size-le-length (s ∷ ss) = ground (arith, set_size-le-length ss)

pub Distinct-of_set_size : (ss : List String) → set_size ss ≡ length ss → Distinct ss
Distinct-of_set_size [] h = tt
Distinct-of_set_size (s ∷ ss) h = elim (Bool-cases (contains s ss)) [
  | inl e ↦
      let k : set_size ss ≡ suc (length ss) = rw e at h in
      absurd (omega (arith, set_size-le-length ss))
  | inr e ↦
      let k : suc (set_size ss) ≡ suc (length ss) = rw e at h in
      (e, Distinct-of_set_size ss (omega arith))
]

pub set_size_of_Distinct : (ss : List String) → Distinct ss → set_size ss ≡ length ss
set_size_of_Distinct [] h = refl
set_size_of_Distinct (s ∷ ss) (e, h) = rw e (ap suc (set_size_of_Distinct ss h))

-- `new Set(keys).size === keys.length`.
abbrev pub distinct : List String → Bool
distinct ss = set_size ss == length ss

pub Distinct-iff : (ss : List String) → (distinct ss ≡ true) ↔ Distinct ss
Distinct-iff ss = (
  λ h. Distinct-of_set_size ss (ground arith),
  λ h. let e : set_size ss ≡ length ss = set_size_of_Distinct ss h in ground (arith, e),
)

pub contains-append :
    (s : String) (xs ys : List String) → contains s (xs ++ ys) ≡ (contains s xs || contains s ys)
contains-append s [] ys = refl
contains-append s (x ∷ xs) ys = ground (arith, contains-append s xs ys)

pub Distinct-append_fresh :
    (xs : List String) (s : String) → contains s xs ≡ false → Distinct xs → Distinct (xs ++ s ∷ [])
Distinct-append_fresh [] s h k = (refl, tt)
Distinct-append_fresh (x ∷ xs) s h (fresh, k) = (
  ground (arith, contains-append x xs (s ∷ []), eq_iff x s, eq_iff s x),
  Distinct-append_fresh xs s (ground arith) k,
)

pub distinct-append_fresh :
    (xs : List String) (s : String)
    → contains s xs ≡ false
    → distinct xs ≡ true
    → distinct (xs ++ s ∷ []) ≡ true
distinct-append_fresh xs s fresh h =
    (Distinct-iff (xs ++ s ∷ [])).1 (Distinct-append_fresh xs s fresh ((Distinct-iff xs).0 h))

-- A key that no entry of a table has is not among its keys.
pub contains-map-find {ℓ} :
    {A : Type ℓ} (key : A → String) (k : String) (xs : List A)
    → find (λ x. str_eq (key x) k) xs ≡ none
    → contains k (map key xs) ≡ false
contains-map-find key k [] h = refl
contains-map-find key k (x ∷ xs) h =
    ground (arith, eq_iff (key x) k, eq_iff k (key x), contains-map-find key k xs)
