-- ===== src/Prelude/Lists.antt =====
-- Lists over the native numbers: tests, predicates and counts that the components share.
use Prim.Native.Nat.{ℕ, suc, ◌+◌, ◌≤◌}
use mathlib.Core.Path.{◌≡◌, refl, subst}
use mathlib.Core.Bool.{Bool, true, false, ◌&&◌, ◌||◌}
use mathlib.Core.Option.{Option, none, some}
use mathlib.Core.Logic.{inl, inr}
use mathlib.Core.List.{List, [], ◌∷◌, ◌++◌, map}
use native.Mathlib.Omega.{arith}
use devin_automation.Prelude.Tests.{if◌then◌else◌, Bool-cases}
use devin_automation.Prelude.Equality.{Comparable, ◌==◌}

module _ {ℓ} {A : Type ℓ} where
  abbrev pub length : List A → ℕ
  length [] = 0
  length (x ∷ xs) = suc (length xs)

  -- Python's `any` and `all` over a test.
  abbrev pub any : (A → Bool) → List A → Bool
  any p [] = false
  any p (x ∷ xs) = p x || any p xs

  abbrev pub all : (A → Bool) → List A → Bool
  all p [] = true
  all p (x ∷ xs) = p x && all p xs

  -- The first element that passes a test: `next(iter, None)`, a SELECT by a unique key.
  abbrev pub find : (A → Bool) → List A → Option A
  find p [] = none
  find p (x ∷ xs) = if p x then some x else find p xs

  abbrev pub keep : (A → Bool) → List A → List A
  keep p [] = []
  keep p (x ∷ xs) = if p x then x ∷ keep p xs else keep p xs

  -- How many elements pass a test: SELECT COUNT.
  abbrev pub count_if : (A → Bool) → List A → ℕ
  count_if p [] = 0
  count_if p (x ∷ xs) = if p x then suc (count_if p xs) else count_if p xs

  abbrev pub All {κ} : (A → Type κ) → List A → Type κ
  All P [] = Unit
  All P (x ∷ xs) = P x × All P xs

  pub count_if-append :
      (p : A → Bool) (xs ys : List A) → count_if p (xs ++ ys) ≡ count_if p xs + count_if p ys
  count_if-append p [] ys = omega arith
  count_if-append p (x ∷ xs) ys = ground (arith, count_if-append p xs ys)

  pub All-append {κ} : (P : A → Type κ) (xs ys : List A) → All P xs → All P ys → All P (xs ++ ys)
  All-append P [] ys hx hy = hy
  All-append P (x ∷ xs) ys hx hy = (hx.0, All-append P xs ys hx.1 hy)

  pub All-map {κ} :
      (P Q : A → Type κ) (f : A → A) (xs : List A)
      → ((x : A) → P x → Q (f x))
      → All P xs
      → All Q (map f xs)
  All-map P Q f [] step h = h
  All-map P Q f (x ∷ xs) step h = (step x h.0, All-map P Q f xs step h.1)

  pub All-imp {κ λ'} :
      (P : A → Type κ) (Q : A → Type λ') (xs : List A) → ((x : A) → P x → Q x) → All P xs → All Q xs
  All-imp P Q [] step h = tt
  All-imp P Q (x ∷ xs) step h = (step x h.0, All-imp P Q xs step h.1)

abbrev pub mem {ℓ} : {A : Type ℓ} ⦃e : Comparable A⦄ → A → List A → Bool
mem a [] = false
mem a (x ∷ xs) = a == x || mem a xs

-- Counting and searching.
module _ {ℓ} {A : Type ℓ} where
  pub count_if-of_any : (p : A → Bool) (xs : List A) → any p xs ≡ false → count_if p xs ≡ 0
  count_if-of_any p [] h = refl
  count_if-of_any p (x ∷ xs) h = ground (arith, count_if-of_any p xs)

  pub count_if-of_find : (p : A → Bool) (xs : List A) → find p xs ≡ none → count_if p xs ≡ 0
  count_if-of_find p [] h = refl
  count_if-of_find p (x ∷ xs) h = ground (arith, count_if-of_find p xs)

  pub count_if-map :
      (p : A → Bool) (f : A → A) (xs : List A)
      → ((x : A) → p (f x) ≡ p x)
      → count_if p (map f xs) ≡ count_if p xs
  count_if-map p f [] same = refl
  count_if-map p f (x ∷ xs) same = ground (arith, same x, count_if-map p f xs same)

  pub count_if-none : (p : A → Bool) (xs : List A) → All (λ x. p x ≡ false) xs → count_if p xs ≡ 0
  count_if-none p [] h = refl
  count_if-none p (x ∷ xs) h = ground (arith, count_if-none p xs h.1)

  pub All-find {κ} :
      (P : A → Type κ) (p : A → Bool) (xs : List A) (x : A) → All P xs → find p xs ≡ some x → P x
  All-find P p [] x h e = cc
  All-find P p (y ∷ ys) x h e = elim (Bool-cases (p y)) [
    | inl hit ↦ let q : y ≡ x = ground arith in subst P q h.0
    | inr miss ↦ All-find P p ys x h.1 (rw miss at e)
  ]

  pub any-last : (p : A → Bool) (xs : List A) (x : A) → p x ≡ true → any p (xs ++ x ∷ []) ≡ true
  any-last p [] x h = ground arith
  any-last p (y ∷ ys) x h = ground (arith, any-last p ys x)

  pub find_test : (p : A → Bool) (xs : List A) (x : A) → find p xs ≡ some x → p x ≡ true
  find_test p [] x e = cc
  find_test p (y ∷ ys) x e = ground (arith, find_test p ys x)

-- A list with no two elements of one key keeps that when an element with a new key is added.
pub count_if-snoc {ℓ κ} :
    {A : Type ℓ} {K : Type κ} ⦃e : Comparable K⦄ (key : A → K) (x : A) (xs : List A)
    → count_if (λ y. key y == key x) xs ≡ 0
    → ((k : K) → count_if (λ y. key y == k) xs ≤ 1)
    → (k : K) → count_if (λ y. key y == k) (xs ++ x ∷ []) ≤ 1
count_if-snoc {K = K} ⦃e⦄ key x xs new distinct k = elim (Bool-cases (key x == k)) [
  | inl same ↦
      let at_k : count_if (λ y. key y == k) xs ≡ 0 =
        subst (λ (j : K). count_if (λ y. key y == j) xs ≡ 0) ((e.same_iff (key x) k).0 same) new in
      ground (arith, count_if-append (λ y. key y == k) xs (x ∷ []))
  | inr other ↦ ground (arith, count_if-append (λ y. key y == k) xs (x ∷ []), distinct k)
]
