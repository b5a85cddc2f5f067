-- ===== src/Prelude/Lists.antt =====
-- Lists measured by native numbers, and a predicate on all members.
use Prim.Native.Nat.{ℕ, suc, ◌+◌}
use mathlib.Core.Path.{◌≡◌, refl, ap}
use mathlib.Core.Logic.{inl, inr}
use mathlib.Core.Bool.{Bool, true, false, ◌&&◌, ◌||◌}
use mathlib.Core.List.{List, [], ◌∷◌, ◌++◌}
use native.Mathlib.Omega.{arith}
use ib_trader.Prelude.Tests.{if◌then◌else◌, Bool-cases}

module _ {ℓ} {A : Type ℓ} where
  abbrev pub length : List A → ℕ
  length [] = 0
  length (x ∷ xs) = suc (length xs)

  pub length-append : (xs ys : List A) → length (xs ++ ys) ≡ length xs + length ys
  length-append [] ys = omega arith
  length-append (x ∷ xs) ys = omega (arith, length-append xs ys)

  abbrev pub All {κ} : (A → Type κ) → List A → Type κ
  All P [] = Unit
  All P (x ∷ xs) = P x × All P xs

  pub All-append {κ} : (P : A → Type κ) (xs ys : List A) → All P xs → All P ys → All P (xs ++ ys)
  All-append P [] ys _ q = q
  All-append P (x ∷ xs) ys (p, ps) q = (p, All-append P xs ys ps q)

  -- `[x for x in xs if p(x)]`
  abbrev pub select : (A → Bool) → List A → List A
  select p [] = []
  select p (x ∷ xs) = let rest = select p xs in if p x then x ∷ rest else rest

  pub select-append :
      (p : A → Bool) (xs ys : List A) → select p (xs ++ ys) ≡ select p xs ++ select p ys
  select-append p [] ys = refl
  select-append p (x ∷ xs) ys = elim (Bool-cases (p x)) [
    | inl h ↦ rw h (ap (λ (l : List A). x ∷ l) (select-append p xs ys))
    | inr h ↦ rw h (select-append p xs ys)
  ]

  pub select_congr :
      (p q : A → Bool) (xs : List A) → All (λ (x : A). p x ≡ q x) xs → select p xs ≡ select q xs
  select_congr p q [] _ = refl
  select_congr p q (x ∷ xs) (h, hs) = elim (Bool-cases (q x)) [
    | inl k ↦ rw (h, k) (ap (λ (l : List A). x ∷ l) (select_congr p q xs hs))
    | inr k ↦ rw (h, k) (select_congr p q xs hs)
  ]

  -- Two selections are one.
  pub select_twice :
      (p q : A → Bool) (xs : List A) → select q (select p xs) ≡ select (λ (x : A). p x && q x) xs
  select_twice p q [] = refl
  select_twice p q (x ∷ xs) = elim (Bool-cases (p x)) [
    | inl h ↦ elim (Bool-cases (q x)) [
      | inl k ↦ rw (h, k) (ap (λ (l : List A). x ∷ l) (select_twice p q xs))
      | inr k ↦ rw (h, k) (select_twice p q xs)
    ]
    | inr h ↦ rw h (select_twice p q xs)
  ]

  pub select-All {κ} :
      (p : A → Bool) (Q : A → Type κ) (xs : List A)
      → ((x : A) → p x ≡ true → Q x)
      → All Q (select p xs)
  select-All p Q [] h = tt
  select-All p Q (x ∷ xs) h = elim (Bool-cases (p x)) [
    | inl k ↦ rw k (h x k, select-All p Q xs h)
    | inr k ↦ rw k (select-All p Q xs h)
  ]

  -- `all(p(x) for x in xs)` and `any(p(x) for x in xs)`
  abbrev pub all : (A → Bool) → List A → Bool
  all p [] = true
  all p (x ∷ xs) = p x && all p xs

  abbrev pub any : (A → Bool) → List A → Bool
  any p [] = false
  any p (x ∷ xs) = p x || any p xs
