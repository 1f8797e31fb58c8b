-- ===== src/Prelude/Lists.antt =====
-- Lists measured by native numbers, and predicates on every element.
use ledgerflow.Prelude.Tests.{Bool-cases, if◌then◌else◌}
use Prim.Native.Nat.{ℕ, zero, suc, ◌+◌, ◌≤◌}
use mathlib.Core.Bool.{Bool, true, false, ◌||◌, ◌&&◌}
use mathlib.Core.Path.{◌∙◌, ◌≡◌, refl, ap}
use mathlib.Core.Logic.{inl, inr}
use mathlib.Core.List.{List, [], ◌∷◌, ◌++◌}
use mathlib.Core.Option.{Option, none, some}
use native.Mathlib.Omega.{arith}

module _ {ℓ} {A : Type ℓ} where
  abbrev pub length : List A → ℕ
  length [] = 0
  length (x ∷ xs) = suc (length xs)

  abbrev pub get_elem? : List A → ℕ → Option A
  get_elem? [] i = none
  get_elem? (x ∷ xs) zero = some x
  get_elem? (x ∷ xs) (suc i) = get_elem? xs i

  abbrev pub take : ℕ → List A → List A
  take zero xs = []
  take (suc n) [] = []
  take (suc n) (x ∷ xs) = x ∷ take n xs

  pub length-append : (xs ys : List A) → length (xs ++ ys) ≡ length xs + length ys
  length-append [] ys = omega arith
  length-append (x ∷ xs) ys = omega (arith, length-append xs ys)

abbrev pub All {ℓ κ} : {A : Type ℓ} → (A → Type κ) → List A → Type κ
All P [] = Unit
All P (x ∷ xs) = P x × All P xs

pub All-append {ℓ κ} :
    {A : Type ℓ} (P : A → Type κ) (xs ys : List A) → All P xs → All P ys → All P (xs ++ ys)
All-append P [] ys hx hy = hy
All-append P (x ∷ xs) ys hx hy = (hx.0, All-append P xs ys hx.1 hy)

-- The rows of a table that satisfy a test, as SQL's WHERE and Python's comprehensions pick them.
module _ {ℓ} {A : Type ℓ} where
  unfoldable pub any : (A → Bool) → List A → Bool
  any p [] = false
  any p (x ∷ xs) = p x || any p xs

  unfoldable pub find : (A → Bool) → List A → Option A
  find p [] = none
  find p (x ∷ xs) = if p x then some x else find p xs

  unfoldable pub select : (A → Bool) → List A → List A
  select p [] = []
  select p (x ∷ xs) = let rest = select p xs in if p x then x ∷ rest else rest

  -- UPDATE … SET … WHERE
  unfoldable pub update_where : (A → Bool) → (A → A) → List A → List A
  update_where p f [] = []
  update_where p f (x ∷ xs) = (if p x then f x else x) ∷ update_where p f xs

  pub find-holds : (p : A → Bool) (xs : List A) (x : A) → find p xs ≡ some x → p x ≡ true
  unfolding find
  find-holds p [] x h = cc
  find-holds p (y ∷ ys) x h = ground (arith, find-holds p ys x)

  pub any-of_find : (p : A → Bool) (xs : List A) (x : A) → find p xs ≡ some x → any p xs ≡ true
  unfolding find any
  any-of_find p [] x h = absurd (cc h)
  any-of_find p (y ∷ ys) x h = elim (Bool-cases (p y)) [
    | inl here ↦ rw here
    | inr later ↦ rw later (any-of_find p ys x (rw later at h))
  ]

  pub find-append :
      (p : A → Bool) (xs ys : List A) (x : A) → find p xs ≡ some x → find p (xs ++ ys) ≡ some x
  unfolding find
  find-append p [] ys x h = absurd (cc h)
  find-append p (z ∷ xs) ys x h = elim (Bool-cases (p z)) [
    | inl here ↦ rw here (rw here at h)
    | inr later ↦ rw later (find-append p xs ys x (rw later at h))
  ]

  -- A row behind rows that fail the test.
  pub find-last :
      (p : A → Bool) (xs : List A) (x : A)
      → any p xs ≡ false
      → p x ≡ true
      → find p (xs ++ x ∷ []) ≡ some x
  unfolding find any
  find-last p [] x none_before here = rw here
  find-last p (y ∷ ys) x none_before here = elim (Bool-cases (p y)) [
    | inl there ↦ absurd (cc (rw there at none_before))
    | inr later ↦ rw later (find-last p ys x (rw later at none_before) here)
  ]

  -- The row that is found passes a stricter test, so that test finds it as well.
  pub find-refine :
      (p q : A → Bool) (xs : List A) (x : A)
      → ((y : A) → p y ≡ false → q y ≡ false)
      → q x ≡ true
      → find p xs ≡ some x
      → find q xs ≡ some x
  unfolding find
  find-refine p q [] x only passes h = absurd (cc h)
  find-refine p q (y ∷ ys) x only passes h = elim (Bool-cases (p y)) [
    | inl here ↦ let same : y ≡ x = cc (rw here at h) in rw (ap q same ∙ passes) (ap some same)
    | inr later ↦ rw (only y later) (find-refine p q ys x only passes (rw later at h))
  ]

  pub find-of_any : (p : A → Bool) (xs : List A) → any p xs ≡ true → (x : A) × (find p xs ≡ some x)
  unfolding find any
  find-of_any p [] h = absurd (cc h)
  find-of_any p (y ∷ ys) h = elim (Bool-cases (p y)) [
    | inl here ↦ (y, rw here)
    | inr later ↦ let (x, found) = find-of_any p ys (rw later at h) in (x, rw later found)
  ]

  pub take-all : (n : ℕ) (xs : List A) → length xs ≤ n → take n xs ≡ xs
  take-all zero [] h = refl
  take-all (suc n) [] h = refl
  take-all zero (x ∷ xs) h = absurd (omega arith)
  take-all (suc n) (x ∷ xs) h = ap (λ (t : List A). x ∷ t) (take-all n xs (omega arith))

  pub select-select :
      (p q : A → Bool) (xs : List A) → select (λ x. p x && q x) xs ≡ select p (select q xs)
  unfolding select
  select-select p q [] = refl
  select-select p q (x ∷ xs) = elim (Bool-cases (q x)) [
    | inl kept ↦ elim (Bool-cases (p x)) [
      | inl both ↦ rw kept (rw both (ap (λ (t : List A). x ∷ t) (select-select p q xs)))
      | inr first ↦ rw kept (rw first (select-select p q xs))
    ]
    | inr dropped ↦ elim (Bool-cases (p x)) [
      | inl here ↦ rw dropped (rw here (select-select p q xs))
      | inr neither ↦ rw dropped (rw neither (select-select p q xs))
    ]
  ]

  pub select-append :
      (p : A → Bool) (xs ys : List A) → select p (xs ++ ys) ≡ select p xs ++ select p ys
  unfolding select
  select-append p [] ys = refl
  select-append p (x ∷ xs) ys = ground (arith, select-append p xs ys)

  pub take-append : (n : ℕ) (xs : List A) → (rest : List A) × (xs ≡ take n xs ++ rest)
  take-append zero xs = (xs, refl)
  take-append (suc n) [] = ([], refl)
  take-append (suc n) (x ∷ xs) =
      let (rest, split) = take-append n xs in (rest, ap (λ (t : List A). x ∷ t) split)

  pub any-last : (p : A → Bool) (xs : List A) (x : A) → p x ≡ true → any p (xs ++ x ∷ []) ≡ true
  unfolding any
  any-last p [] x h = rw h
  any-last p (y ∷ ys) x h = elim (Bool-cases (p y)) [
    | inl here ↦ rw here
    | inr later ↦ rw later (any-last p ys x h)
  ]

  -- A weaker test holds of no row where the stronger one holds of none.
  pub any-weaker :
      (p q : A → Bool) (xs : List A)
      → ((x : A) → q x ≡ false → p x ≡ false)
      → any q xs ≡ false
      → any p xs ≡ false
  unfolding any
  any-weaker p q [] only h = refl
  any-weaker p q (x ∷ xs) only h = elim (Bool-cases (q x)) [
    | inl here ↦ absurd (cc (rw here at h))
    | inr there ↦ rw (only x there) (any-weaker p q xs only (rw there at h))
  ]
