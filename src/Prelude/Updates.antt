-- ===== src/Prelude/Updates.antt =====
-- What an update of the rows that pass a test does to the tests and the length of a list.
use ledgerflow.Prelude.Tests.{Bool-cases, if◌then◌else◌}
use Prim.Native.Nat.{suc}
use mathlib.Core.Bool.{Bool, true, false, ◌||◌}
use mathlib.Core.Path.{◌∙◌, ◌≡◌, refl, ap}
use mathlib.Core.Logic.{inl, inr}
use mathlib.Core.List.{List, [], ◌∷◌}
use mathlib.Core.Option.{some}
use ledgerflow.Prelude.Lists.{any, find, update_where, length}

module _ {ℓ} {A : Type ℓ} where
  -- An update that keeps the test changes the row that is found, and no row before it is found.
  pub find-update_where :
      (p q : A → Bool) (f : A → A) (xs : List A) (x : A)
      → ((y : A) → p (f y) ≡ p y)
      → q x ≡ true
      → find p xs ≡ some x
      → find p (update_where q f xs) ≡ some (f x)
  unfolding find update_where
  find-update_where p q f [] x keeps hit h = absurd (cc h)
  find-update_where p q f (y ∷ ys) x keeps hit h = elim (Bool-cases (p y)) [
    | inl here ↦
        let same : y ≡ x = cc (rw here at h) in
        rw (ap q same ∙ hit) (rw (keeps y ∙ here) (ap (λ (z : A). some (f z)) same))
    | inr later ↦ rw (still (q y) ∙ later) (find-update_where p q f ys x keeps hit (rw later at h))
  ]
    where
      still : (b : Bool) → p (if b then f y else y) ≡ p y
      still true = keeps y
      still false = refl

  -- An update of other rows than those of a test that it keeps leaves what the test finds.
  pub find-update_where_other :
      (p q : A → Bool) (f : A → A) (xs : List A)
      → ((y : A) → p (f y) ≡ p y)
      → ((y : A) → p y ≡ true → q y ≡ false)
      → find p (update_where q f xs) ≡ find p xs
  unfolding find update_where
  find-update_where_other p q f [] keeps other = refl
  find-update_where_other p q f (y ∷ ys) keeps other = elim (Bool-cases (p y)) [
    | inl here ↦ rw (other y here) (rw here refl)
    | inr later ↦ rw (still (q y) ∙ later) (rw later (find-update_where_other p q f ys keeps other))
  ]
    where
      still : (b : Bool) → p (if b then f y else y) ≡ p y
      still true = keeps y
      still false = refl

  pub any-update_where :
      (p q : A → Bool) (f : A → A) (xs : List A)
      → ((y : A) → p (f y) ≡ p y)
      → any p (update_where q f xs) ≡ any p xs
  unfolding any update_where
  any-update_where p q f [] keeps = refl
  any-update_where p q f (y ∷ ys) keeps =
      rw (any-update_where p q f ys keeps) (ap (λ (b : Bool). b || any p ys) (still (q y)))
    where
      still : (b : Bool) → p (if b then f y else y) ≡ p y
      still true = keeps y
      still false = refl

  pub length-update_where :
      (q : A → Bool) (f : A → A) (xs : List A) → length (update_where q f xs) ≡ length xs
  unfolding update_where
  length-update_where q f [] = refl
  length-update_where q f (x ∷ xs) = ap suc (length-update_where q f xs)
