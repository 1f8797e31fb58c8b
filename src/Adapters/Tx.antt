-- ===== src/Adapters/Tx.antt =====
-- Work inside a database transaction: it reads and writes the state, or raises.
-- src/ledgerflow/adapters/db.py: what raises is rolled back by whoever opened the transaction.
pub mod Reads
use ledgerflow.Prelude.{◌≡◌, refl, Bool, true, false, Option, none, some}
use ledgerflow.Exception.{Exception, Result, ok, err}

abbrev pub Tx : Type 0 → Type 0 → Type 0
Tx S A = S → Result (A × S)

module _ {S A : Type 0} where
  abbrev pub pure : A → Tx S A
  pure a s = ok (a, s)

  abbrev pub raise : Exception → Tx S A
  raise e s = err e

  abbrev pub gets : (S → A) → Tx S A
  gets f s = ok (f s, s)

  abbrev pub lift : Result A → Tx S A
  lift (ok a) s = ok (a, s)
  lift (err e) s = err e

  abbrev pub or_raise : Option A → Exception → Tx S A
  or_raise none e s = err e
  or_raise (some a) e s = ok (a, s)

abbrev pub modify : {S : Type 0} → (S → S) → Tx S (Unit {0})
modify f s = ok (tt, f s)

abbrev pub raise_if : {S : Type 0} → Bool → Exception → Tx S (Unit {0})
raise_if true e s = err e
raise_if false e s = ok (tt, s)

infixl 5 ◌>>=◌ ◌>>◌
abbrev pub ◌>>=◌ : {S A B : Type 0} → Tx S A → (A → Tx S B) → Tx S B
◌>>=◌ m f s = elim (m s) [ ok (a, s') ↦ f a s' | err e ↦ err e ]

abbrev pub ◌>>◌ : {S A B : Type 0} → Tx S A → Tx S B → Tx S B
m >> k = m >>= λ _. k

-- Inversion of a successful bind.
pub >>=-eq_ok :
    {S A B : Type 0} (m : Tx S A) (f : A → Tx S B) (s : S) {b : B} {s'' : S}
    → (m >>= f) s ≡ ok (b, s'')
    → (a : A) × (s' : S) × (m s ≡ ok (a, s')) × (f a s' ≡ ok (b, s''))
>>=-eq_ok {S} {A} {B} m f s {b} {s''} h = go (m s) refl h
  where
    go :
        (r : Result (A × S))
        → m s ≡ r
        → ◌≡◌ {A = Result (B × S)} (elim r [ ok (a, s') ↦ f a s' | err e ↦ err e ]) (ok (b, s''))
        → (a : A) × (s' : S) × (m s ≡ ok (a, s')) × (f a s' ≡ ok (b, s''))
    go (ok (a, s')) e k = (a, s', e, k)
    go (err x) e k = absurd (cc k)

-- A bind whose first action is known.
pub >>=-of_ok :
    {S A B : Type 0} (m : Tx S A) (f : A → Tx S B) (s : S) {a : A} {s' : S}
    → m s ≡ ok (a, s')
    → (m >>= f) s ≡ f a s'
>>=-of_ok m f s h = rw (◌>>=◌, h) refl

pub >>=-of_err :
    {S A B : Type 0} (m : Tx S A) (f : A → Tx S B) (s : S) {e : Exception}
    → m s ≡ err e
    → (m >>= f) s ≡ err e
>>=-of_err m f s h = rw (◌>>=◌, h) refl
