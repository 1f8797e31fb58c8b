-- ===== src/Adapters/Tx/Reads.antt =====
-- Actions that write nothing, one rule for each way to build one.
use ledgerflow.Prelude.{◌≡◌, ◌∙◌, subst, Bool, true, false, Option, none, some, if◌then◌else◌}
use ledgerflow.Exception.{Exception, Result, ok, err}
use ledgerflow.Adapters.Tx.{Tx, pure, gets, lift, or_raise, raise_if, ◌>>=◌, >>=-eq_ok}

-- Where the action succeeds, the state is the one before it.
pub record Reads {S A : Type 0} (m : Tx S A) : Type 0 where
  pub at : (s : S) (a : A) (s' : S) → m s ≡ ok (a, s') → s' ≡ s

module _ {S A : Type 0} where
  pub Reads-pure : (a : A) → Reads {S = S} (pure a)
  Reads-pure a = record { at = λ s b s' h. cc }

  pub Reads-gets : (f : S → A) → Reads (gets f)
  Reads-gets f = record { at = λ s b s' h. cc }

  pub Reads-lift : (r : Result A) → Reads {S = S} (lift r)
  Reads-lift (ok a) = record { at = λ s b s' h. cc }
  Reads-lift (err e) = record { at = λ s b s' h. absurd (cc h) }

  pub Reads-or_raise : (o : Option A) (e : Exception) → Reads {S = S} (or_raise o e)
  Reads-or_raise none e = record { at = λ s b s' h. absurd (cc h) }
  Reads-or_raise (some a) e = record { at = λ s b s' h. cc }

  pub Reads-if : (b : Bool) (m n : Tx S A) → Reads m → Reads n → Reads (if b then m else n)
  Reads-if true m n rm rn = rm
  Reads-if false m n rm rn = rn

pub Reads-raise_if : {S : Type 0} (b : Bool) (e : Exception) → Reads {S = S} (raise_if b e)
Reads-raise_if true e = record { at = λ s b s' h. absurd (cc h) }
Reads-raise_if false e = record { at = λ s b s' h. cc }

pub Reads-bind :
    {S A B : Type 0} (m : Tx S A) (f : A → Tx S B)
    → Reads m
    → ((a : A) → Reads (f a))
    → Reads (m >>= f)
Reads-bind m f rm rf = record {
  at = λ s b s'' h. let (a, s', e, k) = >>=-eq_ok m f s h in (rf a).at s' b s'' k ∙ rm.at s a s' e;
}

pub ruleset reads_rules =
    (Reads-pure, Reads-gets, Reads-lift, Reads-or_raise, Reads-if, Reads-raise_if, Reads-bind)

-- Inversion of a successful bind whose first action writes nothing.
pub Reads-eq_ok :
    {S A B : Type 0} (m : Tx S A) (f : A → Tx S B) (s : S) {b : B} {s'' : S}
    → Reads m
    → (m >>= f) s ≡ ok (b, s'')
    → (a : A) × (m s ≡ ok (a, s)) × (f a s ≡ ok (b, s''))
Reads-eq_ok m f s {b} {s''} r h =
    let (a, s', e, k) = >>=-eq_ok m f s h in
    let same = r.at s a s' e in
    (a, subst (λ t. m s ≡ ok (a, t)) same e, subst (λ t. f a t ≡ ok (b, s'')) same k)

-- The value and the state of a success are determined.
pub ok-injective :
    {S A : Type 0} {a b : A} {s t : S}
    → ◌≡◌ {A = Result (A × S)} (ok (a, s)) (ok (b, t))
    → (a ≡ b) × (s ≡ t)
ok-injective h = (cc h, cc h)
