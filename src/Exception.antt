-- ===== src/Exception.antt =====
-- The exceptions that the code raises, and results that carry one.
-- src/ledgerflow/domain (money.py, ledger.py, posting.py), src/ledgerflow/application/errors.py,
-- and the errors of the language and of the database that pass through unhandled.
use ledgerflow.Prelude.{◌≡◌, refl, Bool, true, false}

pub data Exception : Type 0 where
  -- domain/money.py
  money_error unsupported_currency precision_error currency_mismatch : Exception
  -- domain/ledger.py and domain/posting.py
  unbalanced invalid_entry ledger_error unknown_posting_kind : Exception
  -- application/errors.py
  not_found account_not_found insufficient_funds currency_mismatch_error : Exception
  idempotency_key_reuse request_in_flight already_reversed transaction_declined : Exception
  -- raised by Python
  value_error key_error overflow_error : Exception
  -- decimal.Overflow, an ArithmeticError
  decimal_overflow : Exception
  -- raised by the database driver
  integrity_error : Exception

pub data Result {ℓ} (A : Type ℓ) : Type ℓ where
  ok : A → Result A
  err : Exception → Result A

module _ {ℓ κ} {X : Type ℓ} {Y : Type κ} where
  infixl 5 ◌>>=◌
  -- What comes after is run on the value, and skipped on an exception.
  abbrev pub ◌>>=◌ : Result X → (X → Result Y) → Result Y
  ok x >>= next = next x
  err e >>= next = err e

  -- Inversion of a successful bind, for proofs where the parts stay shut.
  pub >>=-eq_ok :
      (first : Result X) (next : X → Result Y) {y : Y}
      → (first >>= next) ≡ ok y
      → (x : X) × (first ≡ ok x) × (next x ≡ ok y)
  >>=-eq_ok (err e) next done = absurd (cc done)
  >>=-eq_ok (ok x) next done = (x, refl, done)

infixl 5 ◌>>◌
abbrev pub ◌>>◌ {ℓ} : {Y : Type ℓ} → Result (Unit {0}) → Result Y → Result Y
check >> next = check >>= λ _. next

-- `if c: raise e`
abbrev pub raise_if : Bool → Exception → Result (Unit {0})
raise_if true e = err e
raise_if false e = ok tt
