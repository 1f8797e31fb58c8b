-- ===== src/Domain/Money/Laws.antt =====
-- Arithmetic of src/ledgerflow/domain/money.py: what each operation returns on values of `Money`.
use ledgerflow.Prelude.{String, ◌≡◌, ◌≢◌, none, arith}
use ledgerflow.Prelude.Int.{ℤ, ◌+ℤ◌, ◌-ℤ◌, neg, int_laws}
use ledgerflow.Exception.{ok, err, ◌>>=◌, currency_mismatch}
use ledgerflow.Domain.Currency.{exponents, lower_of_supported}
use ledgerflow.Domain.Money.{
  Money, make_money, add, sub, negate, lt_money, le_money, gt_money, ge_money,
}

-- What every value of the class satisfies: its currency is a supported code.
abbrev pub IsMoney : Money → Type 0
IsMoney m = exponents m.currency ≢ none

pub make_money-supported :
    (z : ℤ) (c : String)
    → exponents c ≢ none
    → make_money z c ≡ ok (record { minor = z; currency = c })
unfolding make_money
make_money-supported z c h = ground (arith, lower_of_supported c h)

pub make_money-IsMoney : (z : ℤ) (c : String) {m : Money} → make_money z c ≡ ok m → IsMoney m
unfolding make_money
make_money-IsMoney z c e = ground arith

pub make_money-minor : (z : ℤ) (c : String) {m : Money} → make_money z c ≡ ok m → m.minor ≡ z
unfolding make_money
make_money-minor z c e = ground arith

-- Sums of two amounts in one supported currency.
pub add_lem :
    (a b : Money)
    → IsMoney a
    → a.currency ≡ b.currency
    → add a b ≡ ok (record { minor = a.minor +ℤ b.minor; currency = a.currency })
unfolding add
add_lem a b h e = ground (arith, make_money-supported (a.minor +ℤ b.minor) a.currency h)

pub negate_lem :
    (a : Money) → IsMoney a → negate a ≡ ok (record { minor = neg a.minor; currency = a.currency })
unfolding negate
negate_lem a h = make_money-supported (neg a.minor) a.currency h

pub add-sub :
    (a b : Money) → IsMoney a → a.currency ≡ b.currency → (add a b >>= λ s. sub s b) ≡ ok a
unfolding sub
add-sub a b h e =
    rw (add_lem a b h e)
      (ground (arith, make_money-supported (a.minor +ℤ b.minor -ℤ b.minor) a.currency h, cancel))
  where
    cancel : a.minor +ℤ b.minor -ℤ b.minor ≡ a.minor
    cancel = omega int_laws

-- On two amounts of different currencies, addition, subtraction and the four comparisons all raise
-- CurrencyMismatch.
pub different_currencies :
    (a b : Money)
    → a.currency ≢ b.currency
    → (add a b ≡ err currency_mismatch)
      × (sub a b ≡ err currency_mismatch)
      × (lt_money a b ≡ err currency_mismatch)
      × (le_money a b ≡ err currency_mismatch)
      × (gt_money a b ≡ err currency_mismatch)
      × (ge_money a b ≡ err currency_mismatch)
unfolding add sub lt_money le_money gt_money ge_money
different_currencies a b h =
    (ground arith, ground arith, ground arith, ground arith, ground arith, ground arith)
