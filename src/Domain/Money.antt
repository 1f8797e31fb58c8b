-- ===== src/Domain/Money.antt =====
-- src/ledgerflow/domain/money.py: integer minor units and a currency.
pub mod Laws
pub mod Decimal
pub mod Parsing
use ledgerflow.Prelude.{ℕ, String, Bool, Option, none, some, ◌==◌, not, if◌then◌else◌}
use ledgerflow.Prelude.Int.{ℤ, pos, ◌+ℤ◌, ◌-ℤ◌, neg, abs, ltb_ℤ, leb_ℤ, eq_ℤ}
use ledgerflow.Exception.{
  Exception, Result, ok, err, ◌>>=◌, ◌>>◌, raise_if, money_error, unsupported_currency,
  currency_mismatch,
}
use ledgerflow.Domain.Currency.{exponents, lower}

pub record Money : Type 0 where
  pub minor : ℤ
  pub currency : String

-- What a caller may pass for `minor`: an int, a bool (which Python counts as an int), or another type.
pub data MinorArg : Type 0 where
  int : ℤ → MinorArg
  bool : Bool → MinorArg
  other : MinorArg

-- `normalized not in EXPONENTS`
supported : String → ℤ → Option ℕ → Result Money
supported normalized minor none = err unsupported_currency
supported normalized minor (some _) = ok (record { minor = minor; currency = normalized })

-- Money.__post_init__
unfoldable pub init_money : MinorArg → String → Result Money
unfolding supported
init_money (int minor) currency = supported (lower currency) minor (exponents (lower currency))
init_money (bool _) currency = err money_error
init_money other currency = err money_error

-- Money(minor, currency), where the argument is an int
unfoldable pub make_money : ℤ → String → Result Money
unfolding init_money
make_money minor currency = init_money (int minor) currency

-- Money.zero
unfoldable pub zero_money : String → Result Money
unfolding make_money
zero_money currency = make_money (pos 0) currency

-- Money._same
unfoldable pub same : Money → Money → Result (Unit {0})
same a b = raise_if (not (a.currency == b.currency)) currency_mismatch

-- Money.__add__
unfoldable pub add : Money → Money → Result Money
unfolding same
add a b = do same a b; make_money (a.minor +ℤ b.minor) a.currency

-- Money.__sub__
unfoldable pub sub : Money → Money → Result Money
unfolding same
sub a b = do same a b; make_money (a.minor -ℤ b.minor) a.currency

-- Money.__neg__
unfoldable pub negate : Money → Result Money
negate a = make_money (neg a.minor) a.currency

-- Money.__abs__
unfoldable pub absolute : Money → Result Money
absolute a = make_money (abs a.minor) a.currency

-- Money.__lt__, __le__, __gt__ and __ge__
pub lt_money : Money → Money → Result Bool
unfolding same
lt_money a b = do same a b; ok (ltb_ℤ a.minor b.minor)

pub le_money : Money → Money → Result Bool
unfolding same
le_money a b = do same a b; ok (leb_ℤ a.minor b.minor)

pub gt_money : Money → Money → Result Bool
unfolding same
gt_money a b = do same a b; ok (ltb_ℤ b.minor a.minor)

pub ge_money : Money → Money → Result Bool
unfolding same
ge_money a b = do same a b; ok (leb_ℤ b.minor a.minor)

-- Money.is_zero and is_positive
unfoldable pub is_zero : Money → Bool
is_zero a = eq_ℤ a.minor (pos 0)

unfoldable pub is_positive : Money → Bool
is_positive a = ltb_ℤ (pos 0) a.minor
