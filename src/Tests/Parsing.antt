-- ===== src/Tests/Parsing.antt =====
-- Runs of Money.parse and Money.to_decimal (src/ledgerflow/domain/money.py).
use ledgerflow.Prelude.{◌≡◌, refl, false, some, arith, String-discrete}
use ledgerflow.Prelude.Int.{pos, negsuc, ◌+ℤ◌, ◌-ℤ◌, neg, int_laws}
use ledgerflow.Exception.{ok, err, precision_error, overflow_error, decimal_overflow}
use ledgerflow.Domain.Currency.{exponents, lower}
use ledgerflow.Domain.Money.{Money, make_money, init_money}
use ledgerflow.Domain.Money.Decimal.{Decimal, finite, infinite, fix, scaleb, integer_part}
use ledgerflow.Domain.Money.Parsing.{
  decimal, parse, parse_amount, parse_scaled, parse_shifted, whole_minor, to_decimal, IsParsed,
  parse_exact, parse-to_decimal,
}

usd_lower : exponents (lower "USD") ≡ some 2
unfolding exponents lower String-discrete
usd_lower = refl

-- 84.375 dollars
parse_exact_example :
    IsParsed false 84375
      (negsuc 2 +ℤ pos 2)
      (lower "USD")
      (parse (decimal (finite false 84375 (negsuc 2))) "USD")
parse_exact_example =
    parse_exact false 84375 (negsuc 2) "USD" 2 (omega arith) (omega int_laws) (omega int_laws)
      usd_lower

abbrev debt : Money
debt = record { minor = negsuc 8436; currency = "usd" }

usd_known : exponents "usd" ≡ some 2
unfolding exponents String-discrete
usd_known = refl

parse-to_decimal_example :
    (d : Decimal) × (to_decimal debt ≡ some d) × (parse (decimal d) "usd" ≡ ok debt)
parse-to_decimal_example = parse-to_decimal debt 2 usd_known (omega arith)

-- 84.37 and 84.375 dollars, infinitely many and 1E+999999
parse_runs :
    (parse (decimal (finite false 8437 (negsuc 1))) "USD"
      ≡ ok (record { minor = pos 8437; currency = "usd" }))
    × (parse (decimal (finite false 84375 (negsuc 2))) "USD" ≡ err precision_error)
    × (parse (decimal (infinite false)) "USD" ≡ err overflow_error)
    × (parse (decimal (finite false 1 (pos 999999))) "USD" ≡ err decimal_overflow)
unfolding parse parse_amount parse_scaled parse_shifted whole_minor scaleb fix integer_part
    make_money init_money exponents lower ◌+ℤ◌ ◌-ℤ◌ neg String-discrete
parse_runs = (refl, refl, refl, refl)
