-- ===== src/Domain/Money/Parsing.antt =====
-- Money.parse and Money.to_decimal of src/ledgerflow/domain/money.py.
use Prim.Native.Nat.{suc}
use native.Mathlib.Nat.{div-add-mod', mul-mod_left}
use ledgerflow.Prelude.{
  ℕ, ◌+◌, ◌*◌, ◌/◌, ◌%◌, ◌^◌, ◌<◌, ◌≤◌, String, ◌≡◌, ◌≢◌, ◌⊎◌, inl, inr, refl, sym, subst, ap, ◌∙◌,
  Bool, true, false, Option, none, some, nat_eq, Bool-cases, arith,
}
use ledgerflow.Prelude.Int.{ℤ, pos, negsuc, pos_part, neg_part, ◌+ℤ◌, ◌≤ℤ◌, neg, int_laws}
use ledgerflow.Exception.{
  Result, ok, err, money_error, unsupported_currency, precision_error, overflow_error,
  decimal_overflow,
}
use ledgerflow.Domain.Currency.{exponents, lower, lower_of_supported}
use ledgerflow.Domain.Money.{Money, init_money, supported, make_money}
use ledgerflow.Domain.Money.Decimal.{
  Decimal, finite, infinite, not_a_number, e_tiny, e_top, fix_exact, scaleb, integer_part,
  with_sign,
}

-- What a caller may pass for `amount`: a float, what Decimal() refuses, or what it reads.
pub data Amount : Type 0 where
  float : Amount
  unreadable : Amount
  decimal : Decimal → Amount

-- `if shifted != shifted.to_integral_value()`, and `cls(int(shifted), code)`
unfoldable pub whole_minor : Bool → Bool × ℕ → String → Result Money
whole_minor negative (true, n) code = make_money (with_sign negative n) code
whole_minor negative (false, n) code = err precision_error

unfoldable pub parse_shifted : Decimal → String → Result Money
parse_shifted (finite negative n exponent) code =
    whole_minor negative (integer_part n exponent) code
parse_shifted (infinite negative) code = err overflow_error
parse_shifted not_a_number code = err precision_error

-- `value.scaleb(exponent)` may raise decimal.Overflow
unfoldable pub parse_scaled : Option Decimal → String → Result Money
parse_scaled none code = err decimal_overflow
parse_scaled (some d) code = parse_shifted d code

unfoldable pub parse_amount : Amount → String → Option ℕ → Result Money
parse_amount amount code none = err unsupported_currency
parse_amount float code (some x) = err precision_error
parse_amount unreadable code (some x) = err money_error
parse_amount (decimal d) code (some x) = parse_scaled (scaleb d (pos x)) code

-- Money.parse
unfoldable pub parse : Amount → String → Result Money
parse amount currency = parse_amount amount (lower currency) (exponents (lower currency))

-- Decimal(minor)
abbrev pub unscaled : ℤ → Decimal
unscaled (pos n) = finite false n (pos 0)
unscaled (negsuc n) = finite true (suc n) (pos 0)

-- Money.to_decimal; none is the KeyError on a currency that no Money has, or decimal.Overflow
unfoldable pub to_decimal : Money → Option Decimal
to_decimal m = elim (exponents m.currency) [
  | none ↦ none
  | some x ↦ scaleb (unscaled m.minor) (neg (pos x))
]

-- The value of a finite decimal, in minor units of a currency with `x` places, is the whole number `m`:
-- n * 10^(exponent + x) = m, with the power on the side where it is a natural number.
abbrev pub IsWorth : ℕ → ℤ → ℕ → Type 0
IsWorth n (pos k) m = m ≡ n * 10 ^ k
IsWorth n (negsuc k) m = m * 10 ^ suc k ≡ n

-- The outcome of parse on a finite decimal: the whole number of minor units that it is worth, or the
-- refusal of one that is worth no whole number.
abbrev pub IsParsed : Bool → ℕ → ℤ → String → Result Money → Type 0
IsParsed negative n shift code r =
    ((m : ℕ) × IsWorth n shift m
      × (r ≡ ok (record { minor = with_sign negative m; currency = code })))
    ⊎ (((m : ℕ) → IsWorth n shift m → ⊥) × (r ≡ err precision_error))

exact : (n d : ℕ) → n % d ≡ 0 → n / d * d ≡ n
exact n d h = omega (arith, div-add-mod' n d, h)

inexact : (n d m : ℕ) → n % d ≢ 0 → m * d ≢ n
inexact n d m h e = h (ap (λ t. t % d) (sym e) ∙ mul-mod_left m d)

supported_code :
    (minor : ℤ) (code : String) (x : ℕ)
    → exponents code ≡ some x
    → make_money minor code ≡ ok (record { minor = minor; currency = code })
unfolding make_money init_money supported
supported_code minor code x h =
    rw (lower_of_supported code (λ none_there. absurd (cc (sym none_there ∙ h)))) (rw h refl)

whole_minor-IsParsed :
    (negative : Bool) (n : ℕ) (shift : ℤ) (code : String) (x : ℕ)
    → exponents code ≡ some x
    → IsParsed negative n shift code (whole_minor negative (integer_part n shift) code)
unfolding whole_minor integer_part
whole_minor-IsParsed negative n (pos k) code x h =
    inl (n * 10 ^ k, refl, supported_code (with_sign negative (n * 10 ^ k)) code x h)
whole_minor-IsParsed negative n (negsuc k) code x h =
    elim (Bool-cases (nat_eq (n % 10 ^ suc k) 0)) [
      | inl even ↦ inl (
        n / 10 ^ suc k,
        exact n (10 ^ suc k) (ground arith),
        rw even (supported_code (with_sign negative (n / 10 ^ suc k)) code x h),
      )
      | inr odd ↦ inr (λ m e. inexact n (10 ^ suc k) m (ground arith) e, rw odd refl)
    ]

-- A decimal of at most 28 digits, with an exponent of the context, comes to its integer part.
parse-whole_minor :
    (negative : Bool) (n : ℕ) (exponent : ℤ) (currency : String) (x : ℕ)
    → n < 10 ^ 28
    → e_tiny ≤ℤ exponent +ℤ pos x
    → exponent +ℤ pos x ≤ℤ e_top
    → exponents (lower currency) ≡ some x
    → parse (decimal (finite negative n exponent)) currency
      ≡ whole_minor negative (integer_part n (exponent +ℤ pos x)) (lower currency)
unfolding parse parse_amount parse_scaled parse_shifted scaleb
parse-whole_minor negative n exponent currency x small low high known =
    ap (parse_amount (decimal (finite negative n exponent)) (lower currency)) known
    ∙ ap (λ d. parse_scaled d (lower currency))
        (fix_exact negative n (exponent +ℤ pos x) small low high)

-- Parsing a finite decimal of at most 28 digits in a supported currency gives exactly the minor
-- units that it is worth, or is refused with PrecisionError where it is worth no whole number of
-- them, if its exponent, counted in minor units, is from -1000026 to 999972, which are Etiny and
-- Etop of the decimal context.
pub parse_exact :
    (negative : Bool) (n : ℕ) (exponent : ℤ) (currency : String) (x : ℕ)
    → n < 10 ^ 28
    → e_tiny ≤ℤ exponent +ℤ pos x
    → exponent +ℤ pos x ≤ℤ e_top
    → exponents (lower currency) ≡ some x
    → IsParsed negative n
        (exponent +ℤ pos x)
        (lower currency)
        (parse (decimal (finite negative n exponent)) currency)
parse_exact negative n exponent currency x small low high known =
    subst (IsParsed negative n (exponent +ℤ pos x) (lower currency))
      (sym (parse-whole_minor negative n exponent currency x small low high known))
      (whole_minor-IsParsed negative n (exponent +ℤ pos x) (lower currency) x known)

level : (x : ℕ) → (pos 0 +ℤ neg (pos x)) +ℤ pos x ≡ pos 0
level x = omega int_laws

-- The decimal of a sign and a magnitude, and its way back.
there_and_back :
    (negative : Bool) (n : ℕ) (code : String) (x : ℕ)
    → exponents code ≡ some x
    → n < 10 ^ 28
    → parse (decimal (finite negative n (pos 0 +ℤ neg (pos x)))) code
      ≡ ok (record { minor = with_sign negative n; currency = code })
unfolding whole_minor integer_part
there_and_back negative n code x known small =
    let same : lower code ≡ code =
      lower_of_supported code (λ none_there. absurd (cc (sym none_there ∙ known))) in
    parse-whole_minor negative n (pos 0 +ℤ neg (pos x)) code x small
      (subst (λ (e : ℤ). e_tiny ≤ℤ e) (sym (level x)) (omega arith))
      (subst (λ (e : ℤ). e ≤ℤ e_top) (sym (level x)) (omega arith)) (ap exponents same ∙ known)
    ∙ ap (λ e. whole_minor negative (integer_part n e) (lower code)) (level x)
    ∙ ap (λ c. make_money (with_sign negative (n * 10 ^ 0)) c) same
    ∙ supported_code (with_sign negative (n * 10 ^ 0)) code x known
    ∙ ap (λ k. ok (record { minor = with_sign negative k; currency = code })) (once n)
  where
    once : (n : ℕ) → n * 10 ^ 0 ≡ n
    once n = omega arith

decimal_of :
    (m : Money) (x : ℕ)
    → exponents m.currency ≡ some x
    → to_decimal m ≡ scaleb (unscaled m.minor) (neg (pos x))
unfolding to_decimal
decimal_of m x known = rw (known, to_decimal) refl

back :
    (minor : ℤ) (code : String) (x : ℕ)
    → exponents code ≡ some x
    → pos_part minor + neg_part minor < 10 ^ 28
    → x ≤ 1000026
    → (d : Decimal) × (scaleb (unscaled minor) (neg (pos x)) ≡ some d)
      × (parse (decimal d) code ≡ ok (record { minor = minor; currency = code }))
unfolding scaleb
back (pos n) code x known small near = (
  _,
  fix_exact false n _ (omega arith) (omega int_laws) (omega int_laws),
  there_and_back false n code x known (omega arith),
)
back (negsuc n) code x known small near = (
  _,
  fix_exact true (suc n) _ (omega arith) (omega int_laws) (omega int_laws),
  there_and_back true (suc n) code x known (omega arith)
      ∙ ap (λ k. ok (record { minor = k; currency = code })) (minus n),
)
  where
    minus : (n : ℕ) → neg (pos (suc n)) ≡ negsuc n
    minus n = omega int_laws

few_places : (code : String) (x : ℕ) → exponents code ≡ some x → x ≤ 1000026
unfolding exponents
few_places code x known = ground arith

-- What to_decimal shows of an amount of a supported currency, below 10^28 in magnitude, is parsed
-- back to the amount.
pub parse-to_decimal :
    (m : Money) (x : ℕ)
    → exponents m.currency ≡ some x
    → pos_part m.minor + neg_part m.minor < 10 ^ 28
    → (d : Decimal) × (to_decimal m ≡ some d) × (parse (decimal d) m.currency ≡ ok m)
parse-to_decimal m x known small =
    let (d, scaled, again) =
      back m.minor m.currency x known small (few_places m.currency x known) in
    (d, decimal_of m x known ∙ scaled, again)
