-- ===== src/Domain/Money/Decimal.antt =====
-- The values of Python's `decimal.Decimal` and the operations that src/ledgerflow/domain/money.py calls,
-- under the default context: 28 digits, half to even.
use Prim.Native.Nat.{zero, suc}
use ledgerflow.Prelude.{
  Option, none, some, sym, ℕ, ◌≤◌, Bool-cases, ◌∙◌, inl, inr, ◌<◌, ◌≡◌, refl, ap, arith, ◌+◌, ◌*◌,
  ◌/◌, ◌%◌, ◌^◌, Bool, true, false, ◌&&◌, ◌||◌, ltb, nat_eq, if◌then◌else◌,
}
use ledgerflow.Prelude.Int.{
  ℤ, pos, negsuc, ◌+ℤ◌, ◌-ℤ◌, ◌≤ℤ◌, neg, pos_part, ltb_ℤ, leb_ℤ, +ℤ_parts, -ℤ_parts,
}

-- A quiet NaN is the only one here; a signalling one raises in every operation.
pub data Decimal : Type 0 where
  finite : (negative : Bool) → (coefficient : ℕ) → (exponent : ℤ) → Decimal
  infinite : Bool → Decimal
  not_a_number : Decimal

-- Etiny, Etop and Emax of the context: prec = 28, Emin = -999999, Emax = 999999.
abbrev pub e_tiny : ℤ
e_tiny = negsuc 1000025

abbrev pub e_top : ℤ
e_top = pos 999972

abbrev e_max : ℤ
e_max = pos 999999

-- The number of decimal digits, by division, on fuel that the number itself covers.
digits : ℕ → ℕ → ℕ
digits zero n = 1
digits (suc fuel) n = elim (ltb n 10) [ true ↦ 1 | false ↦ suc (digits fuel (n / 10)) ]

-- The fuel is enough: the number has no further digit.
digits_enough : (fuel n : ℕ) → n ≤ fuel → n < 10 ^ digits fuel n
unfolding digits
digits_enough zero n h = omega arith
digits_enough (suc fuel) n h = elim (Bool-cases (ltb n 10)) [
  | inl small ↦ rw (small, digits) (ground arith)
  | inr large ↦
      rw (large, digits)
        (tenfold (digits fuel (n / 10)) (digits_enough fuel (n / 10) (ground arith)))
]
  where
    tenfold : (k : ℕ) → n / 10 < 10 ^ k → n < 10 ^ suc k
    tenfold k less = omega arith

-- n / 10^k, half to even
divide_half_even : ℕ → ℕ → ℕ
divide_half_even n k =
    let q = n / 10 ^ k in
    let twice = 2 * (n % 10 ^ k) in
    if ltb (10 ^ k) twice || (nat_eq twice (10 ^ k) && nat_eq (q % 2) 1) then q + 1 else q

-- A result within the context, or decimal.Overflow.
within : Bool → ℕ → ℤ → Option Decimal
within negative q exponent =
    if ltb_ℤ e_top exponent then none else some (finite negative q exponent)

-- A quotient that rounds up to 29 digits loses its last zero.
settle_carry : Bool → ℕ → ℤ → Option Decimal
unfolding within
settle_carry negative q exponent =
    if nat_eq q (10 ^ 28)
    then within negative (10 ^ 27) (exponent +ℤ pos 1)
    else within negative q exponent

-- The exponent of a zero is brought between Etiny and Emax.
clamp : ℤ → ℤ
clamp exponent =
    if ltb_ℤ exponent e_tiny then e_tiny else if ltb_ℤ e_max exponent then e_max else exponent

-- The least exponent of a result whose leading digit stands right below `top`.
abbrev least_exponent : ℤ → ℤ
least_exponent top = if ltb_ℤ (top -ℤ pos 28) e_tiny then e_tiny else top -ℤ pos 28

-- The rounding of a number other than zero to the exponents of the context, where one below Etiny
-- loses digits, or all of them.
fit : Bool → ℕ → ℤ → ℤ → Option Decimal
unfolding divide_half_even settle_carry
fit negative n exponent top =
    if ltb_ℤ (pos 1000000) top
    then none
    else if leb_ℤ (least_exponent top) exponent
    then some (finite negative n exponent)
    else settle_carry negative (divide_half_even n (pos_part (least_exponent top -ℤ exponent)))
        (least_exponent top)

-- The rounding of a result to the context; none is decimal.Overflow, which it traps.
unfoldable pub fix : Bool → ℕ → ℤ → Option Decimal
unfolding fit digits clamp
fix negative n exponent =
    if nat_eq n 0
    then some (finite negative 0 (clamp exponent))
    else fit negative n exponent (exponent +ℤ pos (digits n n))

digits_few : (fuel k n : ℕ) → n < 10 ^ suc k → digits fuel n ≤ suc k
unfolding digits
digits_few zero k n h = omega arith
digits_few (suc fuel) k n h = elim (Bool-cases (ltb n 10)) [
  | inl small ↦ rw (small, digits) (omega arith)
  | inr large ↦ rw (large, digits) (go k h (ground arith) (λ j. digits_few fuel j (n / 10)))
]
  where
    go :
        (k : ℕ)
        → n < 10 ^ suc k
        → 10 ≤ n
        → ((j : ℕ) → n / 10 < 10 ^ suc j → digits fuel (n / 10) ≤ suc j)
        → suc (digits fuel (n / 10)) ≤ suc k
    go zero less more later = absurd (omega arith)
    go (suc j) less more later =
        let shorter : n / 10 < 10 ^ suc j = omega arith in omega (arith, later j shorter)

clamp_same : (e : ℤ) → e_tiny ≤ℤ e → e ≤ℤ e_top → clamp e ≡ e
unfolding clamp
clamp_same e low high =
    let not_low : ltb_ℤ e e_tiny ≡ false = ground arith in
    let not_high : ltb_ℤ e_max e ≡ false = ground arith in rw (not_low, not_high) refl

fit_same :
    (negative : Bool) (n : ℕ) (e : ℤ) (d : ℕ)
    → d ≤ 28
    → e_tiny ≤ℤ e
    → e ≤ℤ e_top
    → fit negative n e (e +ℤ pos d) ≡ some (finite negative n e)
unfolding fit
fit_same negative n e d few low high =
    let over : ltb_ℤ (pos 1000000) (e +ℤ pos d) ≡ false = ground (arith, +ℤ_parts e (pos d)) in
    let room : leb_ℤ (least_exponent (e +ℤ pos d)) e ≡ true =
      ground (arith, +ℤ_parts e (pos d), -ℤ_parts (e +ℤ pos d) (pos 28)) in
    rw (over, room) refl

-- A coefficient of at most 28 digits is not rounded where its exponent is from Etiny to Etop.
pub fix_exact :
    (negative : Bool) (n : ℕ) (e : ℤ)
    → n < 10 ^ 28
    → e_tiny ≤ℤ e
    → e ≤ℤ e_top
    → fix negative n e ≡ some (finite negative n e)
unfolding fix
fix_exact negative n e h low high = elim (Bool-cases (nat_eq n 0)) [
  | inl empty ↦
      let is_zero : n ≡ 0 = ground arith in
      rw empty (
        ap (λ (x : ℤ). some (finite negative 0 x)) (clamp_same e low high)
        ∙ ap (λ (m : ℕ). some (finite negative m e)) (sym is_zero))
  | inr there ↦ rw there (fit_same negative n e (digits n n) (digits_few n 27 n h) low high)
]

-- Decimal.scaleb, where none is decimal.Overflow; a shift by the places of a currency is in its range.
unfoldable pub scaleb : Decimal → ℤ → Option Decimal
scaleb (finite negative n exponent) by = fix negative n (exponent +ℤ by)
scaleb (infinite negative) by = some (infinite negative)
scaleb not_a_number by = some not_a_number

-- The magnitude of a finite value, where it is an integer.
unfoldable pub integer_part : ℕ → ℤ → Bool × ℕ
integer_part n (pos k) = (true, n * 10 ^ k)
integer_part n (negsuc k) = (nat_eq (n % 10 ^ suc k) 0, n / 10 ^ suc k)

abbrev pub with_sign : Bool → ℕ → ℤ
with_sign true n = neg (pos n)
with_sign false n = pos n

-- 29 digits are rounded to 28, half to even, and a carry leaves 28 digits again. An exponent below
-- Etiny loses the number, and one too large for its digits raises.
fix_example :
    (fix false 12345678901234567890123456785 (pos 0)
      ≡ some (finite false 1234567890123456789012345678 (pos 1)))
    × (fix true 99999999999999999999999999999 (pos 0) ≡ some (finite true (10 ^ 27) (pos 2)))
    × (fix false 15 (negsuc 1000026) ≡ some (finite false 2 e_tiny))
    × (fix false 1 (negsuc 1000097) ≡ some (finite false 0 e_tiny))
    × (fix false 1 (pos 999999) ≡ some (finite false 1 (pos 999999)))
    × (fix false 1 (pos 1000001) ≡ none)
unfolding fix fit clamp digits divide_half_even settle_carry within ◌+ℤ◌ ◌-ℤ◌
fix_example = (refl, refl, refl, refl, refl, refl)
