-- ===== src/Domain/Currency.antt =====
-- The supported currencies: `EXPONENTS` of src/ledgerflow/domain/money.py, and `str.lower` on ASCII.
use Prim.Native.Char.{Char, code}
use ledgerflow.Prelude.{
  ℕ, zero, suc, ◌-◌, String, ◌≡◌, ◌≢◌, refl, ◌&&◌, Option, none, some, arith, leb, ◌==◌,
  if◌then◌else◌,
}

-- EXPONENTS.get(code)
unfoldable pub exponents : String → Option ℕ
exponents c =
    if c == "usd"
    then some 2
    else if c == "eur"
    then some 2
    else if c == "gbp"
    then some 2
    else if c == "jpy"
    then some 0
    else none

-- The character at an index, or the default past the end.
abbrev char_or : String → ℕ → Char → Char
char_or String.[] i d = d
char_or (String.◌∷◌ c s) zero d = c
char_or (String.◌∷◌ c s) (suc i) d = char_or s i d

abbrev lower_char : Char → Char
lower_char c =
    if leb 65 (code c) && leb (code c) 90
    then char_or "abcdefghijklmnopqrstuvwxyz" (code c - 65) c
    else c

-- str.lower; a letter outside ASCII stays as it is, and none lowers into a supported code.
unfoldable pub lower : String → String
lower String.[] = String.[]
lower (String.◌∷◌ c s) = String.◌∷◌ (lower_char c) (lower s)

lower_usd : lower "UsD" ≡ "usd"
unfolding lower
lower_usd = refl

lower_codes :
    (lower "usd" ≡ "usd") × (lower "eur" ≡ "eur") × (lower "gbp" ≡ "gbp") × (lower "jpy" ≡ "jpy")
unfolding lower
lower_codes = (refl, refl, refl, refl)

-- A supported code is in lower case.
pub lower_of_supported : (c : String) → exponents c ≢ none → lower c ≡ c
unfolding exponents
lower_of_supported c h = ground (arith, lower_codes)
