-- ===== src/Ids/Encoding.antt =====
-- The encoding of src/ledgerflow/ids.py against Python's order on strings.
use Prim.Native.Char.{Char, code}
use Prim.Native.String.{[], ◌∷◌, ◌++◌}
use text.Mathlib.TextLemmas.{cons-append, nil-append}
use ledgerflow.Prelude.{
  ℕ, zero, suc, ◌+◌, ◌/◌, ◌%◌, ◌^◌, ◌<◌, ◌≤◌, ◌≡◌, String, Bool, true, false, ltb, nat_eq,
  if◌then◌else◌, arith, ◌⊎◌, inl, inr, refl, ap, ◌∙◌, Bool-cases,
}
use ledgerflow.Ids.{alphabet, symbol, encode_loop, encode}

-- `s < t` on two strings, by code points
unfoldable pub precedes : String → String → Bool
precedes s [] = false
precedes [] (d ∷ t) = true
precedes (c ∷ s) (d ∷ t) =
    let rest = precedes s t in
    if ltb (code c) (code d) then true else if nat_eq (code c) (code d) then rest else false

-- len(s)
unfoldable pub size : String → ℕ
size [] = 0
size (c ∷ s) = suc (size s)

-- Every character of a string is one of another's.
unfoldable pub occurs : Char → String → Bool
occurs c [] = false
occurs c (d ∷ s) = let rest = occurs c s in if nat_eq (code c) (code d) then true else rest

unfoldable pub is_spelt_in : String → String → Bool
is_spelt_in s [] = true
is_spelt_in s (c ∷ t) = let rest = is_spelt_in s t in if occurs c s then rest else false

-- The codes of a string rise, each above the bound before it.
rises_from : ℕ → String → Bool
rises_from b [] = true
rises_from b (c ∷ s) =
    let rest = rises_from (suc (code c)) s in if ltb (code c) b then false else rest

below-symbol :
    (b : ℕ) (s : String) (i : ℕ) → rises_from b s ≡ true → i < size s → b ≤ code (symbol s i)
unfolding rises_from symbol size
below-symbol b [] i r h = absurd (omega arith)
below-symbol b (c ∷ s) zero r h = ground arith
below-symbol b (c ∷ s) (suc i) r h = ground (arith, below-symbol (suc (code c)) s i)

symbol_increasing :
    (b : ℕ) (s : String) (i j : ℕ)
    → rises_from b s ≡ true
    → i < j
    → j < size s
    → code (symbol s i) < code (symbol s j)
unfolding rises_from symbol size
symbol_increasing b [] i j r h k = absurd (omega arith)
symbol_increasing b (c ∷ s) i zero r h k = absurd (omega arith)
symbol_increasing b (c ∷ s) zero (suc j) r h k = ground (arith, below-symbol (suc (code c)) s j)
symbol_increasing b (c ∷ s) (suc i) (suc j) r h k =
    ground (arith, symbol_increasing (suc (code c)) s i j)

alphabet_increasing :
    (i j : ℕ) → i < j → j < 32 → code (symbol alphabet i) < code (symbol alphabet j)
unfolding rises_from size alphabet
alphabet_increasing i j h k = symbol_increasing 0 alphabet i j refl h k

precedes-of_lt : (c d : Char) (s t : String) → code c < code d → precedes (c ∷ s) (d ∷ t) ≡ true
unfolding precedes
precedes-of_lt c d s t h = ground arith

pub precedes-of_eq :
    (c d : Char) (s t : String)
    → code c ≡ code d
    → precedes s t ≡ true
    → precedes (c ∷ s) (d ∷ t) ≡ true
unfolding precedes
precedes-of_eq c d s t h k = ground arith

digit_cases : (v w : ℕ) → v < w → (v / 32 < w / 32) ⊎ ((v / 32 ≡ w / 32) × (v % 32 < w % 32))
digit_cases v w h = elim (Bool-cases (ltb (v / 32) (w / 32))) [
  | inl lt ↦ inl (ground arith)
  | inr ge ↦ inr (ground arith)
]

-- One digit goes in front of what was there.
digit-precedes :
    (v w : ℕ) (s t : String)
    → (v < w) ⊎ ((v ≡ w) × (precedes s t ≡ true))
    → (v / 2 ^ 5 < w / 2 ^ 5)
      ⊎ ((v / 2 ^ 5 ≡ w / 2 ^ 5)
          × (precedes (symbol alphabet (v % 2 ^ 5) ∷ s) (symbol alphabet (w % 2 ^ 5) ∷ t) ≡ true))
digit-precedes v w s t (inr (same, st)) =
    inr (
      omega arith,
      precedes-of_eq _ _ s t (ap (λ (n : ℕ). code (symbol alphabet (n % 32))) same) st,
    )
digit-precedes v w s t (inl lt) = elim (digit_cases v w lt) [
  | inl high ↦ inl high
  | inr (same, low) ↦
      inr (same, precedes-of_lt _ _ s t (alphabet_increasing (v % 32) (w % 32) low (omega arith)))
]

pub encode_loop-precedes :
    (n v w : ℕ) (s t : String)
    → v < 32 ^ n
    → w < 32 ^ n
    → (v < w) ⊎ ((v ≡ w) × (precedes s t ≡ true))
    → precedes (encode_loop n v s) (encode_loop n w t) ≡ true
unfolding encode_loop precedes
encode_loop-precedes zero v w s t hv hw (inl lt) = absurd (omega arith)
encode_loop-precedes zero v w s t hv hw (inr (_, st)) = st
encode_loop-precedes (suc n) v w s t hv hw h =
    encode_loop-precedes n (v / 2 ^ 5) (w / 2 ^ 5) _ _ (omega arith) (omega arith)
      (digit-precedes v w s t h)

-- Of two numbers that fit in the length, the smaller one is spelt first in the order of strings, with
-- whatever follows each.
pub encode-precedes :
    (length v w : ℕ) → w < 32 ^ length → v < w → precedes (encode v length) (encode w length) ≡ true
unfolding encode
encode-precedes length v w hw h = encode_loop-precedes length v w [] [] (omega arith) hw (inl h)

occurs-symbol : (s : String) (i : ℕ) → i < size s → occurs (symbol s i) s ≡ true
unfolding occurs symbol size
occurs-symbol [] i h = absurd (omega arith)
occurs-symbol (c ∷ s) zero h = ground arith
occurs-symbol (c ∷ s) (suc i) h = ground (arith, occurs-symbol s i)

symbol_shape :
    (v : ℕ) (s : String)
    → is_spelt_in alphabet s ≡ true
    → is_spelt_in alphabet (symbol alphabet (v % 2 ^ 5) ∷ s) ≡ true
unfolding is_spelt_in size alphabet
symbol_shape v s h = rw (occurs-symbol alphabet (v % 2 ^ 5) (omega arith)) h

encode_loop_shape :
    (n v : ℕ) (s : String)
    → is_spelt_in alphabet s ≡ true
    → (size (encode_loop n v s) ≡ n + size s) × (is_spelt_in alphabet (encode_loop n v s) ≡ true)
unfolding encode_loop size
encode_loop_shape zero v s h = (omega arith, h)
encode_loop_shape (suc n) v s h =
    let next : String = symbol alphabet (v % 2 ^ 5) ∷ s in
    let (long, spelt) = encode_loop_shape n (v / 2 ^ 5) next (symbol_shape v s h) in
    (omega (arith, long), spelt)

pub encode_loop-append :
    (n v : ℕ) (s t : String) → encode_loop n v s ++ t ≡ encode_loop n v (s ++ t)
unfolding encode_loop
encode_loop-append zero v s t = refl
encode_loop-append (suc n) v s t =
    encode_loop-append n (v / 2 ^ 5) (symbol alphabet (v % 2 ^ 5) ∷ s) t
    ∙ ap (encode_loop n (v / 2 ^ 5)) (cons-append _ s t)

pub precedes-append : (p s t : String) → precedes s t ≡ true → precedes (p ++ s) (p ++ t) ≡ true
precedes-append [] s t h = rw (nil-append s) (rw (nil-append t) h)
precedes-append (c ∷ p) s t h =
    rw (cons-append c p s)
      (rw (cons-append c p t) (precedes-of_eq c c (p ++ s) (p ++ t) refl (precedes-append p s t h)))

pub size-append : (s t : String) → size (s ++ t) ≡ size s + size t
unfolding size
size-append [] t = rw (nil-append t) (omega arith)
size-append (c ∷ s) t = rw (cons-append c s t) (omega (arith, size-append s t))

pub is_spelt_in-append :
    (a s t : String)
    → is_spelt_in a s ≡ true
    → is_spelt_in a t ≡ true
    → is_spelt_in a (s ++ t) ≡ true
unfolding is_spelt_in
is_spelt_in-append a [] t h k = rw (nil-append t) k
is_spelt_in-append a (c ∷ s) t h k =
    rw (cons-append c s t) (ground (arith, is_spelt_in-append a s t))

-- `_encode` writes exactly as many characters as it is asked for, and only characters of the alphabet.
pub encode_shape :
    (v length : ℕ)
    → (size (encode v length) ≡ length) × (is_spelt_in alphabet (encode v length) ≡ true)
unfolding encode size is_spelt_in
encode_shape v length =
    let (long, spelt) = encode_loop_shape length v [] refl in (omega (arith, long), spelt)
