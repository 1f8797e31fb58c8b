-- ===== src/Text.antt =====
-- Python's `str.split`, `partition` and `strip` and `int` of a string, as posting.py uses them, over
-- ASCII, and a slice from the start.
use Prim.Native.Char.{Char, code}
use Prim.Native.String.{[], ◌∷◌}
use ledgerflow.Prelude.{
  ℕ, zero, suc, ◌+◌, ◌*◌, ◌-◌, String, ◌≡◌, refl, Bool, true, false, ◌&&◌, ◌||◌, Option, none, some,
  List, arith, leb, nat_eq, if◌then◌else◌, ◌==◌, String-discrete,
}
use ledgerflow.Prelude.Int.{ℤ, pos, neg}

-- The first piece takes one more character in front.
prepend : Char → List String → List String
prepend c List.[] = List.[]
prepend c (List.◌∷◌ s r) = List.◌∷◌ (c ∷ s) r

-- s.split(sep), for one character
unfoldable pub split : ℕ → String → List String
unfolding prepend
split sep [] = List.◌∷◌ [] List.[]
split sep (c ∷ s) =
    let rest = split sep s in if nat_eq (code c) sep then List.◌∷◌ [] rest else prepend c rest

-- s.partition(sep), without the separator itself
unfoldable pub partition : ℕ → String → String × String
partition sep [] = ([], [])
partition sep (c ∷ s) =
    let (before, after) = partition sep s in
    if nat_eq (code c) sep then ([], s) else (c ∷ before, after)

is_space : Char → Bool
is_space c = leb 9 (code c) && leb (code c) 13 || leb 28 (code c) && leb (code c) 32

lstrip : String → String
lstrip [] = []
lstrip (c ∷ s) = let rest = lstrip s in if is_space c then rest else c ∷ s

rstrip : String → String
rstrip [] = []
rstrip (c ∷ s) = let rest = rstrip s in if is_space c && (rest == []) then [] else c ∷ rest

unfoldable pub strip : String → String
unfolding lstrip rstrip is_space String-discrete
strip s = lstrip (rstrip s)

is_digit : Char → Bool
is_digit c = leb b'0' (code c) && leb (code c) b'9'

-- Digits with single underscores between them; the flag says that the last character was a digit.
digits_from : ℕ → Bool → String → Option ℕ
unfolding is_digit
digits_from acc seen [] = if seen then some acc else none
digits_from acc seen (c ∷ s) =
    let next = digits_from (acc * 10 + (code c - b'0')) true s in
    let skip = digits_from acc false s in
    if is_digit c then next else if nat_eq (code c) b'_' && seen then skip else none

signed_digits : String → Option ℤ
unfolding digits_from neg
signed_digits [] = none
signed_digits (c ∷ s) =
    if nat_eq (code c) b'-'
    then elim (digits_from 0 false s) [ none ↦ none | some n ↦ some (neg (pos n)) ]
    else elim (digits_from 0 false (if nat_eq (code c) b'+' then s else c ∷ s)) [
      | none ↦ none
      | some n ↦ some (pos n)
    ]

-- int(s)
unfoldable pub parse_int : String → Option ℤ
unfolding signed_digits strip
parse_int s = signed_digits (strip s)

-- s[:n], and SQL's LEFT(s, n)
unfoldable pub prefix : ℕ → String → String
prefix zero s = []
prefix (suc n) [] = []
prefix (suc n) (c ∷ s) = c ∷ prefix n s

-- A split leaves one piece at least.
pub split-ne_nil : (sep : ℕ) (s : String) → split sep s ≡ List.[] → ⊥
unfolding split
split-ne_nil sep [] h = cc
split-ne_nil sep (c ∷ s) h = ground (arith, split-ne_nil sep s)

split_example : split b',' "a:1,b:22" ≡ List.◌∷◌ "a:1" (List.◌∷◌ "b:22" List.[])
unfolding split
split_example = refl

partition_example : partition b':' " a :1:2" ≡ (" a ", "1:2")
unfolding partition
partition_example = refl

parse_int_example : parse_int " -1_024 " ≡ some (neg (pos 1024))
unfolding parse_int
parse_int_example = refl
