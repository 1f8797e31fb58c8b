-- ===== src/Tests/Ids.antt =====
-- Runs of src/ledgerflow/ids.py at concrete clocks.
use Prim.Native.String
use ledgerflow.Prelude.{
  ℕ, zero, suc, ◌<◌, ◌+◌, ◌≡◌, refl, ap, String, true, false, ◌-◌, ◌^◌, List, [], ◌∷◌, All, arith,
  ◌==◌, eq_of_test, Bool-cases, inl, inr,
}
use ledgerflow.Ids.{Draw, Clock, tick, alphabet, encode, encode_loop, symbol, ulid, new_id, new_ids}
use ledgerflow.Ids.Encoding.{size, is_spelt_in}
use ledgerflow.Ids.Increasing.{IsIncreasing, IsDraw, new_ids-IsIncreasing, ulid_shape}

encode_example : encode 1234567 5 ≡ "15NM7"
unfolding encode encode_loop symbol alphabet
encode_example = refl

-- A new millisecond, the same one again, a clock that went back, and the next millisecond.
abbrev draws : List Draw
draws =
    record { now_ms = 1789000000000; random = 41 }
    ∷ record { now_ms = 1789000000000; random = 7 }
    ∷ record { now_ms = 1788999999999; random = 3 }
    ∷ record { now_ms = 1789000000001; random = 0 }
    ∷ []

abbrev start : Clock
start = record { last_ms = 0; last_random = 0 }

draws-IsDraw : All IsDraw draws
draws-IsDraw = (omega arith, (omega arith, (omega arith, (omega arith, tt))))

new_ids-IsIncreasing_example : IsIncreasing (new_ids "txn" draws start).0
unfolding new_ids new_id ulid tick
new_ids-IsIncreasing_example =
    new_ids-IsIncreasing "txn" draws start draws-IsDraw (omega arith) (omega arith)

-- A full millisecond is left for the next one.
abbrev full : Clock
full = record { last_ms = 5; last_random = 2 ^ 80 - 1 }

ulid_shape_example :
    (size (ulid (record { now_ms = 5; random = 9 }) full).0 ≡ 26)
    × (is_spelt_in alphabet (ulid (record { now_ms = 5; random = 9 }) full).0 ≡ true)
ulid_shape_example = ulid_shape (record { now_ms = 5; random = 9 }) full

-- Ids that tell the calls apart, as a run of new_id does.
abbrev pub mark : ℕ → String
mark zero = "id"
mark (suc n) = Prim.Native.String.◌∷◌ "x" (mark n)

size-mark : (n : ℕ) → size (mark n) ≡ n + 2
unfolding size
size-mark zero = refl
size-mark (suc n) = omega (arith, size-mark n)

pub mark_different : (m n : ℕ) → m < n → (mark m == mark n) ≡ false
mark_different m n h = elim (Bool-cases (mark m == mark n)) [
  | inl same ↦ absurd (omega (arith, ap size (eq_of_test same), size-mark m, size-mark n))
  | inr differ ↦ differ
]
