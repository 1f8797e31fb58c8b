-- ===== src/Domain/Ledger/Drift.antt =====
-- The drift dictionary of `JournalTransaction.__post_init__` (src/ledgerflow/domain/ledger.py) holds,
-- for each currency, debits minus credits.
use ledgerflow.Prelude.{
  String, ◌≡◌, refl, List, [], ◌∷◌, ◌==◌, if◌then◌else◌, arith, Bool-cases, ◌∙◌, inl, inr,
}
use ledgerflow.Prelude.Int.{ℤ, pos, ◌+ℤ◌, int_laws, eq_ℤ→eq, zero-add}
use ledgerflow.Exception.{ok}
use ledgerflow.Dict.{Dict, lookup, insert, lookup-insert, IsDistinct, insert-IsDistinct}
use ledgerflow.Domain.Ledger.{Entry, debit_signed, or_zero, drift_from, check_drift}

-- What an entry adds to the debits minus credits of a currency.
abbrev pub net_one : String → Entry → ℤ
net_one c e = if e.amount.currency == c then debit_signed e.direction e.amount.minor else pos 0

-- Debits minus credits of a currency.
abbrev pub net : String → List Entry → ℤ
net c [] = pos 0
net c (e ∷ es) = net_one c e +ℤ net c es

abbrev at : String → Dict ℤ → ℤ
at c d = or_zero (lookup c d)

add_drift-lookup :
    (c : String) (e : Entry) (d : Dict ℤ)
    → at c (
        insert e.amount.currency
          (at e.amount.currency d +ℤ debit_signed e.direction e.amount.minor)
          d)
      ≡ at c d +ℤ net_one c e
add_drift-lookup c e d = elim (Bool-cases (e.amount.currency == c)) [
  | inl h ↦ rw lookup-insert (ground arith)
  | inr h ↦ rw (lookup-insert, h) (omega int_laws)
]

pub drift_from-lookup :
    (c : String) (es : List Entry) (d : Dict ℤ) → at c (drift_from es d) ≡ at c d +ℤ net c es
unfolding drift_from
drift_from-lookup c [] d = omega int_laws
drift_from-lookup c (e ∷ es) d = rw (drift_from-lookup c es, add_drift-lookup) (omega int_laws)

-- From the empty dictionary, the drift of a currency is its debits minus its credits.
pub drift-eq-net : (c : String) (es : List Entry) → at c (drift_from es []) ≡ net c es
unfolding lookup
drift-eq-net c es = drift_from-lookup c es [] ∙ zero-add (net c es)

pub drift_from-IsDistinct :
    (es : List Entry) (d : Dict ℤ) → IsDistinct d → IsDistinct (drift_from es d)
unfolding drift_from
drift_from-IsDistinct [] d h = h
drift_from-IsDistinct (e ∷ es) d h =
    drift_from-IsDistinct es _ (insert-IsDistinct e.amount.currency _ d h)

-- The check passes only if every currency is at zero.
pub check_drift_sound : (d : Dict ℤ) (c : String) → check_drift d ≡ ok tt → at c d ≡ pos 0
unfolding check_drift lookup
check_drift_sound [] c h = refl
check_drift_sound ((k, z) ∷ d) c h = ground (arith, check_drift_sound d c, eq_ℤ→eq z (pos 0))

-- With distinct keys, it passes if every currency is at zero.
pub check_drift_complete :
    (d : Dict ℤ) → IsDistinct d → ((c : String) → at c d ≡ pos 0) → check_drift d ≡ ok tt
unfolding check_drift lookup
check_drift_complete [] h z = refl
check_drift_complete ((k, v) ∷ d) (new, h) z =
    ground (arith, z k, check_drift_complete d h (λ c. tail c))
  where
    tail : (c : String) → at c d ≡ pos 0
    tail c = ground (arith, z c, new)
