-- ===== src/Domain/Ledger/Balanced.antt =====
-- The balance check of `JournalTransaction` (src/ledgerflow/domain/ledger.py), against debits and
-- credits that are summed apart.
use ledgerflow.Prelude.{
  String, ◌≡◌, true, false, Option, List, [], ◌∷◌, ◌++◌, ◌==◌, if◌then◌else◌, arith, ◌≤◌, length,
  Bool, ◌&&◌, sym, ◌∙◌,
}
use ledgerflow.Prelude.Int.{ℤ, pos, ◌+ℤ◌, int_laws, +ℤ_left_unit, zero-add}
use ledgerflow.Exception.{ok}
use ledgerflow.Dict.{Dict}
use ledgerflow.Domain.Ledger.{
  Direction, debit, credit, Entry, Timestamp, JournalTransaction, same_direction, debit_signed,
  make_transaction, drift_from, check_drift,
}
use ledgerflow.Domain.Ledger.Drift.{
  net, net_one, drift-eq-net, drift_from-IsDistinct, check_drift_sound, check_drift_complete,
}

-- What one side of a currency holds: the sum of the amounts, with no sign.
abbrev pub side_total : Direction → String → List Entry → ℤ
side_total d c [] = pos 0
side_total d c (e ∷ es) =
    (if same_direction e.direction d && (e.amount.currency == c) then e.amount.minor else pos 0)
    +ℤ side_total d c es

pub side_total-append :
    (d : Direction) (c : String) (xs ys : List Entry)
    → side_total d c (xs ++ ys) ≡ side_total d c xs +ℤ side_total d c ys
side_total-append d c [] ys = sym (zero-add _)
side_total-append d c (x ∷ xs) ys = rw (side_total-append d c xs ys) (omega int_laws)

-- Debits equal credits, in every currency.
abbrev pub IsBalanced : List Entry → Type 0
IsBalanced es = (c : String) → side_total debit c es ≡ side_total credit c es

-- What one entry adds to the debits is what it adds to the credits and to the difference.
net_one-sides :
    (c : String) (e : Entry)
    → (if same_direction e.direction debit && (e.amount.currency == c)
        then e.amount.minor
        else pos 0)
      ≡ (if same_direction e.direction credit && (e.amount.currency == c)
          then e.amount.minor
          else pos 0)
        +ℤ net_one c e
net_one-sides c e = sides e.direction (e.amount.currency == c)
  where
    sides :
        (d : Direction) (b : Bool)
        → (if same_direction d debit && b then e.amount.minor else pos 0)
          ≡ (if same_direction d credit && b then e.amount.minor else pos 0)
            +ℤ (if b then debit_signed d e.amount.minor else pos 0)
    sides debit true = omega int_laws
    sides debit false = omega int_laws
    sides credit true = omega int_laws
    sides credit false = omega int_laws

pub net-sides :
    (c : String) (es : List Entry) → side_total debit c es ≡ side_total credit c es +ℤ net c es
net-sides c [] = omega int_laws
net-sides c (e ∷ es) = rw (net_one-sides c e, net-sides c es) (omega int_laws)

pub net-eq_zero : (es : List Entry) → IsBalanced es → (c : String) → net c es ≡ pos 0
net-eq_zero es h c = +ℤ_left_unit _ _ _ (net-sides c es) (h c)

pub IsBalanced-of_net : (es : List Entry) → ((c : String) → net c es ≡ pos 0) → IsBalanced es
IsBalanced-of_net es h c = rw (net-sides c es, h c) (omega int_laws)

module _ (id kind : String) (at : Timestamp) (es : List Entry) (metadata : Dict String)
    (reverses : Option String) where
  -- A transaction that is built holds the entries it was given, at least two, its time has a zone,
  -- and in every currency its debits equal its credits.
  pub make_transaction_sound :
      {t : JournalTransaction}
      → make_transaction id kind at es metadata reverses ≡ ok t
      → (t.entries ≡ es) × (2 ≤ length es) × (at.aware ≡ true) × IsBalanced t.entries
  unfolding make_transaction
  make_transaction_sound {t} h =
      (ground arith, ground arith, ground arith, IsBalanced-of_net t.entries zero_net)
    where
      passed : check_drift (drift_from es []) ≡ ok tt
      passed = ground arith

      same : t.entries ≡ es
      same = ground arith

      zero_net : (c : String) → net c t.entries ≡ pos 0
      zero_net c = rw same (sym (drift-eq-net c es) ∙ check_drift_sound (drift_from es []) c passed)

  -- Two entries or more that balance in every currency, with a time that has a zone, are accepted,
  -- and the transaction holds exactly the arguments.
  pub make_transaction_complete :
      2 ≤ length es
      → at.aware ≡ true
      → IsBalanced es
      → make_transaction id kind at es metadata reverses
        ≡ ok (record {
          id = id;
          kind = kind;
          effective_at = at;
          entries = es;
          metadata = metadata;
          reverses_id = reverses;
        })
  unfolding make_transaction
  make_transaction_complete two zone h = ground (arith, passes)
    where
      passes : check_drift (drift_from es []) ≡ ok tt
      passes =
          check_drift_complete (drift_from es []) (drift_from-IsDistinct es [] tt)
            (λ c. drift-eq-net c es ∙ net-eq_zero es h c)
