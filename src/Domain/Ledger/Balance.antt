-- ===== src/Domain/Ledger/Balance.antt =====
-- `balance_of` and `Account.signed` (src/ledgerflow/domain/ledger.py).
use ledgerflow.Prelude.{
  String, ◌≡◌, ◌≢◌, refl, true, false, none, Option, List, [], ◌∷◌, ◌++◌, ◌==◌, if◌then◌else◌,
  arith, Bool, ◌&&◌, All, All-append, sym, ap, eq_self, eq_of_test, ◌∙◌, Bool-cases, inl, inr,
}
use ledgerflow.Prelude.Int.{ℤ, pos, ◌+ℤ◌, ◌-ℤ◌, neg, int_laws, zero-add}
use ledgerflow.Exception.{ok}
use ledgerflow.Domain.Currency.{exponents}
use ledgerflow.Domain.Money.{Money, zero_money}
use ledgerflow.Domain.Money.Laws.{add_lem, negate_lem, make_money-supported}
use ledgerflow.Domain.Ledger.{
  Direction, debit, credit, Account, Entry, same_direction, opposite, normal_balance, signed,
  balance_from, balance_of, Timestamp, JournalTransaction, reverse,
}
use ledgerflow.Domain.Ledger.Reversal.{
  mirror_all, same_direction-opposite, ArePositive, reverse-entries,
}

-- The amount that entries of an account hold on one side.
abbrev pub moved : Direction → String → List Entry → ℤ
moved d id [] = pos 0
moved d id (e ∷ es) =
    (if same_direction e.direction d && (e.account_id == id) then e.amount.minor else pos 0)
    +ℤ moved d id es

-- An entry on the account is in the account's currency.
abbrev pub AreInCurrency : Account → List Entry → Type 0
AreInCurrency a = All (λ e. e.account_id ≡ a.id → e.amount.currency ≡ a.currency)

-- What the account's natural side holds, less what the other side holds.
abbrev pub net_moved : Account → List Entry → ℤ
net_moved a es =
    moved (normal_balance a.type) a.id es -ℤ moved (opposite (normal_balance a.type)) a.id es

and_false : (b : Bool) → (b && false) ≡ false
and_false true = refl
and_false false = refl

+ℤ_swap : (x y z : ℤ) → x +ℤ y +ℤ z ≡ x +ℤ (z +ℤ y)
+ℤ_swap x y z = omega int_laws

signed_one : Direction → Direction → ℤ → ℤ
signed_one d n z = if same_direction d n then z else neg z

signed_lem :
    (a : Account) (e : Entry)
    → exponents a.currency ≢ none
    → e.account_id ≡ a.id
    → e.amount.currency ≡ a.currency
    → signed a e
      ≡ ok (record {
        minor = signed_one e.direction (normal_balance a.type) e.amount.minor;
        currency = a.currency;
      })
unfolding signed signed_one
signed_lem a e h i c =
    ground (arith, negate_lem e.amount, make_money-supported (neg e.amount.minor) a.currency h)

-- One entry of the account moves its net by the signed amount.
signed_one-moved :
    (d n : Direction) (z p q : ℤ)
    → (p -ℤ q) +ℤ signed_one d n z
      ≡ ((if same_direction d n && true then z else pos 0) +ℤ p)
        -ℤ ((if same_direction d (opposite n) && true then z else pos 0) +ℤ q)
unfolding signed_one opposite
signed_one-moved debit debit z p q = omega int_laws
signed_one-moved debit credit z p q = omega int_laws
signed_one-moved credit debit z p q = omega int_laws
signed_one-moved credit credit z p q = omega int_laws

module _ (a : Account) (known : exponents a.currency ≢ none) where
  net_moved-cons :
      (e : Entry) (es : List Entry) (z : ℤ)
      → e.account_id ≡ a.id
      → z +ℤ signed_one e.direction (normal_balance a.type) e.amount.minor +ℤ net_moved a es
        ≡ z +ℤ net_moved a (e ∷ es)
  net_moved-cons e es z i =
      +ℤ_swap z _ _
      ∙ ap (λ (t : ℤ). z +ℤ t)
          (rw (i, eq_self)
            (signed_one-moved e.direction (normal_balance a.type) e.amount.minor _ _))

  net_moved-skip :
      (e : Entry) (es : List Entry)
      → (e.account_id == a.id) ≡ false
      → net_moved a (e ∷ es) ≡ net_moved a es
  net_moved-skip e es h = rw (h, and_false, and_false, zero-add, zero-add) refl

  balance_from_skip :
      (e : Entry) (es : List Entry) (m : Money)
      → (e.account_id == a.id) ≡ false
      → balance_from a (e ∷ es) m ≡ balance_from a es m
  unfolding balance_from
  balance_from_skip e es m h = rw h

  balance_from_step :
      (e : Entry) (es : List Entry) (z : ℤ)
      → (e.account_id == a.id) ≡ true
      → e.amount.currency ≡ a.currency
      → balance_from a (e ∷ es) (record { minor = z; currency = a.currency })
        ≡ balance_from a es (record {
          minor = z +ℤ signed_one e.direction (normal_balance a.type) e.amount.minor;
          currency = a.currency;
        })
  unfolding balance_from
  balance_from_step e es z i c = rw (
    i,
    signed_lem a e known (eq_of_test i) c,
    add_lem (record { minor = z; currency = a.currency })
        (record {
          minor = signed_one e.direction (normal_balance a.type) e.amount.minor;
          currency = a.currency;
        })
        known refl,
  )

  balance_from_lem :
      (es : List Entry) (z : ℤ)
      → AreInCurrency a es
      → balance_from a es (record { minor = z; currency = a.currency })
        ≡ ok (record { minor = z +ℤ net_moved a es; currency = a.currency })
  unfolding balance_from
  balance_from_lem [] z h =
      ap (λ (t : ℤ). ok (record { minor = t; currency = a.currency })) (omega int_laws)
  balance_from_lem (e ∷ es) z h = elim (Bool-cases (e.account_id == a.id)) [
    | inr other ↦
        balance_from_skip e es _ other
        ∙ balance_from_lem es z h.1
        ∙ ap (λ (t : ℤ). ok (record { minor = z +ℤ t; currency = a.currency }))
            (sym (net_moved-skip e es other))
    | inl mine ↦
        balance_from_step e es z mine (h.0 (eq_of_test mine))
        ∙ balance_from_lem es _ h.1
        ∙ ap (λ (t : ℤ). ok (record { minor = t; currency = a.currency }))
            (net_moved-cons e es z (eq_of_test mine))
  ]

  -- The fold over the entries of an account in a supported currency returns what its natural side
  -- holds less what the other side holds, if its entries are in its currency.
  pub balance_of_lem :
      (es : List Entry)
      → AreInCurrency a es
      → balance_of a es ≡ ok (record { minor = net_moved a es; currency = a.currency })
  unfolding balance_of zero_money
  balance_of_lem es h =
      rw (make_money-supported (pos 0) a.currency known)
        (rw (balance_from_lem es (pos 0) h) (rw zero-add refl))

moved-append :
    (d : Direction) (id : String) (xs ys : List Entry)
    → moved d id (xs ++ ys) ≡ moved d id xs +ℤ moved d id ys
moved-append d id [] ys = sym (zero-add _)
moved-append d id (x ∷ xs) ys = rw (moved-append d id xs ys) (omega int_laws)

moved-mirror_all :
    (d : Direction) (id : String) (es : List Entry)
    → moved d id (mirror_all es) ≡ moved (opposite d) id es
moved-mirror_all d id [] = refl
moved-mirror_all d id (e ∷ es) =
    rw (same_direction-opposite e.direction d, moved-mirror_all d id es)

AreInCurrency-mirror_all :
    (a : Account) (es : List Entry) → AreInCurrency a es → AreInCurrency a (mirror_all es)
AreInCurrency-mirror_all a [] h = tt
AreInCurrency-mirror_all a (e ∷ es) h = (h.0, AreInCurrency-mirror_all a es h.1)

opposite-opposite : (d : Direction) → opposite (opposite d) ≡ d
unfolding opposite
opposite-opposite debit = refl
opposite-opposite credit = refl

net_moved-reversal :
    (a : Account) (es ts : List Entry) → net_moved a (es ++ (ts ++ mirror_all ts)) ≡ net_moved a es
net_moved-reversal a es ts =
    simp (moved-append, moved-mirror_all, opposite-opposite) (omega int_laws)

-- After a transaction and its reversal every account in a supported currency has the balance it had
-- before them, if its entries are in its currency and the transaction's amounts are positive.
pub balance_of-reverse :
    (a : Account) (es : List Entry) (new_id : String) (at : Option Timestamp)
    (t r : JournalTransaction)
    → exponents a.currency ≢ none
    → AreInCurrency a es
    → AreInCurrency a t.entries
    → ArePositive t.entries
    → reverse new_id at t ≡ ok r
    → balance_of a (es ++ (t.entries ++ r.entries)) ≡ balance_of a es
balance_of-reverse a es new_id at t r known he ht positive done =
    rw (reverse-entries new_id at t positive done) (
      balance_of_lem a known (es ++ (t.entries ++ mirror_all t.entries)) (
        All-append _ es _ he
          (All-append _ t.entries _ ht (AreInCurrency-mirror_all a t.entries ht)))
      ∙ ap (λ (z : ℤ). ok (record { minor = z; currency = a.currency }))
          (net_moved-reversal a es t.entries)
      ∙ sym (balance_of_lem a known es he))
