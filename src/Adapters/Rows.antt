-- ===== src/Adapters/Rows.antt =====
-- Rows of the entries table as domain entries: `EntryRepository.to_domain` of
-- src/ledgerflow/adapters/repositories.py, and what the rows of a transaction stand for.
use ledgerflow.Prelude.{
  ℕ, ◌+◌, ◌≤◌, String, ◌≡◌, refl, true, ap, List, [], ◌∷◌, ◌++◌, All, length, arith,
}
use ledgerflow.Prelude.Int.{ℤ}
use ledgerflow.Exception.{Result, ok, ◌>>=◌}
use ledgerflow.Dict.{Dict}
use ledgerflow.Domain.Money.{make_money, is_positive}
use ledgerflow.Domain.Money.Laws.{IsMoney, make_money-supported}
use ledgerflow.Domain.Ledger.{Direction, Entry, make_entry, JournalTransaction, drift_from}
use ledgerflow.Domain.Ledger.Balanced.{side_total}
use ledgerflow.Adapters.Tables.{EntryRow}
use ledgerflow.Adapters.Accounts.Snapshots.{AreNew}
use ledgerflow.Adapters.Transactions.{entry_rows, sum_side, group_drift}

-- EntryRepository.to_domain
unfoldable pub to_domain : EntryRow → Result Entry
to_domain row = do
  amount ← make_money row.amount_minor row.currency
  make_entry row.account_id row.direction amount

-- `tuple(to_domain(r) for r in rows)`
unfoldable pub to_domain_all : List EntryRow → Result (List Entry)
to_domain_all [] = ok []
to_domain_all (r ∷ rs) = do e ← to_domain r; es ← to_domain_all rs; ok (e ∷ es)

-- The entry that a row stands for.
abbrev pub as_entry : EntryRow → Entry
as_entry r = record {
  account_id = r.account_id;
  direction = r.direction;
  amount = record { minor = r.amount_minor; currency = r.currency };
}

abbrev pub as_entries : List EntryRow → List Entry
as_entries [] = []
as_entries (r ∷ rs) = as_entry r ∷ as_entries rs

pub as_entries-append :
    (xs ys : List EntryRow) → as_entries (xs ++ ys) ≡ as_entries xs ++ as_entries ys
as_entries-append [] ys = refl
as_entries-append (x ∷ xs) ys = ap (λ (t : List Entry). as_entry x ∷ t) (as_entries-append xs ys)

-- The rows of a transaction stand for its entries.
pub as_entries-entry_rows :
    (txn : JournalTransaction) (now next : ℕ) (es : List Entry)
    → as_entries (entry_rows txn now next es) ≡ es
unfolding entry_rows
as_entries-entry_rows txn now next [] = refl
as_entries-entry_rows txn now next (e ∷ es) =
    ap (λ (t : List Entry). e ∷ t) (as_entries-entry_rows txn now (next + 1) es)

-- They have the transaction's id.
pub entry_rows-transaction :
    (txn : JournalTransaction) (now next : ℕ) (es : List Entry)
    → All (λ r. r.transaction_id ≡ txn.id) (entry_rows txn now next es)
unfolding entry_rows
entry_rows-transaction txn now next [] = tt
entry_rows-transaction txn now next (e ∷ es) = (refl, entry_rows-transaction txn now (next + 1) es)

widen : (a b c : ℕ) (rows : List EntryRow) → a ≤ b → AreNew b c rows → AreNew a c rows
widen a b c [] l h = tt
widen a b c (r ∷ rows) l h = (omega (arith, h.0.0, h.0.1), widen a b c rows l h.1)

-- They are numbered from the sequence.
pub entry_rows-AreNew :
    (txn : JournalTransaction) (now next : ℕ) (es : List Entry) (stop : ℕ)
    → next + length es ≡ stop
    → AreNew next stop (entry_rows txn now next es)
unfolding entry_rows
entry_rows-AreNew txn now next [] stop h = tt
entry_rows-AreNew txn now next (e ∷ es) stop h = (
  (omega arith, omega arith),
  widen next (next + 1) stop _ (omega arith)
      (entry_rows-AreNew txn now (next + 1) es stop (omega arith)),
)

pub sum_side-eq-side_total :
    (d : Direction) (c : String) (rows : List EntryRow)
    → sum_side d c rows ≡ side_total d c (as_entries rows)
unfolding sum_side
sum_side-eq-side_total d c [] = refl
sum_side-eq-side_total d c (r ∷ rows) = rw (sum_side-eq-side_total d c rows)

pub group_drift-eq-drift_from :
    (rows : List EntryRow) (d : Dict ℤ) → group_drift rows d ≡ drift_from (as_entries rows) d
unfolding group_drift drift_from
group_drift-eq-drift_from [] d = refl
group_drift-eq-drift_from (r ∷ rows) d = group_drift-eq-drift_from rows _

-- Rows of positive amounts in supported currencies read back as the entries that they stand for.
pub to_domain_all_lem :
    (rows : List EntryRow)
    → All (λ e. is_positive e.amount ≡ true) (as_entries rows)
    → All (λ e. IsMoney e.amount) (as_entries rows)
    → to_domain_all rows ≡ ok (as_entries rows)
unfolding to_domain_all to_domain make_entry
to_domain_all_lem [] p m = refl
to_domain_all_lem (r ∷ rows) p m =
    rw (make_money-supported r.amount_minor r.currency m.0, p.0, to_domain_all_lem rows p.1 m.1)
