-- ===== src/Application/Services/Ledger.antt =====
-- What `post_transaction` and `reverse_transaction` (src/ledgerflow/application/services.py) do to the
-- books: the entries of the database, read as one list.
use ledgerflow.Prelude.{
  String, ◌≡◌, refl, not, List, [], ◌∷◌, ◌++◌, arith, ap, sym, ◌∙◌, subst, select,
}
use ledgerflow.Prelude.Int.{ℤ, pos, eq_ℤ}
use ledgerflow.Exception.{ok}
use ledgerflow.Dict.{Dict, lookup, IsDistinct}
use ledgerflow.Domain.Money.Laws.{IsMoney}
use ledgerflow.Domain.Ledger.{debit, credit, Entry, JournalTransaction, or_zero, drift_from}
use ledgerflow.Domain.Ledger.Drift.{drift-eq-net, drift_from-IsDistinct}
use ledgerflow.Domain.Ledger.Balanced.{side_total-append, IsBalanced, net-eq_zero}
use ledgerflow.Domain.Posting.Sound.{build_transaction_sound}
use ledgerflow.Adapters.Tx.{>>=-eq_ok}
use ledgerflow.Adapters.Tables.{Db, AccountRow, Resource}
use ledgerflow.Adapters.Transactions.{global_drift}
use ledgerflow.Adapters.Rows.{
  as_entries, as_entries-append, as_entries-entry_rows, group_drift-eq-drift_from,
}
use ledgerflow.Application.Services.{
  TenantContext, Fresh, Posting, prepare, record_posting, post_transaction,
}
use ledgerflow.Application.Services.Prepare.{Prepared, prepare_lem}
use ledgerflow.Application.Services.Record.{Recorded, record_posting_lem, new_entries}

-- All entries of the database.
abbrev pub books : Db → List Entry
books db = as_entries db.entries

pub append-IsBalanced : (xs ys : List Entry) → IsBalanced xs → IsBalanced ys → IsBalanced (xs ++ ys)
append-IsBalanced xs ys hx hy c =
    rw (side_total-append debit c xs, side_total-append credit c xs, hx c, hy c) refl

-- A successful posting has prepared a transaction and recorded it.
pub post_transaction_lem :
    (ctx : TenantContext) (fresh : Fresh) (p : Posting) (db db' : Db) (res : Resource)
    → post_transaction ctx fresh p db ≡ ok (res, db')
    → (txn : JournalTransaction) × (resolved : Dict AccountRow) × Prepared ctx fresh p db txn
        resolved
      × Recorded (λ ts. ts) ctx fresh.event_id "transaction.created" txn db db' res
unfolding post_transaction
post_transaction_lem ctx fresh p db db' res h =
    let ((txn, resolved), s₁, e₁, h₁) = >>=-eq_ok (prepare ctx fresh p) _ db h in
    let (prepared, same) = prepare_lem ctx fresh p db s₁ txn resolved e₁ in
    (
      txn,
      resolved,
      prepared,
      record_posting_lem ctx fresh p txn resolved db db' res
          (subst (λ s. record_posting ctx fresh p txn resolved s ≡ ok (res, db')) same h₁),
    )

pub books-new_entries :
    (db db' : Db) (txn : JournalTransaction)
    → db'.entries ≡ db.entries ++ new_entries db txn
    → books db' ≡ books db ++ txn.entries
books-new_entries db db' txn h =
    ap as_entries h
    ∙ as_entries-append db.entries (new_entries db txn)
    ∙ ap (λ (t : List Entry). books db ++ t)
        (as_entries-entry_rows txn db.now db.next_entry_id txn.entries)

-- No currency is off in books whose debits equal their credits.
drift-select :
    (d : Dict ℤ)
    → IsDistinct d
    → ((c : String) → or_zero (lookup c d) ≡ pos 0)
    → select (λ r. not (eq_ℤ r.1 (pos 0))) d ≡ []
unfolding select lookup
drift-select [] u h = refl
drift-select ((k, z) ∷ d) u h = rw (zero_here) (drift-select d u.1 later)
  where
    zero_here : z ≡ pos 0
    zero_here = ground (arith, h k)

    later : (c : String) → or_zero (lookup c d) ≡ pos 0
    later c = ground (arith, h c, u.0)

pub global_drift-nil : (db : Db) → IsBalanced (books db) → global_drift db ≡ []
unfolding global_drift
global_drift-nil db h = rw (group_drift-eq-drift_from db.entries []) (
    drift-select (drift_from (books db) []) (drift_from-IsDistinct (books db) [] tt)
      (λ c. drift-eq-net c (books db) ∙ net-eq_zero (books db) h c))

-- If all entries of the database balance in every currency and post_transaction succeeds on an
-- amount of a supported currency, all entries balance afterwards and the drift query reports
-- nothing.
pub post_transaction-IsBalanced :
    (ctx : TenantContext) (fresh : Fresh) (p : Posting) (db db' : Db) (res : Resource)
    → IsMoney p.amount
    → IsBalanced (books db)
    → post_transaction ctx fresh p db ≡ ok (res, db')
    → IsBalanced (books db') × (global_drift db' ≡ [])
post_transaction-IsBalanced ctx fresh p db db' res known h done =
    let (txn, resolved, prepared, recorded) = post_transaction_lem ctx fresh p db db' res done in
    let (posts, _, _) =
      build_transaction_sound _ known fresh.transaction_id p.kind prepared.built in
    let balanced =
      subst IsBalanced (sym (books-new_entries db db' txn recorded.entries))
        (append-IsBalanced (books db) txn.entries h posts.balanced) in
    (balanced, global_drift-nil db' balanced)
