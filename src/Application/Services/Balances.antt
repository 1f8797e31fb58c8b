-- ===== src/Application/Services/Balances.antt =====
-- Account balances across `post_transaction` and `reverse_transaction`
-- (src/ledgerflow/application/services.py).
use ledgerflow.Prelude.{
  ℕ, ◌+◌, String, ◌≡◌, refl, some, List, [], ◌∷◌, ◌==◌, if◌then◌else◌, arith, ap, sym, ◌∙◌, length,
  find,
}
use ledgerflow.Prelude.Int.{ℤ, pos, ◌+ℤ◌}
use ledgerflow.Exception.{ok}
use ledgerflow.Domain.Ledger.{Entry, JournalTransaction}
use ledgerflow.Adapters.Tables.{Db, AccountRow, EntryRow, Resource, Snapshot, TransactionRow}
use ledgerflow.Adapters.Transactions.{entry_rows}
use ledgerflow.Adapters.Rows.{entry_rows-AreNew, as_entries, as_entries-entry_rows}
use ledgerflow.Adapters.Accounts.{balance, sum_effects}
use ledgerflow.Adapters.Accounts.Snapshots.{
  account_row, full_balance, IsCached, IsCachedIn, with_entries-IsCached, balance-eq-full,
  sum_effects-append,
}
use ledgerflow.Application.Services.{TenantContext, Fresh, Posting, signed_by, post_transaction}
use ledgerflow.Application.Services.Record.{Recorded, new_row, new_entries}
use ledgerflow.Application.Services.Ledger.{post_transaction_lem}

-- What entries do to the balance of one account.
abbrev pub posted_effect : AccountRow → String → List Entry → ℤ
posted_effect r id [] = pos 0
posted_effect r id (e ∷ es) =
    (if e.account_id == id then signed_by r e else pos 0) +ℤ posted_effect r id es

pub sum_effects-entry_rows :
    (r : AccountRow) (id : String) (txn : JournalTransaction) (now next : ℕ) (es : List Entry)
    → sum_effects r.normal_balance (λ e. e.account_id == id) (entry_rows txn now next es)
      ≡ posted_effect r id es
unfolding sum_effects entry_rows
sum_effects-entry_rows r id txn now next [] = refl
sum_effects-entry_rows r id txn now next (e ∷ es) =
    rw (sum_effects-entry_rows r id txn now (next + 1) es)

IsCached-cong :
    {xs xs' : List AccountRow} {es es' : List EntryRow} {ss ss' : List Snapshot} {n n' : ℕ}
    → xs' ≡ xs
    → es' ≡ es
    → ss' ≡ ss
    → n' ≡ n
    → IsCachedIn xs es ss n
    → IsCachedIn xs' es' ss' n'
IsCached-cong {es = es} {ss = ss} {n = n} p q r s h = rw (p, q, r, s) h

module _ (f : List TransactionRow → List TransactionRow) (ctx : TenantContext)
    (event_id type : String) (txn : JournalTransaction) (db db' : Db) (res : Resource)
    (recorded : Recorded f ctx event_id type txn db db' res) (h : IsCached db) where
  pub Recorded-IsCached : IsCached db'
  Recorded-IsCached =
      IsCached-cong recorded.accounts recorded.entries recorded.snapshots recorded.next_entry_id (
        with_entries-IsCached db (new_entries db txn) (db.next_entry_id + length txn.entries)
          (omega arith)
          (entry_rows-AreNew txn db.now db.next_entry_id txn.entries
            (db.next_entry_id + length txn.entries) refl)
          h)

  pub Recorded-balance :
      (id : String) (r : AccountRow)
      → account_row id db ≡ some r
      → (balance id db').balance_minor
        ≡ (balance id db).balance_minor +ℤ posted_effect r id txn.entries
  Recorded-balance id r found =
      balance-eq-full db' id r Recorded-IsCached (same_row ∙ found)
      ∙ ap (λ (t : List EntryRow). sum_effects r.normal_balance (λ e. e.account_id == id) t)
          recorded.entries
      ∙ sum_effects-append r.normal_balance (λ e. e.account_id == id) db.entries
          (new_entries db txn)
      ∙ ap (λ (z : ℤ). full_balance db r id +ℤ z)
          (sum_effects-entry_rows r id txn db.now db.next_entry_id txn.entries)
      ∙ ap (λ (z : ℤ). z +ℤ posted_effect r id txn.entries) (sym (balance-eq-full db id r h found))
    where
      same_row : account_row id db' ≡ account_row id db
      same_row = ap (λ (t : List AccountRow). find (λ a. a.id == id) t) recorded.accounts

pub resource-entries :
    (ctx : TenantContext) (txn : JournalTransaction) (db : Db) (res : Resource)
    → res ≡ record { txn = new_row ctx txn; entries = new_entries db txn }
    → as_entries res.entries ≡ txn.entries
resource-entries ctx txn db res h =
    ap (λ (r : Resource). as_entries r.entries) h
    ∙ as_entries-entry_rows txn db.now db.next_entry_id txn.entries

-- If every snapshot is exact and post_transaction succeeds, every snapshot is exact afterwards, and
-- the balance of each account has moved by what the entries of the returned transaction do to that
-- account.
pub post_transaction-balance :
    (ctx : TenantContext) (fresh : Fresh) (p : Posting) (db db' : Db) (res : Resource)
    → IsCached db
    → post_transaction ctx fresh p db ≡ ok (res, db')
    → IsCached db'
      × ((id : String) (r : AccountRow)
          → account_row id db ≡ some r
          → (balance id db').balance_minor
            ≡ (balance id db).balance_minor +ℤ posted_effect r id (as_entries res.entries))
post_transaction-balance ctx fresh p db db' res h done =
    let (txn, resolved, prepared, recorded) = post_transaction_lem ctx fresh p db db' res done in
    (
      Recorded-IsCached _ ctx fresh.event_id "transaction.created" txn db db' res recorded h,
      λ id r found.
          Recorded-balance _ ctx fresh.event_id "transaction.created" txn db db' res recorded h id r
            found
          ∙ ap (λ (es : List Entry). (balance id db).balance_minor +ℤ posted_effect r id es)
              (sym (resource-entries ctx txn db res recorded.resource)),
    )
