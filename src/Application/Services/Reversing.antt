-- ===== src/Application/Services/Reversing.antt =====
-- `reverse_transaction` (src/ledgerflow/application/services.py) on the books and the balances.
use ledgerflow.Prelude.{
  String, ◌≡◌, refl, true, false, Bool, Option, none, some, List, [], ◌∷◌, ◌∙◌, subst, sym, ap, All,
  arith, ◌==◌, if◌then◌else◌, find-holds, ◌&&◌,
}
use ledgerflow.Prelude.Int.{ℤ, pos, ◌+ℤ◌, ◌-ℤ◌, neg, int_laws}
use ledgerflow.Exception.{Exception, ok, not_found, already_reversed}
use ledgerflow.Domain.Ledger.{JournalTransaction, Entry, Timestamp, reverse}
use ledgerflow.Domain.Ledger.Balanced.{IsBalanced, make_transaction_sound}
use ledgerflow.Adapters.Rows.{as_entry, as_entries, to_domain, to_domain_all}
use ledgerflow.Adapters.Transactions.{for_transaction}
use ledgerflow.Domain.Money.Laws.{IsMoney, make_money-supported}
use ledgerflow.Domain.Ledger.{make_entry, opposite, same_direction, debit, credit, Direction}
use ledgerflow.Domain.Ledger.Reversal.{ArePositive, mirror_all, mirror}
use ledgerflow.Domain.Ledger.Reversal.{reverse-entries, mirror_all-IsBalanced}
use ledgerflow.Domain.Money.{is_positive}
use ledgerflow.Application.Services.{signed_by}
use ledgerflow.Application.Services.Ledger.{books, books-new_entries, append-IsBalanced}
use ledgerflow.Adapters.Accounts.{balance}
use ledgerflow.Adapters.Accounts.Snapshots.{IsCached, account_row}
use ledgerflow.Application.Services.Balances.{
  posted_effect, Recorded-IsCached, Recorded-balance, resource-entries,
}
use ledgerflow.Exception.{>>=-eq_ok as result-eq_ok}
use ledgerflow.Adapters.Tx.{raise_if, or_raise, lift}
use ledgerflow.Adapters.Tx.Reads.{
  Reads-eq_ok, Reads-or_raise, Reads-raise_if, Reads-lift, Reads, reads_rules, ok-injective,
}
use ledgerflow.Application.Services.Prepare.{lift-eq_ok}
use ledgerflow.Adapters.Tables.{Db, AccountRow, EntryRow, TransactionRow, is_reversed, Resource}
use ledgerflow.Adapters.Transactions
use ledgerflow.Application.Services.{TenantContext, Fresh, load_original, reverse_transaction}
use ledgerflow.Application.Services.Record.{Recorded, marked, record_reversal_lem}

abbrev when : Fresh → Option Timestamp → Timestamp
when fresh effective_at = elim effective_at [ none ↦ fresh.now | some at ↦ at ]

load_original-Reads : (original : TransactionRow) → Reads (load_original original)
unfolding load_original
load_original-Reads original = search reads_rules

or_raise-found :
    {A : Type 0} (o : Option A) (e : Exception) (db : Db) (a : A)
    → or_raise o e db ≡ ok (a, db)
    → o ≡ some a
or_raise-found none e db a h = absurd (cc h)
or_raise-found (some b) e db a h = ap some (ok-injective h).0

raise_if-passed : (b : Bool) (e : Exception) (db : Db) → raise_if b e db ≡ ok (tt, db) → b ≡ false
raise_if-passed true e db h = absurd (cc h)
raise_if-passed false e db h = refl

get-id :
    (ctx : TenantContext) (id : String) (db : Db) (original : TransactionRow)
    → Transactions.get id ctx.tenant_id ctx.mode db ≡ some original
    → original.id ≡ id
unfolding Transactions.get
get-id ctx id db original h =
    let p = λ (t : TransactionRow).
      t.id == id && (t.tenant_id == ctx.tenant_id && (t.mode == ctx.mode)) in
    let holds : p original ≡ true = find-holds p db.transactions original h in ground arith

-- What a successful reversal has found and written.
pub reverse_transaction_lem :
    (ctx : TenantContext) (fresh : Fresh) (id : String) (at : Option Timestamp) (db db' : Db)
    (res : Resource)
    → reverse_transaction ctx fresh id at db ≡ ok (res, db')
    → (original : TransactionRow) × (txn : JournalTransaction) × (reversal : JournalTransaction)
      × (Transactions.get id ctx.tenant_id ctx.mode db ≡ some original)
      × (is_reversed original.status ≡ false)
      × (load_original original db ≡ ok (txn, db))
      × (reverse fresh.transaction_id (some (when fresh at)) txn ≡ ok reversal)
      × Recorded (marked id) ctx fresh.event_id "transaction.reversed" reversal db db' res
unfolding reverse_transaction
reverse_transaction_lem ctx fresh id at db db' res h =
    let found = Transactions.get id ctx.tenant_id ctx.mode db in
    let (original, e₂, h₂) =
      Reads-eq_ok (or_raise found not_found) _ db (Reads-or_raise found not_found) h in
    let (u, e₃, h₃) =
      Reads-eq_ok (raise_if (is_reversed original.status) already_reversed) _ db
        (Reads-raise_if _ _) h₂ in
    let (txn, e₄, h₄) =
      Reads-eq_ok (load_original original) _ db (load_original-Reads original) h₃ in
    let (reversal, e₅, h₅) =
      Reads-eq_ok (lift (reverse fresh.transaction_id (some (when fresh at)) txn)) _ db
        (Reads-lift _) h₄ in
    (
      original,
      txn,
      reversal,
      or_raise-found found not_found db original e₂,
      raise_if-passed (is_reversed original.status) already_reversed db e₃,
      e₄,
      lift-eq_ok _ db e₅,
      record_reversal_lem ctx fresh id reversal db db' res h₅,
    )

to_domain-as_entry :
    (r : EntryRow) (e : Entry)
    → IsMoney (as_entry r).amount
    → to_domain r ≡ ok e
    → (e ≡ as_entry r) × (is_positive e.amount ≡ true)
unfolding to_domain make_entry
to_domain-as_entry r e m h = (
  ground (arith, make_money-supported r.amount_minor r.currency m),
  ground (arith, make_money-supported r.amount_minor r.currency m),
)

-- Rows in supported currencies that read back do so as the entries that they stand for.
to_domain_all-as_entries :
    (rows : List EntryRow) (es : List Entry)
    → All (λ e. IsMoney e.amount) (as_entries rows)
    → to_domain_all rows ≡ ok es
    → (es ≡ as_entries rows) × ArePositive es
unfolding to_domain_all
to_domain_all-as_entries [] es m h = ground arith
to_domain_all-as_entries (r ∷ rows) es m h =
    let (e, e₁, h₁) = result-eq_ok (to_domain r) _ h in
    let (rest, e₂, h₂) = result-eq_ok (to_domain_all rows) _ h₁ in
    close e rest (to_domain-as_entry r e m.0 e₁) (to_domain_all-as_entries rows rest m.1 e₂) h₂
  where
    close :
        (e : Entry) (rest : List Entry)
        → (e ≡ as_entry r) × (is_positive e.amount ≡ true)
        → (rest ≡ as_entries rows) × ArePositive rest
        → ok (e ∷ rest) ≡ ok es
        → (es ≡ as_entry r ∷ as_entries rows) × ArePositive es
    close e rest p q same =
        let here : e ∷ rest ≡ es = cc same in
        subst (λ (t : List Entry). (t ≡ as_entry r ∷ as_entries rows) × ArePositive t) here
          (cc (p.0, q.0), (p.1, q.1))

-- The original that is loaded has the entries that its rows stand for.
load_original-entries :
    (original : TransactionRow) (db : Db) (txn : JournalTransaction)
    → All (λ e. IsMoney e.amount) (as_entries (for_transaction original.id db))
    → load_original original db ≡ ok (txn, db)
    → (txn.entries ≡ as_entries (for_transaction original.id db))
      × ArePositive txn.entries
      × IsBalanced txn.entries
unfolding load_original
load_original-entries original db txn m h =
    let (es, e₁, h₁) =
      Reads-eq_ok (lift (to_domain_all (for_transaction original.id db))) _ db (Reads-lift _) h in
    let (es_are, positive) =
      to_domain_all-as_entries (for_transaction original.id db) es m (lift-eq_ok _ db e₁) in
    let (same, _, _, balanced) =
      make_transaction_sound original.id original.kind original.effective_at es original.metadata
        none (lift-eq_ok _ db h₁) in
    (same ∙ es_are, subst ArePositive (sym same) positive, balanced)

signed_by-mirror : (r : AccountRow) (e : Entry) → signed_by r (mirror e) ≡ neg (signed_by r e)
unfolding neg opposite
signed_by-mirror r e = go e.direction r.normal_balance
  where
    go :
        (d n : Direction)
        → (if same_direction (opposite d) n then e.amount.minor else neg e.amount.minor)
          ≡ neg (if same_direction d n then e.amount.minor else neg e.amount.minor)
    go debit debit = refl
    go debit credit = omega int_laws
    go credit debit = omega int_laws
    go credit credit = refl

-- A mirrored posting moves every account by the opposite.
posted_effect-mirror_all :
    (r : AccountRow) (id : String) (es : List Entry)
    → posted_effect r id (mirror_all es) ≡ neg (posted_effect r id es)
posted_effect-mirror_all r id [] = omega int_laws
posted_effect-mirror_all r id (e ∷ es) =
    rw (posted_effect-mirror_all r id es) (one (e.account_id == id))
  where
    one :
        (b : Bool)
        → (if b then signed_by r (mirror e) else pos 0) +ℤ neg (posted_effect r id es)
          ≡ neg ((if b then signed_by r e else pos 0) +ℤ posted_effect r id es)
    one true = rw (signed_by-mirror r e) (omega int_laws)
    one false = omega int_laws

plus_neg : (x y : ℤ) → x +ℤ neg y ≡ x -ℤ y
plus_neg x y = omega int_laws

-- If every snapshot is exact, the books balance, the original's rows are in supported currencies
-- and reverse_transaction succeeds, it returns the mirror of the original's entries, the books
-- balance and every snapshot is exact afterwards, and each account's balance has lost what the
-- original did to it.
pub reverse_transaction-balance :
    (ctx : TenantContext) (fresh : Fresh) (id : String) (at : Option Timestamp) (db db' : Db)
    (res : Resource)
    → IsCached db
    → IsBalanced (books db)
    → All (λ e. IsMoney e.amount) (as_entries (for_transaction id db))
    → reverse_transaction ctx fresh id at db ≡ ok (res, db')
    → (as_entries res.entries ≡ mirror_all (as_entries (for_transaction id db)))
      × IsBalanced (books db')
      × IsCached db'
      × ((account : String) (r : AccountRow)
          → account_row account db ≡ some r
          → (balance account db').balance_minor
            ≡ (balance account db).balance_minor
              -ℤ posted_effect r account (as_entries (for_transaction id db)))
reverse_transaction-balance ctx fresh id at db db' res h balanced m done =
    let (original, txn, reversal, found, _, loaded, reversed, recorded) =
      reverse_transaction_lem ctx fresh id at db db' res done in
    let same_id = get-id ctx id db original found in
    let (es_are, positive, even) =
      load_original-entries original db txn
        (subst (λ i. All (λ e. IsMoney e.amount) (as_entries (for_transaction i db))) (sym same_id)
          m)
        loaded in
    let turned =
      reverse-entries fresh.transaction_id (some (when fresh at)) txn positive reversed in
    let mirrored =
      turned ∙ ap mirror_all (es_are ∙ ap (λ i. as_entries (for_transaction i db)) same_id) in
    (
      resource-entries ctx reversal db res recorded.resource ∙ mirrored,
      subst IsBalanced (sym (books-new_entries db db' reversal recorded.entries)) (
          append-IsBalanced (books db) reversal.entries balanced
            (subst IsBalanced (sym turned) (mirror_all-IsBalanced txn.entries even))),
      Recorded-IsCached _ ctx fresh.event_id "transaction.reversed" reversal db db' res recorded h,
      λ account r row.
          Recorded-balance _ ctx fresh.event_id "transaction.reversed" reversal db db' res recorded
            h account r row
          ∙ ap
              (λ (es : List Entry).
                (balance account db).balance_minor +ℤ posted_effect r account es)
              mirrored
          ∙ ap (λ (z : ℤ). (balance account db).balance_minor +ℤ z)
              (posted_effect-mirror_all r account _)
          ∙ plus_neg _ _,
    )
