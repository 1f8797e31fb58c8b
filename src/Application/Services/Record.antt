-- ===== src/Application/Services/Record.antt =====
-- The writing halves of `post_transaction` and `reverse_transaction`
-- (src/ledgerflow/application/services.py): what they add to each table.
use ledgerflow.Prelude.{
  ◌+◌, String, ◌≡◌, refl, false, Option, none, some, List, [], ◌∷◌, ◌++◌, any, length, ◌==◌, ◌∙◌,
  sym, subst, update_where, Bool-cases, inl, inr, arith, ◌||◌,
}
use ledgerflow.Dict.{Dict}
use ledgerflow.Exception.{Exception, ok, key_error}
use ledgerflow.Domain.Ledger.{JournalTransaction}
use ledgerflow.Adapters.Tx.{>>=-eq_ok, or_raise}
use ledgerflow.Adapters.Tx.Reads.{ok-injective, Reads-eq_ok, Reads-or_raise}
use ledgerflow.Adapters.Tables.{
  Db, AccountRow, EntryRow, TransactionRow, posted, reversed, OutboxRow, Resource,
}
use ledgerflow.Adapters.Transactions.{
  entry_rows, insert, insert_many, reverses_same, refused, mark_reversed,
}
use ledgerflow.Adapters.Outbox.{append_outbox, insert_raw}
use ledgerflow.Application.Services.{
  TenantContext, Fresh, Posting, primary_account, emit, keep_descriptor, record_posting,
  record_reversal,
}

-- The row of a transaction that has just been posted.
abbrev pub new_row : TenantContext → JournalTransaction → TransactionRow
new_row ctx txn = record {
  id = txn.id;
  tenant_id = ctx.tenant_id;
  mode = ctx.mode;
  kind = txn.kind;
  status = posted;
  effective_at = txn.effective_at;
  reverses_id = txn.reverses_id;
  metadata = txn.metadata;
}

abbrev pub new_entries : Db → JournalTransaction → List EntryRow
new_entries db txn = entry_rows txn db.now db.next_entry_id txn.entries

-- The raw descriptors may differ, and the transactions by a function.
record SameBooks (f : List TransactionRow → List TransactionRow) (a b : Db) : Type 0 where
  accounts : b.accounts ≡ a.accounts
  transactions : b.transactions ≡ f a.transactions
  entries : b.entries ≡ a.entries
  snapshots : b.snapshots ≡ a.snapshots
  outbox : b.outbox ≡ a.outbox
  next_entry_id : b.next_entry_id ≡ a.next_entry_id
  next_outbox_id : b.next_outbox_id ≡ a.next_outbox_id

insert_lem :
    (ctx : TenantContext) (txn : JournalTransaction) (db : Db) (row : TransactionRow) (db' : Db)
    → insert txn ctx.tenant_id ctx.mode db ≡ ok (row, db')
    → (row ≡ new_row ctx txn)
      × (db' ≡ record db { transactions = db.transactions ++ new_row ctx txn ∷ [] })
      × (any (λ t. t.id == txn.id || reverses_same txn.reverses_id t) db.transactions ≡ false)
unfolding insert
insert_lem ctx txn db row db' h =
    elim (Bool-cases
      (any (λ t. t.id == txn.id || reverses_same txn.reverses_id t) db.transactions)) [
        | inl clash ↦ absurd (cc (rw clash at h))
        | inr fresh ↦ (cc (rw fresh at h), cc (rw fresh at h), fresh)
      ]

insert_many_lem :
    (txn : JournalTransaction) (db : Db) (rows : List EntryRow) (db' : Db)
    → insert_many txn db ≡ ok (rows, db')
    → (rows ≡ new_entries db txn)
      × (db' ≡ record db {
        entries = db.entries ++ new_entries db txn;
        next_entry_id = db.next_entry_id + length txn.entries;
      })
      × (any (refused db) (new_entries db txn) ≡ false)
unfolding insert_many
insert_many_lem txn db rows db' h = elim (Bool-cases (any (refused db) (new_entries db txn))) [
  | inl bad ↦ absurd (cc (rw bad at h))
  | inr fine ↦ (cc (rw fine at h), cc (rw fine at h), fine)
]

keep_descriptor_lem :
    (ctx : TenantContext) (fresh : Fresh) (p : Posting) (txn : JournalTransaction)
    (resolved : Dict AccountRow) (descriptor : Option String) (db db' : Db)
    → keep_descriptor ctx fresh p txn resolved descriptor db ≡ ok (tt, db')
    → SameBooks (λ ts. ts) db db'
unfolding keep_descriptor insert_raw
keep_descriptor_lem ctx fresh p txn resolved none db db' h = ground arith
keep_descriptor_lem ctx fresh p txn resolved (some d) db db' h = ground arith

-- What a posting adds to the database.
pub record Recorded (f : List TransactionRow → List TransactionRow) (ctx : TenantContext)
    (event_id event_type : String) (txn : JournalTransaction) (db db' : Db) (res : Resource)
    : Type 0 where
  pub accounts : db'.accounts ≡ db.accounts
  pub snapshots : db'.snapshots ≡ db.snapshots
  pub entries : db'.entries ≡ db.entries ++ new_entries db txn
  pub transactions : db'.transactions ≡ f (db.transactions ++ new_row ctx txn ∷ [])
  pub next_entry_id : db'.next_entry_id ≡ db.next_entry_id + length txn.entries
  pub resource : res ≡ record { txn = new_row ctx txn; entries = new_entries db txn }
  pub event :
      (key : String) × (primary_account txn.entries ≡ some key)
      × (db'.outbox
          ≡ db.outbox
            ++ (record {
              id = db.next_outbox_id;
              event_id = event_id;
              tenant_id = ctx.tenant_id;
              mode = ctx.mode;
              partition_key = key;
              event_type = event_type;
              payload = res;
              published = false;
              attempts = 0;
            })
              ∷ [])

or_raise-eq_ok :
    {S A : Type 0} (o : Option A) (e : Exception) (s s' : S) (a : A)
    → or_raise o e s ≡ ok (a, s')
    → (o ≡ some a) × (s' ≡ s)
or_raise-eq_ok none e s s' a h = absurd (cc h)
or_raise-eq_ok (some b) e s s' a h = (cc h, cc h)

abbrev event_row : TenantContext → Db → String → String → String → Resource → OutboxRow
event_row ctx db event_id event_type key payload = record {
  id = db.next_outbox_id;
  event_id = event_id;
  tenant_id = ctx.tenant_id;
  mode = ctx.mode;
  partition_key = key;
  event_type = event_type;
  payload = payload;
  published = false;
  attempts = 0;
}

append_outbox_lem :
    (ctx : TenantContext) (event_id event_type key : String) (payload : Resource) (db db' : Db)
    (r : OutboxRow)
    → append_outbox event_id ctx.tenant_id ctx.mode key event_type payload db ≡ ok (r, db')
    → db' ≡ record db {
      outbox = db.outbox ++ event_row ctx db event_id event_type key payload ∷ [];
      next_outbox_id = db.next_outbox_id + 1;
    }
unfolding append_outbox
append_outbox_lem ctx event_id event_type key payload db db' r h =
    elim (Bool-cases (any (λ o. o.event_id == event_id) db.outbox)) [
      | inl clash ↦ absurd (cc (rw clash at h))
      | inr fresh ↦ cc (rw fresh at h)
    ]

emit_lem :
    (ctx : TenantContext) (event_id event_type key : String) (payload : Resource) (db db' : Db)
    (r : String)
    → emit ctx event_id event_type key payload db ≡ ok (r, db')
    → db' ≡ record db {
      outbox = db.outbox ++ event_row ctx db event_id event_type key payload ∷ [];
      next_outbox_id = db.next_outbox_id + 1;
    }
unfolding emit
emit_lem ctx event_id event_type key payload db db' r h =
    let (o, s₁, e₁, h₁) =
      >>=-eq_ok (append_outbox event_id ctx.tenant_id ctx.mode key event_type payload) _ db h in
    sym (ok-injective h₁).1 ∙ append_outbox_lem ctx event_id event_type key payload db s₁ o e₁

-- The states between the writes, put together.
assemble :
    (f : List TransactionRow → List TransactionRow) (ctx : TenantContext)
    (event_id event_type : String) (txn : JournalTransaction) (row : TransactionRow)
    (rows : List EntryRow) (key : String) (res : Resource) (db s₁ s₂ s₃ s₄ : Db)
    → row ≡ new_row ctx txn
    → s₁ ≡ record db { transactions = db.transactions ++ new_row ctx txn ∷ [] }
    → rows ≡ new_entries s₁ txn
    → s₂ ≡ record s₁ {
      entries = s₁.entries ++ new_entries s₁ txn;
      next_entry_id = s₁.next_entry_id + length txn.entries;
    }
    → SameBooks f s₂ s₃
    → primary_account txn.entries ≡ some key
    → s₄ ≡ record s₃ {
      outbox =
          s₃.outbox
          ++ event_row ctx s₃ event_id event_type key (record { txn = row; entries = rows }) ∷ [];
      next_outbox_id = s₃.next_outbox_id + 1;
    }
    → record { txn = row; entries = rows } ≡ res
    → Recorded f ctx event_id event_type txn db s₄ res
assemble f ctx event_id event_type txn row rows key res db s₁ s₂ s₃ s₄ e₁ e₂ e₃ e₄ k e₅ e₆ e₇ =
    record {
      accounts = ground arith;
      snapshots = ground arith;
      entries = ground arith;
      transactions = ground arith;
      next_entry_id = ground arith;
      resource = ground arith;
      event = (key, e₅, ground arith);
    }

-- The writing half of a posting adds one row to the transactions, the entries of the transaction, and
-- one event that waits to be published and carries what the caller is told.
pub record_posting_lem :
    (ctx : TenantContext) (fresh : Fresh) (p : Posting) (txn : JournalTransaction)
    (resolved : Dict AccountRow) (db db' : Db) (res : Resource)
    → record_posting ctx fresh p txn resolved db ≡ ok (res, db')
    → Recorded (λ ts. ts) ctx fresh.event_id "transaction.created" txn db db' res
unfolding record_posting
record_posting_lem ctx fresh p txn resolved db db' res h =
    let (row, s₁, e₁, h₁) = >>=-eq_ok (insert txn ctx.tenant_id ctx.mode) _ db h in
    let (row_is, s₁_is, _) = insert_lem ctx txn db row s₁ e₁ in
    let (rows, s₂, e₂, h₂) = >>=-eq_ok (insert_many txn) _ s₁ h₁ in
    let (rows_are, s₂_is, _) = insert_many_lem txn s₁ rows s₂ e₂ in
    let (_, s₃, e₃, h₃) =
      >>=-eq_ok (keep_descriptor ctx fresh p txn resolved p.descriptor) _ s₂ h₂ in
    let kept = keep_descriptor_lem ctx fresh p txn resolved p.descriptor s₂ s₃ e₃ in
    let (key, e₄, h₄) =
      Reads-eq_ok (or_raise (primary_account txn.entries) key_error) _ s₃ (Reads-or_raise _ _) h₃ in
    let (key_is, _) = or_raise-eq_ok _ _ _ _ _ e₄ in
    let (ev, s₅, e₅, h₅) =
      >>=-eq_ok
        (emit ctx fresh.event_id "transaction.created" key (record { txn = row; entries = rows })) _
        s₃ h₄ in
    let s₅_is = emit_lem ctx fresh.event_id "transaction.created" key _ s₃ s₅ ev e₅ in
    let (res_is, s_is) = ok-injective h₅ in
    subst (λ t. Recorded (λ ts. ts) ctx fresh.event_id "transaction.created" txn db t res) s_is
      (assemble (λ ts. ts) ctx fresh.event_id "transaction.created" txn row rows key res db s₁ s₂ s₃
        s₅ row_is s₁_is rows_are s₂_is kept key_is s₅_is res_is)

-- The transactions with one of them marked as reversed.
abbrev pub marked : String → List TransactionRow → List TransactionRow
marked id = update_where (λ t. t.id == id) (λ t. record t { status = reversed })

mark_reversed-SameBooks : (id : String) (db : Db) → SameBooks (marked id) db (mark_reversed id db)
unfolding mark_reversed
mark_reversed-SameBooks id db = record {
  accounts = refl;
  transactions = refl;
  entries = refl;
  snapshots = refl;
  outbox = refl;
  next_entry_id = refl;
  next_outbox_id = refl;
}

-- The writing half of a reversal does the same for the reversal, and marks the original.
pub record_reversal_lem :
    (ctx : TenantContext) (fresh : Fresh) (id : String) (txn : JournalTransaction) (db db' : Db)
    (res : Resource)
    → record_reversal ctx fresh id txn db ≡ ok (res, db')
    → Recorded (marked id) ctx fresh.event_id "transaction.reversed" txn db db' res
unfolding record_reversal
record_reversal_lem ctx fresh id txn db db' res h =
    let (row, s₁, e₁, h₁) = >>=-eq_ok (insert txn ctx.tenant_id ctx.mode) _ db h in
    let (row_is, s₁_is, _) = insert_lem ctx txn db row s₁ e₁ in
    let (rows, s₂, e₂, h₂) = >>=-eq_ok (insert_many txn) _ s₁ h₁ in
    let (rows_are, s₂_is, _) = insert_many_lem txn s₁ rows s₂ e₂ in
    let s₃ = mark_reversed id s₂ in
    let (key, e₄, h₄) =
      Reads-eq_ok (or_raise (primary_account txn.entries) key_error) _ s₃ (Reads-or_raise _ _) h₂ in
    let (key_is, _) = or_raise-eq_ok _ _ _ _ _ e₄ in
    let (ev, s₅, e₅, h₅) =
      >>=-eq_ok
        (emit ctx fresh.event_id "transaction.reversed" key (record { txn = row; entries = rows }))
        _ s₃ h₄ in
    let s₅_is = emit_lem ctx fresh.event_id "transaction.reversed" key _ s₃ s₅ ev e₅ in
    let (res_is, s_is) = ok-injective h₅ in
    subst (λ t. Recorded (marked id) ctx fresh.event_id "transaction.reversed" txn db t res) s_is
      (assemble (marked id) ctx fresh.event_id "transaction.reversed" txn row rows key res db s₁ s₂
        s₃ s₅ row_is s₁_is rows_are s₂_is (mark_reversed-SameBooks id s₂) key_is s₅_is res_is)
