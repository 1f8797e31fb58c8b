-- ===== src/Application/Services/Atomic.antt =====
-- `post_transaction` inside `unit_of_work` (src/ledgerflow/application/services.py and
-- src/ledgerflow/adapters/db.py): the books and the outbox as one write.
use ledgerflow.Prelude.{
  String, ◌≡◌, refl, ap, sym, ◌∙◌, false, [], ◌∷◌, ◌++◌, Bool-cases, inl, inr, ◌⊎◌,
}
use ledgerflow.Exception.{Exception, Result, ok, err, integrity_error}
use ledgerflow.Adapters.Tx.{Tx}
use ledgerflow.Adapters.Tables.{Db, Resource}
use ledgerflow.Adapters.UnitOfWork.{violates, commit, unit_of_work}
use ledgerflow.Application.Services.{TenantContext, Fresh, Posting, post_transaction}
use ledgerflow.Application.Services.Ledger.{post_transaction_lem}

-- Whatever runs in a unit of work, the database is left as it was, or the work succeeded and its state
-- passed the check at the commit.
module _ {A : Type 0} (work : Tx Db A) (db : Db) where
  pub unit_of_work_lem :
      ((e : Exception) × (unit_of_work work db ≡ (err e, db)))
      ⊎ ((a : A) × (db' : Db) × (work db ≡ ok (a, db'))
          × (violates db.next_entry_id db' ≡ false)
          × (unit_of_work work db ≡ (ok a, db')))
  unfolding unit_of_work commit
  unit_of_work_lem = go (work db) refl
    where
      go :
          (r : Result (A × Db))
          → work db ≡ r
          → ((e : Exception) × (commit db (work db) ≡ (err e, db)))
            ⊎ ((a : A) × (db' : Db) × (work db ≡ ok (a, db'))
                × (violates db.next_entry_id db' ≡ false)
                × (commit db (work db) ≡ (ok a, db')))
      go (err e) h = inl (e, rw h)
      go (ok (a, db')) h = elim (Bool-cases (violates db.next_entry_id db')) [
        | inl bad ↦ inl (integrity_error, rw (h, bad))
        | inr fine ↦ inr (a, db', h, fine, rw (h, fine))
      ]

-- What a posting has written when it returns a resource: its row, its entries, and one event that
-- waits to be published.
abbrev pub HasWritten : TenantContext → Fresh → Db → Resource → Db → Type 0
HasWritten ctx fresh db res db' =
    (db'.transactions ≡ db.transactions ++ res.txn ∷ [])
    × (db'.entries ≡ db.entries ++ res.entries)
    × ((key : String) × (db'.outbox
          ≡ db.outbox
            ++ (record {
              id = db.next_outbox_id;
              event_id = fresh.event_id;
              tenant_id = ctx.tenant_id;
              mode = ctx.mode;
              partition_key = key;
              event_type = "transaction.created";
              payload = res;
              published = false;
              attempts = 0;
            })
              ∷ []))

-- post_transaction in a unit of work leaves the database as it was and reports an exception, or it
-- returns the resource and has added its transaction, its entries and exactly one unpublished event
-- that carries it.
pub post_transaction-unit_of_work :
    (ctx : TenantContext) (fresh : Fresh) (p : Posting) (db : Db)
    → ((e : Exception) × (unit_of_work (post_transaction ctx fresh p) db ≡ (err e, db)))
      ⊎ ((res : Resource) × (db' : Db) × (unit_of_work (post_transaction ctx fresh p) db
            ≡ (ok res, db'))
          × HasWritten ctx fresh db res db')
post_transaction-unit_of_work ctx fresh p db =
    elim (unit_of_work_lem (post_transaction ctx fresh p) db) [
      | inl unchanged ↦ inl unchanged
      | inr (res, db', done, _, same) ↦ inr (res, db', same, written res db' done)
    ]
  where
    written :
        (res : Resource) (db' : Db)
        → post_transaction ctx fresh p db ≡ ok (res, db')
        → HasWritten ctx fresh db res db'
    written res db' done =
        let (txn, resolved, prepared, recorded) =
          post_transaction_lem ctx fresh p db db' res done in
        let (key, _, outbox) = recorded.event in
        (
          recorded.transactions
              ∙ ap (λ (r : Resource). db.transactions ++ r.txn ∷ []) (sym recorded.resource),
          recorded.entries ∙ ap (λ (r : Resource). db.entries ++ r.entries) (sym recorded.resource),
          (key, outbox),
        )
