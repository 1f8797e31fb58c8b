-- ===== src/Adapters/UnitOfWork.antt =====
-- `unit_of_work` of src/ledgerflow/adapters/db.py: commit on a clean exit, roll back on any exception,
-- with the deferred balance trigger of migrations/001_core.sql at the commit.
use ledgerflow.Prelude.{ℕ, Bool, ◌&&◌, leb, if◌then◌else◌, any}
use ledgerflow.Exception.{Result, ok, err, integrity_error}
use ledgerflow.Adapters.Tx.{Tx}
use ledgerflow.Adapters.Tables.{Db}
use ledgerflow.Adapters.Transactions.{is_unbalanced}

-- The trigger, once for each row that the transaction inserted.
unfoldable pub violates : ℕ → Db → Bool
violates start db = any (λ e. leb start e.id && is_unbalanced e.transaction_id db) db.entries

-- COMMIT: refused if the trigger raises.
unfoldable pub commit : {A : Type 0} → Db → Result (A × Db) → Result A × Db
commit db (err e) = (err e, db)
commit db (ok (a, db')) =
    if violates db.next_entry_id db' then (err integrity_error, db) else (ok a, db')

unfoldable pub unit_of_work : {A : Type 0} → Tx Db A → Db → Result A × Db
unfolding commit
unit_of_work work db = commit db (work db)

-- read_only: a connection for queries, which never writes.
unfoldable pub read_only : {A : Type 0} → (Db → Result A) → Db → Result A × Db
read_only query db = (query db, db)
