-- ===== src/Application/Services/SecondReversal.antt =====
-- `reverse_transaction` (src/ledgerflow/application/services.py) on a transaction that is already
-- reversed.
use ledgerflow.Prelude.{
  String, ◌≡◌, refl, true, false, Bool, Option, [], ◌∷◌, ◌++◌, ◌∙◌, ap, ◌==◌, ◌&&◌, find,
  find-holds, find-append, find-update_where,
}
use ledgerflow.Exception.{err, ok, already_reversed}
use ledgerflow.Domain.Ledger.{Timestamp}
use ledgerflow.Adapters.Tables.{Db, TransactionRow, reversed, Resource}
use ledgerflow.Adapters.Transactions
use ledgerflow.Application.Services.{TenantContext, Fresh, reverse_transaction}
use ledgerflow.Application.Services.Record.{new_row}
use ledgerflow.Application.Services.Reversing.{reverse_transaction_lem}

abbrev mine : TenantContext → String → TransactionRow → Bool
mine ctx id t = t.id == id && (t.tenant_id == ctx.tenant_id && (t.mode == ctx.mode))

and_first : (a b : Bool) → (a && b) ≡ true → a ≡ true
and_first true b h = refl
and_first false b h = cc

-- Once reverse_transaction has succeeded on a transaction, a call on it in the same tenant and
-- mode, with any key, ids and time, is refused as already reversed in every database where the row
-- of the transaction is still as the success left it.
pub reverse_transaction_again :
    (ctx ctx' : TenantContext) (fresh later : Fresh) (id : String) (at at' : Option Timestamp)
    (db db' db'' : Db) (res : Resource)
    → reverse_transaction ctx fresh id at db ≡ ok (res, db')
    → ctx'.tenant_id ≡ ctx.tenant_id
    → ctx'.mode ≡ ctx.mode
    → Transactions.get id ctx.tenant_id ctx.mode db''
      ≡ Transactions.get id ctx.tenant_id ctx.mode db'
    → reverse_transaction ctx' later id at' db'' ≡ err already_reversed
unfolding reverse_transaction Transactions.get
reverse_transaction_again ctx ctx' fresh later id at at' db db' db'' res done tenant mode kept =
    let (original, txn, reversal, found, _, _, _, recorded) =
      reverse_transaction_lem ctx fresh id at db db' res done in
    let still =
      ap (find (mine ctx id)) recorded.transactions
      ∙ find-update_where (mine ctx id) (λ t. t.id == id) (λ t. record t { status = reversed })
          (db.transactions ++ new_row ctx reversal ∷ []) original (λ t. refl)
          (and_first (original.id == id) _
            (find-holds (mine ctx id) db.transactions original found))
          (find-append (mine ctx id) db.transactions (new_row ctx reversal ∷ []) original found) in
    rw (tenant, mode, kept, still) refl
