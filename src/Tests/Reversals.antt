-- ===== src/Tests/Reversals.antt =====
-- Runs of reverse_transaction of src/ledgerflow/application/services.py.
use ledgerflow.Prelude.{
  ℕ, String, ◌≡◌, ◌≢◌, refl, true, false, Bool, Option, none, some, List, [], ◌∷◌, ◌++◌, All, ◌⊎◌,
  String-discrete, select,
}
use ledgerflow.Prelude.Int.{ℤ, pos, ◌-ℤ◌}
use ledgerflow.Exception.{Exception, ok, err, already_reversed}
use ledgerflow.Domain.Currency.{exponents}
use ledgerflow.Domain.Money.Laws.{IsMoney}
use ledgerflow.Domain.Ledger.{debit, credit}
use ledgerflow.Domain.Ledger.Balanced.{IsBalanced}
use ledgerflow.Domain.Ledger.Reversal.{mirror_all}
use ledgerflow.Adapters.Tables.{Db, AccountRow, reversed, Resource, EntryRow}
use ledgerflow.Adapters.UnitOfWork.{unit_of_work}
use ledgerflow.Adapters.Transactions.{for_transaction}
use ledgerflow.Adapters.Accounts.{balance}
use ledgerflow.Adapters.Accounts.Snapshots.{account_row, IsCached}
use ledgerflow.Adapters.Rows.{as_entries}
use ledgerflow.Application.Services.{TenantContext, Fresh, post_transaction, reverse_transaction}
use ledgerflow.Application.Services.Ledger.{books}
use ledgerflow.Application.Services.Balances.{posted_effect}
use ledgerflow.Application.Services.Atomic.{HasWritten, post_transaction-unit_of_work}
use ledgerflow.Application.Services.Reversing.{reverse_transaction-balance}
use ledgerflow.Application.Services.SecondReversal.{reverse_transaction_again}
use ledgerflow.Tests.Posts.{
  ctx, at, row, txn_row, before, after, fresh, move, moved, after-IsBalanced, after-IsCached,
}

post_transaction-unit_of_work_example :
    ((e : Exception) × (unit_of_work (post_transaction ctx fresh move) before ≡ (err e, before)))
    ⊎ ((res : Resource) × (db' : Db) × (unit_of_work (post_transaction ctx fresh move) before
          ≡ (ok res, db'))
        × HasWritten ctx fresh before res db')
post_transaction-unit_of_work_example = post_transaction-unit_of_work ctx fresh move before

abbrev again : Fresh
again = record { transaction_id = "t2"; raw_id = "r2"; event_id = "e2"; now = at 8 }

-- The two entries turned round, effective at the time of the reversal and recorded then.
abbrev back_rows : List EntryRow
back_rows =
    (record (row 5 "t2" "savings" credit 30 8) { recorded_at = 7 })
    ∷ (record (row 6 "t2" "cash" debit 30 8) { recorded_at = 7 })
    ∷ []

abbrev back : Resource
back = record {
  txn = record (txn_row "t2" "transfer.reversal" 8) { reverses_id = some "t1" };
  entries = back_rows;
}

abbrev undone : Db
undone = record after {
  transactions =
      txn_row "t0" "opening_balance" 1
      ∷ (record (txn_row "t1" "transfer" 7) { status = reversed })
      ∷ back.txn
      ∷ [];
  entries =
      row 1 "t0" "cash" debit 100 1
      ∷ row 2 "t0" "capital" credit 100 1
      ∷ row 3 "t1" "savings" debit 30 7
      ∷ row 4 "t1" "cash" credit 30 7
      ∷ back_rows;
  outbox =
      (record {
        id = 1;
        event_id = "e1";
        tenant_id = "acme";
        mode = "live";
        partition_key = "cash";
        event_type = "transaction.created";
        payload = moved;
        published = false;
        attempts = 0;
      })
      ∷ (record {
        id = 2;
        event_id = "e2";
        tenant_id = "acme";
        mode = "live";
        partition_key = "savings";
        event_type = "transaction.reversed";
        payload = back;
        published = false;
        attempts = 0;
      })
      ∷ [];
  next_entry_id = 7;
  next_outbox_id = 3;
}

undone_ran : reverse_transaction ctx again "t1" none after ≡ ok (back, undone)
unfolding ledgerflow.Application.Services.reverse_transaction
    ledgerflow.Application.Services.load_original ledgerflow.Application.Services.record_reversal
    ledgerflow.Adapters.Transactions.get ledgerflow.Adapters.Transactions.for_transaction
    ledgerflow.Adapters.Transactions.insert ledgerflow.Adapters.Transactions.insert_many
    ledgerflow.Adapters.Transactions.entry_rows ledgerflow.Adapters.Transactions.refused
    ledgerflow.Adapters.Transactions.mark_reversed ledgerflow.Adapters.Rows.to_domain
    ledgerflow.Adapters.Rows.to_domain_all ledgerflow.Domain.Money.make_money
    ledgerflow.Domain.Money.init_money ledgerflow.Domain.Currency.lower
    ledgerflow.Domain.Currency.exponents ledgerflow.Domain.Ledger.make_entry
    ledgerflow.Domain.Money.is_positive ledgerflow.Domain.Ledger.make_transaction
    ledgerflow.Domain.Ledger.reverse ledgerflow.Domain.Ledger.reversed
    ledgerflow.Domain.Ledger.opposite ledgerflow.Adapters.Outbox.append_outbox
    ledgerflow.Application.Services.emit ledgerflow.Application.Services.primary_account
    ledgerflow.Dict.lookup ledgerflow.Dict.insert ledgerflow.Domain.Ledger.drift_from
    ledgerflow.Prelude.Int.neg ledgerflow.Prelude.Int.◌+ℤ◌ ledgerflow.Prelude.any
    ledgerflow.Prelude.find ledgerflow.Prelude.select ledgerflow.Prelude.update_where
    ledgerflow.Prelude.String-discrete
undone_ran = refl

t1-IsMoney : All (λ e. IsMoney e.amount) (as_entries (for_transaction "t1" after))
unfolding for_transaction select exponents String-discrete
t1-IsMoney = ((λ e. cc e), ((λ e. cc e), tt))

reverse_transaction-balance_example :
    (as_entries back.entries ≡ mirror_all (as_entries (for_transaction "t1" after)))
    × IsBalanced (books undone)
    × IsCached undone
    × ((account : String) (r : AccountRow)
        → account_row account after ≡ some r
        → (balance account undone).balance_minor
          ≡ (balance account after).balance_minor
            -ℤ posted_effect r account (as_entries (for_transaction "t1" after)))
reverse_transaction-balance_example =
    reverse_transaction-balance ctx again "t1" none after undone back after-IsCached
      after-IsBalanced t1-IsMoney undone_ran

abbrev third : Fresh
third = record { transaction_id = "t3"; raw_id = "r3"; event_id = "e3"; now = at 9 }

-- The same tenant with another key, at a later time.
abbrev other_key : TenantContext
other_key = record { tenant_id = "acme"; api_key_id = "k2"; mode = "live" }

abbrev undone_later : Db
undone_later = record undone { outbox = []; now = 900 }

reverse_transaction_again_example :
    reverse_transaction other_key third "t1" none undone_later ≡ err already_reversed
unfolding ledgerflow.Adapters.Transactions.get
reverse_transaction_again_example =
    reverse_transaction_again ctx other_key again third "t1" none none after undone undone_later
      back undone_ran refl refl refl
