-- ===== src/Tests/Posts.antt =====
-- Runs of src/ledgerflow/application/services.py on a small database.
use ledgerflow.Prelude.{
  subst, ℕ, String, ◌≡◌, ◌≢◌, refl, true, false, Bool, Option, none, some, List, [], ◌∷◌, arith,
  String-discrete, length, ◌≤◌, ◌<◌, All, find, any, ◌⊎◌, ◌==◌, ◌&&◌, leb,
}
use ledgerflow.Prelude.Int.{ℤ, pos, int_laws, ◌+ℤ◌, neg, ◌≤ℤ◌}
use ledgerflow.Exception.{ok}
use ledgerflow.Dict.{Dict, lookup, insert}
use ledgerflow.Domain.Money.{Money, is_positive}
use ledgerflow.Domain.Money.Laws.{IsMoney}
use ledgerflow.Domain.Currency.{exponents}
use ledgerflow.Domain.Ledger.{
  Direction, debit, credit, AccountType, asset, equity, Timestamp, Entry,
}
use ledgerflow.Domain.Ledger.Balanced.{IsBalanced}
use ledgerflow.Adapters.Tables.{
  Db, AccountRow, open_account, TransactionRow, posted, EntryRow, Resource,
}
use ledgerflow.Adapters.Transactions.{global_drift}
use ledgerflow.Adapters.Accounts.{balance, write_snapshot, reconcile, sum_effects}
use ledgerflow.Adapters.Accounts.Snapshots.{account_row, full_balance, IsCached, balance-eq-full}
use ledgerflow.Adapters.Accounts.Reconcile.{write_snapshot-IsCached, reconcile-nil}
use ledgerflow.Adapters.Rows.{as_entries}
use ledgerflow.Application.Services.{TenantContext, Fresh, Posting, post_transaction}
use ledgerflow.Application.Services.Ledger.{books, post_transaction-IsBalanced}
use ledgerflow.Application.Services.Balances.{posted_effect, post_transaction-balance}
use ledgerflow.Application.Services.Floors.{post_transaction-floor}
use ledgerflow.Application.Services.Resolved.{AreKeyed}

abbrev pub ctx : TenantContext
ctx = record { tenant_id = "acme"; api_key_id = "k"; mode = "live" }

abbrev pub account_of : String → AccountType → Direction → Option ℤ → AccountRow
account_of id type normal floor = record {
  id = id;
  tenant_id = "acme";
  mode = "live";
  external_id = none;
  name = id;
  type = type;
  normal_balance = normal;
  currency = "usd";
  status = open_account;
  minimum_balance = floor;
}

abbrev pub cash : AccountRow
cash = account_of "cash" asset debit (some (pos 0))

abbrev savings : AccountRow
savings = account_of "savings" asset debit none

abbrev capital : AccountRow
capital = account_of "capital" equity credit none

abbrev pub at : ℕ → Timestamp
at n = record { aware = true; instant = n }

abbrev pub row : ℕ → String → String → Direction → ℕ → ℕ → EntryRow
row id txn account direction minor time = record {
  id = id;
  transaction_id = txn;
  account_id = account;
  direction = direction;
  amount_minor = pos minor;
  currency = "usd";
  effective_at = at time;
  recorded_at = time;
}

abbrev pub txn_row : String → String → ℕ → TransactionRow
txn_row id kind time = record {
  id = id;
  tenant_id = "acme";
  mode = "live";
  kind = kind;
  status = posted;
  effective_at = at time;
  reverses_id = none;
  metadata = [];
}

-- An opening balance of a hundred, with a snapshot of it.
abbrev pub before : Db
before = record {
  accounts = cash ∷ savings ∷ capital ∷ [];
  transactions = txn_row "t0" "opening_balance" 1 ∷ [];
  entries = row 1 "t0" "cash" debit 100 1 ∷ row 2 "t0" "capital" credit 100 1 ∷ [];
  snapshots =
      (record {
        account_id = "cash";
        up_to_entry_id = 1;
        balance_minor = pos 100;
        currency = "usd";
      })
      ∷ [];
  outbox = [];
  raw_transactions = [];
  next_entry_id = 3;
  next_outbox_id = 1;
  now = 7;
}

abbrev pub fresh : Fresh
fresh = record { transaction_id = "t1"; raw_id = "r1"; event_id = "e1"; now = at 7 }

abbrev thirty : Money
thirty = record { minor = pos 30; currency = "usd" }

-- Thirty from cash to savings.
abbrev pub move : Posting
move = record {
  kind = "transfer";
  accounts = ("source", "cash") ∷ ("destination", "savings") ∷ [];
  amount = thirty;
  effective_at = none;
  descriptor = some "rainy day";
  metadata = [];
}

abbrev pub moved : Resource
moved = record {
  txn = txn_row "t1" "transfer" 7;
  entries = row 3 "t1" "savings" debit 30 7 ∷ row 4 "t1" "cash" credit 30 7 ∷ [];
}

abbrev pub after : Db
after = record {
  accounts = cash ∷ savings ∷ capital ∷ [];
  transactions = txn_row "t0" "opening_balance" 1 ∷ txn_row "t1" "transfer" 7 ∷ [];
  entries =
      row 1 "t0" "cash" debit 100 1
      ∷ row 2 "t0" "capital" credit 100 1
      ∷ row 3 "t1" "savings" debit 30 7
      ∷ row 4 "t1" "cash" credit 30 7
      ∷ [];
  snapshots =
      (record {
        account_id = "cash";
        up_to_entry_id = 1;
        balance_minor = pos 100;
        currency = "usd";
      })
      ∷ [];
  outbox =
      (record {
        id = 1;
        event_id = "e1";
        tenant_id = "acme";
        mode = "live";
        partition_key = "cash";
        event_type = "transaction.created";
        payload = moved;
        published = false;
        attempts = 0;
      })
      ∷ [];
  raw_transactions =
      (record {
        id = "r1";
        tenant_id = "acme";
        mode = "live";
        account_id = "cash";
        transaction_id = "t1";
        kind = "transfer";
        descriptor = "rainy day";
        amount_minor = pos 30;
        currency = "usd";
        occurred_at = at 7;
      })
      ∷ [];
  next_entry_id = 5;
  next_outbox_id = 2;
  now = 7;
}

ran : post_transaction ctx fresh move before ≡ ok (moved, after)
unfolding ledgerflow.Application.Services.post_transaction ledgerflow.Application.Services.prepare
    ledgerflow.Application.Services.resolve_all ledgerflow.Application.Services.resolve_account
    ledgerflow.Application.Services.check_accounts ledgerflow.Domain.Posting.build_transaction
    ledgerflow.Domain.Posting.build ledgerflow.Adapters.Accounts.resolve ledgerflow.Prelude.find
    ledgerflow.Dict.lookup ledgerflow.Prelude.String-discrete
    ledgerflow.Domain.Posting.build_transfer ledgerflow.Domain.Posting.account
    ledgerflow.Application.Services.role_ids ledgerflow.Domain.Posting.simple
    ledgerflow.Domain.Ledger.make_entry ledgerflow.Domain.Money.is_positive
    ledgerflow.Domain.Ledger.make_transaction ledgerflow.Adapters.Accounts.balance
    ledgerflow.Adapters.Accounts.first_of_two ledgerflow.Adapters.Accounts.newest
    ledgerflow.Adapters.Accounts.sum_effects ledgerflow.Adapters.Outbox.append_outbox
    ledgerflow.Adapters.Outbox.insert_raw ledgerflow.Adapters.Risk.max_amount
    ledgerflow.Adapters.Risk.velocity_probe ledgerflow.Adapters.Transactions.entry_rows
    ledgerflow.Adapters.Transactions.insert ledgerflow.Adapters.Transactions.insert_many
    ledgerflow.Adapters.Transactions.refused ledgerflow.Application.Services.card_testing_block
    ledgerflow.Application.Services.check_deltas ledgerflow.Application.Services.check_floor
    ledgerflow.Application.Services.check_floors ledgerflow.Application.Services.deltas_from
    ledgerflow.Application.Services.emit ledgerflow.Application.Services.floor_of
    ledgerflow.Application.Services.funding_row ledgerflow.Application.Services.keep_descriptor
    ledgerflow.Application.Services.primary_account ledgerflow.Application.Services.record_posting
    ledgerflow.Application.Services.rows_by_id ledgerflow.Application.Services.screen
    ledgerflow.Application.Services.screen_funding ledgerflow.Dict.insert
    ledgerflow.Domain.Ledger.drift_from ledgerflow.Prelude.Int.neg ledgerflow.Prelude.Int.◌+ℤ◌
    ledgerflow.Prelude.any ledgerflow.Prelude.select
ran = refl

thirty-IsMoney : IsMoney thirty
unfolding exponents String-discrete
thirty-IsMoney = λ e. cc e

before-IsBalanced : IsBalanced (books before)
before-IsBalanced c = omega int_laws

post_transaction-IsBalanced_example : IsBalanced (books after) × (global_drift after ≡ [])
post_transaction-IsBalanced_example =
    post_transaction-IsBalanced ctx fresh move before after moved thirty-IsMoney before-IsBalanced
      ran

before-IsCached : IsCached before
unfolding find sum_effects String-discrete ◌+ℤ◌
before-IsCached = record {
  started = omega arith;
  ids = ((omega arith, omega arith), ((omega arith, omega arith), tt));
  cursors = (omega arith, tt);
  exact = (λ a found. exact a found, tt);
}
  where
    exact :
        (a : AccountRow)
        → account_row "cash" before ≡ some a
        → pos 100
          ≡ sum_effects a.normal_balance (λ e. e.account_id == "cash" && leb e.id 1) before.entries
    exact a found =
        let same : cash ≡ a = cc found in
        subst
          (λ (x : AccountRow).
            pos 100
            ≡ sum_effects x.normal_balance (λ e. e.account_id == "cash" && leb e.id 1)
                before.entries)
          same refl

post_transaction-balance_example :
    IsCached after
    × ((id : String) (r : AccountRow)
        → account_row id before ≡ some r
        → (balance id after).balance_minor
          ≡ (balance id before).balance_minor +ℤ posted_effect r id (as_entries moved.entries))
post_transaction-balance_example =
    post_transaction-balance ctx fresh move before after moved before-IsCached ran

before-AreKeyed : AreKeyed before
unfolding find String-discrete
before-AreKeyed = (refl, (refl, (refl, tt)))

cash_found : account_row "cash" before ≡ some cash
unfolding find String-discrete
cash_found = refl

post_transaction-floor_example :
    ((balance "cash" before).balance_minor ≤ℤ (balance "cash" after).balance_minor)
    ⊎ (pos 0 ≤ℤ (balance "cash" after).balance_minor)
post_transaction-floor_example =
    post_transaction-floor ctx fresh move before after moved "cash" cash (pos 0) before-AreKeyed
      before-IsCached cash_found refl ran

balance-eq-full_example : (balance "cash" before).balance_minor ≡ full_balance before cash "cash"
balance-eq-full_example = balance-eq-full before "cash" cash before-IsCached cash_found

write_snapshot-IsCached_example : IsCached (write_snapshot "capital" before)
write_snapshot-IsCached_example = write_snapshot-IsCached before "capital" before-IsCached

reconcile-nil_example : reconcile before ≡ []
reconcile-nil_example = reconcile-nil before before-IsCached before-AreKeyed

pub after-IsBalanced : IsBalanced (books after)
after-IsBalanced =
    (post_transaction-IsBalanced ctx fresh move before after moved thirty-IsMoney before-IsBalanced
      ran).0

pub after-IsCached : IsCached after
after-IsCached = (post_transaction-balance ctx fresh move before after moved before-IsCached ran).0
