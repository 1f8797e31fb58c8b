-- ===== src/Adapters/Transactions.antt =====
-- `TransactionRepository` and `EntryRepository` of src/ledgerflow/adapters/repositories.py.
use ledgerflow.Prelude.{
  ℕ, ◌+◌, String, Bool, false, not, ◌&&◌, ◌||◌, Option, none, some, List, [], ◌∷◌, ◌++◌, ◌==◌,
  if◌then◌else◌, any, find, select, update_where, length,
}
use ledgerflow.Prelude.Int.{ℤ, pos, ◌+ℤ◌, ltb_ℤ, eq_ℤ}
use ledgerflow.Exception.{integrity_error}
use ledgerflow.Dict
use ledgerflow.Dict.{Dict}
use ledgerflow.Domain.Ledger.{
  Direction, debit, credit, Entry, JournalTransaction, same_direction, or_zero, debit_signed,
}
use ledgerflow.Adapters.Tx.{Tx, ◌>>=◌, ◌>>◌, gets, modify, raise_if, pure}
use ledgerflow.Adapters.Tables.{Db, TransactionRow, posted, reversed, EntryRow}

abbrev pub names : Option String → String → Bool
names none id = false
names (some i) id = i == id

-- The unique index on `reverses_id`.
abbrev pub reverses_same : Option String → TransactionRow → Bool
reverses_same none t = false
reverses_same (some id) t = names t.reverses_id id

-- TransactionRepository.insert, with the primary key and the unique index of the table.
unfoldable pub insert : JournalTransaction → String → String → Tx Db TransactionRow
insert txn tenant_id mode = do
  let row : TransactionRow = record {
    id = txn.id;
    tenant_id = tenant_id;
    mode = mode;
    kind = txn.kind;
    status = posted;
    effective_at = txn.effective_at;
    reverses_id = txn.reverses_id;
    metadata = txn.metadata;
  }
  transactions ← gets (λ db. db.transactions)
  raise_if (any (λ t. t.id == txn.id || reverses_same txn.reverses_id t) transactions)
      integrity_error
  modify (λ db. record db { transactions = db.transactions ++ row ∷ [] })
  pure row

-- TransactionRepository.get
unfoldable pub get : String → String → String → Db → Option TransactionRow
get txn_id tenant_id mode db =
    find (λ t. t.id == txn_id && (t.tenant_id == tenant_id && (t.mode == mode))) db.transactions

-- TransactionRepository.mark_reversed
unfoldable pub mark_reversed : String → Db → Db
mark_reversed txn_id db = record db {
  transactions =
      update_where (λ t. t.id == txn_id) (λ t. record t { status = reversed }) db.transactions;
}

-- The rows that one multi-row INSERT makes of a transaction's entries, numbered by the sequence.
unfoldable pub entry_rows : JournalTransaction → ℕ → ℕ → List Entry → List EntryRow
entry_rows txn now next [] = []
entry_rows txn now next (e ∷ es) =
    (record {
      id = next;
      transaction_id = txn.id;
      account_id = e.account_id;
      direction = e.direction;
      amount_minor = e.amount.minor;
      currency = e.amount.currency;
      effective_at = txn.effective_at;
      recorded_at = now;
    })
    ∷ entry_rows txn now (next + 1) es

-- A row that the table refuses: an amount that is not positive, an account or a transaction that is
-- not there.
unfoldable pub refused : Db → EntryRow → Bool
refused db e =
    not (ltb_ℤ (pos 0) e.amount_minor)
    || not (any (λ a. a.id == e.account_id) db.accounts)
    || not (any (λ t. t.id == e.transaction_id) db.transactions)

-- EntryRepository.insert_many, where the time of recording is that of the transaction.
unfoldable pub insert_many : JournalTransaction → Tx Db (List EntryRow)
insert_many txn = do
  rows ← gets (λ db. entry_rows txn db.now db.next_entry_id txn.entries)
  bad ← gets (λ db. any (refused db) rows)
  raise_if bad integrity_error
  modify (λ db. record db {
    entries = db.entries ++ rows;
    next_entry_id = db.next_entry_id + length txn.entries;
  })
  pure rows

-- EntryRepository.for_transaction: the table is in the order of the ids.
unfoldable pub for_transaction : String → Db → List EntryRow
for_transaction txn_id db = select (λ e. e.transaction_id == txn_id) db.entries

-- The amounts that rows hold on one side of one currency.
unfoldable pub sum_side : Direction → String → List EntryRow → ℤ
sum_side d c [] = pos 0
sum_side d c (e ∷ es) =
    (if same_direction e.direction d && (e.currency == c) then e.amount_minor else pos 0)
    +ℤ sum_side d c es

-- Some row's currency has debits that differ from its credits.
unfoldable pub off_balance : List EntryRow → List EntryRow → Bool
off_balance all [] = false
off_balance all (e ∷ es) =
    not (eq_ℤ (sum_side debit e.currency all) (sum_side credit e.currency all))
    || off_balance all es

-- The trigger assert_transaction_balanced, on the rows of one transaction.
unfoldable pub is_unbalanced : String → Db → Bool
is_unbalanced txn_id db = off_balance (for_transaction txn_id db) (for_transaction txn_id db)

-- GROUP BY currency, with the SUM of debits less credits.
unfoldable pub group_drift : List EntryRow → Dict ℤ → Dict ℤ
group_drift [] d = d
group_drift (e ∷ es) d = group_drift es (
    Dict.insert e.currency
      (or_zero (Dict.lookup e.currency d) +ℤ debit_signed e.direction e.amount_minor) d)

-- AccountRepository.global_drift: the currencies whose debits differ from their credits.
unfoldable pub global_drift : Db → Dict ℤ
global_drift db = select (λ r. not (eq_ℤ r.1 (pos 0))) (group_drift db.entries [])
