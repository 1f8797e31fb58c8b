-- ===== src/Adapters/Tables.antt =====
-- The tables of migrations/001_core.sql that the posting path reads and writes, as rows in the order
-- of insertion. Instants are microseconds. A column that no statement of the model reads (created_at,
-- an account's metadata, the recorded_at of a transaction) is left out.
use ledgerflow.Prelude.{ℕ, String, Bool, true, false, Option, List, []}
use ledgerflow.Prelude.Int.{ℤ}
use ledgerflow.Dict.{Dict}
use ledgerflow.Domain.Ledger.{Direction, AccountType, Timestamp}

pub data AccountStatus : Type 0 where
  open_account frozen closed : AccountStatus

-- `status = 'open'`
abbrev pub is_open : AccountStatus → Bool
is_open open_account = true
is_open frozen = false
is_open closed = false

pub record AccountRow : Type 0 where
  pub id : String
  pub tenant_id : String
  pub mode : String
  pub external_id : Option String
  pub name : String
  pub type : AccountType
  pub normal_balance : Direction
  pub currency : String
  pub status : AccountStatus
  pub minimum_balance : Option ℤ

pub data TransactionStatus : Type 0 where
  posted reversed : TransactionStatus

-- `status == "reversed"`
abbrev pub is_reversed : TransactionStatus → Bool
is_reversed posted = false
is_reversed reversed = true

pub record TransactionRow : Type 0 where
  pub id : String
  pub tenant_id : String
  pub mode : String
  pub kind : String
  pub status : TransactionStatus
  pub effective_at : Timestamp
  pub reverses_id : Option String
  pub metadata : Dict String

pub record EntryRow : Type 0 where
  pub id : ℕ
  pub transaction_id : String
  pub account_id : String
  pub direction : Direction
  pub amount_minor : ℤ
  pub currency : String
  pub effective_at : Timestamp
  pub recorded_at : ℕ

pub record Snapshot : Type 0 where
  pub account_id : String
  pub up_to_entry_id : ℕ
  pub balance_minor : ℤ
  pub currency : String

-- What `serializers.transaction` shows of a transaction: its row and the rows of its entries.
pub record Resource : Type 0 where
  pub txn : TransactionRow
  pub entries : List EntryRow

pub record OutboxRow : Type 0 where
  pub id : ℕ
  pub event_id : String
  pub tenant_id : String
  pub mode : String
  pub partition_key : String
  pub event_type : String
  pub payload : Resource
  pub published : Bool
  pub attempts : ℕ

pub record RawRow : Type 0 where
  pub id : String
  pub tenant_id : String
  pub mode : String
  pub account_id : String
  pub transaction_id : String
  pub kind : String
  pub descriptor : String
  pub amount_minor : ℤ
  pub currency : String
  pub occurred_at : Timestamp

-- The state of the database; `now` is the time of the running transaction, and the two counters are
-- the sequences behind the BIGSERIAL columns.
pub record Db : Type 0 where
  pub accounts : List AccountRow
  pub transactions : List TransactionRow
  pub entries : List EntryRow
  pub snapshots : List Snapshot
  pub outbox : List OutboxRow
  pub raw_transactions : List RawRow
  pub next_entry_id : ℕ
  pub next_outbox_id : ℕ
  pub now : ℕ

abbrev pub empty : ℕ → Db
empty now = record {
  accounts = [];
  transactions = [];
  entries = [];
  snapshots = [];
  outbox = [];
  raw_transactions = [];
  next_entry_id = 1;
  next_outbox_id = 1;
  now = now;
}
