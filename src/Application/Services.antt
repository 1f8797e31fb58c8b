-- ===== src/Application/Services.antt =====
-- src/ledgerflow/application/services.py: the write path, inside the caller's transaction.
-- The ids that `ids.py` draws and the wall clock are arguments.
pub mod Prepare
pub mod Record
pub mod Ledger
pub mod Balances
pub mod Resolved
pub mod Floors
pub mod Reversing
pub mod SecondReversal
pub mod Atomic
use Prim.Native.Nat.{ℕ}
use ledgerflow.Prelude.{
  String, ◌≡◌, Bool, true, false, not, ◌&&◌, ◌||◌, Option, none, some, List, [], ◌∷◌, ltb, ◌==◌,
  map, if◌then◌else◌,
}
use ledgerflow.Prelude.Int.{ℤ, pos, ◌+ℤ◌, neg, ltb_ℤ, leb_ℤ}
use ledgerflow.Exception.{
  Exception, Result, ok, err, account_not_found, currency_mismatch_error, transaction_declined,
  key_error, insufficient_funds, not_found, already_reversed,
}
use ledgerflow.Dict.{Dict, lookup, insert}
use ledgerflow.Domain.Money.{Money}
use ledgerflow.Domain.Ledger.{
  Direction, credit, Entry, Timestamp, JournalTransaction, same_direction, or_zero,
  make_transaction, reverse,
}
use ledgerflow.Domain.Posting.{PostingRequest, build_transaction}
use ledgerflow.Adapters.Tx.{Tx, ◌>>=◌, ◌>>◌, gets, modify, raise, raise_if, pure, lift, or_raise}
use ledgerflow.Adapters.Tables.{
  Db, AccountRow, is_open, TransactionRow, is_reversed, EntryRow, RawRow, Resource,
}
use ledgerflow.Adapters.Accounts
use ledgerflow.Adapters.Transactions
use ledgerflow.Adapters.Rows.{to_domain_all}
use ledgerflow.Adapters.Outbox.{append_outbox, insert_raw}
use ledgerflow.Adapters.Risk.{Probe, velocity_probe}

pub record TenantContext : Type 0 where
  pub tenant_id : String
  pub api_key_id : String
  pub mode : String

-- What one call draws from `ids.py` and from the clock.
pub record Fresh : Type 0 where
  pub transaction_id : String
  pub raw_id : String
  pub event_id : String
  pub now : Timestamp

-- resolve_account
unfoldable pub resolve_account : TenantContext → String → Tx Db AccountRow
resolve_account ctx ref = do
  row ← gets (Accounts.resolve ref ctx.tenant_id ctx.mode)
  or_raise row account_not_found

-- `{role: resolve_account(uow, ctx, ref) for role, ref in accounts.items()}`
unfoldable pub resolve_all : TenantContext → Dict String → Tx Db (Dict AccountRow)
resolve_all ctx [] = pure []
resolve_all ctx ((role, ref) ∷ accounts) = do
  row ← resolve_account ctx ref
  rest ← resolve_all ctx accounts
  pure ((role, row) ∷ rest)

-- The loop that refuses an account of another currency, or one that is not open.
unfoldable pub check_accounts : Money → Dict AccountRow → Tx Db (Unit {0})
check_accounts amount [] = pure tt
check_accounts amount ((_, row) ∷ rows) = do
  raise_if (not (row.currency == amount.currency)) currency_mismatch_error
  raise_if (not (is_open row.status)) currency_mismatch_error
  check_accounts amount rows

-- The predicate of the one blocking rule of features/rules.py, card_testing_block.
unfoldable pub card_testing_block : Probe → Bool
card_testing_block p = ltb 12 p.txn_count && ltb_ℤ p.max_amount_minor (pos 500)

-- _screen: the blocking rules, before any entry exists.
unfoldable pub screen : AccountRow → Timestamp → Tx Db (Unit {0})
screen funding at = do
  probe ← gets (velocity_probe funding.id at.instant)
  raise_if (card_testing_block probe) transaction_declined

-- `next((r for r in ("funding", "source") if r in resolved), None)`, with its row
unfoldable pub funding_row : Dict AccountRow → Option AccountRow
funding_row resolved = elim (lookup "funding" resolved) [
  | some row ↦ some row
  | none ↦ lookup "source" resolved
]

unfoldable pub screen_funding : Option AccountRow → Timestamp → Tx Db (Unit {0})
screen_funding none at = pure tt
screen_funding (some row) at = screen row at

-- `sign * entry.amount.minor`, where the sign compares with the account's normal balance
abbrev pub signed_by : AccountRow → Entry → ℤ
signed_by row e =
    if same_direction e.direction row.normal_balance then e.amount.minor else neg e.amount.minor

-- The first loop of _check_floors: what the posting does to each account.
unfoldable pub deltas_from : Dict AccountRow → List Entry → Dict ℤ → Result (Dict ℤ)
deltas_from rows [] deltas = ok deltas
deltas_from rows (e ∷ es) deltas = elim (lookup e.account_id rows) [
  | none ↦ err key_error
  | some row ↦
      deltas_from rows es
        (insert e.account_id (or_zero (lookup e.account_id deltas) +ℤ signed_by row e) deltas)
]

-- One account of the second loop. The row lock serialises other transactions, and changes no row.
unfoldable pub floor_of : String → ℤ → Option ℤ → Tx Db (Unit {0})
floor_of account_id delta none = pure tt
floor_of account_id delta (some floor) = if leb_ℤ (pos 0) delta then pure tt else do
  current ← gets (λ db. (Accounts.balance account_id db).balance_minor)
  raise_if (ltb_ℤ (current +ℤ delta) floor) insufficient_funds

unfoldable pub check_floor : Dict AccountRow → String → ℤ → Tx Db (Unit {0})
unfolding floor_of
check_floor rows account_id delta = do
  row ← or_raise (lookup account_id rows) key_error
  floor_of account_id delta row.minimum_balance

unfoldable pub check_deltas : Dict AccountRow → Dict ℤ → Tx Db (Unit {0})
check_deltas rows [] = pure tt
check_deltas rows ((account_id, delta) ∷ deltas) = do
  check_floor rows account_id delta
  check_deltas rows deltas

-- _check_floors
unfoldable pub check_floors : Dict AccountRow → JournalTransaction → Tx Db (Unit {0})
check_floors rows txn = do deltas ← lift (deltas_from rows txn.entries []); check_deltas rows deltas

-- `{row["id"]: row for row in resolved.values()}`
unfoldable pub rows_by_id : Dict AccountRow → Dict AccountRow → Dict AccountRow
rows_by_id [] rows = rows
rows_by_id ((_, row) ∷ resolved) rows = rows_by_id resolved (insert row.id row rows)

-- `{role: row["id"] for role, row in resolved.items()}`
unfoldable pub role_ids : Dict AccountRow → Dict String
role_ids [] = []
role_ids ((role, row) ∷ resolved) = (role, row.id) ∷ role_ids resolved

-- _primary_account: the account of the first credit, or of the first entry.
unfoldable pub primary_account : List Entry → Option String
primary_account [] = none
primary_account (e ∷ es) = some (go (e ∷ es) e.account_id)
  where
    go : List Entry → String → String
    go [] first = first
    go (f ∷ fs) first =
        let rest = go fs first in if same_direction f.direction credit then f.account_id else rest

-- emit: append an event to the outbox, inside the caller's transaction.
unfoldable pub emit : TenantContext → String → String → String → Resource → Tx Db String
emit ctx event_id event_type partition_key payload = do
  append_outbox event_id ctx.tenant_id ctx.mode partition_key event_type payload
  pure event_id

pub record Posting : Type 0 where
  pub kind : String
  pub accounts : Dict String
  pub amount : Money
  pub effective_at : Option Timestamp
  pub descriptor : Option String
  pub metadata : Dict String

abbrev pub effective : Posting → Fresh → Timestamp
effective p fresh = elim p.effective_at [ none ↦ fresh.now | some at ↦ at ]

-- Steps 1 to 3 of post_transaction, which only read: resolve and validate the accounts, build the
-- posting, screen it, and check the floors.
unfoldable pub prepare :
    TenantContext → Fresh → Posting → Tx Db (JournalTransaction × Dict AccountRow)
unfolding screen_funding
prepare ctx fresh p = do
  resolved ← resolve_all ctx p.accounts
  check_accounts p.amount resolved
  txn ← lift (
      build_transaction fresh.transaction_id p.kind (record {
        amount = p.amount;
        effective_at = effective p fresh;
        accounts = role_ids resolved;
        metadata = p.metadata;
      }))
  screen_funding (funding_row resolved) (effective p fresh)
  check_floors (rows_by_id resolved []) txn
  pure (txn, resolved)

-- The row that the raw descriptor is filed under: funding, source, or the first role.
raw_row : Dict AccountRow → Option AccountRow
raw_row resolved = elim (funding_row resolved) [ some row ↦ some row | none ↦ first resolved ]
  where
    first : Dict AccountRow → Option AccountRow
    first [] = none
    first ((_, row) ∷ _) = some row

-- `if descriptor: insert_raw(...)`, which an empty text skips as `None` does
unfoldable pub keep_descriptor :
    TenantContext
    → Fresh
    → Posting
    → JournalTransaction
    → Dict AccountRow
    → Option String
    → Tx Db (Unit {0})
unfolding raw_row
keep_descriptor ctx fresh p txn resolved none = pure tt
keep_descriptor ctx fresh p txn resolved (some descriptor) =
    if descriptor == "" then pure tt else do
      row ← or_raise (raw_row resolved) key_error
      insert_raw (record {
        id = fresh.raw_id;
        tenant_id = ctx.tenant_id;
        mode = ctx.mode;
        account_id = row.id;
        transaction_id = txn.id;
        kind = p.kind;
        descriptor = descriptor;
        amount_minor = p.amount.minor;
        currency = p.amount.currency;
        occurred_at = effective p fresh;
      })

-- Steps 4 to 6: the transaction and its entries, the raw descriptor, and the event.
unfoldable pub record_posting :
    TenantContext → Fresh → Posting → JournalTransaction → Dict AccountRow → Tx Db Resource
unfolding keep_descriptor
record_posting ctx fresh p txn resolved = do
  txn_row ← Transactions.insert txn ctx.tenant_id ctx.mode
  rows ← Transactions.insert_many txn
  keep_descriptor ctx fresh p txn resolved p.descriptor
  key ← or_raise (primary_account txn.entries) key_error
  let resource : Resource = record { txn = txn_row; entries = rows }
  emit ctx fresh.event_id "transaction.created" key resource
  pure resource

-- post_transaction
unfoldable pub post_transaction : TenantContext → Fresh → Posting → Tx Db Resource
post_transaction ctx fresh p = do
  (txn, resolved) ← prepare ctx fresh p
  record_posting ctx fresh p txn resolved

-- transfer
unfoldable pub transfer :
    TenantContext
    → Fresh
    → String
    → String
    → Money
    → Option Timestamp
    → Dict String
    → Tx Db Resource
transfer ctx fresh source destination amount effective_at metadata =
    post_transaction ctx fresh (record {
      kind = "transfer";
      accounts = ("source", source) ∷ ("destination", destination) ∷ [];
      amount = amount;
      effective_at = effective_at;
      descriptor = none;
      metadata = metadata;
    })

-- The original as a domain transaction; `reverses_id` is not passed on.
unfoldable pub load_original : TransactionRow → Tx Db JournalTransaction
load_original original = do
  rows ← gets (Transactions.for_transaction original.id)
  entries ← lift (to_domain_all rows)
  lift (
      make_transaction original.id original.kind original.effective_at entries original.metadata
        none)

-- What reverse_transaction writes: the reversal, its entries, the mark on the original, the event.
unfoldable pub record_reversal :
    TenantContext → Fresh → String → JournalTransaction → Tx Db Resource
record_reversal ctx fresh transaction_id reversal = do
  txn_row ← Transactions.insert reversal ctx.tenant_id ctx.mode
  rows ← Transactions.insert_many reversal
  modify (Transactions.mark_reversed transaction_id)
  key ← or_raise (primary_account reversal.entries) key_error
  let resource : Resource = record { txn = txn_row; entries = rows }
  emit ctx fresh.event_id "transaction.reversed" key resource
  pure resource

-- reverse_transaction
unfoldable pub reverse_transaction :
    TenantContext → Fresh → String → Option Timestamp → Tx Db Resource
reverse_transaction ctx fresh transaction_id effective_at = do
  found ← gets (Transactions.get transaction_id ctx.tenant_id ctx.mode)
  original ← or_raise found not_found
  raise_if (is_reversed original.status) already_reversed
  domain ← load_original original
  reversal ← lift (
      reverse fresh.transaction_id (some (elim effective_at [ none ↦ fresh.now | some at ↦ at ]))
        domain)
  record_reversal ctx fresh transaction_id reversal
