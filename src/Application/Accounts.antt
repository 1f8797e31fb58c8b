-- ===== src/Application/Accounts.antt =====
-- src/ledgerflow/application/services.py: accounts, their balances, and the record of a decline.
pub mod Opening
pub mod History
use ledgerflow.Prelude.{
  ℕ, ◌/◌, String, Bool, true, false, Option, none, some, List, [], ◌==◌, if◌then◌else◌,
}
use ledgerflow.Prelude.Int.{ℤ}
use ledgerflow.Exception.{value_error}
use ledgerflow.Domain.Ledger.{AccountType, asset, liability, equity, revenue, expense}
use ledgerflow.Adapters.Tx.{Tx, ◌>>=◌, ◌>>◌, gets, pure, or_raise}
use ledgerflow.Adapters.Tables.{Db, AccountRow}
use ledgerflow.Adapters.Accounts
use ledgerflow.Adapters.Accounts.{BalanceRow}
use ledgerflow.Adapters.Signals.{RiskDb, SignalRow, add_signal}
use ledgerflow.Features.{Features}
use ledgerflow.Features.Rules.{block}
use ledgerflow.Application.Services.{TenantContext, resolve_account}

-- AccountType(type), which raises ValueError where it has no value
unfoldable pub account_type : String → Option AccountType
account_type type =
    if type == "asset"
    then some asset
    else if type == "liability"
    then some liability
    else if type == "equity"
    then some equity
    else if type == "revenue"
    then some revenue
    else if type == "expense"
    then some expense
    else none

-- create_account, where `account_id` is what ids.account_id draws
unfoldable pub create_account :
    TenantContext → String → String → String → String → Option String → Option ℤ → Tx Db AccountRow
create_account ctx account_id name type currency external_id minimum_balance = do
  t ← or_raise (account_type type) value_error
  Accounts.create account_id ctx.tenant_id ctx.mode name t currency external_id minimum_balance

-- "historical" and "settled"
pub data Basis : Type 0 where
  historical settled : Basis

pub record Balance : Type 0 where
  pub account : String
  pub balance : ℤ
  pub currency : String
  pub basis : Basis
  pub as_of : Option ℕ
  pub as_known_at : Option ℕ

unfoldable pub balance_result : String → Option ℕ → Option ℕ → Db → Basis × BalanceRow
balance_result account_id none none db = (settled, Accounts.balance account_id db)
balance_result account_id (some t) known db =
    (historical, Accounts.balance_at account_id (some t) known db)
balance_result account_id none (some k) db =
    (historical, Accounts.balance_at account_id none (some k) db)

-- int(x.timestamp()) if x else None, of an instant in microseconds
pub timestamp : Option ℕ → Option ℕ
timestamp none = none
timestamp (some t) = some (t / 1000000)

-- balance
unfoldable pub balance : TenantContext → String → Option ℕ → Option ℕ → Tx Db Balance
balance ctx account_ref as_of as_known_at = do
  row ← resolve_account ctx account_ref
  result ← gets (balance_result row.id as_of as_known_at)
  pure (record {
    account = row.id;
    balance = result.1.balance_minor;
    currency = result.1.currency;
    basis = result.0;
    as_of = timestamp as_of;
    as_known_at = timestamp as_known_at;
  })

-- What TransactionDeclined carries.
pub record Decline (F : Type 0) : Type 0 where
  pub account : String
  pub rule : String
  pub score : ℕ
  pub declined_amount : ℤ
  pub features : Features F

-- record_decline with `RiskRepository.record_decline`, in a transaction of its own; the reason is left
-- out.
unfoldable pub record_decline :
    {F : Type 0} → TenantContext → String → Decline F → Tx (RiskDb F) (Unit {0})
record_decline ctx signal_id exc = add_signal (record {
  id = signal_id;
  tenant_id = ctx.tenant_id;
  account_id = exc.account;
  transaction_id = none;
  rule = exc.rule;
  score = exc.score;
  features = exc.features;
  action = block;
  attempted_amount_minor = some exc.declined_amount;
})
