-- ===== src/Adapters/Accounts.antt =====
-- `AccountRepository` of src/ledgerflow/adapters/repositories.py: accounts and their balances.
pub mod Snapshots
pub mod Reconcile
use ledgerflow.Prelude.{
  ℕ, ◌+◌, String, Bool, true, false, not, ◌&&◌, ◌||◌, Option, none, some, List, [], ◌∷◌, ◌++◌, map,
  ltb, leb, nat_eq, ◌==◌, if◌then◌else◌, any, find, select,
}
use ledgerflow.Prelude.Int.{ℤ, pos, ◌+ℤ◌, neg, eq_ℤ}
use ledgerflow.Exception.{integrity_error}
use ledgerflow.Domain.Currency.{lower}
use ledgerflow.Domain.Ledger.{
  Direction, debit, AccountType, same_direction, normal_balance, Timestamp,
}
use ledgerflow.Adapters.Tx.{Tx, ◌>>=◌, ◌>>◌, gets, modify, raise_if, pure}
use ledgerflow.Adapters.Tables.{Db, AccountRow, open_account, EntryRow, Snapshot}

-- `external_id = ref`, which NULL never satisfies
abbrev pub has_external : Option String → String → Bool
has_external none ref = false
has_external (some e) ref = e == ref

-- The same tenant and mode.
abbrev pub in_scope : String → String → AccountRow → Bool
in_scope tenant_id mode a = a.tenant_id == tenant_id && (a.mode == mode)

-- The unique index on the external ids of a tenant and mode.
unfoldable pub clashes : AccountRow → AccountRow → Bool
clashes new a =
    in_scope new.tenant_id new.mode a
    && elim new.external_id [ none ↦ false | some e ↦ has_external a.external_id e ]

-- AccountRepository.create, with the primary key and the unique index that the table declares.
unfoldable pub create :
    String
    → String
    → String
    → String
    → AccountType
    → String
    → Option String
    → Option ℤ
    → Tx Db AccountRow
create account_id tenant_id mode name type currency external_id minimum_balance = do
  let row : AccountRow = record {
    id = account_id;
    tenant_id = tenant_id;
    mode = mode;
    external_id = external_id;
    name = name;
    type = type;
    normal_balance = normal_balance type;
    currency = lower currency;
    status = open_account;
    minimum_balance = minimum_balance;
  }
  accounts ← gets (λ db. db.accounts)
  raise_if (any (λ a. a.id == account_id || clashes row a) accounts) integrity_error
  modify (λ db. record db { accounts = db.accounts ++ row ∷ [] })
  pure row

unfoldable pub first_of_two {ℓ} : {A : Type ℓ} → Option A → Option A → Option A
first_of_two (some a) other = some a
first_of_two none other = other

-- AccountRepository.resolve: the row with that id comes before one with that external id.
unfoldable pub resolve : String → String → String → Db → Option AccountRow
unfolding first_of_two
resolve ref tenant_id mode db =
    first_of_two (find (λ a. in_scope tenant_id mode a && (a.id == ref)) db.accounts)
      (find (λ a. in_scope tenant_id mode a && has_external a.external_id ref) db.accounts)

-- AccountRepository.get
unfoldable pub get : String → String → String → Db → Option AccountRow
get account_id tenant_id mode db =
    find (λ a. in_scope tenant_id mode a && (a.id == account_id)) db.accounts

-- CASE WHEN e.direction = a.normal_balance THEN e.amount_minor ELSE -e.amount_minor END
abbrev pub effect : Direction → EntryRow → ℤ
effect normal e = if same_direction e.direction normal then e.amount_minor else neg e.amount_minor

-- The SUM of the effects of the rows that a join or a WHERE keeps.
unfoldable pub sum_effects : Direction → (EntryRow → Bool) → List EntryRow → ℤ
sum_effects normal keep [] = pos 0
sum_effects normal keep (e ∷ es) =
    (if keep e then effect normal e else pos 0) +ℤ sum_effects normal keep es

-- The newest of the snapshots of an account.
abbrev newer : Snapshot → Option Snapshot → Option Snapshot
newer s none = some s
newer s (some t) = if leb s.up_to_entry_id t.up_to_entry_id then some t else some s

unfoldable pub newest : String → List Snapshot → Option Snapshot
newest account_id [] = none
newest account_id (s ∷ ss) =
    let rest = newest account_id ss in if s.account_id == account_id then newer s rest else rest

-- COALESCE((SELECT up_to_entry_id FROM snap), 0) and COALESCE((SELECT balance_minor FROM snap), 0)
abbrev pub snap_cursor : Option Snapshot → ℕ
snap_cursor none = 0
snap_cursor (some s) = s.up_to_entry_id

abbrev pub snap_balance : Option Snapshot → ℤ
snap_balance none = pos 0
snap_balance (some s) = s.balance_minor

pub record BalanceRow : Type 0 where
  pub currency : String
  pub balance_minor : ℤ

balance_row : Db → String → Option AccountRow → BalanceRow
balance_row db account_id none = record { currency = "usd"; balance_minor = pos 0 }
balance_row db account_id (some a) =
    let snap = newest account_id db.snapshots in
    record {
      currency = a.currency;
      balance_minor =
          snap_balance snap
          +ℤ sum_effects a.normal_balance
              (λ e. e.account_id == account_id && ltb (snap_cursor snap) e.id) db.entries;
    }

-- AccountRepository.balance: the newest snapshot plus the entries after it.
unfoldable pub balance : String → Db → BalanceRow
unfolding balance_row
balance account_id db = balance_row db account_id (find (λ a. a.id == account_id) db.accounts)

-- COALESCE(bound, 'infinity')
abbrev within : ℕ → Option ℕ → Bool
within t none = true
within t (some bound) = leb t bound

balance_at_row : Db → String → Option ℕ → Option ℕ → Option AccountRow → BalanceRow
balance_at_row db account_id as_of known none = record { currency = "usd"; balance_minor = pos 0 }
balance_at_row db account_id as_of known (some a) = record {
  currency = a.currency;
  balance_minor =
      sum_effects a.normal_balance
        (λ e.
          e.account_id == account_id
          && (within e.effective_at.instant as_of && within e.recorded_at known))
        db.entries;
}

-- AccountRepository.balance_at: by business time and by the time of recording.
unfoldable pub balance_at : String → Option ℕ → Option ℕ → Db → BalanceRow
unfolding balance_at_row
balance_at account_id as_of known db =
    balance_at_row db account_id as_of known (find (λ a. a.id == account_id) db.accounts)

-- MAX(e.id) over the entries of the account, or 0
unfoldable pub max_entry : String → List EntryRow → ℕ
max_entry account_id [] = 0
max_entry account_id (e ∷ es) =
    let rest = max_entry account_id es in
    if e.account_id == account_id then (if ltb rest e.id then e.id else rest) else rest

snapshot_of : Db → String → Option AccountRow → List Snapshot
snapshot_of db account_id none = []
snapshot_of db account_id (some a) =
    let up_to = max_entry account_id db.entries in
    if ltb 0 up_to
      && not (any (λ s. s.account_id == account_id && nat_eq s.up_to_entry_id up_to) db.snapshots)
    then (record {
      account_id = account_id;
      up_to_entry_id = up_to;
      balance_minor = sum_effects a.normal_balance (λ e. e.account_id == account_id) db.entries;
      currency = a.currency;
    })
      ∷ []
    else []

-- AccountRepository.write_snapshot: fold everything up to the newest entry, once per cursor.
unfoldable pub write_snapshot : String → Db → Db
unfolding snapshot_of
write_snapshot account_id db = record db {
  snapshots =
      db.snapshots ++ snapshot_of db account_id (find (λ a. a.id == account_id) db.accounts);
}

-- AccountRepository.reconcile: the accounts whose snapshot and tail differ from the entries.
cache_differs : Db → AccountRow → Option Snapshot → Bool
cache_differs db a none = false
cache_differs db a (some s) = not (
    eq_ℤ (sum_effects a.normal_balance (λ e. e.account_id == a.id) db.entries) (
      s.balance_minor
      +ℤ sum_effects a.normal_balance (λ e. e.account_id == a.id && ltb s.up_to_entry_id e.id)
          db.entries))

mismatch : Db → AccountRow → Bool
unfolding cache_differs
mismatch db a = cache_differs db a (newest a.id db.snapshots)

unfoldable pub reconcile : Db → List AccountRow
unfolding mismatch
reconcile db = select (mismatch db) db.accounts
