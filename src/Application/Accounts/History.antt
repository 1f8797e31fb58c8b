-- ===== src/Application/Accounts/History.antt =====
-- The two ways that balance of src/ledgerflow/application/services.py answers.
use ledgerflow.Prelude.{
  ℕ, ◌/◌, String, ◌≡◌, refl, ◌∙◌, true, ◌&&◌, leb, ◌==◌, Option, none, some, List, [], ◌∷◌, ◌≤◌,
  All, arith,
}
use ledgerflow.Prelude.Int.{ℤ}
use ledgerflow.Exception.{Result, ok}
use ledgerflow.Adapters.Tables.{Db, AccountRow, EntryRow}
use ledgerflow.Adapters.Accounts
use ledgerflow.Adapters.Accounts.{balance_at}
use ledgerflow.Adapters.Accounts.Snapshots.{
  IsCached, account_row, full_balance, balance-eq-full, sum_effects-agree,
}
use ledgerflow.Application.Services.{TenantContext, resolve_account}
use ledgerflow.Application.Services.Prepare.{resolve_account-found}
use ledgerflow.Application.Services.Resolved.{AreKeyed, resolve-row}
use ledgerflow.Adapters.Tx.{>>=-of_ok}
use ledgerflow.Application.Accounts.{
  Basis, Balance, balance, balance_result, timestamp, settled, historical,
}

agree_before :
    (id : String) (t : ℕ) (es : List EntryRow)
    → All (λ e. e.effective_at.instant ≤ t) es
    → All
        (λ e. (e.account_id == id && (leb e.effective_at.instant t && true)) ≡ (e.account_id == id))
        es
agree_before id t [] h = tt
agree_before id t (e ∷ es) (here, there) = (ground arith, agree_before id t es there)

balance_at-full :
    (id : String) (t : ℕ) (db : Db) (a : AccountRow)
    → All (λ e. e.effective_at.instant ≤ t) db.entries
    → account_row id db ≡ some a
    → (balance_at id (some t) none db).balance_minor ≡ full_balance db a id
unfolding balance_at
balance_at-full id t db a before found =
    rw found
      (sum_effects-agree a.normal_balance _ _ db.entries (agree_before id t db.entries before))

balance-currency :
    (id : String) (db : Db) (a : AccountRow)
    → account_row id db ≡ some a
    → (Accounts.balance id db).currency ≡ a.currency
unfolding Accounts.balance
balance-currency id db a found = rw found refl

balance_at-currency :
    (id : String) (t : ℕ) (db : Db) (a : AccountRow)
    → account_row id db ≡ some a
    → (balance_at id (some t) none db).currency ≡ a.currency
unfolding balance_at
balance_at-currency id t db a found = rw found refl

shown :
    (account : String) (basis : Basis) (as_of : Option ℕ) (db : Db) {b c : ℤ} {x y : String}
    → b ≡ c
    → x ≡ y
    → ◌≡◌ {A = Result (Balance × Db)}
        (ok (
          record {
            account = account;
            balance = b;
            currency = x;
            basis = basis;
            as_of = as_of;
            as_known_at = none;
          },
          db,
        ))
        (ok (
          record {
            account = account;
            balance = c;
            currency = y;
            basis = basis;
            as_of = as_of;
            as_known_at = none;
          },
          db,
        ))
shown account basis as_of db amount currency = rw amount (rw currency refl)

-- If every snapshot is exact, account ids are unique and no entry is later than a time, then both
-- questions on an account that resolves succeed: the settled balance, and the historical balance as
-- of that time, in whole seconds, which is the same number.
pub balance-settled :
    (ctx : TenantContext) (ref : String) (t : ℕ) (db : Db) (row : AccountRow)
    → IsCached db
    → AreKeyed db
    → All (λ e. e.effective_at.instant ≤ t) db.entries
    → resolve_account ctx ref db ≡ ok (row, db)
    → (b : ℤ) × (balance ctx ref none none db
        ≡ ok (
          record {
            account = row.id;
            balance = b;
            currency = row.currency;
            basis = settled;
            as_of = none;
            as_known_at = none;
          },
          db,
        ))
      × (balance ctx ref (some t) none db
          ≡ ok (
            record {
              account = row.id;
              balance = b;
              currency = row.currency;
              basis = historical;
              as_of = some (t / 1000000);
              as_known_at = none;
            },
            db,
          ))
unfolding balance balance_result timestamp
balance-settled ctx ref t db row cached keyed before resolved =
    let found =
      resolve-row ref ctx.tenant_id ctx.mode db row keyed
        (resolve_account-found ctx ref db row resolved) in
    (
      full_balance db row row.id,
      >>=-of_ok (resolve_account ctx ref) _ db resolved
          ∙ shown row.id settled none db (balance-eq-full db row.id row cached found)
              (balance-currency row.id db row found),
      >>=-of_ok (resolve_account ctx ref) _ db resolved
          ∙ shown row.id historical (some (t / 1000000)) db
              (balance_at-full row.id t db row before found)
              (balance_at-currency row.id t db row found),
    )
