-- ===== src/Application/Accounts/Opening.antt =====
-- An account that create_account of src/ledgerflow/application/services.py opens.
use ledgerflow.Prelude.{
  String, ◌≡◌, refl, sym, subst, ap, ◌⊎◌, ◌∙◌, Bool, true, false, ◌&&◌, ◌||◌, Option, some, [], ◌∷◌,
  ◌++◌, ◌==◌, eq_self, any, find-last, any-last, any-weaker, Bool-cases, inl, inr, arith,
}
use ledgerflow.Prelude.Int.{ℤ}
use ledgerflow.Exception.{ok, err, value_error, integrity_error}
use ledgerflow.Domain.Ledger.{AccountType, normal_balance}
use ledgerflow.Domain.Currency.{lower}
use ledgerflow.Adapters.Tx.{or_raise}
use ledgerflow.Adapters.Tx.Reads.{Reads-eq_ok, Reads-or_raise, ok-injective}
use ledgerflow.Adapters.Tables.{Db, AccountRow, open_account}
use ledgerflow.Adapters.Accounts.{create, clashes, in_scope, first_of_two, resolve}
use ledgerflow.Application.Services.{TenantContext, resolve_account}
use ledgerflow.Application.Accounts.{account_type, create_account}

-- The row that create inserts, by its name alone where the proofs need it.
created :
    (account_id tenant_id mode name : String) (t : AccountType) (currency : String)
    (external_id : Option String) (minimum_balance : Option ℤ) (db db' : Db) (row : AccountRow)
    → create account_id tenant_id mode name t currency external_id minimum_balance db
      ≡ ok (row, db')
    → (db' ≡ record db { accounts = db.accounts ++ row ∷ [] })
      × (any (λ a. a.id == account_id || clashes row a) db.accounts ≡ false)
      × (row.id ≡ account_id)
      × (row.tenant_id ≡ tenant_id)
      × (row.mode ≡ mode)
      × (row.external_id ≡ external_id)
unfolding create
created account_id tenant_id mode name t currency external_id minimum_balance db db' row done =
    let new : AccountRow = record {
      id = account_id;
      tenant_id = tenant_id;
      mode = mode;
      external_id = external_id;
      name = name;
      type = t;
      normal_balance = normal_balance t;
      currency = lower currency;
      status = open_account;
      minimum_balance = minimum_balance;
    } in
    elim (Bool-cases (any (λ a. a.id == account_id || clashes new a) db.accounts)) [
      | inl taken ↦ absurd (cc (rw taken at done))
      | inr free ↦
          let (is_row, is_db) = ok-injective (rw free at done) in
          subst
            (λ (r : AccountRow).
              (db' ≡ record db { accounts = db.accounts ++ r ∷ [] })
              × (any (λ a. a.id == account_id || clashes r a) db.accounts ≡ false)
              × (r.id ≡ account_id)
              × (r.tenant_id ≡ tenant_id)
              × (r.mode ≡ mode)
              × (r.external_id ≡ external_id))
            is_row (sym is_db, free, refl, refl, refl, refl)
    ]

by_id : String → String → String → AccountRow → Bool
by_id ref tenant_id mode a = in_scope tenant_id mode a && (a.id == ref)

resolve_created :
    (ctx : TenantContext) (db : Db) (row : AccountRow)
    → any (λ a. a.id == row.id || clashes row a) db.accounts ≡ false
    → row.tenant_id ≡ ctx.tenant_id
    → row.mode ≡ ctx.mode
    → resolve row.id ctx.tenant_id ctx.mode (record db { accounts = db.accounts ++ row ∷ [] })
      ≡ some row
unfolding resolve by_id first_of_two
resolve_created ctx db row free tenant mode =
    let found =
      find-last (by_id row.id ctx.tenant_id ctx.mode) db.accounts row
        (any-weaker (by_id row.id ctx.tenant_id ctx.mode) (λ a. a.id == row.id || clashes row a)
          db.accounts (λ a other. ground arith) free)
        (rw tenant
          (rw mode (rw (eq_self ctx.tenant_id) (rw (eq_self ctx.mode) (eq_self row.id))))) in
    rw found refl

hits :
    (new row : AccountRow)
    → (new.id ≡ row.id)
      ⊎ ((new.tenant_id ≡ row.tenant_id)
          × (new.mode ≡ row.mode)
          × ((e : String) × (new.external_id ≡ some e) × (row.external_id ≡ some e)))
    → (row.id == new.id || clashes new row) ≡ true
unfolding clashes
hits new row (inl same) = ground arith
hits new row (inr (tenant, mode, (e, theirs, ours))) = ground arith

-- A second account with the id, or with the external id in the same tenant and mode, is refused.
second_refused :
    (account_id tenant_id mode name : String) (t : AccountType) (currency : String)
    (external_id : Option String) (minimum_balance : Option ℤ) (db : Db) (row : AccountRow)
    → (account_id ≡ row.id)
      ⊎ ((tenant_id ≡ row.tenant_id)
          × (mode ≡ row.mode)
          × ((e : String) × (external_id ≡ some e) × (row.external_id ≡ some e)))
    → create account_id tenant_id mode name t currency external_id minimum_balance
        (record db { accounts = db.accounts ++ row ∷ [] })
      ≡ err integrity_error
unfolding create
second_refused account_id tenant_id mode name t currency external_id minimum_balance db row h =
    let new : AccountRow = record {
      id = account_id;
      tenant_id = tenant_id;
      mode = mode;
      external_id = external_id;
      name = name;
      type = t;
      normal_balance = normal_balance t;
      currency = lower currency;
      status = open_account;
      minimum_balance = minimum_balance;
    } in
    rw (any-last (λ a. a.id == account_id || clashes new a) db.accounts row (hits new row h)) refl

-- A created account can be resolved by its id at once, as the row that was returned, and a further
-- creation of an account of a known type with its id, or with its external id in its tenant and
-- mode, is refused.
pub create_account-resolve_account :
    (ctx : TenantContext) (account_id name type currency : String) (external_id : Option String)
    (minimum_balance : Option ℤ) (db db' : Db) (row : AccountRow)
    → create_account ctx account_id name type currency external_id minimum_balance db
      ≡ ok (row, db')
    → (i n ty cu : String) (e : Option String) (m : Option ℤ) (t : AccountType)
    → (i ≡ account_id) ⊎ ((x : String) × (e ≡ some x) × (external_id ≡ some x))
    → account_type ty ≡ some t
    → (resolve_account ctx account_id db' ≡ ok (row, db'))
      × (create_account ctx i n ty cu e m db' ≡ err integrity_error)
unfolding create_account resolve_account
create_account-resolve_account ctx account_id name type currency external_id minimum_balance db db'
      row done i n ty cu e m t' clash parses =
    let (t, _, k) =
      Reads-eq_ok (or_raise (account_type type) value_error)
        (λ t. create account_id ctx.tenant_id ctx.mode name t currency external_id minimum_balance)
        db (Reads-or_raise (account_type type) value_error) done in
    let (is_db, free, is_id, is_tenant, is_mode, is_external) =
      created account_id ctx.tenant_id ctx.mode name t currency external_id minimum_balance db db'
        row k in
    let resolved : resolve account_id ctx.tenant_id ctx.mode db' ≡ some row =
      ap (λ (i : String). resolve i ctx.tenant_id ctx.mode db') (sym is_id)
      ∙ ap (resolve row.id ctx.tenant_id ctx.mode) is_db
      ∙ resolve_created ctx db row
          (ap (λ (i : String). any (λ a. a.id == i || clashes row a) db.accounts) is_id ∙ free)
          is_tenant is_mode in
    (
      rw resolved refl,
      rw parses (
          ap (create i ctx.tenant_id ctx.mode n t' cu e m) is_db
          ∙ second_refused i ctx.tenant_id ctx.mode n t' cu e m db row (elim clash [
            | inl same ↦ inl (same ∙ sym is_id)
            | inr (x, theirs, ours) ↦
                inr (sym is_tenant, sym is_mode, (x, theirs, is_external ∙ ours))
          ])),
    )
