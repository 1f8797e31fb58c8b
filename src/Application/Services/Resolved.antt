-- ===== src/Application/Services/Resolved.antt =====
-- The rows that `post_transaction` (src/ledgerflow/application/services.py) resolves for the roles of a
-- posting, and their dict by id.
use ledgerflow.Prelude.{
  String, ◌≡◌, Bool, ◌&&◌, Option, none, some, [], ◌∷◌, ◌==◌, ◌⊎◌, inl, inr, All, ◌∙◌, subst, find,
  Bool-cases, eq_of_test,
}
use ledgerflow.Exception.{ok}
use ledgerflow.Dict.{Dict, lookup, insert, lookup-insert}
use ledgerflow.Adapters.Tx.Reads.{Reads-eq_ok, ok-injective}
use ledgerflow.Adapters.Tables.{Db, AccountRow}
use ledgerflow.Adapters.Accounts.{resolve, has_external, in_scope, first_of_two}
use ledgerflow.Adapters.Accounts.Snapshots.{account_row, find-All}
use ledgerflow.Application.Services.{TenantContext, resolve_account, resolve_all, rows_by_id}
use ledgerflow.Application.Services.Prepare.{
  resolve_account-Reads, resolve_all-Reads, resolve_account-found,
}

-- The row that an account's id finds is the row itself: no two accounts have one id.
abbrev pub AreKeyed : Db → Type 0
AreKeyed db = All (λ a. account_row a.id db ≡ some a) db.accounts

-- Every row is the one that its account's id finds in the database.
abbrev pub AreRows : Db → Dict AccountRow → Type 0
AreRows db = All (λ r. account_row r.1.id db ≡ some r.1)

pub first_of_two-cases :
    {A : Type 0} (o p : Option A) (a : A) → first_of_two o p ≡ some a → (o ≡ some a) ⊎ (p ≡ some a)
unfolding first_of_two
first_of_two-cases (some b) p a h = inl h
first_of_two-cases none p a h = inr h

pub resolve-row :
    (ref tenant_id mode : String) (db : Db) (r : AccountRow)
    → AreKeyed db
    → resolve ref tenant_id mode db ≡ some r
    → account_row r.id db ≡ some r
unfolding resolve
resolve-row ref tenant_id mode db r keyed h =
    let by_id = λ (a : AccountRow). in_scope tenant_id mode a && (a.id == ref) in
    let by_external =
      λ (a : AccountRow). in_scope tenant_id mode a && has_external a.external_id ref in
    let found = λ (p : AccountRow → Bool).
      find-All (λ a. account_row a.id db ≡ some a) p db.accounts r keyed in
    elim (first_of_two-cases (find by_id db.accounts) (find by_external db.accounts) r h) [
      | inl e ↦ found by_id e
      | inr e ↦ found by_external e
    ]

pub resolve_all-AreRows :
    (ctx : TenantContext) (accounts : Dict String) (db : Db) (rows : Dict AccountRow)
    → AreKeyed db
    → resolve_all ctx accounts db ≡ ok (rows, db)
    → AreRows db rows
unfolding resolve_all
resolve_all-AreRows ctx [] db rows keyed h = subst (AreRows db) (ok-injective h).0 tt
resolve_all-AreRows ctx ((role, ref) ∷ accounts) db rows keyed h =
    let (r, e₁, h₁) =
      Reads-eq_ok (resolve_account ctx ref) _ db (resolve_account-Reads ctx ref) h in
    let (rest, e₂, h₂) =
      Reads-eq_ok (resolve_all ctx accounts) _ db (resolve_all-Reads ctx accounts) h₁ in
    subst (AreRows db) (ok-injective h₂).0
      (one r e₁, resolve_all-AreRows ctx accounts db rest keyed e₂)
  where
    one : (r : AccountRow) → resolve_account ctx ref db ≡ ok (r, db) → account_row r.id db ≡ some r
    one r e =
        resolve-row ref ctx.tenant_id ctx.mode db r keyed (resolve_account-found ctx ref db r e)

-- The dictionary by id holds the rows of the database.
pub rows_by_id-row :
    (db : Db) (resolved rows : Dict AccountRow)
    → AreRows db resolved
    → ((id : String) (r : AccountRow) → lookup id rows ≡ some r → account_row id db ≡ some r)
    → (id : String) (r : AccountRow) → lookup id (rows_by_id resolved rows) ≡ some r
    → account_row id db ≡ some r
unfolding rows_by_id
rows_by_id-row db [] rows are held id r h = held id r h
rows_by_id-row db ((_, x) ∷ resolved) rows are held id r h =
    rows_by_id-row db resolved (insert x.id x rows) are.1 step id r h
  where
    step :
        (i : String) (s : AccountRow)
        → lookup i (insert x.id x rows) ≡ some s
        → account_row i db ≡ some s
    step i s e = elim (Bool-cases (x.id == i)) [
      | inl same ↦
          subst (λ j. account_row j db ≡ some s) (eq_of_test same)
            (are.0 ∙ cc (rw (lookup-insert x.id i x rows, same) at e))
      | inr other ↦ held i s (rw (lookup-insert x.id i x rows, other) at e)
    ]
