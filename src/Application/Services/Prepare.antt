-- ===== src/Application/Services/Prepare.antt =====
-- The reading half of `post_transaction` (src/ledgerflow/application/services.py).
use ledgerflow.Prelude.{
  ◌≡◌, Option, none, some, [], ◌∷◌, String, not, ◌==◌, sym, subst, ap, ◌∙◌, Option-cases, inl, inr,
}
use ledgerflow.Adapters.Accounts
use ledgerflow.Prelude.Int.{ℤ}
use ledgerflow.Dict.{Dict}
use ledgerflow.Exception.{Result, ok, err, currency_mismatch_error}
use ledgerflow.Domain.Money.{Money}
use ledgerflow.Domain.Ledger.{JournalTransaction, Timestamp}
use ledgerflow.Domain.Posting.{PostingRequest, build_transaction}
use ledgerflow.Adapters.Tx.{lift}
use ledgerflow.Adapters.Tx.Reads.{
  Reads, reads_rules, Reads-pure, Reads-bind, Reads-raise_if, Reads-lift, Reads-eq_ok, ok-injective,
}
use ledgerflow.Adapters.Tables.{Db, AccountRow, is_open}
use ledgerflow.Application.Services.{
  TenantContext, Fresh, Posting, effective, resolve_account, resolve_all, check_accounts, screen,
  screen_funding, floor_of, check_floor, check_deltas, check_floors, funding_row, rows_by_id,
  role_ids, prepare,
}

pub resolve_account-Reads : (ctx : TenantContext) (ref : String) → Reads (resolve_account ctx ref)
unfolding resolve_account
resolve_account-Reads ctx ref = search reads_rules

pub resolve_all-Reads :
    (ctx : TenantContext) (accounts : Dict String) → Reads (resolve_all ctx accounts)
unfolding resolve_all
resolve_all-Reads ctx [] = Reads-pure _
resolve_all-Reads ctx ((role, ref) ∷ accounts) =
    Reads-bind _ _ (resolve_account-Reads ctx ref)
      (λ row. Reads-bind _ _ (resolve_all-Reads ctx accounts) (λ rest. Reads-pure _))

check_accounts-Reads :
    (amount : Money) (rows : Dict AccountRow) → Reads (check_accounts amount rows)
unfolding check_accounts
check_accounts-Reads amount [] = Reads-pure _
check_accounts-Reads amount ((_, row) ∷ rows) =
    Reads-bind _ _ (Reads-raise_if (not (row.currency == amount.currency)) currency_mismatch_error)
      (λ _.
        Reads-bind _ _ (Reads-raise_if (not (is_open row.status)) currency_mismatch_error)
          (λ _. check_accounts-Reads amount rows))

screen_funding-Reads : (row : Option AccountRow) (at : Timestamp) → Reads (screen_funding row at)
unfolding screen_funding screen
screen_funding-Reads none at = Reads-pure _
screen_funding-Reads (some row) at = search reads_rules

floor_of-Reads : (id : String) (delta : ℤ) (floor : Option ℤ) → Reads (floor_of id delta floor)
unfolding floor_of
floor_of-Reads id delta none = Reads-pure _
floor_of-Reads id delta (some floor) = search reads_rules

pub check_floor-Reads :
    (rows : Dict AccountRow) (id : String) (delta : ℤ) → Reads (check_floor rows id delta)
unfolding check_floor
check_floor-Reads rows id delta = search (reads_rules, floor_of-Reads)

pub check_deltas-Reads :
    (rows : Dict AccountRow) (deltas : Dict ℤ) → Reads (check_deltas rows deltas)
unfolding check_deltas
check_deltas-Reads rows [] = Reads-pure _
check_deltas-Reads rows ((id, delta) ∷ deltas) =
    Reads-bind _ _ (check_floor-Reads rows id delta) (λ _. check_deltas-Reads rows deltas)

pub check_floors-Reads :
    (rows : Dict AccountRow) (txn : JournalTransaction) → Reads (check_floors rows txn)
unfolding check_floors
check_floors-Reads rows txn = search (reads_rules, check_deltas-Reads)

-- What a successful preparation has passed, at the state that it leaves as it was.
pub record Prepared (ctx : TenantContext) (fresh : Fresh) (p : Posting) (db : Db)
    (txn : JournalTransaction) (resolved : Dict AccountRow) : Type 0 where
  pub found : resolve_all ctx p.accounts db ≡ ok (resolved, db)
  pub checked : check_accounts p.amount resolved db ≡ ok (tt, db)
  pub built :
      build_transaction fresh.transaction_id p.kind (record {
        amount = p.amount;
        effective_at = effective p fresh;
        accounts = role_ids resolved;
        metadata = p.metadata;
      })
      ≡ ok txn
  pub screened : screen_funding (funding_row resolved) (effective p fresh) db ≡ ok (tt, db)
  pub floors : check_floors (rows_by_id resolved []) txn db ≡ ok (tt, db)

pub lift-eq_ok :
    {A : Type 0} (r : Result A) (db : Db) {a : A} {db' : Db} → lift r db ≡ ok (a, db') → r ≡ ok a
lift-eq_ok (ok b) db h = cc
lift-eq_ok (err e) db h = absurd (cc h)

pub prepare_lem :
    (ctx : TenantContext) (fresh : Fresh) (p : Posting) (db db' : Db) (txn : JournalTransaction)
    (resolved : Dict AccountRow)
    → prepare ctx fresh p db ≡ ok ((txn, resolved), db')
    → Prepared ctx fresh p db txn resolved × (db' ≡ db)
unfolding prepare
prepare_lem ctx fresh p db db' txn resolved h =
    let (r, e₁, h₁) =
      Reads-eq_ok (resolve_all ctx p.accounts) _ db (resolve_all-Reads ctx p.accounts) h in
    let (u, e₂, h₂) =
      Reads-eq_ok (check_accounts p.amount r) _ db (check_accounts-Reads p.amount r) h₁ in
    let q : PostingRequest = record {
      amount = p.amount;
      effective_at = effective p fresh;
      accounts = role_ids r;
      metadata = p.metadata;
    } in
    let (t, e₃, h₃) =
      Reads-eq_ok (lift (build_transaction fresh.transaction_id p.kind q)) _ db (Reads-lift _) h₂ in
    let (v, e₄, h₄) =
      Reads-eq_ok (screen_funding (funding_row r) (effective p fresh)) _ db
        (screen_funding-Reads (funding_row r) (effective p fresh)) h₃ in
    let (w, e₅, h₅) =
      Reads-eq_ok (check_floors (rows_by_id r []) t) _ db (check_floors-Reads (rows_by_id r []) t)
        h₄ in
    let (same, state) = ok-injective h₅ in
    (
      subst (λ (x : JournalTransaction × Dict AccountRow). Prepared ctx fresh p db x.0 x.1) same
          (record {
            found = e₁;
            checked = e₂;
            built = lift-eq_ok _ db e₃;
            screened = e₄;
            floors = e₅;
          }),
      sym state,
    )

pub resolve_account-found :
    (ctx : TenantContext) (ref : String) (db : Db) (r : AccountRow)
    → resolve_account ctx ref db ≡ ok (r, db)
    → Accounts.resolve ref ctx.tenant_id ctx.mode db ≡ some r
unfolding resolve_account
resolve_account-found ctx ref db r h =
    elim (Option-cases (Accounts.resolve ref ctx.tenant_id ctx.mode db)) [
      | inl missing ↦ absurd (cc (rw missing at h))
      | inr (s, e) ↦ e ∙ ap some (ok-injective (rw e at h)).0
    ]
