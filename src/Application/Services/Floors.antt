-- ===== src/Application/Services/Floors.antt =====
-- `_check_floors` of src/ledgerflow/application/services.py: what a posting does to each account, and
-- the floors of the accounts.
use ledgerflow.Prelude.{
  String, ◌≡◌, refl, false, none, some, List, [], ◌∷◌, ◌==◌, ◌⊎◌, inl, inr, if◌then◌else◌, arith,
  ap, sym, ◌∙◌, Option-cases, Bool-cases, eq_of_test,
}
use ledgerflow.Prelude.Int.{ℤ, pos, ◌+ℤ◌, ◌≤ℤ◌, int_laws, zero-add, add-zero, +ℤ_assoc}
use ledgerflow.Exception.{ok}
use ledgerflow.Dict.{Dict, lookup, insert, lookup-insert}
use ledgerflow.Domain.Ledger.{Entry, JournalTransaction, or_zero}
use ledgerflow.Adapters.Tx.{lift}
use ledgerflow.Adapters.Tx.Reads.{Reads-eq_ok, Reads-lift}
use ledgerflow.Adapters.Tables.{Db, AccountRow, Resource}
use ledgerflow.Adapters.Accounts.{balance}
use ledgerflow.Adapters.Accounts.Snapshots.{account_row, IsCached}
use ledgerflow.Application.Services.{
  TenantContext, Fresh, Posting, signed_by, deltas_from, floor_of, check_floor, check_deltas,
  check_floors, rows_by_id, post_transaction,
}
use ledgerflow.Application.Services.Prepare.{check_floor-Reads, lift-eq_ok}
use ledgerflow.Application.Services.Balances.{posted_effect, Recorded-balance}
use ledgerflow.Application.Services.Ledger.{post_transaction_lem}
use ledgerflow.Application.Services.Resolved.{AreKeyed, resolve_all-AreRows, rows_by_id-row}

delta_step :
    (rows : Dict AccountRow) (id : String) (r x : AccountRow) (e : Entry) (d : Dict ℤ)
    → lookup id rows ≡ some r
    → lookup e.account_id rows ≡ some x
    → or_zero (lookup id (insert e.account_id (or_zero (lookup e.account_id d) +ℤ signed_by x e) d))
      ≡ or_zero (lookup id d) +ℤ (if e.account_id == id then signed_by r e else pos 0)
delta_step rows id r x e d found here = elim (Bool-cases (e.account_id == id)) [
  | inl same ↦ rw (lookup-insert, same) (agree (eq_of_test same))
  | inr other ↦ rw (lookup-insert, other) (sym (add-zero _))
]
  where
    agree :
        e.account_id ≡ id
        → or_zero (lookup e.account_id d) +ℤ signed_by x e ≡ or_zero (lookup id d) +ℤ signed_by r e
    agree same =
        let key = ap (λ (k : String). lookup k rows) same in
        let row : x ≡ r = cc (key, here, found) in
        ap (λ (k : String). or_zero (lookup k d) +ℤ signed_by x e) same
        ∙ ap (λ (y : AccountRow). or_zero (lookup id d) +ℤ signed_by y e) row

nothing_held :
    (db : Db) (id : String) (r : AccountRow) → lookup id [] ≡ some r → account_row id db ≡ some r
unfolding lookup
nothing_held db id r h = absurd (cc h)

-- The deltas hold, for each account, what the entries do to it.
deltas_from-lookup :
    (rows : Dict AccountRow) (id : String) (r : AccountRow) (es : List Entry) (d d' : Dict ℤ)
    → lookup id rows ≡ some r
    → deltas_from rows es d ≡ ok d'
    → or_zero (lookup id d') ≡ or_zero (lookup id d) +ℤ posted_effect r id es
unfolding deltas_from
deltas_from-lookup rows id r [] d d' found h =
    ap (λ (t : Dict ℤ). or_zero (lookup id t)) (sym (cc h)) ∙ sym (add-zero _)
deltas_from-lookup rows id r (e ∷ es) d d' found h =
    elim (Option-cases (lookup e.account_id rows)) [
      | inl missing ↦ absurd (cc (rw (missing, deltas_from) at h))
      | inr (x, here) ↦
          deltas_from-lookup rows id r es _ d' found (rw (here, deltas_from) at h)
          ∙ ap (λ (z : ℤ). z +ℤ posted_effect r id es) (delta_step rows id r x e d found here)
          ∙ +ℤ_assoc _ _ _
    ]

-- A check that passes leaves room above the floor, or the posting takes nothing out.
check_floor-room :
    (rows : Dict AccountRow) (id : String) (r : AccountRow) (delta floor : ℤ) (db : Db)
    → lookup id rows ≡ some r
    → r.minimum_balance ≡ some floor
    → check_floor rows id delta db ≡ ok (tt, db)
    → (pos 0 ≤ℤ delta) ⊎ (floor ≤ℤ (balance id db).balance_minor +ℤ delta)
unfolding check_floor floor_of
check_floor-room rows id r delta floor db found has h = ground arith

-- An account outside the posting is not touched.
deltas_from-untouched :
    (rows : Dict AccountRow) (id : String) (r : AccountRow) (es : List Entry) (d d' : Dict ℤ)
    → lookup id rows ≡ none
    → deltas_from rows es d ≡ ok d'
    → posted_effect r id es ≡ pos 0
unfolding deltas_from
deltas_from-untouched rows id r [] d d' away h = refl
deltas_from-untouched rows id r (e ∷ es) d d' away h =
    elim (Option-cases (lookup e.account_id rows)) [
      | inl missing ↦ absurd (cc (rw (missing, deltas_from) at h))
      | inr (x, here) ↦
          rw
            (
              other x here,
              deltas_from-untouched rows id r es _ d' away (rw (here, deltas_from) at h),
            )
            (zero-add _)
    ]
  where
    other : (x : AccountRow) → lookup e.account_id rows ≡ some x → (e.account_id == id) ≡ false
    other x here = elim (Bool-cases (e.account_id == id)) [
      | inl same ↦ absurd (cc (ap (λ (k : String). lookup k rows) (eq_of_test same), here, away))
      | inr differ ↦ differ
    ]

-- Checks that all pass include the one of each account.
check_deltas-lookup :
    (rows : Dict AccountRow) (deltas : Dict ℤ) (id : String) (delta : ℤ) (db : Db)
    → lookup id deltas ≡ some delta
    → check_deltas rows deltas db ≡ ok (tt, db)
    → check_floor rows id delta db ≡ ok (tt, db)
unfolding check_deltas lookup
check_deltas-lookup rows [] id delta db found h = absurd (cc found)
check_deltas-lookup rows ((k, z) ∷ deltas) id delta db found h =
    let (u, e₁, h₁) = Reads-eq_ok (check_floor rows k z) _ db (check_floor-Reads rows k z) h in
    elim (Bool-cases (k == id)) [
      | inl same ↦ here u e₁ (eq_of_test same) (cc (rw same at found))
      | inr other ↦ check_deltas-lookup rows deltas id delta db (rw other at found) h₁
    ]
  where
    here :
        (u : Unit {0})
        → check_floor rows k z db ≡ ok (u, db)
        → k ≡ id
        → z ≡ delta
        → check_floor rows id delta db ≡ ok (tt, db)
    here u e p q =
        ap (λ (j : String). check_floor rows j delta db) (sym p)
        ∙ ap (λ (y : ℤ). check_floor rows k y db) (sym q)
        ∙ e

-- The balance after a posting whose checks have passed.
module _ (rows : Dict AccountRow) (id : String) (r : AccountRow) (floor bal : ℤ) (db : Db)
    (txn : JournalTransaction) (bal_is : (balance id db).balance_minor ≡ bal)
    (has : r.minimum_balance ≡ some floor)
    (row : (x : AccountRow) → lookup id rows ≡ some x → x ≡ r)
    (passed : check_floors rows txn db ≡ ok (tt, db)) where
  floor_kept :
      (bal ≤ℤ bal +ℤ posted_effect r id txn.entries)
      ⊎ (floor ≤ℤ bal +ℤ posted_effect r id txn.entries)
  unfolding check_floors
  floor_kept =
      let (deltas, e₁, h₁) =
        Reads-eq_ok (lift (deltas_from rows txn.entries [])) _ db (Reads-lift _) passed in
      by_row deltas (lift-eq_ok _ db e₁) h₁
    where
      stays : posted_effect r id txn.entries ≡ pos 0 → bal ≤ℤ bal +ℤ posted_effect r id txn.entries
      stays none_posted = rw none_posted (omega int_laws)

      moved :
          (deltas : Dict ℤ)
          → or_zero (lookup id deltas) ≡ posted_effect r id txn.entries
          → lookup id rows ≡ some r
          → check_deltas rows deltas db ≡ ok (tt, db)
          → (bal ≤ℤ bal +ℤ posted_effect r id txn.entries)
            ⊎ (floor ≤ℤ bal +ℤ posted_effect r id txn.entries)
      moved deltas total found checks = elim (Option-cases (lookup id deltas)) [
        | inl nothing ↦ inl (stays (sym total ∙ ap or_zero nothing))
        | inr (delta, some_delta) ↦ room delta (sym (ap or_zero some_delta) ∙ total) (
            check_floor-room rows id r delta floor db found has
              (check_deltas-lookup rows deltas id delta db some_delta checks))
      ]
        where
          room :
              (delta : ℤ)
              → delta ≡ posted_effect r id txn.entries
              → (pos 0 ≤ℤ delta) ⊎ (floor ≤ℤ (balance id db).balance_minor +ℤ delta)
              → (bal ≤ℤ bal +ℤ posted_effect r id txn.entries)
                ⊎ (floor ≤ℤ bal +ℤ posted_effect r id txn.entries)
          room delta same (inl up) = inl (rw (← same) (omega int_laws))
          room delta same (inr above) = inr (rw (← same, ← bal_is) above)

      by_row :
          (deltas : Dict ℤ)
          → deltas_from rows txn.entries [] ≡ ok deltas
          → check_deltas rows deltas db ≡ ok (tt, db)
          → (bal ≤ℤ bal +ℤ posted_effect r id txn.entries)
            ⊎ (floor ≤ℤ bal +ℤ posted_effect r id txn.entries)
      by_row deltas made checks = elim (Option-cases (lookup id rows)) [
        | inl away ↦ inl (stays (deltas_from-untouched rows id r txn.entries [] deltas away made))
        | inr (x, found) ↦
            let here = found ∙ ap some (row x found) in
            moved deltas
              (deltas_from-lookup rows id r txn.entries [] deltas here made
                ∙ unfold lookup in zero-add _)
              here checks
      ]

-- If post_transaction succeeds, the balance of an account with a minimum balance is at least that
-- minimum, or it has not fallen (where account ids are unique and every snapshot is exact).
pub post_transaction-floor :
    (ctx : TenantContext) (fresh : Fresh) (p : Posting) (db db' : Db) (res : Resource) (id : String)
    (r : AccountRow) (floor : ℤ)
    → AreKeyed db
    → IsCached db
    → account_row id db ≡ some r
    → r.minimum_balance ≡ some floor
    → post_transaction ctx fresh p db ≡ ok (res, db')
    → ((balance id db).balance_minor ≤ℤ (balance id db').balance_minor)
      ⊎ (floor ≤ℤ (balance id db').balance_minor)
post_transaction-floor ctx fresh p db db' res id r floor keyed h found has done =
    let (txn, resolved, prepared, recorded) = post_transaction_lem ctx fresh p db db' res done in
    rw
      (Recorded-balance _ ctx fresh.event_id "transaction.created" txn db db' res recorded h id r
        found)
      (floor_kept (rows_by_id resolved []) id r floor _ db txn refl has
        (λ x e. cc (
          found,
          rows_by_id-row db resolved []
              (resolve_all-AreRows ctx p.accounts db resolved keyed prepared.found)
              (nothing_held db) id x e,
        ))
        prepared.floors)
