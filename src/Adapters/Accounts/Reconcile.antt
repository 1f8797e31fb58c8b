-- ===== src/Adapters/Accounts/Reconcile.antt =====
-- `write_snapshot` and `reconcile` of src/ledgerflow/adapters/repositories.py keep to the entries.
use ledgerflow.Prelude.{
  ℕ, ◌<◌, String, ◌≡◌, refl, Bool, true, false, not, ◌&&◌, Option, none, some, List, [], ◌∷◌, leb,
  ◌==◌, arith, select, All, All-append, sym, ap, Option-cases, if◌then◌else◌, inl, inr,
}
use ledgerflow.Prelude.Int.{eq_ℤ_self}
use ledgerflow.Adapters.Tables.{Db, AccountRow, EntryRow, Snapshot}
use ledgerflow.Adapters.Accounts.{
  sum_effects, newest, max_entry, snapshot_of, write_snapshot, mismatch, reconcile,
}
use ledgerflow.Adapters.Accounts.Snapshots.{
  account_row, full_balance, IsExact, IsCached, sum_effects-agree, max_entry-ge, newest-All,
  sum_effects-split,
}

max_entry-lt :
    (id : String) (next : ℕ) (es : List EntryRow)
    → 0 < next
    → All (λ e. (0 < e.id) × (e.id < next)) es
    → max_entry id es < next
unfolding max_entry
max_entry-lt id next [] start h = start
max_entry-lt id next (e ∷ es) start h = ground (arith, max_entry-lt id next es start h.1, h.0)

IsExact-snapshots :
    (db : Db) (ss : List Snapshot) (more : List Snapshot)
    → All (IsExact db) ss
    → All (IsExact (record db { snapshots = more })) ss
IsExact-snapshots db [] more h = tt
IsExact-snapshots db (s ∷ ss) more h = (h.0, IsExact-snapshots db ss more h.1)

abbrev Fits : Db → Snapshot → Type 0
Fits db s = IsExact db s × (s.up_to_entry_id < db.next_entry_id)

All-if : (P : Snapshot → Type 0) (b : Bool) (s : Snapshot) → P s → All P (if b then s ∷ [] else [])
All-if P true s h = (h, tt)
All-if P false s h = tt

snapshot_of-Fits :
    (db : Db) (id : String) (row : Option AccountRow)
    → account_row id db ≡ row
    → IsCached db
    → All (Fits db) (snapshot_of db id row)
unfolding snapshot_of
snapshot_of-Fits db id none found h = tt
snapshot_of-Fits db id (some a) found h =
    All-if (Fits db) _ _ (exact, max_entry-lt id db.next_entry_id db.entries h.started h.ids)
  where
    exact : IsExact db (record {
      account_id = id;
      up_to_entry_id = max_entry id db.entries;
      balance_minor = sum_effects a.normal_balance (λ e. e.account_id == id) db.entries;
      currency = a.currency;
    })
    exact b found_b =
        rw (← account_same b found_b)
          (sym (sum_effects-agree a.normal_balance _ _ db.entries (max_entry-ge id db.entries)))
      where
        account_same : (b : AccountRow) → account_row id db ≡ some b → a ≡ b
        account_same b e = cc (found, e)

IsExact-of_Fits : (db : Db) (ss : List Snapshot) → All (Fits db) ss → All (IsExact db) ss
IsExact-of_Fits db [] h = tt
IsExact-of_Fits db (s ∷ ss) h = (h.0.0, IsExact-of_Fits db ss h.1)

cursors_of_Fits :
    (db : Db) (ss : List Snapshot)
    → All (Fits db) ss
    → All (λ s. s.up_to_entry_id < db.next_entry_id) ss
cursors_of_Fits db [] h = tt
cursors_of_Fits db (s ∷ ss) h = (h.0.1, cursors_of_Fits db ss h.1)

-- Writing a snapshot keeps every snapshot exact.
pub write_snapshot-IsCached :
    (db : Db) (id : String) → IsCached db → IsCached (write_snapshot id db)
unfolding write_snapshot
write_snapshot-IsCached db id h =
    let fits = snapshot_of-Fits db id (account_row id db) refl h in
    record {
      started = h.started;
      ids = h.ids;
      cursors = All-append _ db.snapshots _ h.cursors (cursors_of_Fits db _ fits);
      exact =
          IsExact-snapshots db _ ((write_snapshot id db).snapshots)
            (All-append (IsExact db) db.snapshots _ h.exact (IsExact-of_Fits db _ fits));
    }

no_mismatch :
    (db : Db) (a : AccountRow) → IsCached db → account_row a.id db ≡ some a → mismatch db a ≡ false
unfolding mismatch
no_mismatch db a h found = elim (Option-cases (newest a.id db.snapshots)) [
  | inl fresh ↦ rw fresh
  | inr (s, e) ↦
      rw
        (
          e,
          cached s e,
          sum_effects-split a.normal_balance (λ f. f.account_id == a.id) s.up_to_entry_id,
        )
        (ap not (eq_ℤ_self (full_balance db a a.id)))
]
  where
    cached :
        (s : Snapshot)
        → newest a.id db.snapshots ≡ some s
        → s.balance_minor
          ≡ sum_effects a.normal_balance
              (λ e. e.account_id == a.id && leb e.id s.up_to_entry_id)
              db.entries
    cached s e =
        let (exact, mine) = newest-All (IsExact db) a.id db.snapshots s h.exact e in
        rw (← mine) (exact a (rw mine found))

select-none :
    (db : Db) (xs : List AccountRow)
    → All (λ a. mismatch db a ≡ false) xs
    → select (mismatch db) xs ≡ []
unfolding select
select-none db [] h = refl
select-none db (x ∷ xs) h = rw (h.0, select-none db xs h.1)

-- If every snapshot is exact and account ids are unique, the reconciliation reports nothing.
pub reconcile-nil :
    (db : Db)
    → IsCached db
    → All (λ a. account_row a.id db ≡ some a) db.accounts
    → reconcile db ≡ []
unfolding reconcile
reconcile-nil db h found = select-none db db.accounts (all db.accounts found)
  where
    all :
        (xs : List AccountRow)
        → All (λ a. account_row a.id db ≡ some a) xs
        → All (λ a. mismatch db a ≡ false) xs
    all [] f = tt
    all (x ∷ xs) f = (no_mismatch db x h f.0, all xs f.1)
