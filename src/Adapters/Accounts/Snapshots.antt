-- ===== src/Adapters/Accounts/Snapshots.antt =====
-- Snapshot and tail against the plain sum over the entries (`balance`, `write_snapshot` and `reconcile`
-- of src/ledgerflow/adapters/repositories.py).
use ledgerflow.Prelude.{
  ℕ, ◌≤◌, ◌<◌, String, ◌≡◌, refl, Bool, true, false, ◌&&◌, Option, some, List, [], ◌∷◌, ◌++◌, ltb,
  leb, ◌==◌, if◌then◌else◌, arith, find, All, All-append, sym, ◌∙◌, ap, ◌⊎◌, subst, Option-cases,
  Bool-cases, inl, inr,
}
use ledgerflow.Prelude.Int.{ℤ, pos, ◌+ℤ◌, int_laws, zero-add, add-zero}
use ledgerflow.Domain.Ledger.{Direction}
use ledgerflow.Adapters.Tables.{Db, AccountRow, EntryRow, Snapshot}
use ledgerflow.Adapters.Accounts.{effect, sum_effects, newest, balance, max_entry}

-- The row of an account, as every statement finds it.
abbrev pub account_row : String → Db → Option AccountRow
account_row id db = find (λ a. a.id == id) db.accounts

-- The balance that the entries alone give an account.
abbrev pub full_balance : Db → AccountRow → String → ℤ
full_balance db a id = sum_effects a.normal_balance (λ e. e.account_id == id) db.entries

-- A snapshot holds the sum of the account's entries up to its cursor.
abbrev pub IsExactIn : List AccountRow → List EntryRow → Snapshot → Type 0
IsExactIn accounts entries s =
    (a : AccountRow)
    → find (λ a. a.id == s.account_id) accounts ≡ some a
    → s.balance_minor
      ≡ sum_effects a.normal_balance
          (λ e. e.account_id == s.account_id && leb e.id s.up_to_entry_id) entries

pub find-All {ℓ κ} :
    {A : Type ℓ} (P : A → Type κ) (p : A → Bool) (xs : List A) (x : A)
    → All P xs
    → find p xs ≡ some x
    → P x
unfolding find
find-All P p [] x h e = absurd (cc e)
find-All P p (y ∷ ys) x h e = elim (Bool-cases (p y)) [
  | inl here ↦ subst P (cc (rw here at e)) h.0
  | inr later ↦ find-All P p ys x h.1 (rw later at e)
]

abbrev pub IsExact : Db → Snapshot → Type 0
IsExact db = IsExactIn db.accounts db.entries

-- The ids of the entries come from the sequence, and every snapshot is exact.
pub record IsCachedIn (accounts : List AccountRow) (entries : List EntryRow)
    (snapshots : List Snapshot) (next : ℕ) : Type 0 where
  pub started : 0 < next
  pub ids : All (λ e. (0 < e.id) × (e.id < next)) entries
  pub cursors : All (λ s. s.up_to_entry_id < next) snapshots
  pub exact : All (IsExactIn accounts entries) snapshots

abbrev pub IsCached : Db → Type 0
IsCached db = IsCachedIn db.accounts db.entries db.snapshots db.next_entry_id

later-false : (i c : ℕ) → leb i c ≡ true → ltb c i ≡ false
later-false i c h = ground arith

later-true : (i c : ℕ) → leb i c ≡ false → ltb c i ≡ true
later-true i c h = ground arith

pub sum_effects-split :
    (n : Direction) (k : EntryRow → Bool) (c : ℕ) (es : List EntryRow)
    → sum_effects n (λ e. k e && leb e.id c) es +ℤ sum_effects n (λ e. k e && ltb c e.id) es
      ≡ sum_effects n k es
unfolding sum_effects
sum_effects-split n k c [] = omega int_laws
sum_effects-split n k c (e ∷ es) =
    regroup (k e) (effect n e) _ _
    ∙ ap (λ (z : ℤ). (if k e then effect n e else pos 0) +ℤ z) (sum_effects-split n k c es)
  where
    regroup :
        (b : Bool) (z p q : ℤ)
        → (if b && leb e.id c then z else pos 0)
            +ℤ p
            +ℤ ((if b && ltb c e.id then z else pos 0) +ℤ q)
          ≡ (if b then z else pos 0) +ℤ (p +ℤ q)
    regroup true z p q = elim (Bool-cases (leb e.id c)) [
      | inl h ↦ rw (h, later-false e.id c h) (omega int_laws)
      | inr h ↦ rw (h, later-true e.id c h) (omega int_laws)
    ]
    regroup false z p q = omega int_laws

-- Two tests that agree on the rows give one sum.
pub sum_effects-agree :
    (n : Direction) (k l : EntryRow → Bool) (es : List EntryRow)
    → All (λ e. k e ≡ l e) es
    → sum_effects n k es ≡ sum_effects n l es
unfolding sum_effects
sum_effects-agree n k l [] h = refl
sum_effects-agree n k l (e ∷ es) h = rw (h.0, sum_effects-agree n k l es h.1)

newest-cases :
    (id : String) (t : Snapshot) (ss : List Snapshot) (s : Snapshot)
    → newest id (t ∷ ss) ≡ some s
    → ((t ≡ s) × (t.account_id ≡ id)) ⊎ (newest id ss ≡ some s)
unfolding newest
newest-cases id t ss s e = ground arith

pub newest-All :
    (P : Snapshot → Type 0) (id : String) (ss : List Snapshot) (s : Snapshot)
    → All P ss
    → newest id ss ≡ some s
    → P s × (s.account_id ≡ id)
newest-All P id [] s h e = absurd (nothing e)
  where
    nothing : newest id [] ≡ some s → ⊥
    nothing e = unfold newest in cc e
newest-All P id (t ∷ ss) s h e = elim (newest-cases id t ss s e) [
  | inl (same, mine) ↦ (subst P same h.0, cc (same, mine))
  | inr later ↦ newest-All P id ss s h.1 later
]

agree_above_zero :
    (db : Db) (id : String) (es : List EntryRow)
    → All (λ e. (0 < e.id) × (e.id < db.next_entry_id)) es
    → All (λ e. (e.account_id == id && ltb 0 e.id) ≡ (e.account_id == id)) es
agree_above_zero db id [] h = tt
agree_above_zero db id (e ∷ es) h = (ground (arith, h.0), agree_above_zero db id es h.1)

-- If every snapshot is exact, the balance read from the newest snapshot and the entries after it is
-- the sum over all entries of the account.
pub balance-eq-full :
    (db : Db) (id : String) (a : AccountRow)
    → IsCached db
    → account_row id db ≡ some a
    → (balance id db).balance_minor ≡ full_balance db a id
unfolding balance
balance-eq-full db id a h found = rw found (elim (Option-cases (newest id db.snapshots)) [
  | inl fresh ↦ rw fresh (
      zero-add _
      ∙ sum_effects-agree a.normal_balance _ _ db.entries (agree_above_zero db id db.entries h.ids))
  | inr (s, e) ↦ rw e (cached s e)
])
  where
    cached :
        (s : Snapshot)
        → newest id db.snapshots ≡ some s
        → s.balance_minor
            +ℤ sum_effects a.normal_balance
                (λ e. e.account_id == id && ltb s.up_to_entry_id e.id)
                db.entries
          ≡ full_balance db a id
    cached s e =
        let (exact, mine) = newest-All (IsExact db) id db.snapshots s h.exact e in
        rw (exact a (rw mine found)) (
          rw mine (
            sum_effects-split a.normal_balance (λ e. e.account_id == id) s.up_to_entry_id
              db.entries))

pub sum_effects-append :
    (n : Direction) (k : EntryRow → Bool) (xs ys : List EntryRow)
    → sum_effects n k (xs ++ ys) ≡ sum_effects n k xs +ℤ sum_effects n k ys
unfolding sum_effects
sum_effects-append n k [] ys = sym (zero-add _)
sum_effects-append n k (x ∷ xs) ys = rw (sum_effects-append n k xs ys) (omega int_laws)

-- Rows that the test passes over add nothing.
pub sum_effects-none :
    (n : Direction) (k : EntryRow → Bool) (es : List EntryRow)
    → All (λ e. k e ≡ false) es
    → sum_effects n k es ≡ pos 0
unfolding sum_effects
sum_effects-none n k [] h = refl
sum_effects-none n k (e ∷ es) h = rw (h.0, sum_effects-none n k es h.1) (omega int_laws)

-- Rows from the sequence: at or above the counter before them, and below the one after.
abbrev pub AreNew : ℕ → ℕ → List EntryRow → Type 0
AreNew start stop = All (λ e. (start ≤ e.id) × (e.id < stop))

new_rows_above :
    (id : String) (c start stop : ℕ) (rows : List EntryRow)
    → c < start
    → AreNew start stop rows
    → All (λ e. (e.account_id == id && leb e.id c) ≡ false) rows
new_rows_above id c start stop [] h new = tt
new_rows_above id c start stop (e ∷ rows) h new =
    (ground (arith, new.0), new_rows_above id c start stop rows h new.1)

ids_later :
    (start stop : ℕ) (es : List EntryRow)
    → start ≤ stop
    → All (λ e. (0 < e.id) × (e.id < start)) es
    → All (λ e. (0 < e.id) × (e.id < stop)) es
ids_later start stop [] l h = tt
ids_later start stop (e ∷ es) l h = (omega (arith, h.0.0, h.0.1), ids_later start stop es l h.1)

ids_new :
    (start stop : ℕ) (es : List EntryRow)
    → 0 < start
    → AreNew start stop es
    → All (λ e. (0 < e.id) × (e.id < stop)) es
ids_new start stop [] l h = tt
ids_new start stop (e ∷ es) l h = (omega (arith, h.0.0, h.0.1), ids_new start stop es l h.1)

-- The database with more entries from the sequence.
abbrev pub with_entries : Db → List EntryRow → ℕ → Db
with_entries db rows stop = record db { entries = db.entries ++ rows; next_entry_id = stop }

IsExact-later :
    (db : Db) (rows : List EntryRow) (stop : ℕ) (ss : List Snapshot)
    → AreNew db.next_entry_id stop rows
    → All (λ s. s.up_to_entry_id < db.next_entry_id) ss
    → All (IsExact db) ss
    → All (IsExact (with_entries db rows stop)) ss
IsExact-later db rows stop [] new below h = tt
IsExact-later db rows stop (s ∷ ss) new below h = (
  λ a found.
      h.0 a found
      ∙ sym (
          sum_effects-append a.normal_balance _ db.entries rows
          ∙ ap
              (λ (z : ℤ).
                sum_effects a.normal_balance
                  (λ e. e.account_id == s.account_id && leb e.id s.up_to_entry_id) db.entries
                +ℤ z)
              (sum_effects-none a.normal_balance _ rows (
                new_rows_above s.account_id s.up_to_entry_id db.next_entry_id stop rows below.0
                  new))
          ∙ add-zero _),
  IsExact-later db rows stop ss new below.1 h.1,
)

cursors_later :
    (start stop : ℕ) (ss : List Snapshot)
    → start ≤ stop
    → All (λ s. s.up_to_entry_id < start) ss
    → All (λ s. s.up_to_entry_id < stop) ss
cursors_later start stop [] l h = tt
cursors_later start stop (s ∷ ss) l h = (omega (arith, h.0), cursors_later start stop ss l h.1)

-- New entries leave every snapshot exact.
pub with_entries-IsCached :
    (db : Db) (rows : List EntryRow) (stop : ℕ)
    → db.next_entry_id ≤ stop
    → AreNew db.next_entry_id stop rows
    → IsCached db
    → IsCached (with_entries db rows stop)
with_entries-IsCached db rows stop later new h = record {
  started = omega (arith, h.started);
  ids =
      All-append _ db.entries rows (ids_later _ stop db.entries later h.ids)
        (ids_new _ stop rows h.started new);
  cursors = cursors_later _ stop db.snapshots later h.cursors;
  exact = IsExact-later db rows stop db.snapshots new h.cursors h.exact;
}

-- No entry of the account has an id above the greatest.
pub max_entry-ge :
    (id : String) (es : List EntryRow)
    → All (λ e. (e.account_id == id && leb e.id (max_entry id es)) ≡ (e.account_id == id)) es
max_entry-ge id es = go es (max_entry id es) (omega arith)
  where
    go :
        (xs : List EntryRow) (m : ℕ)
        → max_entry id xs ≤ m
        → All (λ e. (e.account_id == id && leb e.id m) ≡ (e.account_id == id)) xs
    go [] m h = tt
    go (e ∷ xs) m h = (unfold max_entry in ground arith, go xs m (unfold max_entry in ground arith))
