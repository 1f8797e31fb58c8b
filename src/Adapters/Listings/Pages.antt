-- ===== src/Adapters/Listings/Pages.antt =====
-- Reading a listing page by page, src/ledgerflow/adapters/repositories.py.
use ledgerflow.Prelude.{ℕ, ◌<◌, String, ◌&&◌, Option, List, [], ◌∷◌, ◌++◌, ltb, select, All}
use ledgerflow.Adapters.Tables.{Db, EntryRow}
use ledgerflow.Adapters.Listings.{of_account, list_entries}

-- The rows of a table stand in the order of their ids.
abbrev pub IsAscending : List EntryRow → Type 0
IsAscending [] = Unit
IsAscending (e ∷ es) = All (λ x. e.id < x.id) es × IsAscending es

abbrev after : ℕ → List EntryRow → List EntryRow
after k es = select (λ e. ltb k e.id) es

-- The cursor behind a page: the id of its last row.
abbrev pub cursor : ℕ → List EntryRow → ℕ
cursor k [] = k
cursor k (e ∷ es) = cursor e.id es

-- The rows of one account behind a cursor, all of them.
abbrev pub rest_of : Option String → ℕ → List EntryRow → List EntryRow
rest_of account_id k es = select (λ e. ltb k e.id && of_account account_id e) es

-- A reader that takes a page after each batch of new entries: what it has read, and its cursor.
abbrev pub grown : Db → List EntryRow → Db
grown db more = record db { entries = db.entries ++ more }

unfoldable pub read_pages :
    Option String → ℕ → ℕ → Db → List (List EntryRow) → List EntryRow × (ℕ × Db)
read_pages account_id limit k db [] = ([], (k, db))
read_pages account_id limit k db (batch ∷ batches) =
    let page = list_entries account_id k limit db in
    let (later, end) = read_pages account_id limit (cursor k page) (grown db batch) batches in
    (page ++ later, end)

abbrev all_batches : List (List EntryRow) → List EntryRow
all_batches [] = []
all_batches (b ∷ bs) = b ++ all_batches bs
