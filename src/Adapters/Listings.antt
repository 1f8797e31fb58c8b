-- ===== src/Adapters/Listings.antt =====
-- The listings by a cursor of src/ledgerflow/adapters/repositories.py, over rows in the order of their
-- ids. The columns that a join adds for display are left out.
pub mod Pages
use ledgerflow.Prelude.{
  ℕ, String, Bool, true, false, ◌&&◌, Option, none, some, List, [], ◌∷◌, ltb, ◌==◌, if◌then◌else◌,
  find, select, take,
}
use ledgerflow.Adapters.Tables.{Db, EntryRow, OutboxRow}

-- `if account_id: e.account_id = …`, which an empty text skips as `None` does
abbrev pub of_account : Option String → EntryRow → Bool
of_account none e = true
of_account (some account_id) e = if account_id == "" then true else e.account_id == account_id

-- EntryRepository.list
unfoldable pub list_entries : Option String → ℕ → ℕ → Db → List EntryRow
list_entries account_id since_entry_id limit db =
    take limit (select (λ e. ltb since_entry_id e.id && of_account account_id e) db.entries)

-- EventRepository.get
unfoldable pub get_event : String → String → String → Db → Option OutboxRow
get_event event_id tenant_id mode db =
    find (λ o. o.event_id == event_id && (o.tenant_id == tenant_id && (o.mode == mode))) db.outbox
