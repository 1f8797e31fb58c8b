-- ===== src/Adapters/Outbox.antt =====
-- The outbox half of `EventRepository`, and `NormalizationRepository.insert_raw`, of
-- src/ledgerflow/adapters/repositories.py.
use ledgerflow.Prelude.{
  ℕ, ◌+◌, String, Bool, true, false, not, List, [], ◌∷◌, ◌++◌, nat_eq, ◌==◌, any, select, take,
  length, update_where,
}
use ledgerflow.Exception.{integrity_error}
use ledgerflow.Adapters.Tx.{Tx, ◌>>=◌, ◌>>◌, gets, modify, raise_if, pure}
use ledgerflow.Adapters.Tables.{Db, OutboxRow, RawRow, Resource}

-- EventRepository.append_outbox, with the unique index on the event's id.
unfoldable pub append_outbox :
    String → String → String → String → String → Resource → Tx Db OutboxRow
append_outbox event_id tenant_id mode partition_key event_type payload = do
  outbox ← gets (λ db. db.outbox)
  raise_if (any (λ o. o.event_id == event_id) outbox) integrity_error
  next ← gets (λ db. db.next_outbox_id)
  let row : OutboxRow = record {
    id = next;
    event_id = event_id;
    tenant_id = tenant_id;
    mode = mode;
    partition_key = partition_key;
    event_type = event_type;
    payload = payload;
    published = false;
    attempts = 0;
  }
  modify
      (λ db. record db { outbox = db.outbox ++ row ∷ []; next_outbox_id = db.next_outbox_id + 1 })
  pure row

-- EventRepository.claim_unpublished: the table is in the order of the ids.
unfoldable pub claim_unpublished : ℕ → Db → List OutboxRow
claim_unpublished limit db = take limit (select (λ o. not o.published) db.outbox)

-- `id = ANY(ids)`
unfoldable pub is_among : List ℕ → ℕ → Bool
is_among ids i = any (nat_eq i) ids

-- EventRepository.mark_published; an empty list changes nothing.
unfoldable pub mark_published : List ℕ → Db → Db
mark_published ids db = record db {
  outbox =
      update_where (λ o. is_among ids o.id)
        (λ o. record o { published = true; attempts = o.attempts + 1 }) db.outbox;
}

-- EventRepository.outbox_lag, the number of events that wait
pub outbox_pending : Db → ℕ
outbox_pending db = length (select (λ o. not o.published) db.outbox)

-- NormalizationRepository.insert_raw, with the primary key of the table.
unfoldable pub insert_raw : RawRow → Tx Db (Unit {0})
insert_raw row = do
  raws ← gets (λ db. db.raw_transactions)
  raise_if (any (λ r. r.id == row.id) raws) integrity_error
  modify (λ db. record db { raw_transactions = db.raw_transactions ++ row ∷ [] })
