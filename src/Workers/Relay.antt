-- ===== src/Workers/Relay.antt =====
-- src/ledgerflow/workers/outbox_relay.py. Whether the stream refuses to take a row is a parameter.
pub mod Marks
pub mod Sent
use ledgerflow.Prelude.{ℕ, Bool, true, false, List, [], ◌∷◌, length, if◌then◌else◌}
use ledgerflow.Adapters.Tables.{Db, OutboxRow, Resource}
use ledgerflow.Adapters.Outbox.{claim_unpublished, mark_published}
use ledgerflow.Stream.{PostgresStream, publish, ledger_events}

module _ (refuses : OutboxRow → Bool) where
  -- The loop over the rows: the ids that are sent, up to the first failure.
  unfoldable pub send : List OutboxRow → PostgresStream Resource → List ℕ × PostgresStream Resource
  send [] stream = ([], stream)
  send (row ∷ rows) stream =
      let (ids, after) =
        send rows (
          publish ledger_events row.partition_key row.event_id row.event_type row.payload stream) in
      if refuses row then ([], stream) else (row.id ∷ ids, after)

  -- The part of relay_once behind `if not rows: return 0`.
  relay_rows : List OutboxRow → Db → PostgresStream Resource → ℕ × (Db × PostgresStream Resource)
  relay_rows [] db stream = (0, (db, stream))
  relay_rows (row ∷ rows) db stream =
      let (sent, after) = send (row ∷ rows) stream in (length sent, (mark_published sent db, after))

  -- relay_once
  unfoldable pub relay_once : ℕ → Db → PostgresStream Resource → ℕ × (Db × PostgresStream Resource)
  unfolding relay_rows
  relay_once batch_size db stream = relay_rows (claim_unpublished batch_size db) db stream
