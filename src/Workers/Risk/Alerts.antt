-- ===== src/Workers/Risk/Alerts.antt =====
-- The alerts that src/ledgerflow/workers/risk.py publishes for the signals of one event.
use mathlib.Core.List.{append-nil, append_assoc}
use Prim.Native.String.{◌++◌ as text_append}
use ledgerflow.Prelude.{ℕ, ◌+◌, length, String, ◌≡◌, sym, ap, ◌∙◌, List, [], ◌∷◌, ◌++◌, arith}
use ledgerflow.Stream.{Message, PostgresStream, publish}
use ledgerflow.Adapters.Signals.{SignalRow}
use ledgerflow.Workers.Risk.{Alert, publish_alert}

-- One alert for each row, in their order.
unfoldable pub publish_all :
    {F : Type 0} → String → List (SignalRow F) → PostgresStream Alert → PostgresStream Alert
publish_all event_id [] stream = stream
publish_all event_id (row ∷ rows) stream =
    publish_all event_id rows (publish_alert event_id row stream)

-- The message of each signal, under the offsets from the n-th on.
pub alerts : {F : Type 0} → String → ℕ → List (SignalRow F) → List (Message Alert)
alerts event_id n [] = []
alerts event_id n (row ∷ rows) =
    (record {
      offset = n;
      topic = "fraud.signals.v1";
      partition_key = row.account_id;
      event_id = text_append event_id (text_append ":" row.rule);
      event_type = "fraud.signal";
      payload = record {
        signal_id = row.id;
        tenant_id = row.tenant_id;
        account_id = row.account_id;
        transaction_id = row.transaction_id;
        rule = row.rule;
        score = row.score;
      };
    })
    ∷ alerts event_id (n + 1) rows

-- The stream with the alerts behind its messages.
abbrev pub with_alerts :
    {F : Type 0} → String → List (SignalRow F) → PostgresStream Alert → PostgresStream Alert
with_alerts event_id rows stream = record stream {
  stream_messages = stream.stream_messages ++ alerts event_id stream.next_offset rows;
  next_offset = stream.next_offset + length rows;
}

pub publish_all-with_alerts :
    {F : Type 0} (event_id : String) (rows : List (SignalRow F)) (stream : PostgresStream Alert)
    → publish_all event_id rows stream ≡ with_alerts event_id rows stream
unfolding publish_all alerts publish
publish_all-with_alerts event_id [] stream =
    ap (λ (ms : List (Message Alert)). record stream { stream_messages = ms })
      (sym (append-nil stream.stream_messages))
    ∙ ap
        (λ (n : ℕ). record stream {
          stream_messages = stream.stream_messages ++ [];
          next_offset = n;
        })
        (omega arith)
publish_all-with_alerts event_id (row ∷ rows) stream =
    publish_all-with_alerts event_id rows (publish_alert event_id row stream)
    ∙ ap
        (λ (ms : List (Message Alert)). record stream {
          stream_messages = ms;
          next_offset = stream.next_offset + 1 + length rows;
        })
        (append_assoc stream.stream_messages _ (alerts event_id (stream.next_offset + 1) rows))
    ∙ ap
        (λ (n : ℕ). record stream {
          stream_messages =
              stream.stream_messages ++ alerts event_id stream.next_offset (row ∷ rows);
          next_offset = n;
        })
        (omega arith)
