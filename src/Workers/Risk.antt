-- ===== src/Workers/Risk.antt =====
-- src/ledgerflow/workers/risk.py. The newest event time lives in the worker's memory and the stream
-- commits on its own, so neither is undone when the handler raises.
pub mod Expected
pub mod Alerts
pub mod Recorded
pub mod Watermark
pub mod Signals
use Prim.Native.String.{◌++◌ as text_append}
use ledgerflow.Prelude.{
  ℕ, zero, suc, ◌+◌, ◌-◌, ◌*◌, String, Bool, true, false, Option, none, some, List, [], ◌∷◌, ltb,
  if◌then◌else◌,
}
use ledgerflow.Prelude.Int.{ℤ}
use ledgerflow.Exception.{Exception, Result, ok, err, key_error}
use ledgerflow.Stream.{Message, PostgresStream, publish}
use ledgerflow.Features.{Float, Features}
use ledgerflow.Features.Rules.{Rule, advisory}
use ledgerflow.Features.Compute.{compute}
use ledgerflow.Adapters.Signals.{
  RiskDb, FeatureRow, SignalRow, LateRow, upsert_features, insert_signal, record_late_arrival,
}

-- The payload of a normalized transaction: a field is none where it is missing, or where reading it as
-- a time or a number fails. The normalizer writes times with a zone, so an instant is enough.
pub record Payload : Type 0 where
  pub account_id : Option String
  pub occurred_at : Option ℕ
  pub amount_minor : Option ℤ
  pub tenant_id : Option String
  pub transaction_id : Option String
  pub merchant_id : Option String

-- What the handler reads before anything else.
pub record Parsed : Type 0 where
  pub account_id : String
  pub occurred_at : ℕ
  pub amount_minor : ℤ

unfoldable pub fields : Option String → Option ℕ → Option ℤ → Option Parsed
fields (some a) (some t) (some n) =
    some (record { account_id = a; occurred_at = t; amount_minor = n })
fields none t n = none
fields (some a) none n = none
fields (some a) (some t) none = none

-- The reading of the payload, where none is PoisonMessage.
unfoldable pub parsed : Payload → Option Parsed
parsed p = fields p.account_id p.occurred_at p.amount_minor

-- The payload that is published for a signal, less the description of the rule.
pub record Alert : Type 0 where
  pub signal_id : String
  pub tenant_id : String
  pub account_id : String
  pub transaction_id : Option String
  pub rule : String
  pub score : ℕ

-- How the handler ends: with the database to commit, by PoisonMessage, or by another exception.
pub data Ending (F : Type 0) : Type 0 where
  handled : RiskDb F → Ending F
  poison : Ending F
  failed : Exception → Ending F

-- WATERMARK, in microseconds
abbrev pub lateness : ℕ
lateness = 7200 * 1000000

-- FRAUD_SIGNALS
abbrev pub fraud_signals_topic : String
fraud_signals_topic = "fraud.signals.v1"

-- The update of self._max_event_time.
unfoldable pub newest_time : Option ℕ → ℕ → ℕ
newest_time none occurred_at = occurred_at
newest_time (some t) occurred_at = if ltb t occurred_at then occurred_at else t

-- The columns of upsert_features.
unfoldable pub feature_row : {F : Type 0} → Float F → Features F → FeatureRow F
feature_row fl f = record {
  account_id = f.account_id;
  window_end = f.as_of;
  spend_1h_minor = f.spend_1h;
  spend_24h_minor = f.spend_24h;
  txn_count_1h = f.txn_count_1h;
  max_amount_1h_minor = f.max_amount_1h;
  distinct_merchants_7d = f.distinct_merchants_7d;
  avg_amount_90d_minor = fl.to_int f.avg_amount_90d;
  stddev_amount_90d = f.stddev_amount_90d;
}

abbrev pub alert_of : {F : Type 0} → SignalRow F → Alert
alert_of row = record {
  signal_id = row.id;
  tenant_id = row.tenant_id;
  account_id = row.account_id;
  transaction_id = row.transaction_id;
  rule = row.rule;
  score = row.score;
}

abbrev pub publish_alert :
    {F : Type 0} → String → SignalRow F → PostgresStream Alert → PostgresStream Alert
publish_alert event_id row stream =
    publish fraud_signals_topic row.account_id (text_append event_id (text_append ":" row.rule))
      "fraud.signal" (alert_of row) stream

unfoldable pub ending_of : {F : Type 0} → Result (RiskDb F) → Ending F
ending_of (ok db) = handled db
ending_of (err e) = failed e

module _ {F : Type 0} (new_id : ℕ → String) where
  -- The loop over the rules that fired; `new_id n` is the id of the n-th signal.
  unfoldable pub record_signals :
      String
      → Payload
      → Features F
      → ℕ
      → List (Rule F)
      → RiskDb F
      → PostgresStream Alert
      → PostgresStream Alert × Result (RiskDb F)
  record_signals event_id p f n [] db stream = (stream, ok db)
  record_signals event_id p f n (r ∷ rs) db stream = elim p.tenant_id [
    | none ↦ (stream, err key_error)
    | some tenant ↦
        elim (insert_signal (new_id n) tenant f.account_id p.transaction_id r.name r.score f db) [
          | ok (row, db') ↦
              record_signals event_id p f (suc n) rs db' (publish_alert event_id row stream)
          | err e ↦ (stream, err e)
        ]
  ]

module _ {F : Type 0} (fl : Float F) (average deviation : List ℤ → F) (new_id : ℕ → String) where
  -- The scoring of an event in time: its features, their row, and the signals.
  unfoldable pub score_event :
      String
      → Payload
      → String
      → ℕ
      → ℤ
      → RiskDb F
      → PostgresStream Alert
      → PostgresStream Alert × Ending F
  score_event event_id p account_id occurred_at amount_minor db stream =
      let f = compute fl average deviation account_id occurred_at amount_minor p.merchant_id db in
      elim (upsert_features (feature_row fl f) db) [
        | err e ↦ (stream, failed e)
        | ok (_, db') ↦
            let (after, result) = record_signals new_id event_id p f 0 (advisory fl f) db' stream in
            (after, ending_of result)
      ]

  -- The part of RiskWorker.handle behind the parsing, by the newest event time.
  unfoldable pub handle_event :
      String
      → Payload
      → String
      → ℕ
      → ℤ
      → ℕ
      → RiskDb F
      → PostgresStream Alert
      → PostgresStream Alert × Ending F
  handle_event event_id p account_id occurred_at amount_minor newest db stream =
      if ltb occurred_at (newest - lateness)
      then (
        stream,
        handled (
            record_late_arrival
              (record {
                event_id = event_id;
                account_id = account_id;
                effective_at = occurred_at;
                watermark_at = newest - lateness;
              })
              db),
      )
      else score_event event_id p account_id occurred_at amount_minor db stream

  -- RiskWorker.handle: the newest event time, the stream, and how it ends.
  unfoldable pub handle_parsed :
      String
      → Payload
      → Option Parsed
      → Option ℕ
      → RiskDb F
      → PostgresStream Alert
      → Option ℕ × (PostgresStream Alert × Ending F)
  handle_parsed event_id p none newest db stream = (newest, (stream, poison))
  handle_parsed event_id p (some q) newest db stream =
      let latest = newest_time newest q.occurred_at in
      (
        some latest,
        handle_event event_id p q.account_id q.occurred_at q.amount_minor latest db stream,
      )

  unfoldable pub handle :
      Message Payload
      → Option ℕ
      → RiskDb F
      → PostgresStream Alert
      → Option ℕ × (PostgresStream Alert × Ending F)
  handle message newest db stream =
      handle_parsed message.event_id message.payload (parsed message.payload) newest db stream

-- The database after a unit of work around the handler.
unfoldable pub committed : {F : Type 0} → Ending F → RiskDb F → RiskDb F
committed (handled after) db = after
committed poison db = db
committed (failed e) db = db
