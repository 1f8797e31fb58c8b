-- ===== src/Adapters/Signals.antt =====
-- The part of `RiskRepository` (src/ledgerflow/adapters/repositories.py) that the risk worker uses, with
-- its tables beside those of the ledger. `F` is the type of floats; the average and the standard
-- deviation are the database's functions.
use ledgerflow.Prelude.{
  ℕ, ◌+◌, ◌*◌, String, Bool, true, false, not, ◌&&◌, Option, none, some, List, [], ◌∷◌, ◌++◌, ltb,
  leb, nat_eq, ◌==◌, if◌then◌else◌, any, find, select, update_where, length,
}
use ledgerflow.Prelude.Int.{ℤ}
use ledgerflow.Exception.{integrity_error}
use ledgerflow.Adapters.Tx.{Tx, ◌>>=◌, ◌>>◌, gets, modify, raise_if, pure}
use ledgerflow.Adapters.Tables.{Db, EntryRow}
use ledgerflow.Adapters.Risk.{outflow_within}
use ledgerflow.Features.{Features}
use ledgerflow.Features.Rules.{Action, flag}

-- The columns of normalized_transactions that the statistics read.
pub record NormalizedRow : Type 0 where
  pub raw_transaction_id : String
  pub account_id : String
  pub merchant_id : Option String

pub record FeatureRow (F : Type 0) : Type 0 where
  pub account_id : String
  pub window_end : ℕ
  pub spend_1h_minor : ℤ
  pub spend_24h_minor : ℤ
  pub txn_count_1h : ℕ
  pub max_amount_1h_minor : ℤ
  pub distinct_merchants_7d : ℕ
  pub avg_amount_90d_minor : ℤ
  pub stddev_amount_90d : F

pub record SignalRow (F : Type 0) : Type 0 where
  pub id : String
  pub tenant_id : String
  pub account_id : String
  pub transaction_id : Option String
  pub rule : String
  pub score : ℕ
  pub features : Features F
  pub action : Action
  pub attempted_amount_minor : Option ℤ

pub record LateRow : Type 0 where
  pub event_id : String
  pub account_id : String
  pub effective_at : ℕ
  pub watermark_at : ℕ

pub record RiskDb (F : Type 0) : Type 0 where
  pub ledger : Db
  pub normalized_transactions : List NormalizedRow
  pub account_features : List (FeatureRow F)
  pub fraud_signals : List (SignalRow F)
  pub late_arrivals : List LateRow

-- make_interval(days => n), in microseconds
abbrev pub interval_days : ℕ → ℕ
interval_days n = n * 86400000000

pub record Baseline (F : Type 0) : Type 0 where
  pub avg_amount_minor : F
  pub stddev_amount : F
  pub sample_size : ℕ

unfoldable pub amounts : List EntryRow → List ℤ
amounts [] = []
amounts (e ∷ es) = e.amount_minor ∷ amounts es

-- COALESCE(…, 0) of an aggregate, which is NULL over no row
unfoldable pub coalesce : {F : Type 0} → F → (List ℤ → F) → List ℤ → F
coalesce zero aggregate [] = zero
coalesce zero aggregate (x ∷ xs) = aggregate (x ∷ xs)

-- RiskRepository.baseline
unfoldable pub baseline :
    {F : Type 0} → F → (List ℤ → F) → (List ℤ → F) → String → ℕ → ℕ → Db → Baseline F
unfolding amounts coalesce
baseline zero average deviation account_id stop days db =
    let rows = select (outflow_within account_id (interval_days days) stop) db.entries in
    record {
      avg_amount_minor = coalesce zero average (amounts rows);
      stddev_amount = coalesce zero deviation (amounts rows);
      sample_size = length rows;
    }

pub record MerchantStats : Type 0 where
  pub merchant_frequency : ℕ
  pub distinct_merchants_7d : ℕ

-- The joined row is of the account, and its raw transaction occurred after `start` and not after `stop`,
-- where `start` is an offset back from `stop`, when there is one.
unfoldable pub seen_within : String → Option ℕ → ℕ → Db → NormalizedRow → Bool
seen_within account_id back stop db n =
    n.account_id == account_id
    && elim (find (λ r. r.id == n.raw_transaction_id) db.raw_transactions) [
      | none ↦ false
      | some r ↦
          leb r.occurred_at.instant stop
          && elim back [ none ↦ true | some b ↦ ltb stop (r.occurred_at.instant + b) ]
    ]

-- `n.merchant_id = m`, which NULL never satisfies
abbrev pub is_merchant : Option String → NormalizedRow → Bool
is_merchant none n = false
is_merchant (some m) n = elim n.merchant_id [ none ↦ false | some x ↦ x == m ]

-- COUNT(DISTINCT merchant_id), which leaves NULL out
unfoldable pub count_distinct : List NormalizedRow → List String → ℕ
count_distinct [] seen = length seen
count_distinct (n ∷ ns) seen = count_distinct ns (elim n.merchant_id [
  | none ↦ seen
  | some m ↦ if any (λ x. x == m) seen then seen else m ∷ seen
])

-- RiskRepository.merchant_stats
unfoldable pub merchant_stats : {F : Type 0} → String → Option String → ℕ → RiskDb F → MerchantStats
merchant_stats account_id merchant_id stop s =
    let rows = select (seen_within account_id none stop s.ledger) s.normalized_transactions in
    let recent =
      select (seen_within account_id (some (interval_days 7)) stop s.ledger)
        s.normalized_transactions in
    record {
      merchant_frequency = length (select (is_merchant merchant_id) rows);
      distinct_merchants_7d = count_distinct recent [];
    }

-- The primary key of account_features.
abbrev pub is_window : {F : Type 0} → String → ℕ → FeatureRow F → Bool
is_window account_id window_end r = r.account_id == account_id && nat_eq r.window_end window_end

abbrev pub is_account : {F : Type 0} → String → RiskDb F → Bool
is_account account_id s = any (λ a. a.id == account_id) s.ledger.accounts

-- RiskRepository.upsert_features, with the foreign key to the accounts
unfoldable pub upsert_features : {F : Type 0} → FeatureRow F → Tx (RiskDb F) (Unit {0})
upsert_features row = do
  known ← gets (is_account row.account_id)
  raise_if (not known) integrity_error
  modify (λ s. record s {
    account_features =
        if any (is_window row.account_id row.window_end) s.account_features
        then update_where (is_window row.account_id row.window_end) (λ _. row) s.account_features
        else s.account_features ++ row ∷ [];
  })

-- A transaction that a signal names is there.
abbrev pub is_known_transaction : Option String → Db → Bool
is_known_transaction none db = true
is_known_transaction (some t) db = any (λ r. r.id == t) db.transactions

-- The insertion of a row into fraud_signals, with its primary key and its foreign keys.
unfoldable pub add_signal : {F : Type 0} → SignalRow F → Tx (RiskDb F) (Unit {0})
add_signal row = do
  signals ← gets (λ s. s.fraud_signals)
  raise_if (any (λ x. x.id == row.id) signals) integrity_error
  known ←
      gets (λ s. is_account row.account_id s && is_known_transaction row.transaction_id s.ledger)
  raise_if (not known) integrity_error
  modify (λ s. record s { fraud_signals = s.fraud_signals ++ row ∷ [] })

-- RiskRepository.insert_signal
unfoldable pub insert_signal :
    {F : Type 0}
    → String
    → String
    → String
    → Option String
    → String
    → ℕ
    → Features F
    → Tx (RiskDb F) (SignalRow F)
insert_signal signal_id tenant_id account_id transaction_id rule score features = do
  let row : SignalRow _ = record {
    id = signal_id;
    tenant_id = tenant_id;
    account_id = account_id;
    transaction_id = transaction_id;
    rule = rule;
    score = score;
    features = features;
    action = flag;
    attempted_amount_minor = none;
  }
  add_signal row
  pure row

-- RiskRepository.record_late_arrival
unfoldable pub record_late_arrival : {F : Type 0} → LateRow → RiskDb F → RiskDb F
record_late_arrival row s = record s { late_arrivals = s.late_arrivals ++ row ∷ [] }
