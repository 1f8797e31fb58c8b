-- ===== src/Features/Compute.antt =====
-- compute of src/ledgerflow/features/compute.py, and the features that `_screen` of
-- src/ledgerflow/application/services.py makes from its probe.
use ledgerflow.Prelude.{ℕ, ◌*◌, String, Option, List}
use ledgerflow.Prelude.Int.{ℤ, pos}
use ledgerflow.Adapters.Tables.{Db}
use ledgerflow.Adapters.Risk.{one_hour, spend_window, velocity_probe}
use ledgerflow.Adapters.Signals.{RiskDb, baseline, merchant_stats}
use ledgerflow.Features.{Float, Features}

-- SPEND_24H of windows.py, in microseconds
abbrev pub one_day : ℕ
one_day = 24 * one_hour

module _ {F : Type 0} (fl : Float F) (average deviation : List ℤ → F) where
  -- compute: `spend_window` takes the start of a window as an offset back from its end
  unfoldable pub compute : String → ℕ → ℤ → Option String → RiskDb F → Features F
  compute account_id as_of amount_minor merchant_id s =
      let hour = spend_window account_id one_hour as_of s.ledger in
      let day = spend_window account_id one_day as_of s.ledger in
      let base = baseline fl.zero average deviation account_id as_of 90 s.ledger in
      let merchant = merchant_stats account_id merchant_id as_of s in
      record {
        account_id = account_id;
        as_of = as_of;
        amount_minor = amount_minor;
        spend_1h = hour.spend_minor;
        spend_24h = day.spend_minor;
        txn_count_1h = hour.txn_count;
        max_amount_1h = hour.max_amount_minor;
        distinct_merchants_7d = merchant.distinct_merchants_7d;
        merchant_frequency = merchant.merchant_frequency;
        avg_amount_90d = base.avg_amount_minor;
        stddev_amount_90d = base.stddev_amount;
      }

-- The features of _screen: what the probe counts, and nothing for the rest.
unfoldable pub probe_features : {F : Type 0} → Float F → String → ℤ → ℕ → Db → Features F
probe_features fl account_id amount_minor at db =
    let probe = velocity_probe account_id at db in
    record {
      account_id = account_id;
      as_of = at;
      amount_minor = amount_minor;
      spend_1h = pos 0;
      spend_24h = pos 0;
      txn_count_1h = probe.txn_count;
      max_amount_1h = probe.max_amount_minor;
      distinct_merchants_7d = 0;
      merchant_frequency = 0;
      avg_amount_90d = fl.zero;
      stddev_amount_90d = fl.zero;
    }
