-- ===== src/Tests/Risk.antt =====
-- Runs of the risk rules, the risk worker and the rate limiter at concrete values (src/ledgerflow/features,
-- src/ledgerflow/workers/risk.py and src/ledgerflow/api/ratelimit.py), with whole numbers for floats.
use ledgerflow.Prelude.{
  ℕ, zero, suc, ◌-◌, ◌*◌, ◌/◌, ◌≡◌, refl, true, not, ◌||◌, none, some, List, [], ◌∷◌, any, select,
  arith, ltb, leb, nat_eq, ◌==◌, String-discrete, if◌then◌else◌,
}
use ledgerflow.Prelude.Int.{ℤ, pos, pos_part, ◌+ℤ◌}
use ledgerflow.Exception.{err, transaction_declined}
use ledgerflow.Domain.Ledger.{credit, asset, debit}
use ledgerflow.Adapters.Tables.{EntryRow, AccountRow, open_account}
use ledgerflow.Adapters.Risk.{velocity_probe, max_amount}
use ledgerflow.Adapters.Signals.{RiskDb}
use ledgerflow.Application.Services
use ledgerflow.Application.Services.{screen}
use ledgerflow.Features.{Float, Features}
use ledgerflow.Features.Rules.{blocking, fires, evaluate, advisory, blocking_rules}
use ledgerflow.Features.Compute.{compute}
use ledgerflow.Features.Advisory.{advisory-evaluate, screen-advisory}
use ledgerflow.Stream.{Message, PostgresStream}
use ledgerflow.Workers.Risk.{Payload, Parsed, Alert, parsed, fields}
use ledgerflow.Workers.Risk.Watermark.{
  Worker, consume, consume_all, recorded_late, consume_all-late,
}
use ledgerflow.Tests.Ids.{mark}
use ledgerflow.Tests.Posts.{row, at, after}

abbrev whole : Float ℕ
whole = record {
  zero = 0;
  four = 4;
  five = 5;
  of_int = pos_part;
  to_int = pos;
  gt = λ a b. ltb b a;
  le = leb;
  sub = ◌-◌;
  mul = ◌*◌;
  div = λ a b. if nat_eq b 0 then none else some (a / b);
}

abbrev nothing : List ℤ → ℕ
nothing amounts = 0

-- Thirteen charges of one cent in one hour.
abbrev burst : ℕ → List EntryRow
burst zero = []
burst (suc n) = row (suc n) "txn" "cash" credit 1 1000 ∷ burst n

abbrev card : AccountRow
card = record {
  id = "cash";
  tenant_id = "acme";
  mode = "live";
  external_id = none;
  name = "cash";
  type = asset;
  normal_balance = debit;
  currency = "usd";
  status = open_account;
  minimum_balance = none;
}

abbrev risk_db : RiskDb ℕ
risk_db = record {
  ledger = record after { entries = burst 13; accounts = card ∷ [] };
  normalized_transactions = [];
  account_features = [];
  fraud_signals = [];
  late_arrivals = [];
}

burst-refused : screen card (at 2000) risk_db.ledger ≡ err transaction_declined
unfolding screen velocity_probe select max_amount Services.card_testing_block ◌+ℤ◌ String-discrete
burst-refused = refl

screen-advisory_example :
    any
      (λ r. r.name == "card_testing")
      (advisory whole (compute whole nothing nothing "cash" 2000 (pos 1) none risk_db))
    ≡ true
screen-advisory_example =
    screen-advisory whole nothing nothing card (at 2000) (pos 1) none risk_db burst-refused

abbrev probed : Features ℕ
probed = record {
  account_id = "cash";
  as_of = 2000;
  amount_minor = pos 30000;
  spend_1h = pos 13;
  spend_24h = pos 13;
  txn_count_1h = 13;
  max_amount_1h = pos 1;
  distinct_merchants_7d = 0;
  merchant_frequency = 0;
  avg_amount_90d = 1;
  stddev_amount_90d = 0;
}

advisory-evaluate_example :
    (advisory whole probed ≡ select (λ r. not (blocking r)) (evaluate whole probed))
    × ((not (any (fires probed) (blocking_rules whole))
          || any (λ r. r.name == "card_testing") (advisory whole probed))
        ≡ true)
advisory-evaluate_example = advisory-evaluate whole probed

abbrev event_at : ℕ → Message Payload
event_at t = record {
  offset = 1;
  topic = "ledger.transactions.normalized.v1";
  partition_key = "cash";
  event_id = "evt_1";
  event_type = "transaction.normalized";
  payload = record {
    account_id = some "cash";
    occurred_at = some t;
    amount_minor = some (pos 25000);
    tenant_id = some "acme";
    transaction_id = none;
    merchant_id = some "m_1";
  };
}

abbrev parsed_at : ℕ → Parsed
parsed_at t = record { account_id = "cash"; occurred_at = t; amount_minor = pos 25000 }

abbrev log : PostgresStream Alert
log = record { stream_messages = []; consumer_offsets = []; next_offset = 1 }

abbrev worker : Worker ℕ
worker = record { max_event_time = some 8000000000; db = risk_db; stream = log }

consume_all-late_example :
    consume whole nothing nothing
      (mark, event_at 2000)
      (consume_all whole nothing nothing ((mark, event_at 9000000000) ∷ []) worker)
    ≡ recorded_late "evt_1"
        (parsed_at 2000)
        (consume_all whole nothing nothing ((mark, event_at 9000000000) ∷ []) worker)
unfolding parsed fields
consume_all-late_example =
    consume_all-late whole nothing nothing ((mark, event_at 9000000000) ∷ []) mark (event_at 2000)
      (parsed_at 2000) worker refl (omega arith)
