-- ===== src/Workers/Risk/Expected.antt =====
-- The features of an account at the time of an event, as sums over its outflows, which compute of
-- src/ledgerflow/features/compute.py reads from the repository.
use ledgerflow.Prelude.{
  ℕ, ◌+◌, ◌*◌, String, ◌≡◌, refl, ap, ◌&&◌, Option, List, [], ◌∷◌, ltb, leb, ◌==◌, if◌then◌else◌,
  select, length,
}
use ledgerflow.Prelude.Int.{ℤ, pos, ◌+ℤ◌, ltb_ℤ}
use ledgerflow.Domain.Ledger.{credit, same_direction}
use ledgerflow.Adapters.Tables.{EntryRow}
use ledgerflow.Adapters.Risk.{outflow_within, spend_window, sum_amount, max_amount}
use ledgerflow.Adapters.Signals.{RiskDb, FeatureRow, baseline, amounts, coalesce, merchant_stats}
use ledgerflow.Features.{Float, Features}
use ledgerflow.Features.Compute.{compute}
use ledgerflow.Workers.Risk.{Parsed}

-- The credits on an account that took effect later than a number of microseconds before a time, and
-- not after it.
pub outflows : String → ℕ → ℕ → List EntryRow → List EntryRow
outflows account_id back at [] = []
outflows account_id back at (e ∷ es) =
    if (e.account_id == account_id)
      && (same_direction e.direction credit
          && (ltb at (e.effective_at.instant + back) && leb e.effective_at.instant at))
    then e ∷ outflows account_id back at es
    else outflows account_id back at es

pub total : List EntryRow → ℤ
total [] = pos 0
total (e ∷ es) = e.amount_minor +ℤ total es

pub largest : List EntryRow → ℤ
largest [] = pos 0
largest (e ∷ []) = e.amount_minor
largest (e ∷ f ∷ es) =
    let rest = largest (f ∷ es) in if ltb_ℤ rest e.amount_minor then e.amount_minor else rest

abbrev pub values : List EntryRow → List ℤ
values [] = []
values (e ∷ es) = e.amount_minor ∷ values es

-- A function of the database on the amounts, or zero where there are none.
abbrev pub over : {F : Type 0} → F → (List ℤ → F) → List EntryRow → F
over zero aggregate [] = zero
over zero aggregate (e ∷ es) = aggregate (e.amount_minor ∷ values es)

module _ {F : Type 0} (fl : Float F) (average deviation : List ℤ → F) (q : Parsed)
    (merchant_id : Option String) (s : RiskDb F) where
  -- The outflows of the event's account up to the event, in an hour, a day and ninety days.
  abbrev pub in_hour : List EntryRow
  in_hour = outflows q.account_id 3600000000 q.occurred_at s.ledger.entries

  abbrev pub in_day : List EntryRow
  in_day = outflows q.account_id 86400000000 q.occurred_at s.ledger.entries

  abbrev pub in_quarter : List EntryRow
  in_quarter = outflows q.account_id (90 * 86400000000) q.occurred_at s.ledger.entries

  abbrev pub features_at : Features F
  features_at = record {
    account_id = q.account_id;
    as_of = q.occurred_at;
    amount_minor = q.amount_minor;
    spend_1h = total in_hour;
    spend_24h = total in_day;
    txn_count_1h = length in_hour;
    max_amount_1h = largest in_hour;
    distinct_merchants_7d =
        (merchant_stats q.account_id merchant_id q.occurred_at s).distinct_merchants_7d;
    merchant_frequency =
        (merchant_stats q.account_id merchant_id q.occurred_at s).merchant_frequency;
    avg_amount_90d = over fl.zero average in_quarter;
    stddev_amount_90d = over fl.zero deviation in_quarter;
  }

  -- The row of the account under the time of the event.
  abbrev pub row_at : FeatureRow F
  row_at = record {
    account_id = q.account_id;
    window_end = q.occurred_at;
    spend_1h_minor = total in_hour;
    spend_24h_minor = total in_day;
    txn_count_1h = length in_hour;
    max_amount_1h_minor = largest in_hour;
    distinct_merchants_7d =
        (merchant_stats q.account_id merchant_id q.occurred_at s).distinct_merchants_7d;
    avg_amount_90d_minor = fl.to_int (over fl.zero average in_quarter);
    stddev_amount_90d = over fl.zero deviation in_quarter;
  }

select-outflows :
    (account_id : String) (back at : ℕ) (es : List EntryRow)
    → select (outflow_within account_id back at) es ≡ outflows account_id back at es
unfolding select outflows
select-outflows account_id back at [] = refl
select-outflows account_id back at (e ∷ es) =
    ap (λ (rest : List EntryRow). if outflow_within account_id back at e then e ∷ rest else rest)
      (select-outflows account_id back at es)

sum_amount-total : (es : List EntryRow) → sum_amount es ≡ total es
unfolding sum_amount total
sum_amount-total [] = refl
sum_amount-total (e ∷ es) = ap (λ (n : ℤ). e.amount_minor +ℤ n) (sum_amount-total es)

max_amount-largest : (es : List EntryRow) → max_amount es ≡ largest es
unfolding max_amount largest
max_amount-largest [] = refl
max_amount-largest (e ∷ []) = refl
max_amount-largest (e ∷ f ∷ es) =
    ap (λ (n : ℤ). if ltb_ℤ n e.amount_minor then e.amount_minor else n)
      (max_amount-largest (f ∷ es))

amounts-values : (es : List EntryRow) → amounts es ≡ values es
unfolding amounts
amounts-values [] = refl
amounts-values (e ∷ es) = ap (λ (ns : List ℤ). e.amount_minor ∷ ns) (amounts-values es)

coalesce-over :
    {F : Type 0} (zero : F) (aggregate : List ℤ → F) (es : List EntryRow)
    → coalesce zero aggregate (amounts es) ≡ over zero aggregate es
unfolding amounts coalesce
coalesce-over zero aggregate [] = refl
coalesce-over zero aggregate (e ∷ es) =
    ap (λ (ns : List ℤ). aggregate (e.amount_minor ∷ ns)) (amounts-values es)

module _ {F : Type 0} (fl : Float F) (average deviation : List ℤ → F) (q : Parsed)
    (merchant_id : Option String) (s : RiskDb F) where
  pub compute-features_at :
      compute fl average deviation q.account_id q.occurred_at q.amount_minor merchant_id s
      ≡ features_at fl average deviation q merchant_id s
  unfolding compute spend_window baseline
  compute-features_at =
      let es = s.ledger.entries in
      let hour = in_hour fl average deviation q merchant_id s in
      let day = in_day fl average deviation q merchant_id s in
      let quarter = in_quarter fl average deviation q merchant_id s in
      rw
        (
          select-outflows q.account_id 3600000000 q.occurred_at es,
          select-outflows q.account_id 86400000000 q.occurred_at es,
          select-outflows q.account_id (90 * 86400000000) q.occurred_at es,
          sum_amount-total hour,
          sum_amount-total day,
          max_amount-largest hour,
          coalesce-over fl.zero average quarter,
          coalesce-over fl.zero deviation quarter,
        )
        refl
