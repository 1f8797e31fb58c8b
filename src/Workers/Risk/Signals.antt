-- ===== src/Workers/Risk/Signals.antt =====
-- What src/ledgerflow/workers/risk.py writes for an event in time.
use ledgerflow.Prelude.{ℕ, Option, none, some, [], ◌∷◌, ◌++◌, ltb, any, update_where, if◌then◌else◌}
use ledgerflow.Features.{Features}
use ledgerflow.Adapters.Signals.{RiskDb, FeatureRow, is_window}

-- The database with the row of the features in place.
abbrev pub with_features : {F : Type 0} → FeatureRow F → RiskDb F → RiskDb F
with_features row s = record s {
  account_features =
      if any (is_window row.account_id row.window_end) s.account_features
      then update_where (is_window row.account_id row.window_end) (λ _. row) s.account_features
      else s.account_features ++ row ∷ [];
}

-- The later of the newest time, if there is one, and a time.
abbrev pub latest : Option ℕ → ℕ → ℕ
latest none t = t
latest (some m) t = if ltb m t then t else m
