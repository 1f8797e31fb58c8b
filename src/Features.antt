-- ===== src/Features.antt =====
-- src/ledgerflow/features: the features of an account at a time, and the rules over them. Python's
-- floats are any type with the operations that the code uses.
pub mod Rules
pub mod Compute
pub mod Advisory
use ledgerflow.Prelude.{ℕ, String, Bool, Option, none, some, if◌then◌else◌}
use ledgerflow.Prelude.Int.{ℤ}

-- What the code does with a float: three constants, conversions, and arithmetic; a division by zero
-- raises ZeroDivisionError.
pub record Float (F : Type 0) : Type 0 where
  pub zero : F
  pub four : F
  pub five : F
  pub of_int : ℤ → F
  pub to_int : F → ℤ
  pub gt : F → F → Bool
  pub le : F → F → Bool
  pub sub : F → F → F
  pub mul : F → F → F
  pub div : F → F → Option F

-- Features of compute.py; instants are microseconds.
pub record Features (F : Type 0) : Type 0 where
  pub account_id : String
  pub as_of : ℕ
  pub amount_minor : ℤ
  pub spend_1h : ℤ
  pub spend_24h : ℤ
  pub txn_count_1h : ℕ
  pub max_amount_1h : ℤ
  pub distinct_merchants_7d : ℕ
  pub merchant_frequency : ℕ
  pub avg_amount_90d : F
  pub stddev_amount_90d : F

module _ {F : Type 0} (fl : Float F) where
  -- Features.amount_zscore
  unfoldable pub amount_zscore : Features F → Option F
  amount_zscore f =
      if fl.le f.stddev_amount_90d fl.zero
      then some fl.zero
      else fl.div (fl.sub (fl.of_int f.amount_minor) f.avg_amount_90d) f.stddev_amount_90d

  -- Features.avg_spend_1h_90d
  unfoldable pub avg_spend_1h_90d : Features F → F
  avg_spend_1h_90d f = if fl.gt f.avg_amount_90d fl.zero then f.avg_amount_90d else fl.zero
