-- ===== src/Adapters/Risk.antt =====
-- The windowed queries of `RiskRepository` (src/ledgerflow/adapters/repositories.py) over the entries.
use ledgerflow.Prelude.{
  ℕ, ◌+◌, String, Bool, ◌&&◌, List, [], ◌∷◌, ltb, leb, ◌==◌, if◌then◌else◌, select, length,
}
use ledgerflow.Prelude.Int.{ℤ, pos, ◌+ℤ◌, ltb_ℤ}
use ledgerflow.Domain.Ledger.{credit, same_direction}
use ledgerflow.Adapters.Tables.{Db, EntryRow}

-- interval '1 hour', in microseconds
abbrev pub one_hour : ℕ
one_hour = 3600000000

-- An outflow of the account: a credit on it, with `start < effective_at <= stop`, where `start` is an
-- offset back from `stop`.
abbrev pub outflow_within : String → ℕ → ℕ → EntryRow → Bool
outflow_within account_id back stop e =
    e.account_id == account_id
    && (same_direction e.direction credit
        && (ltb stop (e.effective_at.instant + back) && leb e.effective_at.instant stop))

-- COALESCE(MAX(amount_minor), 0)
unfoldable pub max_amount : List EntryRow → ℤ
max_amount [] = pos 0
max_amount (e ∷ []) = e.amount_minor
max_amount (e ∷ f ∷ es) =
    let rest = max_amount (f ∷ es) in if ltb_ℤ rest e.amount_minor then e.amount_minor else rest

-- COALESCE(SUM(amount_minor), 0)
unfoldable pub sum_amount : List EntryRow → ℤ
sum_amount [] = pos 0
sum_amount (e ∷ es) = e.amount_minor +ℤ sum_amount es

pub record Window : Type 0 where
  pub spend_minor : ℤ
  pub txn_count : ℕ
  pub max_amount_minor : ℤ

-- RiskRepository.spend_window over the last `back` microseconds
unfoldable pub spend_window : String → ℕ → ℕ → Db → Window
spend_window account_id back stop db =
    let rows = select (outflow_within account_id back stop) db.entries in
    record {
      spend_minor = sum_amount rows;
      txn_count = length rows;
      max_amount_minor = max_amount rows;
    }

pub record Probe : Type 0 where
  pub txn_count : ℕ
  pub max_amount_minor : ℤ

-- RiskRepository.velocity_probe
unfoldable pub velocity_probe : String → ℕ → Db → Probe
velocity_probe account_id at db =
    let rows = select (outflow_within account_id one_hour at) db.entries in
    record { txn_count = length rows; max_amount_minor = max_amount rows }
