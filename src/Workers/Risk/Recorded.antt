-- ===== src/Workers/Risk/Recorded.antt =====
-- The rows that the loop over the rules of src/ledgerflow/workers/risk.py adds to the signals.
use mathlib.Core.List.{append-nil, append_assoc}
use ledgerflow.Prelude.{
  ℕ, suc, ◌≤◌, ◌<◌, String, ◌≡◌, refl, sym, ap, ◌∙◌, Bool, true, false, Option, none, some, List,
  [], ◌∷◌, ◌++◌, ◌==◌, any, arith,
}
use ledgerflow.Exception.{ok}
use ledgerflow.Adapters.Tx.{pure, >>=-of_ok}
use ledgerflow.Stream.{PostgresStream}
use ledgerflow.Features.{Features}
use ledgerflow.Features.Rules.{Rule, flag}
use ledgerflow.Adapters.Signals.{
  RiskDb, SignalRow, is_account, is_known_transaction, add_signal, insert_signal,
}
use ledgerflow.Workers.Risk.{Payload, Alert, record_signals, publish_alert}
use ledgerflow.Workers.Risk.Alerts.{publish_all}

module _ {F : Type 0} (new_id : ℕ → String) (tenant : String) (transaction_id : Option String)
    (f : Features F) where
  -- The row of a rule that fired, under the n-th id.
  abbrev pub signal_row : ℕ → Rule F → SignalRow F
  signal_row n r = record {
    id = new_id n;
    tenant_id = tenant;
    account_id = f.account_id;
    transaction_id = transaction_id;
    rule = r.name;
    score = r.score;
    features = f;
    action = flag;
    attempted_amount_minor = none;
  }

  unfoldable pub signal_rows : ℕ → List (Rule F) → List (SignalRow F)
  signal_rows n [] = []
  signal_rows n (r ∷ rs) = signal_row n r ∷ signal_rows (suc n) rs

-- The ids from the n-th on name no signal.
abbrev pub AreNew : {F : Type 0} → (ℕ → String) → ℕ → List (SignalRow F) → Type 0
AreNew new_id n rows = (m : ℕ) → n ≤ m → any (λ x. x.id == new_id m) rows ≡ false

abbrev pub AreDifferent : (ℕ → String) → Type 0
AreDifferent new_id = (m n : ℕ) → m < n → (new_id m == new_id n) ≡ false

any-append_one :
    {F : Type 0} (p : SignalRow F → Bool) (rows : List (SignalRow F)) (row : SignalRow F)
    → any p rows ≡ false
    → p row ≡ false
    → any p (rows ++ row ∷ []) ≡ false
unfolding any
any-append_one p [] row h k = rw k refl
any-append_one p (x ∷ rows) row h k = ground (arith, any-append_one p rows row)

add_signal_lem :
    {F : Type 0} (row : SignalRow F) (s : RiskDb F)
    → any (λ x. x.id == row.id) s.fraud_signals ≡ false
    → is_account row.account_id s ≡ true
    → is_known_transaction row.transaction_id s.ledger ≡ true
    → add_signal row s ≡ ok (tt, record s { fraud_signals = s.fraud_signals ++ row ∷ [] })
unfolding add_signal
add_signal_lem row s new there sent = rw new (rw there (rw sent refl))

module _ {F : Type 0} (new_id : ℕ → String) (event_id : String) (p : Payload) (f : Features F)
    (tenant : String) (known_tenant : p.tenant_id ≡ some tenant)
    (different : AreDifferent new_id) where
  insert_signal_lem :
      (n : ℕ) (r : Rule F) (s : RiskDb F)
      → any (λ x. x.id == new_id n) s.fraud_signals ≡ false
      → is_account f.account_id s ≡ true
      → is_known_transaction p.transaction_id s.ledger ≡ true
      → insert_signal (new_id n) tenant f.account_id p.transaction_id r.name r.score f s
        ≡ ok (
          signal_row new_id tenant p.transaction_id f n r,
          record s {
            fraud_signals = s.fraud_signals ++ signal_row new_id tenant p.transaction_id f n r ∷ [];
          },
        )
  unfolding insert_signal
  insert_signal_lem n r s new there sent =
      let row = signal_row new_id tenant p.transaction_id f n r in
      >>=-of_ok (add_signal row) (λ _. pure row) s (add_signal_lem row s new there sent)

  pub record_signals_lem :
      (n : ℕ) (rs : List (Rule F)) (s : RiskDb F) (stream : PostgresStream Alert)
      → AreNew new_id n s.fraud_signals
      → is_account f.account_id s ≡ true
      → is_known_transaction p.transaction_id s.ledger ≡ true
      → record_signals new_id event_id p f n rs s stream ≡ (
        publish_all event_id (signal_rows new_id tenant p.transaction_id f n rs) stream,
        ok (record s {
          fraud_signals = s.fraud_signals ++ signal_rows new_id tenant p.transaction_id f n rs;
        }),
      )
  unfolding record_signals signal_rows publish_all
  record_signals_lem n [] s stream new there sent =
      ap (λ (rows : List (SignalRow F)). (stream, ok (record s { fraud_signals = rows })))
        (sym (append-nil s.fraud_signals))
  record_signals_lem n (r ∷ rs) s stream new there sent =
      let row = signal_row new_id tenant p.transaction_id f n r in
      let next : RiskDb F = record s { fraud_signals = s.fraud_signals ++ row ∷ [] } in
      rw (known_tenant, record_signals)
        (rw (insert_signal_lem n r s (new n (omega arith)) there sent, record_signals)
          (record_signals_lem (suc n) rs next (publish_alert event_id row stream)
              (λ m late.
                any-append_one _ s.fraud_signals row (new m (omega arith))
                  (different n m (omega arith)))
              there sent
            ∙ ap
                (λ (rows : List (SignalRow F)). (
                  publish_all event_id (signal_rows new_id tenant p.transaction_id f (suc n) rs)
                      (publish_alert event_id row stream),
                  ok (record s { fraud_signals = rows }),
                ))
                (append_assoc s.fraud_signals (row ∷ [])
                  (signal_rows new_id tenant p.transaction_id f (suc n) rs))))
