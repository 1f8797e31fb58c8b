-- ===== src/Features/Advisory.antt =====
-- How the rules that may refuse a posting and those that annotate it go together,
-- src/ledgerflow/features/rules.py and `_screen` of src/ledgerflow/application/services.py.
use ledgerflow.Prelude.{
  String, ◌≡◌, refl, sym, ◌∙◌, Bool, true, false, not, ◌&&◌, ◌||◌, Option, List, [], ◌∷◌, ◌==◌, any,
  select, select-select, if◌then◌else◌, Bool-cases, String-discrete, inl, inr, arith,
}
use ledgerflow.Prelude.Int.{ℤ}
use ledgerflow.Exception.{Result, transaction_declined, err, ok}
use ledgerflow.Domain.Ledger.{Timestamp}
use ledgerflow.Adapters.Tx.{raise_if}
use ledgerflow.Adapters.Tables.{Db, AccountRow}
use ledgerflow.Adapters.Risk.{spend_window, velocity_probe}
use ledgerflow.Application.Services
use ledgerflow.Application.Services.{screen}
use ledgerflow.Features.{Float, Features}
use ledgerflow.Features.Compute.{compute, probe_features}
use ledgerflow.Adapters.Signals.{RiskDb}
use ledgerflow.Features.Rules.{blocking, fires, rules, evaluate, advisory, blocking_rules}

any-select :
    {A : Type 0} (p q : A → Bool) (xs : List A)
    → any (λ x. p x && q x) xs ≡ true
    → any p (select q xs) ≡ true
unfolding any select
any-select p q [] h = absurd (cc h)
any-select p q (x ∷ xs) h = elim (Bool-cases (q x)) [
  | inl kept ↦ rw kept (elim (Bool-cases (p x)) [
    | inl here ↦ rw here refl
    | inr other ↦ rw other (any-select p q xs (rw other at rw kept at h))
  ])
  | inr dropped ↦ rw dropped (any-select p q xs (ground arith))
]

raise_if-either :
    (b : Bool) (db : Db)
    → raise_if b transaction_declined db
      ≡ (if b || false then err transaction_declined else ok (tt, db))
raise_if-either true db = refl
raise_if-either false db = refl

or_true : (b : Bool) → (b || true) ≡ true
or_true true = refl
or_true false = refl

module _ {F : Type 0} (fl : Float F) where
  -- Where a blocking rule fires, card_testing is among the advisory ones.
  shadowed :
      (f : Features F)
      → any (fires f) (blocking_rules fl) ≡ true
      → any (λ r. r.name == "card_testing") (advisory fl f) ≡ true
  unfolding advisory blocking_rules rules any select String-discrete
  shadowed f blocked =
      any-select (λ r. r.name == "card_testing") (λ r. not (blocking r) && fires f r) (rules fl)
        (ground arith)

  -- The advisory rules that fire are all the rules that fire, less the blocking ones; and where a
  -- blocking rule fires, card_testing is among the advisory ones.
  pub advisory-evaluate :
      (f : Features F)
      → (advisory fl f ≡ select (λ r. not (blocking r)) (evaluate fl f))
        × ((not (any (fires f) (blocking_rules fl))
              || any (λ r. r.name == "card_testing") (advisory fl f))
            ≡ true)
  unfolding advisory evaluate
  advisory-evaluate f = (
    select-select (λ r. not (blocking r)) (fires f) (rules fl),
    elim (Bool-cases (any (fires f) (blocking_rules fl))) [
      | inl blocked ↦ rw (shadowed f blocked) (or_true (not (any (fires f) (blocking_rules fl))))
      | inr free ↦ rw free refl
    ],
  )

  -- The screening of a posting refuses exactly where one of the blocking rules fires on the features that
  -- it makes from its probe.
  pub screen-blocking_rules :
      (row : AccountRow) (at : Timestamp) (amount_minor : ℤ) (db : Db)
      → screen row at db ≡ (
          if any (fires (probe_features fl row.id amount_minor at.instant db)) (blocking_rules fl)
          then err transaction_declined
          else ok (tt, db))
  unfolding screen Services.card_testing_block any blocking_rules rules select probe_features
  screen-blocking_rules row at amount_minor db =
      raise_if-either (Services.card_testing_block (velocity_probe row.id at.instant db)) db

  -- Where the screening refuses a posting, the worker would flag card_testing on the features of
  -- the same account at the same instant.
  pub screen-advisory :
      (average deviation : List ℤ → F) (row : AccountRow) (at : Timestamp) (amount_minor : ℤ)
      (merchant_id : Option String) (s : RiskDb F)
      → screen row at s.ledger ≡ err transaction_declined
      → any
          (λ r. r.name == "card_testing")
          (advisory fl (compute fl average deviation row.id at.instant amount_minor merchant_id s))
        ≡ true
  unfolding compute spend_window velocity_probe probe_features any blocking_rules rules select
  screen-advisory average deviation row at amount_minor merchant_id s refused =
      shadowed (compute fl average deviation row.id at.instant amount_minor merchant_id s) (
        blocked
          (any (fires (probe_features fl row.id amount_minor at.instant s.ledger))
            (blocking_rules fl))
          (sym (screen-blocking_rules row at amount_minor s.ledger) ∙ refused))
    where
      blocked :
          (b : Bool)
          → ◌≡◌ {A = Result (Unit {0} × Db)}
              (if b then err transaction_declined else ok (tt, s.ledger))
              (err transaction_declined)
          → b ≡ true
      blocked true h = refl
      blocked false h = absurd (cc h)
