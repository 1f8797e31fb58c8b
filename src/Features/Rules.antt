-- ===== src/Features/Rules.antt =====
-- src/ledgerflow/features/rules.py. A predicate that divides by zero has no value; scores are counted
-- in hundredths, and the descriptions are left out.
use ledgerflow.Prelude.{
  ℕ, String, Bool, true, false, not, ◌&&◌, Option, none, some, List, [], ◌∷◌, ltb, nat_eq, select,
  if◌then◌else◌,
}
use ledgerflow.Prelude.Int.{pos, ltb_ℤ}
use ledgerflow.Features.{Float, Features, amount_zscore, avg_spend_1h_90d}

pub data Action : Type 0 where
  flag block : Action

pub record Rule (F : Type 0) : Type 0 where
  pub name : String
  pub score : ℕ
  pub predicate : Features F → Option Bool
  pub action : Action

module _ {F : Type 0} where
  -- Rule.blocking
  abbrev pub blocking : Rule F → Bool
  blocking r = elim r.action [ flag ↦ false | block ↦ true ]

  -- Rule.evaluate, which catches ZeroDivisionError
  abbrev pub fires : Features F → Rule F → Bool
  fires f r = elim (r.predicate f) [ none ↦ false | some b ↦ b ]

module _ {F : Type 0} (fl : Float F) where
  abbrev pub velocity_1h : Rule F
  velocity_1h = record {
    name = "velocity_1h";
    score = 60;
    predicate = λ f. some (
        fl.gt (avg_spend_1h_90d fl f) fl.zero
        && fl.gt (fl.of_int f.spend_1h) (fl.mul fl.five (avg_spend_1h_90d fl f)));
    action = flag;
  }

  abbrev pub zscore_rule : Rule F
  zscore_rule = record {
    name = "amount_zscore";
    score = 50;
    predicate = λ f.
        if fl.gt f.stddev_amount_90d fl.zero
        then elim (amount_zscore fl f) [ none ↦ none | some z ↦ some (fl.gt z fl.four) ]
        else some false;
    action = flag;
  }

  abbrev pub novel_merchant : Rule F
  novel_merchant = record {
    name = "novel_merchant";
    score = 30;
    predicate = λ f. some (nat_eq f.merchant_frequency 0 && ltb_ℤ (pos 20000) f.amount_minor);
    action = flag;
  }

  abbrev pub card_testing : Rule F
  card_testing = record {
    name = "card_testing";
    score = 80;
    predicate = λ f. some (ltb 10 f.txn_count_1h && ltb_ℤ f.max_amount_1h (pos 500));
    action = flag;
  }

  abbrev pub card_testing_block : Rule F
  card_testing_block = record {
    name = "card_testing_block";
    score = 95;
    predicate = λ f. some (ltb 12 f.txn_count_1h && ltb_ℤ f.max_amount_1h (pos 500));
    action = block;
  }

  abbrev pub merchant_sprawl : Rule F
  merchant_sprawl = record {
    name = "merchant_sprawl";
    score = 40;
    predicate = λ f. some (ltb 25 f.distinct_merchants_7d);
    action = flag;
  }

  -- RULES
  unfoldable pub rules : List (Rule F)
  rules =
      velocity_1h ∷ zscore_rule ∷ novel_merchant ∷ card_testing ∷ card_testing_block
      ∷ merchant_sprawl ∷ []

  -- evaluate
  unfoldable pub evaluate : Features F → List (Rule F)
  evaluate f = select (fires f) rules

  -- advisory
  unfoldable pub advisory : Features F → List (Rule F)
  advisory f = select (λ r. not (blocking r) && fires f r) rules

  -- BLOCKING
  unfoldable pub blocking_rules : List (Rule F)
  blocking_rules = select blocking rules
