-- ===== src/Tests/Domain.antt =====
-- Runs of src/ledgerflow/domain: money, transactions, reversals and posting rules.
use ledgerflow.Prelude.{
  ℕ, String, ◌≡◌, ◌≢◌, refl, true, false, none, some, List, [], ◌∷◌, arith, String-discrete, length,
  ◌==◌, false, ◌≤◌,
}
use ledgerflow.Prelude.Int.{pos, int_laws, ◌+ℤ◌, neg}
use ledgerflow.Exception.{ok, err, ledger_error, currency_mismatch}
use ledgerflow.Dict.{lookup, insert}
use ledgerflow.Domain.Currency.{exponents}
use ledgerflow.Domain.Money.{Money, add, sub, lt_money, le_money, gt_money, ge_money, is_positive}
use ledgerflow.Domain.Money.Laws.{IsMoney, different_currencies}
use ledgerflow.Domain.Ledger.{
  debit, credit, asset, Account, Entry, Timestamp, JournalTransaction, make_transaction, reverse,
  balance_of, make_entry, opposite,
}
use ledgerflow.Domain.Ledger.Balanced.{
  IsBalanced, make_transaction_sound, make_transaction_complete,
}
use ledgerflow.Domain.Ledger.Reversal.{mirror_all, reverse_lem, reverse_of_reversal}
use ledgerflow.Domain.Ledger.Balance.{net_moved, balance_of_lem, balance_of-reverse}
use ledgerflow.Domain.Posting.{
  PostingRequest, card_purchase, deposit, registry, kind, shape, build, build_transaction, account,
  simple,
}
use ledgerflow.Domain.Posting.Sound.{
  Posts, pair, build_transaction_sound, build_transaction_accepts,
}
use ledgerflow.Domain.Posting.Complete.{build-shape, registry-kind}

abbrev usd : ℕ → Money
usd n = record { minor = pos n; currency = "usd" }

usd-IsMoney : IsMoney (usd 5)
unfolding exponents String-discrete
usd-IsMoney = λ e. cc e

abbrev yen : Money
yen = record { minor = pos 5; currency = "jpy" }

abbrev noon : Timestamp
noon = record { aware = true; instant = 43200000000 }

abbrev lunch : List Entry
lunch =
    (record { account_id = "food"; direction = debit; amount = usd 5 })
    ∷ (record { account_id = "cash"; direction = credit; amount = usd 5 })
    ∷ []

lunch-IsBalanced : IsBalanced lunch
lunch-IsBalanced c = omega int_laws

abbrev lunch_txn : JournalTransaction
lunch_txn = record {
  id = "t1";
  kind = "card_purchase";
  effective_at = noon;
  entries = lunch;
  metadata = [];
  reverses_id = none;
}

abbrev refund_txn : JournalTransaction
refund_txn = record {
  id = "t2";
  kind = "card_purchase.reversal";
  effective_at = noon;
  entries = mirror_all lunch;
  metadata = [];
  reverses_id = some "t1";
}

made : make_transaction "t1" "card_purchase" noon lunch [] none ≡ ok lunch_txn
unfolding make_transaction lookup String-discrete insert ◌+ℤ◌ neg
made = refl

-- Two texts that the test tells apart.
pub apart : {s t : String} → (s == t) ≡ false → s ≢ t
apart h e = ground arith

dollars_and_yen :
    (add (usd 5) yen ≡ err currency_mismatch)
    × (sub (usd 5) yen ≡ err currency_mismatch)
    × (lt_money (usd 5) yen ≡ err currency_mismatch)
    × (le_money (usd 5) yen ≡ err currency_mismatch)
    × (gt_money (usd 5) yen ≡ err currency_mismatch)
    × (ge_money (usd 5) yen ≡ err currency_mismatch)
unfolding String-discrete
dollars_and_yen = different_currencies (usd 5) yen (apart refl)

make_transaction_sound_example :
    (lunch_txn.entries ≡ lunch)
    × (2 ≤ length lunch)
    × (noon.aware ≡ true)
    × IsBalanced lunch_txn.entries
make_transaction_sound_example = make_transaction_sound "t1" "card_purchase" noon lunch [] none made

make_transaction_complete_example :
    make_transaction "t1" "card_purchase" noon lunch [] none ≡ ok lunch_txn
make_transaction_complete_example =
    make_transaction_complete "t1" "card_purchase" noon lunch [] none (omega arith) refl
      lunch-IsBalanced

reverse_lem_example :
    (reverse "t2" (some noon) lunch_txn ≡ ok refund_txn) × IsBalanced (mirror_all lunch)
unfolding is_positive
reverse_lem_example =
    reverse_lem "t2" noon lunch_txn refl refl (omega arith) (refl, (refl, tt)) lunch-IsBalanced

reverse_of_reversal_example : reverse "t3" none refund_txn ≡ err ledger_error
reverse_of_reversal_example = reverse_of_reversal "t3" none refund_txn (λ e. cc e)

abbrev cash : Account
cash = record { id = "cash"; name = "Cash"; type = asset; currency = "usd"; minimum_balance = none }

cash-known : exponents cash.currency ≢ none
unfolding exponents String-discrete
cash-known = λ e. cc e

balance_of_lem_example :
    balance_of cash lunch ≡ ok (record { minor = net_moved cash lunch; currency = "usd" })
balance_of_lem_example = balance_of_lem cash cash-known lunch ((λ _. refl), ((λ _. refl), tt))

reversed_lunch : reverse "t2" (some noon) lunch_txn ≡ ok refund_txn
reversed_lunch = reverse_lem_example.0

abbrev four : List Entry
four =
    (record { account_id = "food"; direction = debit; amount = usd 5 })
    ∷ (record { account_id = "cash"; direction = credit; amount = usd 5 })
    ∷ (record { account_id = "food"; direction = credit; amount = usd 5 })
    ∷ (record { account_id = "cash"; direction = debit; amount = usd 5 })
    ∷ []

balance_of-reverse_example : balance_of cash four ≡ balance_of cash []
unfolding opposite is_positive
balance_of-reverse_example =
    balance_of-reverse cash [] "t2" (some noon) lunch_txn refund_txn cash-known tt
      ((λ _. refl), ((λ _. refl), tt)) (refl, (refl, tt)) reversed_lunch

abbrev order : PostingRequest
order = record {
  amount = usd 5;
  effective_at = noon;
  accounts = ("expense", "food") ∷ ("funding", "cash") ∷ [];
  metadata = [];
}

built : build_transaction "t1" "card_purchase" order ≡ ok lunch_txn
unfolding build_transaction build simple account make_entry lookup make_transaction String-discrete
    is_positive insert ◌+ℤ◌ neg
built = refl

built_pair : build card_purchase order ≡ ok lunch
unfolding build simple account make_entry lookup String-discrete is_positive
built_pair = refl

card_found : lookup "card_purchase" registry ≡ some card_purchase
unfolding lookup String-discrete
card_found = refl

build_transaction_sound_example :
    Posts order lunch_txn.entries × (lunch_txn.reverses_id ≡ none) × (lunch_txn.effective_at ≡ noon)
build_transaction_sound_example =
    build_transaction_sound order usd-IsMoney "t1" "card_purchase" built

build_transaction_accepts_example : build_transaction "t1" "card_purchase" order ≡ ok lunch_txn
build_transaction_accepts_example =
    build_transaction_accepts order usd-IsMoney "t1" "card_purchase" card_purchase lunch refl
      card_found built_pair

roles : (account order "expense" ≡ ok "food") × (account order "funding" ≡ ok "cash")
unfolding account lookup String-discrete
roles = (refl, refl)

build-shape_example : build card_purchase order ≡ ok (pair order "food" "cash")
unfolding shape is_positive
build-shape_example =
    build-shape order "food" "cash" refl card_purchase (λ e. cc e) (λ e. cc e) roles.0 roles.1

deposit_registered : lookup (kind deposit) registry ≡ some deposit
deposit_registered = registry-kind deposit
