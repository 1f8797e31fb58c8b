-- ===== src/Domain/Posting.antt =====
-- src/ledgerflow/domain/posting.py: the rules that turn a business event into ledger entries.
pub mod Sound
pub mod Complete
use text.Mathlib.Text.{starts_with}
use ledgerflow.Prelude.{
  ℕ, String, ◌≡◌, refl, Bool, true, false, not, ◌||◌, Option, none, some, List, [], ◌∷◌, ◌++◌, ◌==◌,
  if◌then◌else◌, String-discrete,
}
use ledgerflow.Prelude.Int.{ℤ, pos, ◌+ℤ◌, eq_ℤ}
use ledgerflow.Exception.{
  Exception, Result, ok, err, ◌>>=◌, ◌>>◌, raise_if, ledger_error, unknown_posting_kind,
  value_error,
}
use ledgerflow.Dict.{Dict, lookup, insert}
use ledgerflow.Text.{split, partition, strip, parse_int}
use ledgerflow.Domain.Money.{Money, make_money}
use ledgerflow.Domain.Ledger.{
  Direction, debit, credit, Entry, make_entry, Timestamp, JournalTransaction, make_transaction,
}

pub record PostingRequest : Type 0 where
  pub amount : Money
  pub effective_at : Timestamp
  pub accounts : Dict String
  pub metadata : Dict String

abbrev pub or_raise {ℓ} : {A : Type ℓ} → Option A → Exception → Result A
or_raise none e = err e
or_raise (some a) e = ok a

-- PostingRequest.account
unfoldable pub account : PostingRequest → String → Result String
account request role = or_raise (lookup role request.accounts) ledger_error

-- The classes of rules.
pub data PostingRule : Type 0 where
  card_purchase deposit opening_balance transfer fee refund split_purchase : PostingRule

-- PostingRule.kind
unfoldable pub kind : PostingRule → String
kind card_purchase = "card_purchase"
kind deposit = "deposit"
kind opening_balance = "opening_balance"
kind transfer = "transfer"
kind fee = "fee"
kind refund = "refund"
kind split_purchase = "split_purchase"

-- PostingRule.shape: the debit role and the credit role.
unfoldable pub shape : PostingRule → String × String
shape card_purchase = ("expense", "funding")
shape deposit = ("destination", "income")
shape opening_balance = ("destination", "equity")
shape transfer = ("destination", "source")
shape fee = ("fee_expense", "funding")
shape refund = ("funding", "expense")
shape split_purchase = ("expense_*", "funding")

-- The decorator posting_rule.
unfoldable pub posting_rule : PostingRule → Dict PostingRule → Result (Dict PostingRule)
posting_rule r registry = elim (lookup (kind r) registry) [
  | some _ ↦ err ledger_error
  | none ↦ ok (insert (kind r) r registry)
]

-- _simple
unfoldable pub simple : String → String → PostingRequest → Result (List Entry)
simple debit_role credit_role request = do
  d ← account request debit_role
  e ← make_entry d debit request.amount
  c ← account request credit_role
  f ← make_entry c credit request.amount
  ok (e ∷ f ∷ [])

-- Transfer.build
unfoldable pub build_transfer : PostingRequest → Result (List Entry)
build_transfer request = do
  source ← account request "source"
  destination ← account request "destination"
  raise_if (source == destination) ledger_error
  simple "destination" "source" request

-- `sorted(r for r in request.accounts if r.startswith("expense_"))` is not empty.
has_leg : Dict String → Bool
has_leg [] = false
has_leg ((role, _) ∷ roles) = starts_with role "expense_" || has_leg roles

-- One round of the loop over `raw.split(",")`: the leg's entry.
unfoldable pub split_leg : PostingRequest → String → Result Entry
split_leg request part = do
  let pieces = partition b':' part
  minor ← or_raise (parse_int pieces.1) value_error
  amount ← make_money minor request.amount.currency
  id ← account request (strip pieces.0)
  make_entry id debit amount

-- The loop: the legs, and what they allocate.
unfoldable pub split_legs : PostingRequest → List String → ℤ → Result (List Entry × ℤ)
split_legs request [] allocated = ok ([], allocated)
split_legs request (part ∷ parts) allocated = do
  e ← split_leg request part
  rest ← split_legs request parts (allocated +ℤ e.amount.minor)
  ok (e ∷ rest.0, rest.1)

-- `raw = metadata.get("split")`, refused when it is missing or empty
split_metadata : Option String → Result String
split_metadata none = err ledger_error
split_metadata (some raw) = if raw == "" then err ledger_error else ok raw

-- SplitPurchase.build
unfoldable pub build_split : PostingRequest → Result (List Entry)
unfolding has_leg split_metadata
build_split request = do
  raise_if (not (has_leg request.accounts)) ledger_error
  raw ← split_metadata (lookup "split" request.metadata)
  legs ← split_legs request (split b',' raw) (pos 0)
  raise_if (not (eq_ℤ legs.1 request.amount.minor)) ledger_error
  funding ← account request "funding"
  e ← make_entry funding credit request.amount
  ok (legs.0 ++ e ∷ [])

-- PostingRule.build
unfoldable pub build : PostingRule → PostingRequest → Result (List Entry)
build card_purchase = simple "expense" "funding"
build deposit = simple "destination" "income"
build opening_balance = simple "destination" "equity"
build transfer = build_transfer
build fee = simple "fee_expense" "funding"
build refund = simple "funding" "expense"
build split_purchase = build_split

-- _REGISTRY, once the module is loaded: the classes in the order of the file.
abbrev pub registry : Dict PostingRule
registry =
    ("card_purchase", card_purchase)
    ∷ ("deposit", deposit)
    ∷ ("opening_balance", opening_balance)
    ∷ ("transfer", transfer)
    ∷ ("fee", fee)
    ∷ ("refund", refund)
    ∷ ("split_purchase", split_purchase)
    ∷ []

-- build_transaction
unfoldable pub build_transaction : String → String → PostingRequest → Result JournalTransaction
build_transaction txn_id kind request = do
  rule ← or_raise (lookup kind registry) unknown_posting_kind
  entries ← build rule request
  make_transaction txn_id kind request.effective_at entries request.metadata none

-- The seven decorators leave the registry above, and none of them is refused.
register_all :
    (do
      r ← posting_rule card_purchase []
      r ← posting_rule deposit r
      r ← posting_rule opening_balance r
      r ← posting_rule transfer r
      r ← posting_rule fee r
      r ← posting_rule refund r
      posting_rule split_purchase r)
    ≡ ok registry
unfolding posting_rule kind lookup insert String-discrete
register_all = refl
