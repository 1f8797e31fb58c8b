-- ===== src/Domain/Ledger.antt =====
-- src/ledgerflow/domain/ledger.py: accounts, entries and balanced transactions.
-- Business time is a number of microseconds with the flag that says whether the value has a zone.
pub mod Drift
pub mod Balanced
pub mod Reversal
pub mod Balance
use ledgerflow.Prelude.{
  ℕ, String, Bool, true, false, not, Option, none, some, List, [], ◌∷◌, ◌==◌, length, ltb,
  if◌then◌else◌,
}
use Prim.Native.String.{◌++◌}
use ledgerflow.Prelude.Int.{ℤ, pos, ◌+ℤ◌, neg, eq_ℤ}
use ledgerflow.Exception.{
  Exception, Result, ok, err, ◌>>=◌, ◌>>◌, raise_if, unbalanced, invalid_entry, ledger_error,
  currency_mismatch,
}
use ledgerflow.Dict.{Dict, lookup, insert}
use ledgerflow.Domain.Money.{Money, make_money, zero_money, add, negate, is_positive}

pub data Direction : Type 0 where
  debit credit : Direction

-- Direction.opposite
unfoldable pub opposite : Direction → Direction
opposite debit = credit
opposite credit = debit

-- `is` between two members of the enum
abbrev pub same_direction : Direction → Direction → Bool
same_direction debit debit = true
same_direction credit credit = true
same_direction debit credit = false
same_direction credit debit = false

pub data AccountType : Type 0 where
  asset liability equity revenue expense : AccountType

-- AccountType.normal_balance
unfoldable pub normal_balance : AccountType → Direction
normal_balance asset = debit
normal_balance expense = debit
normal_balance liability = credit
normal_balance equity = credit
normal_balance revenue = credit

pub record Account : Type 0 where
  pub id : String
  pub name : String
  pub type : AccountType
  pub currency : String
  pub minimum_balance : Option Money

pub record Entry : Type 0 where
  pub account_id : String
  pub direction : Direction
  pub amount : Money

-- Entry.__post_init__
unfoldable pub make_entry : String → Direction → Money → Result Entry
make_entry account_id direction amount = do
  raise_if (not (is_positive amount)) invalid_entry
  ok (record { account_id = account_id; direction = direction; amount = amount })

-- Entry.reversed
unfoldable pub reversed : Entry → Result Entry
reversed e = make_entry e.account_id (opposite e.direction) e.amount

-- Account.signed
unfoldable pub signed : Account → Entry → Result Money
signed account entry = do
  raise_if (not (entry.account_id == account.id)) invalid_entry
  raise_if (not (entry.amount.currency == account.currency)) currency_mismatch
  (if same_direction entry.direction (normal_balance account.type)
      then ok entry.amount
      else negate entry.amount)

pub record Timestamp : Type 0 where
  pub aware : Bool
  pub instant : ℕ

pub record JournalTransaction : Type 0 where
  pub id : String
  pub kind : String
  pub effective_at : Timestamp
  pub entries : List Entry
  pub metadata : Dict String
  pub reverses_id : Option String

-- `sign * entry.amount.minor`
abbrev pub debit_signed : Direction → ℤ → ℤ
debit_signed debit z = z
debit_signed credit z = neg z

abbrev pub or_zero : Option ℤ → ℤ
or_zero none = pos 0
or_zero (some z) = z

-- One round of the loop: `drift[currency] += sign * minor` on a `defaultdict(int)`.
abbrev pub add_drift : Entry → Dict ℤ → Dict ℤ
add_drift e d =
    let c = e.amount.currency in
    insert c (or_zero (lookup c d) +ℤ debit_signed e.direction e.amount.minor) d

-- The loop over the entries.
unfoldable pub drift_from : List Entry → Dict ℤ → Dict ℤ
drift_from [] d = d
drift_from (e ∷ es) d = drift_from es (add_drift e d)

-- The loop over `drift.items()`: raise at the first currency that is off.
pub check_drift : Dict ℤ → Result (Unit {0})
check_drift [] = ok tt
check_drift ((_, delta) ∷ d) = if eq_ℤ delta (pos 0) then check_drift d else err unbalanced

-- JournalTransaction.__post_init__
unfoldable pub make_transaction :
    String
    → String
    → Timestamp
    → List Entry
    → Dict String
    → Option String
    → Result JournalTransaction
unfolding drift_from check_drift
make_transaction id kind effective_at entries metadata reverses_id = do
  raise_if (ltb (length entries) 2) unbalanced
  raise_if (not effective_at.aware) ledger_error
  check_drift (drift_from entries [])
  ok (record {
    id = id;
    kind = kind;
    effective_at = effective_at;
    entries = entries;
    metadata = metadata;
    reverses_id = reverses_id;
  })

-- One round of `total`.
add_total : Direction → Entry → Dict Money → Result (Dict Money)
add_total direction e totals =
    if same_direction e.direction direction
    then elim (lookup e.amount.currency totals) [
      | none ↦ ok (insert e.amount.currency e.amount totals)
      | some current ↦ (do t ← add current e.amount; ok (insert e.amount.currency t totals))
    ]
    else ok totals

total_from : Direction → List Entry → Dict Money → Result (Dict Money)
total_from direction [] totals = ok totals
total_from direction (e ∷ es) totals = add_total direction e totals >>= total_from direction es

-- JournalTransaction.total
pub total : Direction → JournalTransaction → Result (Dict Money)
total direction t = total_from direction t.entries []

-- `tuple(e.reversed() for e in entries)`
pub reverse_entries : List Entry → Result (List Entry)
reverse_entries [] = ok []
reverse_entries (e ∷ es) = do r ← reversed e; rs ← reverse_entries es; ok (r ∷ rs)

-- JournalTransaction.reverse; `none` for the time keeps that of the original.
unfoldable pub reverse : String → Option Timestamp → JournalTransaction → Result JournalTransaction
unfolding reverse_entries
reverse new_id effective_at t = elim t.reverses_id [
  | some _ ↦ err ledger_error
  | none ↦ (do
    entries ← reverse_entries t.entries
    make_transaction new_id (t.kind ++ ".reversal")
        (elim effective_at [ none ↦ t.effective_at | some at ↦ at ]) entries t.metadata (some t.id))
]

balance_from : Account → List Entry → Money → Result Money
balance_from account [] total = ok total
balance_from account (e ∷ es) total =
    let rest = (do s ← signed account e; total' ← add total s; balance_from account es total') in
    let skipped = balance_from account es total in
    if e.account_id == account.id then rest else skipped

-- balance_of: the fold of the entries of one account.
pub balance_of : Account → List Entry → Result Money
unfolding balance_from
balance_of account entries = do
  total ← zero_money account.currency
  balance_from account entries total
