-- ===== src/Domain/Posting/Complete.antt =====
-- When the rules of src/ledgerflow/domain/posting.py succeed, against their documented shapes.
use ledgerflow.Prelude.{String, ◌≡◌, ◌≢◌, refl, true, some, arith, String-discrete}
use ledgerflow.Exception.{ok}
use ledgerflow.Dict.{lookup}
use ledgerflow.Domain.Money.{is_positive}
use ledgerflow.Domain.Ledger.{make_entry}
use ledgerflow.Domain.Posting.{
  PostingRequest, account, PostingRule, card_purchase, deposit, opening_balance, transfer, fee,
  refund, split_purchase, registry, kind, shape, simple, build_transfer, build,
}
use ledgerflow.Domain.Posting.Sound.{pair}

module _ (q : PostingRequest) (x y : String) (positive : is_positive q.amount ≡ true) where
  simple_complete :
      (d c : String) → account q d ≡ ok x → account q c ≡ ok y → simple d c q ≡ ok (pair q x y)
  unfolding simple make_entry pair
  simple_complete d c hd hc = rw (hd, hc, positive)

  transfer_complete :
      account q "destination" ≡ ok x
      → account q "source" ≡ ok y
      → x ≢ y
      → build_transfer q ≡ ok (pair q x y)
  unfolding build_transfer
  transfer_complete hd hs different =
      rw (hs, hd) (ground (arith, simple_complete "destination" "source" hd hs))

  -- A rule other than split_purchase, given a positive amount and accounts for the two roles of its
  -- shape (two different accounts for a transfer), debits the first and credits the second by the
  -- amount.
  pub build-shape :
      (r : PostingRule)
      → r ≢ split_purchase
      → (r ≡ transfer → x ≢ y)
      → account q (shape r).0 ≡ ok x
      → account q (shape r).1 ≡ ok y
      → build r q ≡ ok (pair q x y)
  unfolding build shape
  build-shape card_purchase _ _ hd hc = simple_complete "expense" "funding" hd hc
  build-shape deposit _ _ hd hc = simple_complete "destination" "income" hd hc
  build-shape opening_balance _ _ hd hc = simple_complete "destination" "equity" hd hc
  build-shape transfer _ different hd hc = transfer_complete hd hc (different refl)
  build-shape fee _ _ hd hc = simple_complete "fee_expense" "funding" hd hc
  build-shape refund _ _ hd hc = simple_complete "funding" "expense" hd hc
  build-shape split_purchase not_split _ hd hc = absurd (not_split refl)

-- The registry finds every rule under its own kind.
pub registry-kind : (r : PostingRule) → lookup (kind r) registry ≡ some r
unfolding lookup kind String-discrete
registry-kind card_purchase = refl
registry-kind deposit = refl
registry-kind opening_balance = refl
registry-kind transfer = refl
registry-kind fee = refl
registry-kind refund = refl
registry-kind split_purchase = refl
