-- ===== src/Domain/Posting/Sound.antt =====
-- The entries that the rules of src/ledgerflow/domain/posting.py build.
use ledgerflow.Prelude.{
  String, ◌≡◌, ◌≢◌, refl, true, false, not, none, some, List, [], ◌∷◌, ◌++◌, ◌==◌, if◌then◌else◌,
  arith, ◌≤◌, length, eq_self, length-append, Bool, All, All-append, sym, ap, ◌∙◌, subst, suc,
}
use ledgerflow.Prelude.Int.{ℤ, pos, ◌+ℤ◌, eq_ℤ, int_laws, zero-add, add-zero, eq_ℤ→eq}
use ledgerflow.Exception.{ok, >>=-eq_ok, raise_if, ledger_error, value_error, unknown_posting_kind}
use ledgerflow.Dict.{lookup}
use ledgerflow.Domain.Money.{Money, make_money, is_positive}
use ledgerflow.Domain.Money.Laws.{IsMoney, make_money-supported}
use ledgerflow.Text.{split, split-ne_nil, partition, strip, parse_int}
use ledgerflow.Domain.Ledger.{
  Direction, debit, credit, Entry, make_entry, JournalTransaction, make_transaction,
}
use ledgerflow.Domain.Ledger.Balanced.{
  side_total, IsBalanced, side_total-append, make_transaction_complete,
}
use ledgerflow.Domain.Ledger.Reversal.{ArePositive}
use ledgerflow.Domain.Posting.{
  PostingRequest, account, or_raise, has_leg, split_metadata, registry, PostingRule, card_purchase,
  deposit, opening_balance, transfer, fee, refund, split_purchase, simple, build_transfer,
  split_leg, split_legs, build_split, build, build_transaction,
}

-- A list of entries that posts the request: it balances, with two entries at least, each of a positive
-- amount in the request's currency, and the debits are the request's amount.
pub record Posts (q : PostingRequest) (es : List Entry) : Type 0 where
  pub balanced : IsBalanced es
  pub two : 2 ≤ length es
  pub positive : ArePositive es
  pub currency : All (λ e. e.amount.currency ≡ q.amount.currency) es
  pub debits : side_total debit q.amount.currency es ≡ q.amount.minor

pub make_entry_lem :
    (id : String) (d : Direction) (m : Money) {e : Entry}
    → make_entry id d m ≡ ok e
    → (e ≡ record { account_id = id; direction = d; amount = m }) × (is_positive m ≡ true)
unfolding make_entry
make_entry_lem id d m h = (ground arith, ground arith)

unfoldable pub pair : PostingRequest → String → String → List Entry
pair q d c =
    (record { account_id = d; direction = debit; amount = q.amount })
    ∷ (record { account_id = c; direction = credit; amount = q.amount })
    ∷ []

pair-Posts :
    (q : PostingRequest) (d c : String) → is_positive q.amount ≡ true → Posts q (pair q d c)
unfolding pair
pair-Posts q d c p = record {
  balanced = λ k. omega int_laws;
  two = omega arith;
  positive = (p, (p, tt));
  currency = (refl, (refl, tt));
  debits = rw (eq_self q.amount.currency) (omega int_laws);
}

-- A simple rule that succeeds has found both accounts, and posts the request between them.
pub simple-pair :
    (d c : String) (q : PostingRequest) {es : List Entry}
    → simple d c q ≡ ok es
    → (x : String) × (y : String) × (account q d ≡ ok x)
      × (account q c ≡ ok y)
      × (is_positive q.amount ≡ true)
      × (es ≡ pair q x y)
unfolding simple pair
simple-pair d c q h =
    let (x, ex, h₁) = >>=-eq_ok (account q d) _ h in
    let (e, ee, h₂) = >>=-eq_ok (make_entry x debit q.amount) _ h₁ in
    let (y, ey, h₃) = >>=-eq_ok (account q c) _ h₂ in
    let (f, ef, h₄) = >>=-eq_ok (make_entry y credit q.amount) _ h₃ in
    let (e_is, positive) = make_entry_lem x debit q.amount ee in
    let (f_is, _) = make_entry_lem y credit q.amount ef in (x, y, ex, ey, positive, cc (e_is, f_is))

simple-Posts :
    (d c : String) (q : PostingRequest) {es : List Entry} → simple d c q ≡ ok es → Posts q es
simple-Posts d c q h =
    let (x, y, _, _, positive, is_pair) = simple-pair d c q h in
    rw is_pair (pair-Posts q x y positive)

transfer-Posts : (q : PostingRequest) {es : List Entry} → build_transfer q ≡ ok es → Posts q es
unfolding build_transfer
transfer-Posts q h =
    let (s, _, h₁) = >>=-eq_ok (account q "source") _ h in
    let (d, _, h₂) = >>=-eq_ok (account q "destination") _ h₁ in
    let (_, _, h₃) = >>=-eq_ok (raise_if (s == d) ledger_error) _ h₂ in
    simple-Posts "destination" "source" q h₃

pub ok_injective {ℓ} : {A : Type ℓ} {a b : A} → ok a ≡ ok b → a ≡ b
ok_injective h = cc

add-zero-zero : (x : ℤ) → x +ℤ (pos 0 +ℤ pos 0) ≡ x
add-zero-zero x = omega int_laws

regroup : (x y z : ℤ) → x +ℤ (y +ℤ z) ≡ x +ℤ y +ℤ z
regroup x y z = omega int_laws

-- What the legs of a split hold: debits of positive amounts in the request's currency, whose sum is
-- what the loop allocates.
record Legs (q : PostingRequest) (start stop : ℤ) (parts : List String) (es : List Entry)
    : Type 0 where
  no_credits : (c : String) → side_total credit c es ≡ pos 0
  elsewhere : (c : String) → (q.amount.currency == c) ≡ false → side_total debit c es ≡ pos 0
  allocated : (c : String) → (q.amount.currency == c) ≡ true → start +ℤ side_total debit c es ≡ stop
  positive : ArePositive es
  currency : All (λ e. e.amount.currency ≡ q.amount.currency) es
  count : length es ≡ length parts

module _ (q : PostingRequest) (known : IsMoney q.amount) where
  split_leg_lem :
      (part : String) {e : Entry}
      → split_leg q part ≡ ok e
      → (e.direction ≡ debit)
        × (e.amount.currency ≡ q.amount.currency)
        × (is_positive e.amount ≡ true)
  unfolding split_leg
  split_leg_lem part h =
      let (z, _, h₁) = >>=-eq_ok (or_raise (parse_int (partition b':' part).1) value_error) _ h in
      let (m, em, h₂) = >>=-eq_ok (make_money z q.amount.currency) _ h₁ in
      let (id, _, h₃) = >>=-eq_ok (account q (strip (partition b':' part).0)) _ h₂ in
      let (e_is, positive) = make_entry_lem id debit m h₃ in
      let m_is = make_money-supported z q.amount.currency known in
      (ground (arith, e_is), cc (e_is, em, m_is), cc (e_is, positive))

  Legs-cons :
      (part : String) (parts : List String) (e : Entry) (es : List Entry) (start stop : ℤ)
      → (e.direction ≡ debit)
        × (e.amount.currency ≡ q.amount.currency)
        × (is_positive e.amount ≡ true)
      → Legs q (start +ℤ e.amount.minor) stop parts es
      → Legs q start stop (part ∷ parts) (e ∷ es)
  Legs-cons part parts e es start stop (is_debit, cur, positive) h = record {
    no_credits = λ c. rw (is_debit, h.no_credits c) (omega int_laws);
    elsewhere = λ c away. rw (is_debit, cur, away, h.elsewhere c away) (omega int_laws);
    allocated = λ c here. rw (is_debit, cur, here) (regroup start _ _ ∙ h.allocated c here);
    positive = (positive, h.positive);
    currency = (cur, h.currency);
    count = ap suc h.count;
  }

  split_legs_lem :
      (parts : List String) (start : ℤ) {r : List Entry × ℤ}
      → split_legs q parts start ≡ ok r
      → Legs q start r.1 parts r.0
  unfolding split_legs
  split_legs_lem [] start {r} h = rw (← ok_injective h) (record {
    no_credits = λ c. refl;
    elsewhere = λ c away. refl;
    allocated = λ c here. add-zero start;
    positive = tt;
    currency = tt;
    count = refl;
  })
  split_legs_lem (part ∷ parts) start h =
      let (e, ee, h₁) = >>=-eq_ok (split_leg q part) _ h in
      let (rest, er, h₂) = >>=-eq_ok (split_legs q parts (start +ℤ e.amount.minor)) _ h₁ in
      rw (← ok_injective h₂) (
        Legs-cons part parts e rest.0 start rest.1 (split_leg_lem part ee)
          (split_legs_lem parts (start +ℤ e.amount.minor) er))

  -- Legs that allocate the amount, with its credit behind them, post the request.
  Legs-Posts :
      (part : String) (parts : List String) (es : List Entry) (id : String)
      → Legs q (pos 0) q.amount.minor (part ∷ parts) es
      → is_positive q.amount ≡ true
      → Posts q (es ++ (record { account_id = id; direction = credit; amount = q.amount }) ∷ [])
  Legs-Posts part parts es id h p = record {
    balanced = λ c.
        rw (side_total-append debit c es, side_total-append credit c es, h.no_credits c)
          (sides c (q.amount.currency == c) refl);
    two = rw (length-append es, h.count) (omega arith);
    positive = All-append _ es _ h.positive (p, tt);
    currency = All-append _ es _ h.currency (refl, tt);
    debits =
        rw (side_total-append debit q.amount.currency es)
          (add-zero-zero _ ∙ sym (zero-add _) ∙ h.allocated _ (eq_self _));
  }
    where
      sides :
          (c : String) (b : Bool)
          → (q.amount.currency == c) ≡ b
          → side_total debit c es +ℤ (pos 0 +ℤ pos 0)
            ≡ pos 0 +ℤ ((if b then q.amount.minor else pos 0) +ℤ pos 0)
      sides c true here =
          add-zero-zero _
          ∙ sym (zero-add _)
          ∙ h.allocated c here
          ∙ sym (zero-add _ ∙ add-zero q.amount.minor)
      sides c false away = rw (h.elsewhere c away) (omega int_laws)

  split-Posts : {es : List Entry} → build_split q ≡ ok es → Posts q es
  unfolding build_split split_legs
  split-Posts h =
      let (_, _, h₁) = >>=-eq_ok (raise_if (not (has_leg q.accounts)) ledger_error) _ h in
      let (raw, _, h₂) = >>=-eq_ok (split_metadata (lookup "split" q.metadata)) _ h₁ in
      let (legs, el, h₃) = >>=-eq_ok (split_legs q (split b',' raw) (pos 0)) _ h₂ in
      let (_, ea, h₄) = >>=-eq_ok (raise_if (not (eq_ℤ legs.1 q.amount.minor)) ledger_error) _ h₃ in
      let (id, _, h₅) = >>=-eq_ok (account q "funding") _ h₄ in
      let (e, ee, h₆) = >>=-eq_ok (make_entry id credit q.amount) _ h₅ in
      let (e_is, positive) = make_entry_lem id credit q.amount ee in
      let full = allocates legs.1 ea in
      rw (← ok_injective h₆, e_is)
        (close (split b',' raw) legs id positive full (split-ne_nil b',' raw)
          (split_legs_lem (split b',' raw) (pos 0) el))
    where
      allocates :
          (z : ℤ) → raise_if (not (eq_ℤ z q.amount.minor)) ledger_error ≡ ok tt → z ≡ q.amount.minor
      allocates z h = ground (arith, eq_ℤ→eq z q.amount.minor)

      close :
          (parts : List String) (legs : List Entry × ℤ) (id : String)
          → is_positive q.amount ≡ true
          → legs.1 ≡ q.amount.minor
          → (parts ≢ [])
          → Legs q (pos 0) legs.1 parts legs.0
          → Posts q
              (legs.0 ++ (record { account_id = id; direction = credit; amount = q.amount }) ∷ [])
      close [] legs id positive full some_part l = absurd (some_part refl)
      close (part ∷ parts) legs id positive full some_part l =
          Legs-Posts part parts legs.0 id
            (subst (λ (z : ℤ). Legs q (pos 0) z (part ∷ parts) legs.0) full l) positive

  -- Whatever rule builds the entries, they post the request.
  pub build-Posts : (r : PostingRule) {es : List Entry} → build r q ≡ ok es → Posts q es
  unfolding build
  build-Posts card_purchase h = simple-Posts "expense" "funding" q h
  build-Posts deposit h = simple-Posts "destination" "income" q h
  build-Posts opening_balance h = simple-Posts "destination" "equity" q h
  build-Posts transfer h = transfer-Posts q h
  build-Posts fee h = simple-Posts "fee_expense" "funding" q h
  build-Posts refund h = simple-Posts "funding" "expense" q h
  build-Posts split_purchase h = split-Posts h

  -- A transaction built from a request in a supported currency balances, has two positive entries
  -- or more in the request's currency, debits the request's amount in total, is no reversal and has
  -- the request's time.
  pub build_transaction_sound :
      (txn_id kind : String) {t : JournalTransaction}
      → build_transaction txn_id kind q ≡ ok t
      → Posts q t.entries × (t.reverses_id ≡ none) × (t.effective_at ≡ q.effective_at)
  unfolding build_transaction make_transaction
  build_transaction_sound txn_id kind {t} h =
      let (r, _, h₁) = >>=-eq_ok (or_raise (lookup kind registry) unknown_posting_kind) _ h in
      let (es, eb, h₂) = >>=-eq_ok (build r q) _ h₁ in
      let same : t.entries ≡ es = ground arith in
      (rw same (build-Posts r eb), ground arith, ground arith)

  -- If the rule of a kind has built entries for a request in a supported currency whose time has a
  -- zone, build_transaction succeeds with exactly those entries.
  pub build_transaction_accepts :
      (txn_id kind : String) (r : PostingRule) (es : List Entry)
      → q.effective_at.aware ≡ true
      → lookup kind registry ≡ some r
      → build r q ≡ ok es
      → build_transaction txn_id kind q
        ≡ ok (record {
          id = txn_id;
          kind = kind;
          effective_at = q.effective_at;
          entries = es;
          metadata = q.metadata;
          reverses_id = none;
        })
  unfolding build_transaction
  build_transaction_accepts txn_id kind r es zone found built =
      let posts = build-Posts r built in
      rw (found, built)
        (make_transaction_complete txn_id kind q.effective_at es q.metadata none posts.two zone
          posts.balanced)
