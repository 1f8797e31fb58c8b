-- ===== src/Tests/Accounts.antt =====
-- Runs of create_account and balance (src/ledgerflow/application/services.py), of a listing and of the
-- rate limiter at concrete values.
use ledgerflow.Prelude.{
  ℕ, ap, ◌∙◌, ◌*◌, ◌/◌, ◌≡◌, refl, inr, none, some, List, [], ◌∷◌, ◌++◌, any, find, All, arith,
  String-discrete,
}
use ledgerflow.Prelude.Int.{
  eq_of_parts, add-zero, ℤ, pos, pos_part, leb_ℤ, ◌+ℤ◌, ◌-ℤ◌, -ℤ_parts, eq_ℤ,
}
use ledgerflow.Exception.{ok, err, integrity_error}
use ledgerflow.Domain.Ledger.{asset, debit, normal_balance}
use ledgerflow.Domain.Currency.{lower}
use ledgerflow.Adapters.Tables.{AccountRow, open_account}
use ledgerflow.Adapters.Accounts
use ledgerflow.Application.Services.{resolve_account}
use ledgerflow.Application.Services.Resolved.{AreKeyed}
use ledgerflow.Application.Accounts.{account_type, create_account, balance, settled, historical}
use ledgerflow.Application.Accounts.Opening.{create_account-resolve_account}
use ledgerflow.Application.Accounts.History.{balance-settled}
use ledgerflow.Api.RateLimit.{Number, Bucket, RateLimiter, check_pg, redis_script, is_bucket}
use ledgerflow.Api.RateLimit.Bounds.{
  IsOrdered, IsWithin, hash_fields, check_pg-IsWithin, check_pg-allowed,
}
use ledgerflow.Tests.Posts.{ctx, after, after-IsCached, cash}

abbrev travel : AccountRow
travel = record {
  id = "acct_9";
  tenant_id = "acme";
  mode = "live";
  external_id = some "ext_9";
  name = "travel";
  type = asset;
  normal_balance = debit;
  currency = "eur";
  status = open_account;
  minimum_balance = none;
}

travel_opened :
    create_account ctx "acct_9" "travel" "asset" "EUR" (some "ext_9") none after
    ≡ ok (travel, record after { accounts = after.accounts ++ travel ∷ [] })
unfolding create_account Accounts.create Accounts.clashes account_type normal_balance lower any
    String-discrete
travel_opened = refl

create_account-resolve_account_example :
    (resolve_account ctx "acct_9" (record after { accounts = after.accounts ++ travel ∷ [] })
      ≡ ok (travel, record after { accounts = after.accounts ++ travel ∷ [] }))
    × (create_account ctx "acct_10" "trips" "asset" "EUR"
          (some "ext_9")
          none
          (record after { accounts = after.accounts ++ travel ∷ [] })
        ≡ err integrity_error)
unfolding account_type String-discrete
create_account-resolve_account_example =
    create_account-resolve_account ctx "acct_9" "travel" "asset" "EUR" (some "ext_9") none after
      (record after { accounts = after.accounts ++ travel ∷ [] }) travel travel_opened "acct_10"
      "trips" "asset" "EUR" (some "ext_9") none asset (inr ("ext_9", refl, refl)) refl

after-AreKeyed : AreKeyed after
unfolding find String-discrete
after-AreKeyed = (refl, (refl, (refl, tt)))

cash_resolves : resolve_account ctx "cash" after ≡ ok (cash, after)
unfolding resolve_account Accounts.resolve Accounts.first_of_two find String-discrete
cash_resolves = refl

balance-settled_example :
    (b : ℤ) × (balance ctx "cash" none none after
      ≡ ok (
        record {
          account = "cash";
          balance = b;
          currency = "usd";
          basis = settled;
          as_of = none;
          as_known_at = none;
        },
        after,
      ))
    × (balance ctx "cash" (some 3000007) none after
        ≡ ok (
          record {
            account = "cash";
            balance = b;
            currency = "usd";
            basis = historical;
            as_of = some 3;
            as_known_at = none;
          },
          after,
        ))
balance-settled_example =
    balance-settled ctx "cash" 3000007 after cash after-IsCached after-AreKeyed
      (omega arith, (omega arith, (omega arith, (omega arith, tt)))) cash_resolves

-- Whole tokens.
abbrev whole : Number ℤ
whole = record {
  zero = pos 0;
  one = pos 1;
  is_zero = λ a. eq_ℤ a (pos 0);
  le = leb_ℤ;
  add = ◌+ℤ◌;
  sub = ◌-ℤ◌;
  mul = λ a b. pos (pos_part a * pos_part b);
  div = λ a b. pos (pos_part a / pos_part b);
  to_int = pos_part;
}

whole-idle : (a t r : ℤ) → a +ℤ pos (pos_part (t -ℤ t) * pos_part r) ≡ a
whole-idle a t r =
    let none_waited : t -ℤ t ≡ pos 0 = eq_of_parts (t -ℤ t) (pos 0) (omega (arith, -ℤ_parts t t)) in
    let none_more : pos_part (t -ℤ t) * pos_part r ≡ 0 =
      ap (λ (x : ℤ). pos_part x * pos_part r) none_waited ∙ omega arith in
    ap (λ (n : ℕ). a +ℤ pos n) none_more ∙ add-zero a

whole-IsOrdered : IsOrdered whole
whole-IsOrdered = record {
  le_refl = λ a. ground arith;
  le_trans = λ a b c h k. ground arith;
  le_total = λ a b h. ground arith;
  sub_mono = λ a b c h. ground (arith, -ℤ_parts a c, -ℤ_parts b c);
  idle = λ a t r. whole-idle a t r;
  sub_sign = λ a c. ground (arith, -ℤ_parts a c);
}

abbrev limiter : RateLimiter ℤ
limiter = record { per_minute = 60; capacity = pos 60; refill = pos 1 }

abbrev buckets : List (Bucket ℤ)
buckets = (record { bucket_key = "k"; tokens = pos 0; updated_at = pos 100 }) ∷ []

buckets-IsWithin : All (IsWithin whole limiter (pos 1)) buckets
unfolding ◌-ℤ◌
buckets-IsWithin = ((refl, refl), tt)

check_pg-IsWithin_example :
    All
      (IsWithin whole limiter (pos 1))
      (check_pg whole limiter (pos 103) (pos 104) "k" (pos 1) buckets).1
check_pg-IsWithin_example =
    check_pg-IsWithin whole whole-IsOrdered limiter (pos 1) refl (pos 103) (pos 104) "k" buckets
      buckets-IsWithin

check_pg-allowed_example :
    (check_pg whole limiter (pos 103) (pos 104) "k" (pos 1) buckets).0.allowed
    ≡ (redis_script whole limiter
        (pos 103)
        (pos 1)
        (hash_fields whole limiter (find (is_bucket whole "k") buckets))).0.0
check_pg-allowed_example =
    check_pg-allowed whole whole-IsOrdered limiter (pos 1) refl (pos 103) (pos 104) "k" buckets
