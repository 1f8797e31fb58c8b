-- ===== src/Api/RateLimit/Bounds.antt =====
-- The bounds of a bucket and the answer of the limiter, src/ledgerflow/api/ratelimit.py.
use ledgerflow.Prelude.{
  String, ◌≡◌, refl, sym, ap, ◌∙◌, Bool, true, false, inl, inr, Option, none, some, List, [], ◌∷◌,
  if◌then◌else◌, Bool-cases, any, find, update_where, All, All-append,
}
use ledgerflow.Api.RateLimit.{
  Number, Bucket, RateLimiter, greatest, is_bucket, refilled, least, script_on, redis_script,
  charged, upsert_bucket, decision, check_pg,
}

-- What finite double precision numbers satisfy: the order is total, and rounding keeps it under a
-- subtraction; a difference is negative exactly where the first number is the smaller one; the time
-- from an instant to itself refills nothing.
pub record IsOrdered {N : Type 0} (nu : Number N) : Type 0 where
  pub le_refl : (a : N) → nu.le a a ≡ true
  pub le_trans : (a b c : N) → nu.le a b ≡ true → nu.le b c ≡ true → nu.le a c ≡ true
  pub le_total : (a b : N) → nu.le a b ≡ false → nu.le b a ≡ true
  pub sub_mono : (a b c : N) → nu.le a b ≡ true → nu.le (nu.sub a c) (nu.sub b c) ≡ true
  pub idle : (a t r : N) → nu.add a (nu.mul (nu.sub t t) r) ≡ a
  pub sub_sign : (a c : N) → nu.le nu.zero (nu.sub a c) ≡ nu.le c a

module _ {N : Type 0} (nu : Number N) (l : RateLimiter N) where
  -- The tokens of a bucket lie between minus the cost and the capacity less the cost.
  abbrev pub IsWithin : N → Bucket N → Type 0
  IsWithin cost b =
      (nu.le (nu.sub nu.zero cost) b.tokens ≡ true)
      × (nu.le b.tokens (nu.sub l.capacity cost) ≡ true)

  -- A bucket as the script's hash.
  abbrev pub hash_fields : Option (Bucket N) → Option (N × N)
  hash_fields none = none
  hash_fields (some b) = some (b.tokens, b.updated_at)

  -- The tokens that a request finds.
  abbrev available : N → Option (Bucket N) → N
  available now none = l.capacity
  available now (some b) = refilled nu l now b

module _ {N : Type 0} (nu : Number N) (laws : IsOrdered nu) (l : RateLimiter N) (cost : N)
    (free : nu.le nu.zero l.capacity ≡ true) where
  greatest_bounds :
      (a b c : N)
      → nu.le a c ≡ true
      → nu.le b c ≡ true
      → (nu.le a (greatest nu a b) ≡ true) × (nu.le (greatest nu a b) c ≡ true)
  greatest_bounds a b c ac bc = elim (Bool-cases (nu.le a b)) [
    | inl up ↦ rw up (up, bc)
    | inr down ↦ rw down (laws.le_refl a, ac)
  ]

  refilled_full : (now : N) (b : Bucket N) → nu.le (refilled nu l now b) l.capacity ≡ true
  unfolding refilled
  refilled_full now b =
      let more = nu.add b.tokens (nu.mul (nu.sub now b.updated_at) l.refill) in
      elim (Bool-cases (nu.le l.capacity more)) [
        | inl over ↦ rw over (laws.le_refl l.capacity)
        | inr under ↦ rw under (laws.le_total l.capacity more under)
      ]

  charged_within :
      (now : N) (o : Option (Bucket N))
      → (nu.le (nu.sub nu.zero cost) (charged nu l now cost o) ≡ true)
        × (nu.le (charged nu l now cost o) (nu.sub l.capacity cost) ≡ true)
  unfolding charged
  charged_within now none =
      (laws.sub_mono nu.zero l.capacity cost free, laws.le_refl (nu.sub l.capacity cost))
  charged_within now (some b) =
      greatest_bounds (nu.sub nu.zero cost) (nu.sub (refilled nu l now b) cost)
        (nu.sub l.capacity cost) (laws.sub_mono nu.zero l.capacity cost free)
        (laws.sub_mono (refilled nu l now b) l.capacity cost (refilled_full now b))

  All-charge :
      (p : Bucket N → Bool) (row : Bucket N) (bs : List (Bucket N))
      → IsWithin nu l cost row
      → All (IsWithin nu l cost) bs
      → All (IsWithin nu l cost) (update_where p (λ _. row) bs)
  unfolding update_where
  All-charge p row [] fine all = tt
  All-charge p row (b ∷ bs) fine (here, there) = (go (p b), All-charge p row bs fine there)
    where
      go : (c : Bool) → IsWithin nu l cost (if c then row else b)
      go true = fine
      go false = here

  -- If the capacity is not negative and every request has one cost, every bucket stays between
  -- minus the cost and the capacity less the cost, whatever the clock reads, over numbers that are
  -- ordered as IsOrdered says.
  pub check_pg-IsWithin :
      (db_now now : N) (key : String) (bs : List (Bucket N))
      → All (IsWithin nu l cost) bs
      → All (IsWithin nu l cost) (check_pg nu l db_now now key cost bs).1
  unfolding check_pg upsert_bucket
  check_pg-IsWithin db_now now key bs all =
      let row : Bucket N = record {
        bucket_key = key;
        tokens = charged nu l db_now cost (find (is_bucket nu key) bs);
        updated_at = db_now;
      } in
      let fine : IsWithin nu l cost row = charged_within db_now (find (is_bucket nu key) bs) in
      elim (Bool-cases (any (is_bucket nu key) bs)) [
        | inl there ↦ rw there (All-charge (is_bucket nu key) row bs fine all)
        | inr new ↦ rw new (All-append (IsWithin nu l cost) bs (row ∷ []) all (fine, tt))
      ]

module _ {N : Type 0} (nu : Number N) (laws : IsOrdered nu) (l : RateLimiter N) (cost : N)
    (positive : nu.le cost nu.zero ≡ false) where
  charged-sign :
      (now : N) (o : Option (Bucket N))
      → nu.le nu.zero (charged nu l now cost o) ≡ nu.le cost (available nu l now o)
  unfolding charged
  charged-sign now none = laws.sub_sign l.capacity cost
  charged-sign now (some b) =
      let x = refilled nu l now b in
      elim (Bool-cases (nu.le (nu.sub nu.zero cost) (nu.sub x cost))) [
        | inl up ↦ rw up (laws.sub_sign x cost)
        | inr down ↦ rw down (laws.sub_sign nu.zero cost ∙ positive ∙ sym (short x down))
      ]
    where
      short : (x : N) → nu.le (nu.sub nu.zero cost) (nu.sub x cost) ≡ false → nu.le cost x ≡ false
      short x down = elim (Bool-cases (nu.le cost x)) [
        | inl enough ↦ absurd (
            cc (
              sym down
              ∙ laws.sub_mono nu.zero x cost
                  (laws.le_trans nu.zero cost x (laws.le_total cost nu.zero positive) enough)))
        | inr less ↦ less
      ]

  script_on-answer :
      (now found updated : N)
      → (script_on nu l now cost found updated).0.0
        ≡ nu.le cost (least nu l.capacity (nu.add found (nu.mul (nu.sub now updated) l.refill)))
  unfolding script_on
  script_on-answer now found updated =
      let tokens = least nu l.capacity (nu.add found (nu.mul (nu.sub now updated) l.refill)) in
      elim (Bool-cases (nu.le cost tokens)) [
        | inl enough ↦ rw enough refl
        | inr short ↦ rw short refl
      ]

  least-same : (a : N) → least nu a a ≡ a
  least-same a = elim (Bool-cases (nu.le a a)) [ inl up ↦ rw up refl | inr down ↦ rw down refl ]

  available-script :
      (now : N) (o : Option (Bucket N))
      → nu.le cost (available nu l now o) ≡ (redis_script nu l now cost (hash_fields nu l o)).0.0
  unfolding redis_script refilled
  available-script now none = sym (
      script_on-answer now l.capacity now
      ∙ ap (λ (x : N). nu.le cost (least nu l.capacity x)) (laws.idle l.capacity now l.refill)
      ∙ ap (nu.le cost) (least-same l.capacity))
  available-script now (some b) = sym (script_on-answer now b.tokens b.updated_at)

  -- A request of a positive cost is allowed on Postgres exactly where the Redis script allows it on
  -- a hash with the tokens and the time of the same bucket, or on no hash where there is no bucket,
  -- with the database's clock for its time. The numbers satisfy IsOrdered.
  pub check_pg-allowed :
      (db_now now : N) (key : String) (bs : List (Bucket N))
      → (check_pg nu l db_now now key cost bs).0.allowed
        ≡ (redis_script nu l db_now cost (hash_fields nu l (find (is_bucket nu key) bs))).0.0
  unfolding check_pg upsert_bucket decision
  check_pg-allowed db_now now key bs =
      charged-sign db_now (find (is_bucket nu key) bs)
      ∙ available-script db_now (find (is_bucket nu key) bs)
