-- ===== src/Api/RateLimit.antt =====
-- src/ledgerflow/api/ratelimit.py: the statement on Postgres and the script on Redis. The bucket counts in
-- double precision: a number is any type with the operations that both use. A clock reading is a number
-- as well.
pub mod Bounds
use ledgerflow.Prelude.{
  ℕ, String, Bool, true, false, Option, none, some, List, [], ◌∷◌, ◌++◌, ◌==◌, if◌then◌else◌, any,
  find, update_where,
}

pub record Number (N : Type 0) : Type 0 where
  pub zero : N
  pub one : N
  pub is_zero : N → Bool
  pub le : N → N → Bool
  pub add : N → N → N
  pub sub : N → N → N
  pub mul : N → N → N
  pub div : N → N → N
  pub to_int : N → ℕ

pub record Bucket (N : Type 0) : Type 0 where
  pub bucket_key : String
  pub tokens : N
  pub updated_at : N

pub record Decision : Type 0 where
  pub allowed : Bool
  pub limit : ℕ
  pub remaining : ℕ
  pub reset_at : ℕ

-- RateLimiter: the capacity as the integer of the settings and as a number, and the refill per second
pub record RateLimiter (N : Type 0) : Type 0 where
  pub per_minute : ℕ
  pub capacity : N
  pub refill : N

module _ {N : Type 0} (nu : Number N) where
  -- GREATEST and max, LEAST
  abbrev pub greatest : N → N → N
  greatest a b = if nu.le a b then b else a

  abbrev pub least : N → N → N
  least a b = if nu.le a b then a else b

  abbrev pub is_bucket : String → Bucket N → Bool
  is_bucket key b = b.bucket_key == key

  -- _LUA behind its test for a missing bucket, whose fields are then at hand.
  pub script_on : RateLimiter N → N → N → N → N → (Bool × N) × (N × N)
  script_on l now cost found updated =
      let more = nu.add found (nu.mul (nu.sub now updated) l.refill) in
      let tokens = if nu.le l.capacity more then l.capacity else more in
      if nu.le cost tokens
      then ((true, nu.sub tokens cost), (nu.sub tokens cost, now))
      else ((false, tokens), (tokens, now))

  -- _LUA on the fields tokens and updated of the bucket's hash, which may be missing: what it answers
  -- and the fields that it sets. The expiry of the key is left out.
  pub redis_script : RateLimiter N → N → N → Option (N × N) → (Bool × N) × (N × N)
  redis_script l now cost none = script_on l now cost l.capacity now
  redis_script l now cost (some (tokens, updated)) = script_on l now cost tokens updated

  -- LEAST(capacity, b.tokens + EXTRACT(EPOCH FROM now() - b.updated_at) * refill)
  unfoldable pub refilled : RateLimiter N → N → Bucket N → N
  refilled l now b = least l.capacity (nu.add b.tokens (nu.mul (nu.sub now b.updated_at) l.refill))

  -- The tokens that the statement writes: GREATEST(-cost, … - cost) over a bucket that is there.
  unfoldable pub charged : RateLimiter N → N → N → Option (Bucket N) → N
  charged l now cost none = nu.sub l.capacity cost
  charged l now cost (some b) = greatest (nu.sub nu.zero cost) (nu.sub (refilled l now b) cost)

  -- INSERT … ON CONFLICT (bucket_key) DO UPDATE … RETURNING tokens
  unfoldable pub upsert_bucket :
      RateLimiter N → N → String → N → List (Bucket N) → N × List (Bucket N)
  upsert_bucket l now key cost bs =
      let tokens = charged l now cost (find (is_bucket key) bs) in
      let row : Bucket N = record { bucket_key = key; tokens = tokens; updated_at = now } in
      (
        tokens,
        if any (is_bucket key) bs
            then update_where (is_bucket key) (λ _. row) bs
            else bs ++ row ∷ [],
      )

  -- _decision
  unfoldable pub decision : RateLimiter N → Bool → N → N → Decision
  decision l allowed tokens now =
      let deficit = greatest nu.zero (nu.sub nu.one tokens) in
      record {
        allowed = allowed;
        limit = l.per_minute;
        remaining = nu.to_int (greatest nu.zero tokens);
        reset_at =
            nu.to_int
              (nu.add now (if nu.is_zero l.refill then nu.zero else nu.div deficit l.refill));
      }

  -- _check_pg, where `db_now` is the database's now() and `now` is what check read from time.time()
  unfoldable pub check_pg :
      RateLimiter N → N → N → String → N → List (Bucket N) → Decision × List (Bucket N)
  check_pg l db_now now key cost bs =
      let (tokens, after) = upsert_bucket l db_now key cost bs in
      (decision l (nu.le nu.zero tokens) (greatest tokens nu.zero) now, after)
