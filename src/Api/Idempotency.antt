-- ===== src/Api/Idempotency.antt =====
-- src/ledgerflow/api/idempotency.py and `IdempotencyRepository` of
-- src/ledgerflow/adapters/repositories.py. The rest of the database is any type `W`, on which the
-- handler works, and a response body is any type `B`. Whether the database gives up waiting for a
-- lock is a part of the attempt.
pub mod Replay
pub mod Retry
use ledgerflow.Prelude.{
  ℕ, ◌+◌, ◌*◌, String, Bool, true, false, not, ◌&&◌, Option, none, some, List, [], ◌∷◌, ◌++◌, ltb,
  nat_eq, ◌==◌, if◌then◌else◌, any, find, select, update_where, length,
}
use ledgerflow.Exception.{
  Exception, Result, ok, err, integrity_error, idempotency_key_reuse, request_in_flight,
}
use ledgerflow.Adapters.Tx.{Tx, ◌>>=◌, ◌>>◌, gets, modify, raise, raise_if, pure}
use ledgerflow.Application.Services.{TenantContext}

pub data IdemStatus : Type 0 where
  in_progress completed : IdemStatus

pub record Settings : Type 0 where
  pub idempotency_lease_seconds : ℕ
  pub idempotency_ttl_hours : ℕ

-- What one request draws from `ids.py`, and whether the wait for the key's lock ends in time.
pub record Attempt : Type 0 where
  pub record_id : String
  pub lock_available : Bool

module _ (B : Type 0) where
  pub record KeyRow : Type 0 where
    pub id : String
    pub tenant_id : String
    pub api_key_id : String
    pub idempotency_key : String
    pub request_hash : String
    pub status : IdemStatus
    pub response_code : Option ℕ
    pub response_body : Option B
    pub resource_id : Option String
    pub lease_expires_at : ℕ
    pub expires_at : ℕ

  pub record Slot : Type 0 where
    pub record_id : Option String
    pub replayed : Bool
    pub response : B
    pub status_code : ℕ

  -- The table of keys beside the rest of the database; `now` is the time of the transaction.
  pub record Store (W : Type 0) : Type 0 where
    pub idempotency_keys : List KeyRow
    pub rest : W
    pub now : ℕ

-- make_interval(secs => s) and make_interval(hours => h), in microseconds
abbrev pub seconds : ℕ → ℕ
seconds s = s * 1000000

abbrev pub hours : ℕ → ℕ
hours h = h * 3600000000

-- `status = 'in_progress'`
abbrev pub is_in_progress : IdemStatus → Bool
is_in_progress in_progress = true
is_in_progress completed = false

module _ {B : Type 0} where
  -- WHERE api_key_id = … AND idempotency_key = …
  abbrev pub in_scope : String → String → KeyRow B → Bool
  in_scope api_key_id key row = row.api_key_id == api_key_id && (row.idempotency_key == key)

  abbrev pub new_key : Settings → String → TenantContext → String → String → ℕ → KeyRow B
  new_key settings record_id ctx key request_hash now = record {
    id = record_id;
    tenant_id = ctx.tenant_id;
    api_key_id = ctx.api_key_id;
    idempotency_key = key;
    request_hash = request_hash;
    status = in_progress;
    response_code = none;
    response_body = none;
    resource_id = none;
    lease_expires_at = now + seconds settings.idempotency_lease_seconds;
    expires_at = now + hours settings.idempotency_ttl_hours;
  }

  -- A row that take_over_expired may take.
  abbrev pub is_expired : String → String → ℕ → KeyRow B → Bool
  is_expired api_key_id key now row =
      in_scope api_key_id key row && (is_in_progress row.status && ltb row.lease_expires_at now)

-- `existing["response_code"] or 200`
abbrev pub code_or_ok : Option ℕ → ℕ
code_or_ok none = 200
code_or_ok (some code) = if nat_eq code 0 then 200 else code

module _ {B : Type 0} (empty_body : B) where
  -- A slot for work that is still to be done.
  abbrev pub new_slot : Option String → Slot B
  new_slot record_id = record {
    record_id = record_id;
    replayed = false;
    response = empty_body;
    status_code = 200;
  }

  -- `existing["response_body"] or {}`
  abbrev pub body_or_empty : Option B → B
  body_or_empty none = empty_body
  body_or_empty (some body) = body

module _ {B W : Type 0} where
  -- IdempotencyRepository.claim: nothing happens on a conflict of the key, and a used id is refused.
  unfoldable pub claim :
      Settings → String → TenantContext → String → String → Tx (Store B W) (Option (KeyRow B))
  claim settings record_id ctx key request_hash s =
      let row = new_key settings record_id ctx key request_hash s.now in
      if any (in_scope ctx.api_key_id key) s.idempotency_keys
      then ok (none, s)
      else if any (λ r. r.id == record_id) s.idempotency_keys
      then err integrity_error
      else ok (some row, record s { idempotency_keys = s.idempotency_keys ++ row ∷ [] })

  -- IdempotencyRepository.get
  unfoldable pub get_key : String → String → Store B W → Option (KeyRow B)
  get_key api_key_id key s = find (in_scope api_key_id key) s.idempotency_keys

  -- IdempotencyRepository.take_over_expired
  unfoldable pub take_over_expired :
      Settings → String → String → String → Tx (Store B W) (Option (KeyRow B))
  take_over_expired settings api_key_id key request_hash s =
      let taken = λ (row : KeyRow B). record row {
        request_hash = request_hash;
        lease_expires_at = s.now + seconds settings.idempotency_lease_seconds;
      } in
      let rows = update_where (is_expired api_key_id key s.now) taken s.idempotency_keys in
      elim (find (is_expired api_key_id key s.now) s.idempotency_keys) [
        | none ↦ ok (none, s)
        | some row ↦ ok (some (taken row), record s { idempotency_keys = rows })
      ]

  -- IdempotencyRepository.complete
  unfoldable pub complete_key : String → ℕ → B → Option String → Store B W → Store B W
  complete_key record_id response_code response_body resource_id s = record s {
    idempotency_keys =
        update_where (λ row. row.id == record_id)
          (λ row. record row {
            status = completed;
            response_code = some response_code;
            response_body = some response_body;
            resource_id = resource_id;
          })
          s.idempotency_keys;
  }

  -- IdempotencyRepository.purge_expired: the number of keys that are gone.
  unfoldable pub purge_expired : Tx (Store B W) ℕ
  purge_expired s = ok (
    length (select (λ row. ltb row.expires_at s.now) s.idempotency_keys),
    record s {
      idempotency_keys = select (λ row. not (ltb row.expires_at s.now)) s.idempotency_keys;
    },
  )

  -- Slot.complete
  unfoldable pub complete : Slot B → ℕ → B → Option String → Tx (Store B W) (Slot B)
  complete slot status_code body resource_id s = ok (
    record slot { status_code = status_code; response = body },
    elim slot.record_id [ none ↦ s | some id ↦ complete_key id status_code body resource_id s ],
  )

module _ {B W : Type 0} (empty_body : B) (settings : Settings) where
  taken_slot : Option (KeyRow B) → Tx (Store B W) (Slot B)
  taken_slot none = raise request_in_flight
  taken_slot (some row) = pure (new_slot empty_body (some row.id))

  existing_slot : TenantContext → String → String → KeyRow B → IdemStatus → Tx (Store B W) (Slot B)
  existing_slot ctx key request_hash row completed = do
    raise_if (not (row.request_hash == request_hash)) idempotency_key_reuse
    pure (record {
      record_id = some row.id;
      replayed = true;
      response = body_or_empty empty_body row.response_body;
      status_code = code_or_ok row.response_code;
    })
  existing_slot ctx key request_hash row in_progress = do
    now ← gets (λ s. s.now)
    raise_if (not (ltb row.lease_expires_at now)) request_in_flight
    taken ← take_over_expired settings ctx.api_key_id key request_hash
    taken_slot taken

  -- What is done with the answer to the query for the key.
  found_slot : TenantContext → String → String → Option (KeyRow B) → Tx (Store B W) (Slot B)
  found_slot ctx key request_hash none = pure (new_slot empty_body none)
  found_slot ctx key request_hash (some row) = existing_slot ctx key request_hash row row.status

  claimed_slot : TenantContext → String → String → Option (KeyRow B) → Tx (Store B W) (Slot B)
  claimed_slot ctx key request_hash (some row) = pure (new_slot empty_body (some row.id))
  claimed_slot ctx key request_hash none = do
    existing ← gets (get_key ctx.api_key_id key)
    found_slot ctx key request_hash existing

  -- idempotent, up to the `yield`
  unfoldable pub idempotent :
      Attempt → TenantContext → Option String → String → Tx (Store B W) (Slot B)
  unfolding taken_slot existing_slot found_slot claimed_slot
  idempotent attempt ctx none request_hash = pure (new_slot empty_body none)
  idempotent attempt ctx (some key) request_hash = do
    raise_if (not attempt.lock_available) request_in_flight
    claimed ← claim settings attempt.record_id ctx key request_hash
    claimed_slot ctx key request_hash claimed

  -- What the handler does on the rest of the database.
  on_rest : {A : Type 0} → Tx W A → Tx (Store B W) A
  on_rest work s = elim (work s.rest) [
    | ok (a, rest) ↦ ok (a, record s { rest = rest })
    | err e ↦ err e
  ]

  -- The body of every route that writes: replay, or do the work and keep its result.
  run_slot : Tx W (B × String) → Slot B → Bool → Tx (Store B W) B
  run_slot work slot true = pure slot.response
  run_slot work slot false = do
    (result, id) ← on_rest work
    complete slot 201 result (some id)
    pure result

  -- A route: create_account, create_transaction, create_reversal and create_transfer.
  unfoldable pub serve :
      Tx W (B × String) → Attempt → TenantContext → Option String → String → Tx (Store B W) B
  unfolding on_rest run_slot
  serve work attempt ctx key request_hash = do
    slot ← idempotent attempt ctx key request_hash
    run_slot work slot slot.replayed
