-- ===== src/Api/Idempotency/Replay.antt =====
-- Requests that come again under one key (src/ledgerflow/api/idempotency.py).
use ledgerflow.Prelude.{
  ℕ, ◌+◌, String, ◌≡◌, ◌≢◌, refl, true, false, not, Option, none, some, ltb, ◌==◌, any, find-holds,
  Bool-cases, inl, inr, arith, ◌∙◌, ap, eq_self, subst, any-of_find, find-last, find-of_any,
  find-refine, find-update_where,
}
use ledgerflow.Exception.{ok, err, idempotency_key_reuse, request_in_flight}
use ledgerflow.Adapters.Tx.{Tx, >>=-of_ok, >>=-of_err, raise_if}
use ledgerflow.Adapters.Tx.Reads.{ok-injective}
use ledgerflow.Application.Services.{TenantContext}
use ledgerflow.Api.Idempotency.{
  in_progress, completed, Settings, Attempt, KeyRow, Store, in_scope, get_key, serve, idempotent,
  claim, complete_key, take_over_expired, new_key, is_expired, found_slot, existing_slot, seconds,
  code_or_ok, body_or_empty,
}

module _ {B W : Type 0} (empty_body : B) (settings : Settings) where
  -- The key holds a completed request of that hash, with that response.
  abbrev pub Answers : Store B W → String → String → String → B → Type 0
  Answers s api_key_id key request_hash body =
      (row : KeyRow B) × (get_key api_key_id key s ≡ some row)
      × (row.status ≡ completed)
      × (row.request_hash ≡ request_hash)
      × (body_or_empty empty_body row.response_body ≡ body)

  -- The key is held by a request of that hash, whose row has that id.
  abbrev pub Holds : Store B W → String → String → String → Option String → Type 0
  Holds s api_key_id key request_hash record_id =
      (row : KeyRow B) × (get_key api_key_id key s ≡ some row)
      × (row.request_hash ≡ request_hash)
      × (record_id ≡ some row.id)

  claim-held :
      (record_id : String) (ctx : TenantContext) (key request_hash : String) (s : Store B W)
      (row : KeyRow B)
      → get_key ctx.api_key_id key s ≡ some row
      → claim settings record_id ctx key request_hash s ≡ ok (none, s)
  unfolding claim get_key
  claim-held record_id ctx key request_hash s row found =
      rw (any-of_find (in_scope ctx.api_key_id key) s.idempotency_keys row found) refl

  -- What the protocol decides after the claim has failed.
  idempotent-found :
      (attempt : Attempt) (ctx : TenantContext) (key request_hash : String) (s : Store B W)
      (row : KeyRow B)
      → attempt.lock_available ≡ true
      → get_key ctx.api_key_id key s ≡ some row
      → idempotent empty_body settings attempt ctx (some key) request_hash s
        ≡ existing_slot empty_body settings ctx key request_hash row row.status s
  unfolding idempotent
  idempotent-found attempt ctx key request_hash s row free found =
      >>=-of_ok (raise_if (not attempt.lock_available) request_in_flight) _ s (rw free refl)
      ∙ >>=-of_ok (claim settings attempt.record_id ctx key request_hash) _ s
          (claim-held attempt.record_id ctx key request_hash s row found)
      ∙ ap (λ (o : Option (KeyRow B)). found_slot empty_body settings ctx key request_hash o s)
          found

  module _ (work : Tx W (B × String)) (attempt : Attempt) (ctx : TenantContext) (key : String)
      (free : attempt.lock_available ≡ true) (s : Store B W) (body : B) where
    -- A key that is answered replays its response, and changes nothing.
    pub serve-Answers :
        (request_hash : String)
        → Answers s ctx.api_key_id key request_hash body
        → serve empty_body settings work attempt ctx (some key) request_hash s ≡ ok (body, s)
    unfolding serve existing_slot
    serve-Answers request_hash (row, found, done, same, stored) =
        >>=-of_ok (idempotent empty_body settings attempt ctx (some key) request_hash) _ s
          {a = record {
            record_id = some row.id;
            replayed = true;
            response = body;
            status_code = code_or_ok row.response_code;
          }}
          {s' = s}
          (idempotent-found attempt ctx key request_hash s row free found
            ∙ rw (done, same, eq_self request_hash, stored) refl)

    -- A key that is answered refuses another hash.
    pub serve-reuse :
        (request_hash other : String)
        → request_hash ≢ other
        → Answers s ctx.api_key_id key request_hash body
        → serve empty_body settings work attempt ctx (some key) other s ≡ err idempotency_key_reuse
    unfolding serve existing_slot
    serve-reuse request_hash other different (row, found, done, same, stored) =
        >>=-of_err (idempotent empty_body settings attempt ctx (some key) other) _ s
          (idempotent-found attempt ctx key other s row free found ∙ rw (done, unequal) refl)
      where
        unequal : (row.request_hash == other) ≡ false
        unequal = ground arith

  pub claim-claimed :
      (record_id : String) (ctx : TenantContext) (key request_hash : String) (s s' : Store B W)
      (row : KeyRow B)
      → claim settings record_id ctx key request_hash s ≡ ok (some row, s')
      → Holds s' ctx.api_key_id key request_hash (some row.id)
  unfolding claim get_key
  claim-claimed record_id ctx key request_hash s s' row h =
      elim (Bool-cases (any (in_scope ctx.api_key_id key) s.idempotency_keys)) [
        | inl clash ↦ absurd (cc (rw clash at h))
        | inr fresh ↦ elim (Bool-cases (any (λ r. r.id == record_id) s.idempotency_keys)) [
          | inl used ↦ absurd (cc (rw (fresh, used) at h))
          | inr unused ↦
              let (same_row, same) = ok-injective (rw (fresh, unused) at h) in
              subst (λ (t : Store B W). Holds t ctx.api_key_id key request_hash (some row.id)) same
                (
                  new_key settings record_id ctx key request_hash s.now,
                  find-last (in_scope ctx.api_key_id key) s.idempotency_keys
                      (new_key settings record_id ctx key request_hash s.now) fresh
                      (rw (eq_self ctx.api_key_id, eq_self key) refl),
                  refl,
                  cc same_row,
                )
        ]
      ]

  pub claim-refused :
      (record_id : String) (ctx : TenantContext) (key request_hash : String) (s s' : Store B W)
      → claim settings record_id ctx key request_hash s ≡ ok (none, s')
      → (row : KeyRow B) × (get_key ctx.api_key_id key s' ≡ some row)
  unfolding claim get_key
  claim-refused record_id ctx key request_hash s s' h =
      elim (Bool-cases (any (in_scope ctx.api_key_id key) s.idempotency_keys)) [
        | inl clash ↦
            let same = (ok-injective (rw clash at h)).1 in
            subst (λ (t : Store B W). (row : KeyRow B) × (get_key ctx.api_key_id key t ≡ some row))
              same (find-of_any (in_scope ctx.api_key_id key) s.idempotency_keys clash)
        | inr fresh ↦ elim (Bool-cases (any (λ r. r.id == record_id) s.idempotency_keys)) [
          | inl used ↦ absurd (cc (rw (fresh, used) at h))
          | inr unused ↦ absurd (cc (rw (fresh, unused) at h))
        ]
      ]

  pub take_over_expired-Holds :
      (ctx : TenantContext) (key request_hash : String) (s s' : Store B W) (old row : KeyRow B)
      → get_key ctx.api_key_id key s ≡ some old
      → old.status ≡ in_progress
      → ltb old.lease_expires_at s.now ≡ true
      → take_over_expired settings ctx.api_key_id key request_hash s ≡ ok (some row, s')
      → Holds s' ctx.api_key_id key request_hash (some row.id)
  unfolding take_over_expired get_key
  take_over_expired-Holds ctx key request_hash s s' old row found running expired h =
      let old_expired : is_expired ctx.api_key_id key s.now old ≡ true =
        rw (find-holds (in_scope ctx.api_key_id key) s.idempotency_keys old found, running, expired)
          refl in
      let again =
        find-refine (in_scope ctx.api_key_id key) (is_expired ctx.api_key_id key s.now)
          s.idempotency_keys old (λ y away. rw away refl) old_expired found in
      let (same_row, same) = ok-injective (rw (take_over_expired, again) at h) in
      subst (λ (t : Store B W). Holds t ctx.api_key_id key request_hash (some row.id)) same
        (
          _,
          find-update_where (in_scope ctx.api_key_id key) (is_expired ctx.api_key_id key s.now)
              (λ (r : KeyRow B). record r {
                request_hash = request_hash;
                lease_expires_at = s.now + seconds settings.idempotency_lease_seconds;
              })
              s.idempotency_keys old (λ y. refl) old_expired found,
          refl,
          cc same_row,
        )

  pub complete_key-Answers :
      (ctx : TenantContext) (key request_hash id : String) (code : ℕ) (body : B)
      (resource : Option String) (s : Store B W)
      → Holds s ctx.api_key_id key request_hash (some id)
      → Answers (complete_key id code body resource s) ctx.api_key_id key request_hash body
  unfolding complete_key get_key
  complete_key-Answers ctx key request_hash id code body resource s (row, found, same, named) =
      let mine : (row.id == id) ≡ true = ground arith in
      (
        _,
        find-update_where (in_scope ctx.api_key_id key) (λ r. r.id == id)
            (λ (r : KeyRow B). record r {
              status = completed;
              response_code = some code;
              response_body = some body;
              resource_id = resource;
            })
            s.idempotency_keys row (λ y. refl) mine found,
        refl,
        same,
        refl,
      )
