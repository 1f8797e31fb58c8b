-- ===== src/Api/Idempotency/Retry.antt =====
-- A request after one that succeeded under its key (src/ledgerflow/api/idempotency.py).
use ledgerflow.Prelude.{
  String, ◌≡◌, ◌≢◌, refl, Bool, true, false, not, Option, none, some, ap, sym, subst, Bool-cases,
  inl, inr, ◌⊎◌, ◌==◌, eq_of_test, ltb,
}
use ledgerflow.Exception.{Result, ok, err, idempotency_key_reuse, request_in_flight}
use ledgerflow.Adapters.Tx.{Tx, >>=-eq_ok, raise_if}
use ledgerflow.Adapters.Tx.Reads.{ok-injective}
use ledgerflow.Application.Services.{TenantContext}
use ledgerflow.Api.Idempotency.{
  IdemStatus, in_progress, completed, Settings, Attempt, KeyRow, Slot, Store, get_key, serve,
  idempotent, claim, complete, take_over_expired, new_slot, found_slot, claimed_slot, existing_slot,
  taken_slot, run_slot, on_rest,
}
use ledgerflow.Api.Idempotency.Replay.{
  Answers, Holds, claim-claimed, claim-refused, take_over_expired-Holds, complete_key-Answers,
  serve-Answers, serve-reuse,
}

module _ {B W : Type 0} (empty_body : B) (settings : Settings) (ctx : TenantContext)
    (key request_hash : String) where
  -- What a slot stands for: a stored response, or a key that this request holds.
  abbrev IsSlot : Slot B → Store B W → Type 0
  IsSlot slot s =
      ((slot.replayed ≡ true)
        × Answers empty_body settings s ctx.api_key_id key request_hash slot.response)
      ⊎ ((slot.replayed ≡ false)
          × Holds empty_body settings s ctx.api_key_id key request_hash slot.record_id)

  held :
      (row : KeyRow B) (s s' : Store B W) (slot : Slot B)
      → ◌≡◌ {A = Result (Slot B × Store B W)}
          (ok (new_slot empty_body (some row.id), s))
          (ok (slot, s'))
      → Holds empty_body settings s ctx.api_key_id key request_hash (some row.id)
      → IsSlot slot s'
  held row s s' slot h holds =
      let (slot_is, state) = ok-injective h in
      subst (λ (t : Store B W). IsSlot slot t) state
        (subst (λ (t : Slot B). IsSlot t s) slot_is (inr (refl, holds)))

  taken_slot-IsSlot :
      (old : KeyRow B) (taken : Option (KeyRow B)) (s s₁ s' : Store B W) (slot : Slot B)
      → get_key ctx.api_key_id key s ≡ some old
      → old.status ≡ in_progress
      → ltb old.lease_expires_at s.now ≡ true
      → take_over_expired settings ctx.api_key_id key request_hash s ≡ ok (taken, s₁)
      → taken_slot empty_body settings taken s₁ ≡ ok (slot, s')
      → IsSlot slot s'
  unfolding taken_slot
  taken_slot-IsSlot old none s s₁ s' slot found running expired h k = absurd (cc k)
  taken_slot-IsSlot old (some row) s s₁ s' slot found running expired h k = held row s₁ s' slot k (
      take_over_expired-Holds empty_body settings ctx key request_hash s s₁ old row found running
        expired h)

  existing_slot-IsSlot :
      (row : KeyRow B) (status : IdemStatus) (s s' : Store B W) (slot : Slot B)
      → get_key ctx.api_key_id key s ≡ some row
      → row.status ≡ status
      → existing_slot empty_body settings ctx key request_hash row status s ≡ ok (slot, s')
      → IsSlot slot s'
  unfolding existing_slot
  existing_slot-IsSlot row completed s s' slot found done h =
      elim (Bool-cases (row.request_hash == request_hash)) [
        | inr differs ↦ absurd (cc (rw differs at h))
        | inl same ↦
            let (slot_is, state) = ok-injective (rw same at h) in
            subst (λ (t : Store B W). IsSlot slot t) state
              (subst (λ (t : Slot B). IsSlot t s) slot_is
                (inl (refl, (row, found, done, eq_of_test same, refl))))
      ]
  existing_slot-IsSlot row in_progress s s' slot found running h =
      elim (Bool-cases (ltb row.lease_expires_at s.now)) [
        | inr leased ↦ absurd (cc (rw leased at h))
        | inl expired ↦
            let (taken, s₁, e₁, h₁) =
              >>=-eq_ok (take_over_expired settings ctx.api_key_id key request_hash)
                (taken_slot empty_body settings) s (rw expired at h) in
            taken_slot-IsSlot row taken s s₁ s' slot found running expired e₁ h₁
      ]

  claimed_slot-IsSlot :
      (claimed : Option (KeyRow B)) (record_id : String) (s s₁ s' : Store B W) (slot : Slot B)
      → claim settings record_id ctx key request_hash s ≡ ok (claimed, s₁)
      → claimed_slot empty_body settings ctx key request_hash claimed s₁ ≡ ok (slot, s')
      → IsSlot slot s'
  unfolding claimed_slot found_slot
  claimed_slot-IsSlot none record_id s s₁ s' slot h k =
      let (row, found) = claim-refused empty_body settings record_id ctx key request_hash s s₁ h in
      existing_slot-IsSlot row row.status s₁ s' slot found refl (rw found at k)
  claimed_slot-IsSlot (some row) record_id s s₁ s' slot h k =
      held row s₁ s' slot k
        (claim-claimed empty_body settings record_id ctx key request_hash s s₁ row h)

  idempotent-IsSlot :
      (attempt : Attempt) (s s' : Store B W) (slot : Slot B)
      → idempotent empty_body settings attempt ctx (some key) request_hash s ≡ ok (slot, s')
      → IsSlot slot s'
  unfolding idempotent
  idempotent-IsSlot attempt s s' slot h =
      let (u, s₁, e₁, h₁) =
        >>=-eq_ok (raise_if (not attempt.lock_available) request_in_flight) _ s h in
      let (claimed, s₂, e₂, h₂) =
        >>=-eq_ok (claim settings attempt.record_id ctx key request_hash) _ s₁ h₁ in
      claimed_slot-IsSlot claimed attempt.record_id s₁ s₂ s' slot e₂ h₂

  on_rest-keys :
      {A : Type 0} (work : Tx W A) (s s' : Store B W) (a : A)
      → on_rest empty_body settings work s ≡ ok (a, s')
      → s'.idempotency_keys ≡ s.idempotency_keys
  unfolding on_rest
  on_rest-keys {A} work s s' a h = go (work s.rest) refl
    where
      go : (r : Result (A × W)) → work s.rest ≡ r → s'.idempotency_keys ≡ s.idempotency_keys
      go (ok (b, rest)) e =
          sym (ap (λ (t : Store B W). t.idempotency_keys) (ok-injective (rw (on_rest, e) at h)).1)
      go (err x) e = absurd (cc (rw (on_rest, e) at h))

  found_later :
      (s s' : Store B W) (row : KeyRow B)
      → s'.idempotency_keys ≡ s.idempotency_keys
      → get_key ctx.api_key_id key s ≡ some row
      → get_key ctx.api_key_id key s' ≡ some row
  unfolding get_key
  found_later s s' row same found = rw same found

  complete-Answers :
      (slot slot' : Slot B) (id : String) (result : B) (resource : Option String) (s s' : Store B W)
      → slot.record_id ≡ some id
      → Holds empty_body settings s ctx.api_key_id key request_hash (some id)
      → complete slot 201 result resource s ≡ ok (slot', s')
      → Answers empty_body settings s' ctx.api_key_id key request_hash result
  unfolding complete
  complete-Answers slot slot' id result resource s s' named holds h =
      subst
        (λ (t : Store B W). Answers empty_body settings t ctx.api_key_id key request_hash result)
        (ok-injective (rw named at h)).1
        (complete_key-Answers empty_body settings ctx key request_hash id 201 result resource s
          holds)

  run_slot-Answers :
      (work : Tx W (B × String)) (slot : Slot B) (replayed : Bool) (s s' : Store B W) (body : B)
      → slot.replayed ≡ replayed
      → IsSlot slot s
      → run_slot empty_body settings work slot replayed s ≡ ok (body, s')
      → Answers empty_body settings s' ctx.api_key_id key request_hash body
  unfolding run_slot
  run_slot-Answers work slot true s s' body e (inl (_, answers)) h =
      let (body_is, state) = ok-injective h in
      subst (λ (t : Store B W). Answers empty_body settings t ctx.api_key_id key request_hash body)
        state
        (subst (λ (b : B). Answers empty_body settings s ctx.api_key_id key request_hash b) body_is
          answers)
  run_slot-Answers work slot true s s' body e (inr (fresh, _)) h = absurd (cc (fresh, e))
  run_slot-Answers work slot false s s' body e (inl (replayed, _)) h = absurd (cc (replayed, e))
  run_slot-Answers work slot false s s' body e (inr (_, (row, found, same, named))) h =
      let ((result, id), s₁, e₁, h₁) = >>=-eq_ok (on_rest empty_body settings work) _ s h in
      let (slot', s₂, e₂, h₂) = >>=-eq_ok (complete slot 201 result (some id)) _ s₁ h₁ in
      let (body_is, state) = ok-injective h₂ in
      let kept = on_rest-keys work s s₁ (result, id) e₁ in
      subst (λ (t : Store B W). Answers empty_body settings t ctx.api_key_id key request_hash body)
        state
        (subst (λ (b : B). Answers empty_body settings s₂ ctx.api_key_id key request_hash b) body_is
          (complete-Answers slot slot' row.id result (some id) s₁ s₂ named
            (row, found_later s s₁ row kept found, same, refl) e₂))

  -- A request that succeeds leaves its key answered with what it returned.
  Answers-of_serve :
      (work : Tx W (B × String)) (attempt : Attempt) (s s' : Store B W) (body : B)
      → serve empty_body settings work attempt ctx (some key) request_hash s ≡ ok (body, s')
      → Answers empty_body settings s' ctx.api_key_id key request_hash body
  unfolding serve
  Answers-of_serve work attempt s s' body h =
      let (slot, s₁, e₁, h₁) =
        >>=-eq_ok (idempotent empty_body settings attempt ctx (some key) request_hash) _ s h in
      run_slot-Answers work slot slot.replayed s₁ s' body refl
        (idempotent-IsSlot attempt s s₁ slot e₁) h₁

  -- After a request under an idempotency key has succeeded, a later one with the same hash returns
  -- the same body and changes nothing, and one with another hash is refused as a reuse of the key,
  -- whatever its work is, if no lock keeps it waiting.
  pub serve_again :
      (work other_work : Tx W (B × String)) (attempt later : Attempt) (other : String)
      (s s' : Store B W) (body : B)
      → later.lock_available ≡ true
      → other ≢ request_hash
      → serve empty_body settings work attempt ctx (some key) request_hash s ≡ ok (body, s')
      → (serve empty_body settings other_work later ctx (some key) request_hash s' ≡ ok (body, s'))
        × (serve empty_body settings other_work later ctx (some key) other s'
            ≡ err idempotency_key_reuse)
  serve_again work other_work attempt later other s s' body free different h =
      let answered = Answers-of_serve work attempt s s' body h in
      (
        serve-Answers empty_body settings other_work later ctx key free s' body request_hash
            answered,
        serve-reuse empty_body settings other_work later ctx key free s' body request_hash other
            (λ e. different (sym e)) answered,
      )
