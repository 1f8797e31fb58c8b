-- ===== src/Adapters/Webhooks.antt =====
-- `WebhookRepository` of src/ledgerflow/adapters/repositories.py, with the two tables of webhooks of
-- migrations/001_core.sql beside the outbox.
mod Rows
pub mod Claims
use ledgerflow.Prelude.{
  ℕ, ◌+◌, ◌*◌, ◌-◌, String, Bool, true, false, ◌&&◌, ◌||◌, Option, none, some, List, [], ◌∷◌, ◌++◌,
  leb, ltb, ◌==◌, if◌then◌else◌, any, find, select, take, update_where, length,
}
use ledgerflow.Text.{prefix}
use ledgerflow.Exception.{integrity_error}
use ledgerflow.Adapters.Tx.{Tx, ◌>>=◌, ◌>>◌, gets, modify, raise_if, pure}
use ledgerflow.Adapters.Tables.{OutboxRow}
pub use Rows.*

-- make_interval(secs => s), in microseconds
abbrev pub seconds : ℕ → ℕ
seconds s = s * 1000000

-- `event_type = ANY(enabled_events) OR '*' = ANY(enabled_events)`
abbrev pub subscribes : String → EndpointRow → Bool
subscribes event_type e =
    any (λ name. name == event_type) e.enabled_events || any (λ name. name == "*") e.enabled_events

-- create_endpoint, with the primary key
unfoldable pub create_endpoint :
    String → String → String → String → String → List String → Tx Hooks EndpointRow
create_endpoint endpoint_id tenant_id mode url secret_hash enabled_events = do
  endpoints ← gets (λ h. h.endpoints)
  raise_if (any (λ e. e.id == endpoint_id) endpoints) integrity_error
  let row : EndpointRow = record {
    id = endpoint_id;
    tenant_id = tenant_id;
    mode = mode;
    url = url;
    secret_hash = secret_hash;
    enabled_events = enabled_events;
    status = enabled;
  }
  modify (λ h. record h { endpoints = h.endpoints ++ row ∷ [] })
  pure row

-- endpoints_for
unfoldable pub endpoints_for : String → String → String → Hooks → List EndpointRow
endpoints_for tenant_id mode event_type h =
    select
      (λ e.
        e.tenant_id == tenant_id
        && (e.mode == mode && (is_enabled e.status && subscribes event_type e)))
      h.endpoints

-- get_endpoint
unfoldable pub get_endpoint : String → Hooks → Option EndpointRow
get_endpoint endpoint_id h = find (λ e. e.id == endpoint_id) h.endpoints

-- The row that enqueue inserts at a time.
abbrev pub new_delivery : ℕ → String → String → String → DeliveryRow
new_delivery now delivery_id endpoint_id event_id = record {
  id = delivery_id;
  endpoint_id = endpoint_id;
  event_id = event_id;
  attempt = 0;
  status = pending;
  response_code = none;
  response_body = none;
  error = none;
  next_attempt_at = some now;
  created_at = now;
  completed_at = none;
}

-- enqueue, with the primary key and the foreign key
unfoldable pub enqueue : String → String → String → Tx Hooks DeliveryRow
enqueue delivery_id endpoint_id event_id = do
  deliveries ← gets (λ h. h.deliveries)
  raise_if (any (λ d. d.id == delivery_id) deliveries) integrity_error
  endpoints ← gets (λ h. h.endpoints)
  raise_if (if any (λ e. e.id == endpoint_id) endpoints then false else true) integrity_error
  now ← gets (λ h. h.now)
  modify (λ h. record h {
    deliveries = h.deliveries ++ (new_delivery now delivery_id endpoint_id event_id) ∷ [];
  })
  pure (new_delivery now delivery_id endpoint_id event_id)

-- A delivery joined with its endpoint.
pub record Claimed : Type 0 where
  pub delivery : DeliveryRow
  pub endpoint : EndpointRow

-- `d.status = 'pending' AND d.next_attempt_at <= now()`
unfoldable pub is_due : ℕ → DeliveryRow → Bool
is_due now d = elim d.next_attempt_at [ none ↦ false | some at ↦ is_pending d.status && leb at now ]

-- The value that a row of the result is ordered by.
abbrev pub attempt_time : Claimed → ℕ
attempt_time c = elim c.delivery.next_attempt_at [ none ↦ 0 | some at ↦ at ]

unfoldable pub join_due : Hooks → List DeliveryRow → List Claimed
join_due h [] = []
join_due h (d ∷ ds) =
    let rest = join_due h ds in
    elim (get_endpoint d.endpoint_id h) [
      | none ↦ rest
      | some e ↦ if is_due h.now d then record { delivery = d; endpoint = e } ∷ rest else rest
    ]

-- ORDER BY d.next_attempt_at; rows with one time keep their order
unfoldable pub insert_claim : Claimed → List Claimed → List Claimed
insert_claim c [] = c ∷ []
insert_claim c (x ∷ xs) =
    let rest = insert_claim c xs in
    if leb (attempt_time c) (attempt_time x) then c ∷ x ∷ xs else x ∷ rest

unfoldable pub order_claims : List Claimed → List Claimed
order_claims [] = []
order_claims (c ∷ cs) = insert_claim c (order_claims cs)

-- claim_due, where no other session holds a row
unfoldable pub claim_due : ℕ → Hooks → List Claimed
claim_due limit h = take limit (order_claims (join_due h h.deliveries))

abbrev pub left : Option String → Option String
left none = none
left (some s) = some (prefix 2000 s)

-- What an attempt writes.
pub record Written : Type 0 where
  pub attempt : ℕ
  pub status : DeliveryStatus
  pub response_code : Option ℕ
  pub response_body : Option String
  pub error : Option String
  pub next_attempt_seconds : Option ℕ

unfoldable pub written_row : ℕ → Written → DeliveryRow → DeliveryRow
unfolding prefix
written_row now w d = record d {
  attempt = w.attempt;
  status = w.status;
  response_code = w.response_code;
  response_body = left w.response_body;
  error = left w.error;
  next_attempt_at = elim w.next_attempt_seconds [ none ↦ none | some s ↦ some (now + seconds s) ];
  completed_at = if is_succeeded w.status || is_exhausted w.status then some now else none;
}

-- record_attempt
unfoldable pub record_attempt : String → Written → Hooks → Hooks
record_attempt delivery_id w h = record h {
  deliveries = update_where (λ d. d.id == delivery_id) (written_row h.now w) h.deliveries;
}

-- disable_endpoint
unfoldable pub disable_endpoint : String → Hooks → Hooks
disable_endpoint endpoint_id h = record h {
  endpoints =
      update_where (λ e. e.id == endpoint_id) (λ e. record e { status = disabled }) h.endpoints;
}

-- get_delivery
unfoldable pub get_delivery : String → Hooks → Option DeliveryRow
get_delivery delivery_id h = find (λ d. d.id == delivery_id) h.deliveries

-- The row that a retry writes.
abbrev pub retried : ℕ → DeliveryRow → DeliveryRow
retried now d = record d { status = pending; next_attempt_at = some now; completed_at = none }

-- retry, which returns the row when there is one
unfoldable pub retry : String → Hooks → Option DeliveryRow × Hooks
retry delivery_id h =
    let after : Hooks = record h {
      deliveries = update_where (λ d. d.id == delivery_id) (retried h.now) h.deliveries;
    } in
    (find (λ d. d.id == delivery_id) after.deliveries, after)

pub record Rate : Type 0 where
  pub succeeded : ℕ
  pub exhausted : ℕ
  pub pending : ℕ
  pub total : ℕ

-- success_rate, over the last twenty-four hours
unfoldable pub success_rate : Hooks → Rate
success_rate h =
    let recent = select (λ d. ltb h.now (d.created_at + seconds 86400)) h.deliveries in
    record {
      succeeded = length (select (λ d. is_succeeded d.status) recent);
      exhausted = length (select (λ d. is_exhausted d.status) recent);
      pending = length (select (λ d. is_pending d.status) recent);
      total = length recent;
    }
