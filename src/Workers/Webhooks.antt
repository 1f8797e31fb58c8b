-- ===== src/Workers/Webhooks.antt =====
-- src/ledgerflow/workers/webhooks.py: the fan-out of an event, and the dispatch of due deliveries. The
-- request that a receiver gets is made by third-party code (JSON, HMAC, the HTTP client), so its answer
-- is a parameter.
pub mod Fanout
pub mod Settled
pub mod Dispatch
pub mod Exhausts
pub mod Coherent
use ledgerflow.Prelude.{
  ℕ, suc, ◌+◌, String, Bool, true, false, ◌&&◌, Option, none, some, List, [], ◌∷◌, ltb, leb, ◌==◌,
  if◌then◌else◌, find, get_elem?, length,
}
use ledgerflow.Text.{prefix}
use ledgerflow.Adapters.Tx.{Tx, ◌>>=◌, ◌>>◌, gets, pure}
use ledgerflow.Adapters.Tables.{OutboxRow}
use ledgerflow.Adapters.Webhooks.{
  Hooks, EndpointRow, DeliveryRow, Claimed, Written, pending, succeeded, exhausted, endpoints_for,
  enqueue, claim_due, record_attempt, disable_endpoint,
}

-- The row of the outbox for an event.
unfoldable pub event_row : String → Hooks → Option OutboxRow
event_row event_id h = find (λ o. o.event_id == event_id) h.outbox

-- The loop of WebhookFanout.handle over the endpoints; `new_id n` is the id of the n-th delivery.
unfoldable pub enqueue_all : (ℕ → String) → ℕ → String → List EndpointRow → Tx Hooks (Unit {0})
enqueue_all new_id n event_id [] = pure tt
enqueue_all new_id n event_id (e ∷ es) = do
  enqueue (new_id n) e.id event_id
  enqueue_all new_id (suc n) event_id es

unfoldable pub fan_out : (ℕ → String) → String → String → Option OutboxRow → Tx Hooks (Unit {0})
fan_out new_id event_id event_type none = pure tt
fan_out new_id event_id event_type (some row) = do
  endpoints ← gets (endpoints_for row.tenant_id row.mode event_type)
  enqueue_all new_id 0 event_id endpoints

-- WebhookFanout.handle on a message's event id and type
unfoldable pub handle : (ℕ → String) → String → String → Tx Hooks (Unit {0})
handle new_id event_id event_type = do
  row ← gets (event_row event_id)
  fan_out new_id event_id event_type row

-- settings.webhook_backoff_seconds
abbrev pub schedule : List ℕ
schedule = 60 ∷ 300 ∷ 1800 ∷ 7200 ∷ 21600 ∷ 86400 ∷ []

-- _backoff
unfoldable pub backoff : ℕ → Option ℕ
backoff attempt = get_elem? schedule attempt

-- What `client.post` comes to: an answer, or an exception.
pub data Reply : Type 0 where
  answered : (status_code : ℕ) → (text : String) → Reply
  raised : (message : String) → Reply

-- ok
unfoldable pub is_ok : Reply → Bool
is_ok (answered code text) = leb 200 code && ltb code 300
is_ok (raised message) = false

abbrev pub code_of : Reply → Option ℕ
code_of (answered code text) = some code
code_of (raised message) = none

-- response.text[:2000]
abbrev pub body_of : Reply → Option String
body_of (answered code text) = some (prefix 2000 text)
body_of (raised message) = none

pub record Tally : Type 0 where
  pub succeeded : ℕ
  pub retrying : ℕ
  pub exhausted : ℕ

unfoldable pub settle_success : Claimed → ℕ → Reply → Hooks × Tally → Hooks × Tally
settle_success c attempt reply (h, t) = (
  record_attempt c.delivery.id
      (record {
        attempt = attempt;
        status = succeeded;
        response_code = code_of reply;
        response_body = body_of reply;
        error = none;
        next_attempt_seconds = none;
      })
      h,
  record t { succeeded = t.succeeded + 1 },
)

module _ (http_error : ℕ → String) where
  -- error, where `http_error` is the text f"HTTP {code}"
  abbrev pub error_of : Reply → Option String
  error_of (answered code text) =
      if is_ok (answered code text) then none else some (http_error code)
  error_of (raised message) = some message

  -- The branch of a refused delivery, by the delay of its attempt.
  unfoldable pub settle_failure : Claimed → ℕ → Reply → Option ℕ → Hooks × Tally → Hooks × Tally
  settle_failure c attempt reply none (h, t) = (
    disable_endpoint c.delivery.endpoint_id (
        record_attempt c.delivery.id
          (record {
            attempt = attempt;
            status = exhausted;
            response_code = code_of reply;
            response_body = body_of reply;
            error = error_of reply;
            next_attempt_seconds = none;
          })
          h),
    record t { exhausted = t.exhausted + 1 },
  )
  settle_failure c attempt reply (some delay) (h, t) = (
    record_attempt c.delivery.id
        (record {
          attempt = attempt;
          status = pending;
          response_code = code_of reply;
          response_body = body_of reply;
          error = error_of reply;
          next_attempt_seconds = some delay;
        })
        h,
    record t { retrying = t.retrying + 1 },
  )

  unfoldable pub settle : Claimed → ℕ → Reply → Hooks × Tally → Hooks × Tally
  settle c attempt reply s =
      if is_ok reply
      then settle_success c attempt reply s
      else settle_failure c attempt reply (backoff attempt) s

module _ (post : ℕ → Claimed → OutboxRow → Reply) (http_error : ℕ → String) where
  -- One round of the loop of dispatch_once; an event that is not there is skipped.
  unfoldable pub dispatch_one : Claimed → Option OutboxRow → Hooks × Tally → Hooks × Tally
  dispatch_one c none s = s
  dispatch_one c (some event) s =
      settle http_error c (c.delivery.attempt + 1) (post s.0.now c event) s

  unfoldable pub dispatch_all : List Claimed → Hooks × Tally → Hooks × Tally
  dispatch_all [] s = s
  dispatch_all (c ∷ cs) s = dispatch_all cs (dispatch_one c (event_row c.delivery.event_id s.0) s)

  -- dispatch_once
  unfoldable pub dispatch_once : ℕ → Hooks → Hooks × Tally
  dispatch_once limit h =
      dispatch_all (claim_due limit h) (h, record { succeeded = 0; retrying = 0; exhausted = 0 })
