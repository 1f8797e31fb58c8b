-- ===== src/Adapters/Webhooks/Rows.antt =====
-- The rows of the two webhook tables of migrations/001_core.sql.
use ledgerflow.Prelude.{ℕ, String, Bool, true, false, Option, List}
use ledgerflow.Adapters.Tables.{OutboxRow}

pub data EndpointStatus : Type 0 where
  enabled disabled : EndpointStatus

abbrev pub is_enabled : EndpointStatus → Bool
is_enabled enabled = true
is_enabled disabled = false

pub record EndpointRow : Type 0 where
  pub id : String
  pub tenant_id : String
  pub mode : String
  pub url : String
  pub secret_hash : String
  pub enabled_events : List String
  pub status : EndpointStatus

-- The statuses that the code writes; the migration's comment has `failed` beside them.
pub data DeliveryStatus : Type 0 where
  pending succeeded exhausted : DeliveryStatus

abbrev pub is_pending : DeliveryStatus → Bool
is_pending pending = true
is_pending succeeded = false
is_pending exhausted = false

abbrev pub is_succeeded : DeliveryStatus → Bool
is_succeeded pending = false
is_succeeded succeeded = true
is_succeeded exhausted = false

abbrev pub is_exhausted : DeliveryStatus → Bool
is_exhausted pending = false
is_exhausted succeeded = false
is_exhausted exhausted = true

pub record DeliveryRow : Type 0 where
  pub id : String
  pub endpoint_id : String
  pub event_id : String
  pub attempt : ℕ
  pub status : DeliveryStatus
  pub response_code : Option ℕ
  pub response_body : Option String
  pub error : Option String
  pub next_attempt_at : Option ℕ
  pub created_at : ℕ
  pub completed_at : Option ℕ

-- The webhook tables and the outbox; `now` is the time of the running transaction.
pub record Hooks : Type 0 where
  pub endpoints : List EndpointRow
  pub deliveries : List DeliveryRow
  pub outbox : List OutboxRow
  pub now : ℕ
