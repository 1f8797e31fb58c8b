-- ===== src/Api.antt =====
-- src/ledgerflow/api: the protocol around a request that writes.
pub mod Idempotency
pub mod RateLimit
