-- ===== src/Workers.antt =====
-- src/ledgerflow/workers: consumers of the event stream.
pub mod Runner
pub mod Relay
pub mod Webhooks
pub mod Risk
