-- ===== src/Adapters.antt =====
-- src/ledgerflow/adapters: the tables and the statements that the platform runs on them.
pub mod Tx
pub mod Tables
pub mod Accounts
pub mod Transactions
pub mod Rows
pub mod Outbox
pub mod UnitOfWork
pub mod Risk
pub mod Webhooks
pub mod Signals
pub mod Listings
