-- ===== src/Domain.antt =====
-- src/ledgerflow/domain: the pure domain model, without I/O.
pub mod Currency
pub mod Money
pub mod Ledger
pub mod Posting
