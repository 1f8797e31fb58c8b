-- ===== src/Application.antt =====
-- src/ledgerflow/application: the use cases that the API and the workers call.
pub mod Services
pub mod Accounts
