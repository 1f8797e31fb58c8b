-- ===== src/Tests.antt =====
-- Concrete runs: the theorems at values that exercise the code.
mod Domain
mod Posts
mod Reversals
mod Requests
mod Workers
mod Ids
mod Webhooks
mod Risk
mod Accounts
mod Parsing
