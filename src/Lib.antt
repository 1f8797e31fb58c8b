-- ===== src/Lib.antt =====
-- A verification library for LedgerFlow, a double-entry ledger service.
--
-- The service takes business events (a purchase, a transfer, a refund) over HTTP, turns them into
-- balanced entries by a posting rule, writes them with an outbox event in one database transaction,
-- and serves balances from snapshots and the entries after them. This library models the path from
-- the event to the rows, in the order of the code's layers:
--
--   Domain       src/ledgerflow/domain: amounts (Domain/Money, and their parsing in
--                Domain/Money/Parsing), currencies (Domain/Currency), entries, transactions and
--                balances (Domain/Ledger), posting rules (Domain/Posting)
--   Adapters     src/ledgerflow/adapters and migrations/001_core.sql: the tables (Adapters/Tables) as
--                a record of row lists, with each repository method a function or a step on it; a
--                transaction of the database is a state function that may raise (Adapters/Tx), and
--                Adapters/UnitOfWork commits it or drops its writes
--   Application  src/ledgerflow/application/services.py: post_transaction, transfer and
--                reverse_transaction, composed of the steps in the order of the code
--                (Application/Services), create_account, balance and record_decline
--                (Application/Accounts)
--   Api          src/ledgerflow/api/idempotency.py and IdempotencyRepository (Api/Idempotency): the
--                claim of a key, the stored response and the routes' use of both, over any handler and
--                any body; the bucket of src/ledgerflow/api/ratelimit.py and its Redis script
--                (Api/RateLimit)
--   Features     src/ledgerflow/features: the rules (Features/Rules) and the windows (Features/Compute)
--   Ids          src/ledgerflow/ids.py: the encoding and the generator
--   Stream       src/ledgerflow/stream: the log with the offsets of its consumer groups
--   Workers      src/ledgerflow/workers: process_one of runner.py with the claims and the dead letters
--                of EventRepository (Workers/Runner), relay_once (Workers/Relay), the fan-out and the
--                dispatch of webhooks.py (Workers/Webhooks), and the risk worker (Workers/Risk)
--   Tests        runs at concrete values
--   Prelude, Exception, Dict, Text   the numbers, the exceptions, Python's dict, and string methods
--
-- A method keeps the name it has in Python; a class's constructor checks are `make_entry`,
-- `make_money` and `make_transaction`. Integers are unbounded, as in Python; that a BIGINT column
-- refuses a value of 64 bits or more is not modelled. Money is counted in minor units. Instants are
-- microseconds with the flag that tells an aware value from a naive one. Loops run over a list, and
-- the retry loop over the attempts that are left, so the only fuel is that of the count of decimal
-- digits in Domain/Money/Decimal, which is the number itself, and a lemma there shows that it is
-- enough. A decimal rounds to the default context of Python, its bounds on the exponent included.
-- What `ids.py` and the clock return is an argument (`Fresh`, or a function from the number of the
-- call to its id). A constraint of a table stands in the method that can violate it: primary keys,
-- unique indexes, the foreign keys of the entries and their positive amounts. A row lock orders
-- transactions of other sessions and changes no row, so within one transaction it is no step.
--
-- Parameters stand for what is not code of the repository: what a handler does (its commit
-- included), whether the stream takes a message, whether the wait for a lock ends in time, the hash
-- of a request, which is canonical JSON under SHA-256, what a webhook's receiver answers, the
-- average and the deviation that the database computes, and the floats of the rules and of the rate
-- limiter, which are any type with the operations that the code uses.
--
-- Not modelled: the printing of amounts, HTTP routing and schemas, the polling loops, the
-- normalizer and its worker, the calls of Redis, reports and the listings other than that of
-- entries, Spark jobs, the load generator and the dashboard. Strings are lowered and stripped as
-- ASCII text.
pub mod Prelude
pub mod Ids
pub mod Exception
pub mod Dict
pub mod Text
pub mod Features
pub mod Domain
pub mod Adapters
pub mod Application
pub mod Api
pub mod Workers
pub mod Stream
pub mod Tests
