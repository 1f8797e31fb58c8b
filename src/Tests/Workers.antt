-- ===== src/Tests/Workers.antt =====
-- Runs of the workers and of the stream (src/ledgerflow/workers and src/ledgerflow/stream).
use ledgerflow.Prelude.{
  ℕ, String, ◌≤◌, ◌<◌, ◌≡◌, refl, true, false, Bool, List, [], ◌∷◌, ◌++◌, any, All, arith, ◌⊎◌,
  length, nat_eq, ◌+◌, ◌==◌,
}
use ledgerflow.Exception.{ok}
use ledgerflow.Adapters.Tables.{OutboxRow, Resource}
use ledgerflow.Stream.{Message, PostgresStream, offset_of, poll, commit_offset}
use ledgerflow.Stream.Offsets.{poll-commit_offset}
use ledgerflow.Workers.Runner.{Outcome, handled, failed, Events, is_claim, claim_event, process_one}
use ledgerflow.Workers.Runner.Ends.{HaveFailed, IsHandled, IsDead, process_one_lem}
use ledgerflow.Workers.Runner.Redelivery.{process_one_again}
use ledgerflow.Workers.Relay.{relay_once}
use ledgerflow.Workers.Relay.Marks.{waiting, mark_first, AreKeyed}
use ledgerflow.Workers.Relay.Sent.{with_messages, Stopped, relay_once_lem}
use ledgerflow.Tests.Posts.{after}

abbrev message : Message ℕ
message = record {
  offset = 4;
  topic = "ledger.events.v1";
  partition_key = "cash";
  event_id = "e1";
  event_type = "transaction.created";
  payload = 30;
}

-- The first attempt fails, the second adds the payload.
abbrev handle : Message ℕ → ℕ → ℕ → Outcome ℕ
handle m attempt total = elim (nat_eq attempt 2) [
  | true ↦ handled (total + m.payload)
  | false ↦ failed (record { error_class = "OperationalError"; error_detail = "connection lost" })
]

abbrev start : Events ℕ ℕ
start = record { processed_events = []; dead_letters = []; rest = 12 }

none_dead : any (λ d. d.id == "dlq_1") start.dead_letters ≡ false
unfolding any
none_dead = refl

process_one_lem_example :
    ((any (is_claim "risk" "e1") start.processed_events ≡ true)
      × (process_one 3 "dlq_1" "risk" handle message start ≡ ok (true, start)))
    ⊎ (IsHandled 3 "dlq_1" "risk" handle message start
          (process_one 3 "dlq_1" "risk" handle message start)
        ⊎ IsDead 3 "dlq_1" "risk" handle message start
            (process_one 3 "dlq_1" "risk" handle message start))
process_one_lem_example =
    process_one_lem 3 "dlq_1" "risk" handle message start none_dead (omega arith)

abbrev log : PostgresStream ℕ
log = record {
  stream_messages = message ∷ [];
  consumer_offsets =
      (record { consumer_group = "risk"; topic = "ledger.events.v1"; last_offset = 3 }) ∷ [];
  next_offset = 5;
}

poll-commit_offset_example :
    (4 ≤ offset_of "ledger.events.v1" "risk" (commit_offset "ledger.events.v1" "risk" 4 log))
    × (offset_of "ledger.events.v1" "risk" log
        ≤ offset_of "ledger.events.v1" "risk" (commit_offset "ledger.events.v1" "risk" 4 log))
    × All
        (λ m. (4 < m.offset) × (offset_of "ledger.events.v1" "risk" log < m.offset))
        (poll "ledger.events.v1" "risk" 10 (commit_offset "ledger.events.v1" "risk" 4 log))
poll-commit_offset_example = poll-commit_offset "ledger.events.v1" "risk" 4 10 log

abbrev never : OutboxRow → Bool
never row = false

abbrev topic_log : PostgresStream Resource
topic_log = record { stream_messages = []; consumer_offsets = []; next_offset = 1 }

outbox-AreKeyed : AreKeyed after.outbox
outbox-AreKeyed = (tt, tt)

relay_once_lem_example :
    (taken left : List OutboxRow) × (waiting after.outbox ≡ taken ++ left)
    × (length taken ≤ 500)
    × All (λ r. never r ≡ false) taken
    × ((length taken ≡ 500) ⊎ Stopped never left)
    × (relay_once never 500 after topic_log ≡ (
      length taken,
      (
        record after { outbox = mark_first (length taken) after.outbox },
        with_messages taken topic_log,
      ),
    ))
relay_once_lem_example = relay_once_lem never 500 after topic_log outbox-AreKeyed

first-HaveFailed : HaveFailed 3 "dlq_1" "risk" handle message start 2
first-HaveFailed b low high =
    let one : b ≡ 1 = omega arith in
    (record { error_class = "OperationalError"; error_detail = "connection lost" }, rw one refl)

twelve-IsHandled :
    IsHandled 3 "dlq_1" "risk" handle message start
      (process_one 3 "dlq_1" "risk" handle message start)
unfolding process_one claim_event any
twelve-IsHandled = (2, 42, omega arith, omega arith, first-HaveFailed, refl, refl)

process_one_again_example :
    (s' : Events ℕ ℕ) × (process_one 3 "dlq_1" "risk" handle message start ≡ ok (true, s'))
    × ((later_id : String) (other : Message ℕ → ℕ → ℕ → Outcome ℕ)
        → process_one 3 later_id "risk" other message s' ≡ ok (true, s'))
process_one_again_example =
    process_one_again 3 "dlq_1" "risk" handle message start (omega arith) twelve-IsHandled
