-- ===== src/Workers/Runner/Redelivery.antt =====
-- A message that the stream delivers again (src/ledgerflow/workers/runner.py).
use ledgerflow.Prelude.{ℕ, ◌≤◌, String, ◌≡◌, true, any-last, eq_self, refl}
use ledgerflow.Exception.{ok}
use ledgerflow.Stream.{Message}
use ledgerflow.Workers.Runner.{Outcome, Events, is_claim, process_one}
use ledgerflow.Workers.Runner.Ends.{IsHandled, process_one-claimed}

module _ {P W : Type 0} (consumer_max_attempts : ℕ) (dlq_id group : String)
    (handle : Message P → ℕ → W → Outcome W) (message : Message P) (s : Events P W) where
  -- If one attempt at least is allowed and a message has been handled, a later delivery of it to
  -- the group changes nothing, whatever its handler would do.
  pub process_one_again :
      1 ≤ consumer_max_attempts
      → IsHandled consumer_max_attempts dlq_id group handle message s
          (process_one consumer_max_attempts dlq_id group handle message s)
      → (s' : Events P W) × (process_one consumer_max_attempts dlq_id group handle message s
          ≡ ok (true, s'))
        × ((later_id : String) (other : Message P → ℕ → W → Outcome W)
            → process_one consumer_max_attempts later_id group other message s' ≡ ok (true, s'))
  process_one_again some_attempt (a, rest, _, _, _, _, done) = (
    _,
    done,
    λ later_id other.
        process_one-claimed consumer_max_attempts later_id group other message _ some_attempt (
          any-last (is_claim group message.event_id) s.processed_events _
            (rw (eq_self group, eq_self message.event_id) refl)),
  )
