-- ===== src/Workers/Runner.antt =====
-- src/ledgerflow/workers/runner.py, with the consumer side of `EventRepository` of
-- src/ledgerflow/adapters/repositories.py. The rest of the database is any type `W`; what the handler
-- makes of it at each attempt, the commit included, is a parameter.
pub mod Ends
pub mod Redelivery
use Prim.Native.Nat.{zero, suc}
use ledgerflow.Prelude.{
  ℕ, ◌+◌, ◌-◌, String, Bool, true, false, not, ◌&&◌, Option, none, some, List, [], ◌∷◌, ◌++◌, ◌==◌,
  if◌then◌else◌, any, select, length, find, update_where,
}
use ledgerflow.Stream.{Message}
use ledgerflow.Text.{prefix}
use ledgerflow.Exception.{Result, ok, err, integrity_error}

-- An exception as the dead-letter row shows it.
pub record Failure : Type 0 where
  pub error_class : String
  pub error_detail : String

-- What an attempt comes to: the work commits, PoisonMessage, or any other exception.
pub data Outcome (W : Type 0) : Type 0 where
  handled : W → Outcome W
  poison : Failure → Outcome W
  failed : Failure → Outcome W

pub record DeadLetter (P : Type 0) : Type 0 where
  pub id : String
  pub consumer_group : String
  pub event_id : String
  pub topic : String
  pub payload : P
  pub error_class : String
  pub error_detail : String
  pub attempts : ℕ
  pub resolved : Bool

pub record Claim : Type 0 where
  pub consumer_group : String
  pub event_id : String

pub record Events (P W : Type 0) : Type 0 where
  pub processed_events : List Claim
  pub dead_letters : List (DeadLetter P)
  pub rest : W

abbrev pub is_claim : String → String → Claim → Bool
is_claim group event_id c = c.consumer_group == group && (c.event_id == event_id)

module _ {P : Type 0} where
  -- The row that dead_letter inserts.
  pub dead_row : String → String → Message P → Option Failure → ℕ → DeadLetter P
  unfolding prefix
  dead_row dlq_id group message error attempts = record {
    id = dlq_id;
    consumer_group = group;
    event_id = message.event_id;
    topic = message.topic;
    payload = message.payload;
    error_class = elim error [ none ↦ "Unknown" | some e ↦ e.error_class ];
    error_detail = elim error [ none ↦ "" | some e ↦ prefix 2000 e.error_detail ];
    attempts = attempts;
    resolved = false;
  }

module _ {P W : Type 0} where
  -- EventRepository.claim_event
  unfoldable pub claim_event : String → String → Events P W → Bool × Events P W
  claim_event group event_id s =
      if any (is_claim group event_id) s.processed_events then (false, s) else (
        true,
        record s {
          processed_events =
              s.processed_events ++ (record { consumer_group = group; event_id = event_id }) ∷ [];
        },
      )

  -- EventRepository.release_claim
  unfoldable pub release_claim : String → String → Events P W → Events P W
  release_claim group event_id s = record s {
    processed_events = select (λ c. not (is_claim group event_id c)) s.processed_events;
  }

  -- EventRepository.dead_letter, with the primary key of the table.
  unfoldable pub dead_letter : DeadLetter P → Events P W → Result (Bool × Events P W)
  dead_letter row s =
      if any (λ d. d.id == row.id) s.dead_letters
      then err integrity_error
      else ok (true, record s { dead_letters = s.dead_letters ++ row ∷ [] })

  -- EventRepository.resolve_dead_letter
  unfoldable pub resolve_dead_letter : String → Events P W → Option (DeadLetter P) × Events P W
  resolve_dead_letter dlq_id s =
      let open_row = λ (d : DeadLetter P). d.id == dlq_id && not d.resolved in
      (
        elim (find open_row s.dead_letters) [
          | none ↦ none
          | some d ↦ some (record d { resolved = true })
        ],
        record s {
          dead_letters = update_where open_row (λ d. record d { resolved = true }) s.dead_letters;
        },
      )

  -- EventRepository.dlq_depth
  unfoldable pub dlq_depth : Events P W → ℕ
  dlq_depth s = length (select (λ d. not d.resolved) s.dead_letters)

  module _ (consumer_max_attempts : ℕ) (dlq_id group : String)
      (handle : Message P → ℕ → W → Outcome W) (message : Message P) where
    -- The transaction of dead_letter at the end.
    give_up : Option Failure → ℕ → Events P W → Result (Bool × Events P W)
    unfolding dead_row
    give_up error attempt s = dead_letter (dead_row dlq_id group message error attempt) s

    -- The rounds of the loop that are left; `more` goes on with the next one.
    settle :
        (Option Failure → ℕ → Events P W → Result (Bool × Events P W))
        → ℕ
        → Events P W
        → Events P W
        → Outcome W
        → Result (Bool × Events P W)
    unfolding give_up
    settle more attempt s claimed (handled rest) = ok (true, record claimed { rest = rest })
    settle more attempt s claimed (poison e) = give_up (some e) attempt s
    settle more attempt s claimed (failed e) = more (some e) attempt s

    -- One round: claim, and handle, in one unit of work, which an exception rolls back.
    round :
        (Option Failure → ℕ → Events P W → Result (Bool × Events P W))
        → ℕ
        → Events P W
        → Bool × Events P W
        → Result (Bool × Events P W)
    unfolding settle
    round more attempt s (false, claimed) = ok (true, claimed)
    round more attempt s (true, claimed) =
        settle more attempt s claimed (handle message attempt claimed.rest)

    -- `while attempt < settings.consumer_max_attempts`, by the rounds that are left
    attempts_from : ℕ → Option Failure → ℕ → Events P W → Result (Bool × Events P W)
    unfolding give_up round
    attempts_from zero error attempt s = give_up error attempt s
    attempts_from (suc left) error attempt s =
        round (attempts_from left) (attempt + 1) s (claim_event group message.event_id s)

    -- process_one
    unfoldable pub process_one : Events P W → Result (Bool × Events P W)
    unfolding attempts_from
    process_one s = attempts_from consumer_max_attempts none 0 s
