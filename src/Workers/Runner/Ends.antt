-- ===== src/Workers/Runner/Ends.antt =====
-- How `process_one` of src/ledgerflow/workers/runner.py ends.
use Prim.Native.Nat.{zero, suc}
use ledgerflow.Prelude.{
  ℕ, ◌+◌, ◌≤◌, ◌<◌, ltb, String, ◌≡◌, refl, Bool, true, false, Option, none, some, [], ◌∷◌, ◌++◌,
  any, ◌⊎◌, inl, inr, Bool-cases, arith, subst, sym, ◌==◌,
}
use ledgerflow.Exception.{Result, ok}
use ledgerflow.Text.{prefix}
use ledgerflow.Stream.{Message}
use ledgerflow.Workers.Runner.{
  Failure, DeadLetter, Outcome, handled, poison, failed, Events, is_claim, claim_event, dead_row,
  dead_letter, give_up, settle, round, attempts_from, process_one,
}

cases-lt_or_eq : (b a : ℕ) → b < a + 1 → (b < a) ⊎ (b ≡ a)
cases-lt_or_eq b a h = elim (Bool-cases (ltb b a)) [
  | inl less ↦ inl (ground arith)
  | inr same ↦ inr (ground arith)
]

module _ {P W : Type 0} (consumer_max_attempts : ℕ) (dlq_id group : String)
    (handle : Message P → ℕ → W → Outcome W) (message : Message P) (s : Events P W) where
  -- Every attempt before the a-th was made and failed.
  abbrev pub HaveFailed : ℕ → Type 0
  HaveFailed a = (b : ℕ) → 1 ≤ b → b < a → (e : Failure) × (handle message b s.rest ≡ failed e)

  -- The claim and the work of one attempt, committed together, where the attempts before it failed.
  abbrev pub IsHandled : Result (Bool × Events P W) → Type 0
  IsHandled result =
      (a : ℕ) × (rest : W) × (1 ≤ a)
      × (a ≤ consumer_max_attempts)
      × HaveFailed a
      × (handle message a s.rest ≡ handled rest)
      × (result
          ≡ ok (
            true,
            record s {
              processed_events =
                  s.processed_events
                  ++ (record { consumer_group = group; event_id = message.event_id }) ∷ [];
              rest = rest;
            },
          ))

  -- A message given up after an attempt.
  abbrev pub dead_of : Failure → ℕ → DeadLetter P
  dead_of e a = record {
    id = dlq_id;
    consumer_group = group;
    event_id = message.event_id;
    topic = message.topic;
    payload = message.payload;
    error_class = e.error_class;
    error_detail = prefix 2000 e.error_detail;
    attempts = a;
    resolved = false;
  }

  -- A dead letter and nothing else, with the number and the exception of the attempt that ended it,
  -- which found the message poison or was the last one and failed, where the attempts before failed.
  abbrev pub IsDead : Result (Bool × Events P W) → Type 0
  IsDead result =
      (a : ℕ) × (e : Failure) × (1 ≤ a)
      × (a ≤ consumer_max_attempts)
      × HaveFailed a
      × ((handle message a s.rest ≡ poison e)
          ⊎ ((a ≡ consumer_max_attempts) × (handle message a s.rest ≡ failed e)))
      × (result ≡ ok (true, record s { dead_letters = s.dead_letters ++ dead_of e a ∷ [] }))

  -- What the loop knows before its next attempt: the exception of the last one, if there was one.
  abbrev IsLast : Option Failure → ℕ → Type 0
  IsLast error attempt =
      (attempt ≡ 0)
      ⊎ ((e : Failure) × (error ≡ some e) × (handle message attempt s.rest ≡ failed e))

  HaveFailed-next :
      (a : ℕ) (e : Failure) → HaveFailed a → handle message a s.rest ≡ failed e → HaveFailed (a + 1)
  HaveFailed-next a e before now b low high = elim (cases-lt_or_eq b a high) [
    | inl less ↦ before b low less
    | inr same ↦
        subst (λ c. (x : Failure) × (handle message c s.rest ≡ failed x)) (sym same) (e, now)
  ]

  abbrev claimed : Events P W
  claimed = record s {
    processed_events =
        s.processed_events ++ (record { consumer_group = group; event_id = message.event_id }) ∷ [];
  }

  claim_event-fresh :
      any (is_claim group message.event_id) s.processed_events ≡ false
      → claim_event group message.event_id s ≡ (true, claimed)
  unfolding claim_event
  claim_event-fresh fresh = rw fresh refl

  claim_event-seen :
      any (is_claim group message.event_id) s.processed_events ≡ true
      → claim_event group message.event_id s ≡ (false, s)
  unfolding claim_event
  claim_event-seen seen = rw seen refl

  abbrev Ends : Result (Bool × Events P W) → Type 0
  Ends result = IsHandled result ⊎ IsDead result

  duplicate :
      (rounds : ℕ)
      → 1 ≤ rounds
      → any (is_claim group message.event_id) s.processed_events ≡ true
      → attempts_from consumer_max_attempts dlq_id group handle message rounds none 0 s
        ≡ ok (true, s)
  unfolding attempts_from round
  duplicate zero h seen = absurd (omega arith)
  duplicate (suc left) h seen = rw (claim_event-seen seen) refl

  pub process_one-claimed :
      1 ≤ consumer_max_attempts
      → any (is_claim group message.event_id) s.processed_events ≡ true
      → process_one consumer_max_attempts dlq_id group handle message s ≡ ok (true, s)
  unfolding process_one
  process_one-claimed = duplicate consumer_max_attempts

  module _ (unused : any (λ d. d.id == dlq_id) s.dead_letters ≡ false) where
    give_up-eq_ok :
        (e : Failure) (a : ℕ)
        → give_up consumer_max_attempts dlq_id group handle message (some e) a s
          ≡ ok (true, record s { dead_letters = s.dead_letters ++ dead_of e a ∷ [] })
    unfolding give_up dead_letter dead_row
    give_up-eq_ok e a = rw unused refl

    attempts_from_lem :
        (left : ℕ) (error : Option Failure) (attempt : ℕ)
        → any (is_claim group message.event_id) s.processed_events ≡ false
        → attempt + left ≡ consumer_max_attempts
        → 1 ≤ consumer_max_attempts
        → HaveFailed (attempt + 1)
        → IsLast error attempt
        → IsHandled
            (attempts_from consumer_max_attempts dlq_id group handle message left error attempt s)
          ⊎ IsDead
              (attempts_from consumer_max_attempts dlq_id group handle message left error attempt s)
    unfolding attempts_from round settle
    attempts_from_lem zero error attempt fresh total some_attempt before (inl none_made) =
        absurd (omega arith)
    attempts_from_lem zero error attempt fresh total some_attempt before (inr (e, is, last)) = inr (
      attempt,
      e,
      omega arith,
      omega arith,
      λ b low high. before b low (omega arith),
      inr (omega arith, last),
      rw is (give_up-eq_ok e attempt),
    )
    attempts_from_lem (suc left) error attempt fresh total some_attempt before last =
        subst
          (λ (c : Bool × Events P W).
            Ends (round consumer_max_attempts dlq_id group handle message more (attempt + 1) s c))
          (sym (claim_event-fresh fresh))
          (settled
            (λ e h.
              attempts_from_lem left (some e) (attempt + 1) fresh (omega arith) some_attempt
                (HaveFailed-next (attempt + 1) e before h) (inr (e, refl, h)))
            (handle message (attempt + 1) s.rest) refl)
      where
        more : Option Failure → ℕ → Events P W → Result (Bool × Events P W)
        more = attempts_from consumer_max_attempts dlq_id group handle message left

        settled :
            ((e : Failure)
              → handle message (attempt + 1) s.rest ≡ failed e
              → Ends (more (some e) (attempt + 1) s))
            → (o : Outcome W) → handle message (attempt + 1) s.rest ≡ o
            → Ends (
                settle consumer_max_attempts dlq_id group handle message more
                  (attempt + 1)
                  s
                  claimed
                  o)
        settled later (handled rest) h =
            inl (attempt + 1, rest, omega arith, omega arith, before, h, refl)
        settled later (poison e) h =
            inr (
              attempt + 1,
              e,
              omega arith,
              omega arith,
              before,
              inl h,
              give_up-eq_ok e (attempt + 1),
            )
        settled later (failed e) h = later e h

    -- If one attempt at least is allowed and the id drawn for the dead letter is new, process_one
    -- returns true. The message was already processed and nothing changed; or the first attempt
    -- within the bound that does not fail handles the message, and its work is committed with the
    -- claim; or one dead letter is written and nothing else changed, with the number and the
    -- exception of the attempt that found the message poison after failures only, or of the last
    -- attempt allowed where all of them failed.
    pub process_one_lem :
        1 ≤ consumer_max_attempts
        → ((any (is_claim group message.event_id) s.processed_events ≡ true)
            × (process_one consumer_max_attempts dlq_id group handle message s ≡ ok (true, s)))
          ⊎ (IsHandled (process_one consumer_max_attempts dlq_id group handle message s)
              ⊎ IsDead (process_one consumer_max_attempts dlq_id group handle message s))
    unfolding process_one
    process_one_lem some_attempt =
        elim (Bool-cases (any (is_claim group message.event_id) s.processed_events)) [
          | inl seen ↦ inl (seen, duplicate consumer_max_attempts some_attempt seen)
          | inr fresh ↦ inr (
              attempts_from_lem consumer_max_attempts none 0 fresh (omega arith) some_attempt
                (λ b low high. absurd (omega arith)) (inl refl))
        ]
