-- ===== src/Workers/Risk/Watermark.antt =====
-- The newest event time that src/ledgerflow/workers/risk.py keeps, over any run of messages.
use ledgerflow.Prelude.{
  ℕ, ◌-◌, ◌≤◌, ◌<◌, String, ◌≡◌, refl, sym, ap, ◌∙◌, true, false, Option, none, some, List, [], ◌∷◌,
  ◌++◌, ltb, arith,
}
use ledgerflow.Prelude.Int.{ℤ}
use ledgerflow.Stream.{Message, PostgresStream}
use ledgerflow.Features.{Float}
use ledgerflow.Adapters.Signals.{RiskDb, LateRow, record_late_arrival}
use ledgerflow.Workers.Risk.{
  Payload, Parsed, Alert, Ending, handled, lateness, newest_time, parsed, handle, handle_parsed,
  handle_event, committed,
}

-- The state of a worker between messages.
pub record Worker (F : Type 0) : Type 0 where
  pub max_event_time : Option ℕ
  pub db : RiskDb F
  pub stream : PostgresStream Alert

abbrev pub or_epoch : Option ℕ → ℕ
or_epoch none = 0
or_epoch (some t) = t

-- The row for an event below a watermark.
abbrev pub late_row : String → Parsed → ℕ → LateRow
late_row event_id q newest = record {
  event_id = event_id;
  account_id = q.account_id;
  effective_at = q.occurred_at;
  watermark_at = newest - lateness;
}

abbrev pub recorded_late : {F : Type 0} → String → Parsed → Worker F → Worker F
recorded_late event_id q w = record w {
  db = record w.db {
    late_arrivals = w.db.late_arrivals ++ late_row event_id q (or_epoch w.max_event_time) ∷ [];
  };
}

module _ {F : Type 0} (fl : Float F) (average deviation : List ℤ → F) where
  -- One message, with the ids that the handler draws for it.
  unfoldable pub consume : (ℕ → String) × Message Payload → Worker F → Worker F
  consume (new_id, message) w =
      let (newest, (stream, ending)) =
        handle fl average deviation new_id message w.max_event_time w.db w.stream in
      record { max_event_time = newest; db = committed ending w.db; stream = stream }

  unfoldable pub consume_all : List ((ℕ → String) × Message Payload) → Worker F → Worker F
  consume_all [] w = w
  consume_all (m ∷ ms) w = consume_all ms (consume m w)

  newest_time-rises : (o : Option ℕ) (t : ℕ) → or_epoch o ≤ newest_time o t
  unfolding newest_time
  newest_time-rises none t = omega arith
  newest_time-rises (some n) t = ground arith

  consume-rises :
      (m : (ℕ → String) × Message Payload) (w : Worker F)
      → or_epoch w.max_event_time ≤ or_epoch (consume m w).max_event_time
  unfolding consume handle handle_parsed
  consume-rises (new_id, message) w = go (parsed message.payload)
    where
      go :
          (o : Option Parsed)
          → or_epoch w.max_event_time
            ≤ or_epoch
                (handle_parsed fl average deviation new_id message.event_id message.payload o
                  w.max_event_time w.db w.stream).0
      go none = omega arith
      go (some q) = newest_time-rises w.max_event_time q.occurred_at

  consume_all-rises :
      (ms : List ((ℕ → String) × Message Payload)) (w : Worker F)
      → or_epoch w.max_event_time ≤ or_epoch (consume_all ms w).max_event_time
  unfolding consume_all
  consume_all-rises [] w = omega arith
  consume_all-rises (m ∷ ms) w =
      omega (arith, consume-rises m w, consume_all-rises ms (consume m w))

  handle_parsed-late :
      (new_id : ℕ → String) (event_id : String) (p : Payload) (q : Parsed) (m : ℕ) (db : RiskDb F)
      (stream : PostgresStream Alert)
      → q.occurred_at < m - lateness
      → handle_parsed fl average deviation new_id event_id p (some q) (some m) db stream
        ≡ (some m, (stream, handled (record_late_arrival (late_row event_id q m) db)))
  unfolding handle_parsed handle_event newest_time
  handle_parsed-late new_id event_id p q m db stream late =
      let same : ltb m q.occurred_at ≡ false = ground arith in
      let below : ltb q.occurred_at (m - lateness) ≡ true = ground arith in rw same (rw below refl)

  consume-late :
      (new_id : ℕ → String) (message : Message Payload) (q : Parsed) (w : Worker F)
      → parsed message.payload ≡ some q
      → q.occurred_at < or_epoch w.max_event_time - lateness
      → consume (new_id, message) w ≡ recorded_late message.event_id q w
  unfolding consume handle committed record_late_arrival
  consume-late new_id message q w reads late = go w.max_event_time refl late
    where
      after : Option ℕ × (PostgresStream Alert × Ending F) → Worker F
      after r = record { max_event_time = r.0; db = committed r.1.1 w.db; stream = r.1.0 }

      go :
          (o : Option ℕ)
          → w.max_event_time ≡ o
          → q.occurred_at < or_epoch o - lateness
          → consume (new_id, message) w ≡ recorded_late message.event_id q w
      go none is late = absurd (omega arith)
      go (some m) is late =
          ap
            (λ o. after (
              handle_parsed fl average deviation new_id message.event_id message.payload o
                w.max_event_time w.db w.stream))
            reads
          ∙ ap
              (λ o. after (
                handle_parsed fl average deviation new_id message.event_id message.payload (some q)
                  o w.db w.stream))
              is
          ∙ ap after
              (handle_parsed-late new_id message.event_id message.payload q m w.db w.stream late)
          ∙ ap
              (λ (o : Option ℕ). record {
                max_event_time = o;
                db = record_late_arrival (late_row message.event_id q (or_epoch o)) w.db;
                stream = w.stream;
              })
              (sym is)

  -- An event that is below the watermark at one time is late for good: after any further messages,
  -- the worker adds one row for it behind the late arrivals, with the watermark of that moment, and
  -- leaves the features, the signals, the stream and the newest time as they are.
  pub consume_all-late :
      (ms : List ((ℕ → String) × Message Payload)) (new_id : ℕ → String) (message : Message Payload)
      (q : Parsed) (w : Worker F)
      → parsed message.payload ≡ some q
      → q.occurred_at < or_epoch w.max_event_time - lateness
      → consume (new_id, message) (consume_all ms w)
        ≡ recorded_late message.event_id q (consume_all ms w)
  consume_all-late ms new_id message q w reads late =
      consume-late new_id message q (consume_all ms w) reads (omega (arith, consume_all-rises ms w))
