-- ===== src/Workers/Relay/Sent.antt =====
-- What one run of the relay (src/ledgerflow/workers/outbox_relay.py) takes, publishes and marks.
use mathlib.Core.List.{append-nil, append_assoc}
use ledgerflow.Prelude.{
  ℕ, zero, suc, ◌+◌, ◌≤◌, ◌≡◌, refl, Bool, true, false, inl, inr, ◌⊎◌, Bool-cases, List, [], ◌∷◌,
  ◌++◌, length, All, take, length-append, update_where, ap, ◌∙◌, sym, arith,
}
use ledgerflow.Adapters.Tables.{Db, OutboxRow, Resource}
use ledgerflow.Adapters.Outbox.{claim_unpublished, mark_published, is_among}
use ledgerflow.Stream.{Message, PostgresStream, publish, ledger_events}
use ledgerflow.Workers.Relay.{send, relay_rows, relay_once}
use ledgerflow.Workers.Relay.Marks.{
  ids, waiting, mark_first, AreKeyed, mark, length-ids, select-waiting, update_where-none,
  update_where-mark_first,
}

-- The message of each row, with the offsets from the n-th on.
pub messages : ℕ → List OutboxRow → List (Message Resource)
messages n [] = []
messages n (r ∷ rows) =
    (record {
      offset = n;
      topic = "ledger.events.v1";
      partition_key = r.partition_key;
      event_id = r.event_id;
      event_type = r.event_type;
      payload = r.payload;
    })
    ∷ messages (n + 1) rows

-- The stream with those messages behind its own.
abbrev pub with_messages : List OutboxRow → PostgresStream Resource → PostgresStream Resource
with_messages rows stream = record stream {
  stream_messages = stream.stream_messages ++ messages stream.next_offset rows;
  next_offset = stream.next_offset + length rows;
}

-- The rows that are left over begin with one that the stream refuses, or there are none.
abbrev pub Stopped : (OutboxRow → Bool) → List OutboxRow → Type 0
Stopped refuses [] = Unit
Stopped refuses (row ∷ rows) = refuses row ≡ true

take-append : (xs ys : List OutboxRow) → take (length xs) (xs ++ ys) ≡ xs
take-append [] ys = refl
take-append (x ∷ xs) ys = ap (λ (t : List OutboxRow). x ∷ t) (take-append xs ys)

-- What `LIMIT b` leaves.
take-rest :
    (b : ℕ) (w : List OutboxRow)
    → (rest : List OutboxRow) × (w ≡ take b w ++ rest)
      × (length (take b w) ≤ b)
      × ((length (take b w) ≡ b) ⊎ (rest ≡ []))
take-rest zero w = (w, refl, omega arith, inl refl)
take-rest (suc b) [] = ([], refl, omega arith, inr refl)
take-rest (suc b) (x ∷ w) =
    let (rest, split, short, end) = take-rest b w in
    (
      rest,
      ap (λ (t : List OutboxRow). x ∷ t) split,
      omega (arith, short),
      elim end [ inl full ↦ inl (ap suc full) | inr none_left ↦ inr none_left ],
    )

with_messages-nil : (stream : PostgresStream Resource) → stream ≡ with_messages [] stream
unfolding messages
with_messages-nil stream =
    ap (λ (ms : List (Message Resource)). record stream { stream_messages = ms })
      (sym (append-nil stream.stream_messages))
    ∙ ap
        (λ (n : ℕ). record stream {
          stream_messages = stream.stream_messages ++ [];
          next_offset = n;
        })
        (omega arith)

module _ (refuses : OutboxRow → Bool) where
  -- A prefix of the rows, up to the first one refused.
  abbrev IsPrefix : List OutboxRow → List OutboxRow → Type 0
  IsPrefix rows taken =
      ((left : List OutboxRow) × (rows ≡ taken ++ left) × Stopped refuses left)
      × All (λ r. refuses r ≡ false) taken

  with_messages-cons :
      (row : OutboxRow) (rows : List OutboxRow) (stream : PostgresStream Resource)
      → with_messages rows
          (publish ledger_events row.partition_key row.event_id row.event_type row.payload stream)
        ≡ with_messages (row ∷ rows) stream
  unfolding publish messages
  with_messages-cons row rows stream =
      ap
        (λ (ms : List (Message Resource)). record stream {
          stream_messages = ms;
          next_offset = stream.next_offset + 1 + length rows;
        })
        (append_assoc stream.stream_messages _ (messages (stream.next_offset + 1) rows))
      ∙ ap
          (λ (n : ℕ). record stream {
            stream_messages = stream.stream_messages ++ messages stream.next_offset (row ∷ rows);
            next_offset = n;
          })
          (omega arith)

  send_lem :
      (rows : List OutboxRow) (stream : PostgresStream Resource)
      → (taken : List OutboxRow) × IsPrefix rows taken
        × (send refuses rows stream ≡ (ids taken, with_messages taken stream))
  unfolding send
  send_lem [] stream = (
    [],
    (([], refl, tt), tt),
    ap (λ (t : PostgresStream Resource). ([], t)) (with_messages-nil stream),
  )
  send_lem (row ∷ rows) stream = elim (Bool-cases (refuses row)) [
    | inl h ↦ (
      [],
      ((row ∷ rows, refl, h), tt),
      rw h (ap (λ (t : PostgresStream Resource). ([], t)) (with_messages-nil stream)),
    )
    | inr h ↦
        let next =
          publish ledger_events row.partition_key row.event_id row.event_type row.payload stream in
        let (taken, ((left, split, stop), fine), sent) = send_lem rows next in
        (
          row ∷ taken,
          ((left, ap (λ (t : List OutboxRow). row ∷ t) split, stop), (h, fine)),
          rw h (
              ap (λ (r : List ℕ × PostgresStream Resource). (row.id ∷ r.0, r.1)) sent
              ∙ ap (λ (t : PostgresStream Resource). (row.id ∷ ids taken, t))
                  (with_messages-cons row taken stream)),
        )
  ]

  relay_rows_lem :
      (rows : List OutboxRow) (db : Db) (stream : PostgresStream Resource)
      → (taken : List OutboxRow) × IsPrefix rows taken
        × (relay_rows refuses rows db stream
            ≡ (length taken, (mark_published (ids taken) db, with_messages taken stream)))
  unfolding relay_rows mark_published
  relay_rows_lem [] db stream = (
    [],
    (([], refl, tt), tt),
    ap (λ (t : PostgresStream Resource). (0, (db, t))) (with_messages-nil stream)
        ∙ ap (λ (os : List OutboxRow). (0, (record db { outbox = os }, with_messages [] stream)))
            (sym (update_where-none db.outbox mark)),
  )
  relay_rows_lem (row ∷ rows) db stream =
      let (taken, prefix, sent) = send_lem (row ∷ rows) stream in
      (
        taken,
        prefix,
        ap (λ (r : List ℕ × PostgresStream Resource). (length r.0, (mark_published r.0 db, r.1)))
              sent
            ∙ ap (λ (n : ℕ). (n, (mark_published (ids taken) db, with_messages taken stream)))
                (length-ids taken),
      )

  Stopped-append :
      (n b : ℕ) (left rest : List OutboxRow)
      → Stopped refuses left
      → ((n + length left ≡ b) ⊎ (rest ≡ []))
      → (n ≡ b) ⊎ Stopped refuses (left ++ rest)
  Stopped-append n b [] rest stop (inl full) = inl (omega (arith, full))
  Stopped-append n b [] rest stop (inr none_left) = inr (rw none_left tt)
  Stopped-append n b (row ∷ left) rest stop end = inr stop

  -- If the ids of the outbox are unique, a run of the relay takes a prefix of the waiting rows, in
  -- their order: none that the stream refuses, and no more than the batch size; it stops at the
  -- batch size, at a row that the stream refuses or at the end. It puts one message for each row
  -- taken, with its key, event id, type and payload, on the topic of the ledger's events, under
  -- consecutive offsets, marks those rows published with one more attempt, changes nothing else,
  -- and returns their number.
  pub relay_once_lem :
      (batch_size : ℕ) (db : Db) (stream : PostgresStream Resource)
      → AreKeyed db.outbox
      → (taken left : List OutboxRow) × (waiting db.outbox ≡ taken ++ left)
        × (length taken ≤ batch_size)
        × All (λ r. refuses r ≡ false) taken
        × ((length taken ≡ batch_size) ⊎ Stopped refuses left)
        × (relay_once refuses batch_size db stream ≡ (
          length taken,
          (record db { outbox = mark_first (length taken) db.outbox }, with_messages taken stream),
        ))
  unfolding relay_once claim_unpublished mark_published
  relay_once_lem batch_size db stream keyed =
      let (rest, all, short, end) = take-rest batch_size (waiting db.outbox) in
      let (taken, ((left, split, stop), fine), done) =
        relay_rows_lem (take batch_size (waiting db.outbox)) db stream in
      let parts = ap length split ∙ length-append taken left in
      let first =
        all ∙ ap (λ (t : List OutboxRow). t ++ rest) split ∙ append_assoc taken left rest in
      let same : take (length taken) (waiting db.outbox) ≡ taken =
        ap (take (length taken)) first ∙ take-append taken (left ++ rest) in
      (
        taken,
        left ++ rest,
        first,
        omega (arith, short, parts),
        fine,
        Stopped-append (length taken) batch_size left rest stop
            (elim end [ inl full ↦ inl (sym parts ∙ full) | inr none_left ↦ inr none_left ]),
        ap (λ (rows : List OutboxRow). relay_rows refuses (take batch_size rows) db stream)
              (select-waiting db.outbox)
            ∙ done
            ∙ ap
                (λ (os : List OutboxRow).
                  (length taken, (record db { outbox = os }, with_messages taken stream)))
                (ap
                    (λ (t : List OutboxRow).
                      update_where (λ o. is_among (ids t) o.id) mark db.outbox)
                    (sym same)
                  ∙ update_where-mark_first (length taken) db.outbox keyed),
      )
