-- ===== src/Stream.antt =====
-- src/ledgerflow/stream: the event log (base.py) on the database (pg.py).
pub mod Offsets
use ledgerflow.Prelude.{
  ℕ, ◌+◌, ◌-◌, String, Bool, true, false, ◌&&◌, Option, none, some, List, [], ◌∷◌, ◌++◌, ltb, ◌==◌,
  if◌then◌else◌, find, any, select, take, update_where,
}

-- Message; the payload is any type, and the time of publication, which nothing reads, is left out.
pub record Message (P : Type 0) : Type 0 where
  pub offset : ℕ
  pub topic : String
  pub partition_key : String
  pub event_id : String
  pub event_type : String
  pub payload : P

pub record ConsumerOffset : Type 0 where
  pub consumer_group : String
  pub topic : String
  pub last_offset : ℕ

-- The tables stream_messages, in the order of the offsets, and consumer_offsets.
pub record PostgresStream (P : Type 0) : Type 0 where
  pub stream_messages : List (Message P)
  pub consumer_offsets : List ConsumerOffset
  pub next_offset : ℕ

-- WHERE consumer_group = … AND topic = …
abbrev pub is_offset_of : String → String → ConsumerOffset → Bool
is_offset_of topic group o = o.consumer_group == group && (o.topic == topic)

-- `int(row["last_offset"]) if row else 0`
abbrev pub last_or_zero : Option ConsumerOffset → ℕ
last_or_zero none = 0
last_or_zero (some o) = o.last_offset

-- LEDGER_EVENTS
abbrev pub ledger_events : String
ledger_events = "ledger.events.v1"

-- GREATEST
abbrev pub greatest : ℕ → ℕ → ℕ
greatest a b = if ltb a b then b else a

-- INSERT … ON CONFLICT (consumer_group, topic) DO UPDATE, by the offset that the update computes.
unfoldable pub upsert : String → String → ℕ → (ℕ → ℕ) → List ConsumerOffset → List ConsumerOffset
upsert topic group offset updated os =
    if any (is_offset_of topic group) os
    then update_where (is_offset_of topic group)
        (λ o. record o { last_offset = updated o.last_offset }) os
    else os ++ (record { consumer_group = group; topic = topic; last_offset = offset }) ∷ []

module _ {P : Type 0} where
  -- PostgresStream.publish
  unfoldable pub publish :
      String → String → String → String → P → PostgresStream P → PostgresStream P
  publish topic partition_key event_id event_type payload s = record s {
    stream_messages =
        s.stream_messages
        ++ (record {
          offset = s.next_offset;
          topic = topic;
          partition_key = partition_key;
          event_id = event_id;
          event_type = event_type;
          payload = payload;
        })
          ∷ [];
    next_offset = s.next_offset + 1;
  }

  -- PostgresStream.offset
  unfoldable pub offset_of : String → String → PostgresStream P → ℕ
  offset_of topic group s = last_or_zero (find (is_offset_of topic group) s.consumer_offsets)

  -- PostgresStream.poll
  unfoldable pub poll : String → String → ℕ → PostgresStream P → List (Message P)
  poll topic group limit s =
      take limit
        (select (λ m. m.topic == topic && ltb (offset_of topic group s) m.offset) s.stream_messages)

  -- PostgresStream.commit, which never moves back
  unfoldable pub commit_offset : String → String → ℕ → PostgresStream P → PostgresStream P
  commit_offset topic group offset s = record s {
    consumer_offsets = upsert topic group offset (λ old. greatest old offset) s.consumer_offsets;
  }

  -- PostgresStream.seek
  unfoldable pub seek : String → String → ℕ → PostgresStream P → PostgresStream P
  seek topic group offset s = record s {
    consumer_offsets = upsert topic group offset (λ _. offset) s.consumer_offsets;
  }

  -- COALESCE(MAX(offset_id), 0) over the messages of a topic
  unfoldable pub max_offset : String → List (Message P) → ℕ
  max_offset topic [] = 0
  max_offset topic (m ∷ ms) =
      let rest = max_offset topic ms in if m.topic == topic then greatest rest m.offset else rest

  -- PostgresStream.head
  unfoldable pub head : String → PostgresStream P → ℕ
  head topic s = max_offset topic s.stream_messages

  -- lag of base.py
  unfoldable pub lag : String → String → PostgresStream P → ℕ
  lag topic group s = head topic s - offset_of topic group s
