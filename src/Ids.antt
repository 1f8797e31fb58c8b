-- ===== src/Ids.antt =====
-- src/ledgerflow/ids.py: prefixed identifiers that sort by their time. The two module variables are a
-- state, and the clock and the operating system's random bytes are arguments of each call.
pub mod Encoding
pub mod Increasing
use Prim.Native.Char.{Char, nul}
use Prim.Native.String.{[], ◌∷◌, ◌++◌}
use ledgerflow.Prelude.{
  ℕ, zero, suc, ◌+◌, ◌-◌, ◌/◌, ◌%◌, ◌^◌, String, List, ltb, leb, if◌then◌else◌,
}

-- _ALPHABET
unfoldable pub alphabet : String
alphabet = "0123456789ABCDEFGHJKMNPQRSTVWXYZ"

-- s[i]; the callers mask the index to five bits, so the character is always there
unfoldable pub symbol : String → ℕ → Char
symbol [] i = nul
symbol (c ∷ s) zero = c
symbol (c ∷ s) (suc i) = symbol s i

-- The loop of _encode, whose appended characters are reversed at the end, so each goes in front.
unfoldable pub encode_loop : ℕ → ℕ → String → String
encode_loop zero value out = out
encode_loop (suc n) value out =
    encode_loop n (value / 2 ^ 5) (symbol alphabet (value % 2 ^ 5) ∷ out)

-- _encode
unfoldable pub encode : ℕ → ℕ → String
encode value length = encode_loop length value []

-- _MAX_RANDOM
abbrev pub max_random : ℕ
max_random = 2 ^ 80 - 1

-- _last_ms and _last_random
pub record Clock : Type 0 where
  pub last_ms : ℕ
  pub last_random : ℕ

-- What a call reads: the clock in milliseconds and ten bytes of `os.urandom`.
pub record Draw : Type 0 where
  pub now_ms : ℕ
  pub random : ℕ

-- The part of ulid under the lock.
unfoldable pub tick : Draw → Clock → Clock
tick d c =
    if ltb c.last_ms d.now_ms
    then record { last_ms = d.now_ms; last_random = d.random }
    else if leb max_random c.last_random
    then record { last_ms = c.last_ms + 1; last_random = d.random }
    else record { last_ms = c.last_ms; last_random = c.last_random + 1 }

abbrev pub encode_clock : Clock → String
encode_clock c = encode c.last_ms 10 ++ encode c.last_random 16

-- ulid
unfoldable pub ulid : Draw → Clock → String × Clock
ulid d c = let after = tick d c in (encode_clock after, after)

-- new_id
unfoldable pub new_id : String → Draw → Clock → String × Clock
new_id prefix d c = let (id, after) = ulid d c in (prefix ++ "_" ++ id, after)

-- account_id, transaction_id, event_id and request_id
unfoldable pub account_id : Draw → Clock → String × Clock
account_id = new_id "acct"

unfoldable pub transaction_id : Draw → Clock → String × Clock
transaction_id = new_id "txn"

unfoldable pub event_id : Draw → Clock → String × Clock
event_id = new_id "evt"

unfoldable pub request_id : Draw → Clock → String × Clock
request_id = new_id "req"

-- The ids of a run of calls with one prefix, in their order, and the clock after them.
unfoldable pub new_ids : String → List Draw → Clock → List String × Clock
new_ids prefix List.[] c = (List.[], c)
new_ids prefix (List.◌∷◌ d ds) c =
    let (id, next) = new_id prefix d c in
    let (later, after) = new_ids prefix ds next in (List.◌∷◌ id later, after)
