-- ===== src/Workers/Webhooks/Exhausts.antt =====
-- The retries of a delivery over successive runs of dispatch_once, src/ledgerflow/workers/webhooks.py.
use ledgerflow.Prelude.{
  ℕ, zero, suc, ◌+◌, ◌≤◌, ◌<◌, String, ◌≡◌, refl, ap, ◌∙◌, true, false, ◌⊎◌, inl, inr, none, some,
  List, [], ◌∷◌, ◌==◌, length, find, find-of_any, arith,
}
use ledgerflow.Adapters.Tables.{OutboxRow}
use ledgerflow.Adapters.Webhooks.{
  Hooks, DeliveryRow, Claimed, pending, exhausted, is_exhausted, written_row, seconds, get_delivery,
  get_endpoint, is_due,
}
use ledgerflow.Adapters.Webhooks.Claims.{IsKeyed}
use ledgerflow.Workers.Webhooks.{Reply, is_ok, backoff, event_row, dispatch_once}
use ledgerflow.Workers.Webhooks.Settled.{verdict, next_status, Closed, is_registered, Keeps}
use ledgerflow.Workers.Webhooks.Dispatch.{dispatch_all-Keeps, dispatch_once_lem}

-- Before the sixth attempt a refusal is followed by a delay of five minutes to a day.
backoff_more : (n : ℕ) → 1 ≤ n → n < 6 → (s : ℕ) × (backoff n ≡ some s) × (300 ≤ s) × (s ≤ 86400)
unfolding backoff
backoff_more zero lo hi = absurd (omega arith)
backoff_more (suc zero) lo hi = (300, refl, omega arith, omega arith)
backoff_more (suc (suc zero)) lo hi = (1800, refl, omega arith, omega arith)
backoff_more (suc (suc (suc zero))) lo hi = (7200, refl, omega arith, omega arith)
backoff_more (suc (suc (suc (suc zero)))) lo hi = (21600, refl, omega arith, omega arith)
backoff_more (suc (suc (suc (suc (suc zero))))) lo hi = (86400, refl, omega arith, omega arith)
backoff_more (suc (suc (suc (suc (suc (suc n)))))) lo hi = absurd (omega arith)

backoff_over : backoff 6 ≡ none
unfolding backoff
backoff_over = refl

is_due-of_pending :
    (t : ℕ) (d : DeliveryRow) (at : ℕ)
    → d.status ≡ pending
    → d.next_attempt_at ≡ some at
    → at ≤ t
    → is_due t d ≡ true
unfolding is_due
is_due-of_pending t d at status next late = ground arith

module _ (http_error : ℕ → String) (now : ℕ) (reply : Reply) (refused : is_ok reply ≡ false) where
  refused_last :
      (n : ℕ) (d : DeliveryRow)
      → backoff n ≡ none
      → ((verdict http_error n reply).status ≡ exhausted)
        × ((written_row now (verdict http_error n reply) d).status ≡ exhausted)
  unfolding verdict next_status written_row
  refused_last n d over =
      rw (ap (λ o. next_status reply o) over) (rw (refused, next_status) (refl, refl))

  refused_more :
      (n : ℕ) (d : DeliveryRow) (s : ℕ)
      → backoff n ≡ some s
      → ((written_row now (verdict http_error n reply) d).status ≡ pending)
        × ((written_row now (verdict http_error n reply) d).next_attempt_at
            ≡ some (now + seconds s))
  unfolding verdict next_status written_row
  refused_more n d s more =
      rw (ap (λ o. next_status reply o) more) (rw (refused, next_status) (refl, refl))

-- Each run comes at the due time at the earliest, and a day passes between two runs.
abbrev pub Spaced : ℕ → List ℕ → Type 0
Spaced due [] = Unit
Spaced due (t ∷ ts) = (due ≤ t) × Spaced (t + seconds 86400) ts

Spaced-earlier : (a b : ℕ) (ts : List ℕ) → a ≤ b → Spaced b ts → Spaced a ts
Spaced-earlier a b [] h spaced = tt
Spaced-earlier a b (t ∷ ts) h (late, spaced) = (omega arith, spaced)

-- A delivery that waits for its next attempt, in a table that one run covers.
pub record Waiting (limit : ℕ) (h : Hooks) (d : DeliveryRow) (at : ℕ) : Type 0 where
  pub room : length h.deliveries ≤ limit
  pub keyed : IsKeyed h.deliveries
  pub found : get_delivery d.id h ≡ some d
  pub status : d.status ≡ pending
  pub next_attempt_at : d.next_attempt_at ≡ some at
  pub registered : is_registered d.endpoint_id h ≡ true
  pub event : OutboxRow
  pub sent : event_row d.event_id h ≡ some event

module _ (post : ℕ → Claimed → OutboxRow → Reply) (http_error : ℕ → String) (limit : ℕ) where
  -- A run of dispatch_once at a time.
  abbrev pub run_at : ℕ → Hooks → Hooks
  run_at t h = (dispatch_once post http_error limit (record h { now = t })).0

  unfoldable pub runs : List ℕ → Hooks → Hooks
  runs [] h = h
  runs (t ∷ ts) h = runs ts (run_at t h)

  run_at-Keeps : (t : ℕ) (h : Hooks) → Keeps (record h { now = t }) (run_at t h)
  unfolding dispatch_once
  run_at-Keeps t h = dispatch_all-Keeps post http_error _ _

  module _ (d : DeliveryRow)
      (refuses : (now : ℕ) (c : Claimed) (o : OutboxRow)
        → c.delivery.id ≡ d.id
        → is_ok (post now c o) ≡ false) where
    -- One run at a time when the delivery is due.
    round :
        (h : Hooks) (at t : ℕ)
        → Waiting limit h d at
        → at ≤ t
        → (reply : Reply) × (is_ok reply ≡ false)
          × (get_delivery d.id (run_at t h)
              ≡ some (written_row t (verdict http_error (d.attempt + 1) reply) d))
          × ((is_exhausted (verdict http_error (d.attempt + 1) reply).status ≡ false)
              ⊎ Closed d.endpoint_id (run_at t h))
    unfolding get_endpoint get_delivery is_due event_row
    round h at t w late =
        let (e, there) = find-of_any (λ e. e.id == d.endpoint_id) h.endpoints w.registered in
        let c : Claimed = record { delivery = d; endpoint = e } in
        let became =
          dispatch_once_lem post http_error limit (record h { now = t }) d e w.event w.room w.keyed
            w.found (is_due-of_pending t d at w.status w.next_attempt_at late) there w.sent in
        (post t c w.event, refuses t c w.event refl, became.0, became.1)

-- A delivery that the receiver refuses at every attempt is exhausted at the sixth, in as many runs
-- as are left to it, and its endpoint is out of use, if every delivery fits in the limit, no two
-- share an id, its endpoint and event are there, the first run comes when it is due, and a day lies
-- between two runs.
pub exhausts :
    (post : ℕ → Claimed → OutboxRow → Reply) (http_error : ℕ → String) (limit : ℕ) (times : List ℕ)
    (h : Hooks) (d : DeliveryRow) (at : ℕ)
    → Waiting limit h d at
    → ((now : ℕ) (c : Claimed) (o : OutboxRow)
        → c.delivery.id ≡ d.id
        → is_ok (post now c o) ≡ false)
    → d.attempt + length times ≡ 6
    → 1 ≤ length times
    → Spaced at times
    → (last : DeliveryRow) × (get_delivery d.id (runs post http_error limit times h) ≡ some last)
      × (last.status ≡ exhausted)
      × (last.attempt ≡ 6)
      × Closed d.endpoint_id (runs post http_error limit times h)
unfolding runs written_row verdict event_row
exhausts post http_error limit [] h d at w refuses left some_left spaced = absurd (omega arith)
exhausts post http_error limit (t ∷ []) h d at w refuses left some_left (late, spaced) =
    let (reply, refused, found, either) = round post http_error limit d refuses h at t w late in
    let over : backoff (d.attempt + 1) ≡ none = ap backoff (omega arith) ∙ backoff_over in
    let (status, after) = refused_last http_error t reply refused (d.attempt + 1) d over in
    (
      _,
      found,
      after,
      omega arith,
      elim either [ inl more ↦ absurd (cc (rw status at more)) | inr closed ↦ closed ],
    )
exhausts post http_error limit (t ∷ u ∷ ts) h d at w refuses left some_left (late, spaced) =
    let (reply, refused, found, either) = round post http_error limit d refuses h at t w late in
    let (s, more, _, short) = backoff_more (d.attempt + 1) (omega arith) (omega arith) in
    let (status, next) = refused_more http_error t reply refused (d.attempt + 1) d s more in
    let k = run_at-Keeps post http_error limit t h in
    exhausts post http_error limit (u ∷ ts) (run_at post http_error limit t h)
      (written_row t (verdict http_error (d.attempt + 1) reply) d) (t + seconds s)
      (record {
        room = rw k.count w.room;
        keyed = k.keyed w.keyed;
        found = found;
        status = status;
        next_attempt_at = next;
        registered = k.registered d.endpoint_id ∙ w.registered;
        event = w.event;
        sent = ap (find (λ o. o.event_id == d.event_id)) k.outbox ∙ w.sent;
      })
      refuses (omega arith) (omega arith)
      (Spaced-earlier (t + seconds s) (t + seconds 86400) (u ∷ ts) (omega arith) spaced)
