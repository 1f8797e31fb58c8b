-- ===== src/Workers/Webhooks/Settled.antt =====
-- The state that dispatch_once of src/ledgerflow/workers/webhooks.py leaves after one delivery.
use ledgerflow.Prelude.{
  ℕ, String, ◌≡◌, refl, sym, ap, ◌∙◌, Bool, true, false, Option, none, some, List, [], ◌∷◌, ◌==◌,
  eq_of_test, if◌then◌else◌, Bool-cases, Option-cases, inl, inr, any, update_where,
  find-update_where, find-update_where_other, any-update_where, length-update_where, find-of_any,
  find-holds, length,
}
use ledgerflow.Adapters.Webhooks.{
  Hooks, EndpointRow, DeliveryRow, Claimed, Written, DeliveryStatus, is_exhausted, pending,
  succeeded, exhausted, disabled, written_row, get_endpoint, record_attempt, disable_endpoint,
}
use ledgerflow.Adapters.Webhooks.Claims.{is_delivery, IsKeyed}
use ledgerflow.Workers.Webhooks.{
  Reply, Tally, is_ok, backoff, code_of, body_of, error_of, settle, settle_success, settle_failure,
}

-- The status and the delay that follow from a reply and the schedule.
unfoldable pub next_status : Reply → Option ℕ → DeliveryStatus × Option ℕ
next_status reply delay =
    if is_ok reply
    then (succeeded, none)
    else elim delay [ none ↦ (exhausted, none) | some s ↦ (pending, some s) ]

-- The state after it: an exhausted delivery takes its endpoint out of use.
unfoldable pub settled : Claimed → Written → Hooks → Hooks
settled c w h =
    let after = record_attempt c.delivery.id w h in
    if is_exhausted w.status then disable_endpoint c.delivery.endpoint_id after else after

module _ (http_error : ℕ → String) where
  -- What an attempt writes for its reply.
  unfoldable pub verdict : ℕ → Reply → Written
  verdict attempt reply = record {
    attempt = attempt;
    status = (next_status reply (backoff attempt)).0;
    response_code = code_of reply;
    response_body = body_of reply;
    error = if is_ok reply then none else error_of http_error reply;
    next_attempt_seconds = (next_status reply (backoff attempt)).1;
  }

  pub settle_lem :
      (c : Claimed) (attempt : ℕ) (reply : Reply) (h : Hooks) (t : Tally)
      → (settle http_error c attempt reply (h, t)).0 ≡ settled c (verdict attempt reply) h
  unfolding settle settle_success settle_failure verdict next_status settled
  settle_lem c attempt reply h t = elim (Bool-cases (is_ok reply)) [
    | inl fine ↦ rw fine refl
    | inr refused ↦ elim (Option-cases (backoff attempt)) [
      | inl over ↦ rw refused (rw over refl)
      | inr (delay, more) ↦ rw refused (rw more refl)
    ]
  ]

-- An endpoint that is out of use.
abbrev pub Closed : String → Hooks → Type 0
Closed y h = (e : EndpointRow) × (get_endpoint y h ≡ some e) × (e.status ≡ disabled)

abbrev pub is_registered : String → Hooks → Bool
is_registered y h = any (λ e. e.id == y) h.endpoints

-- What the dispatch leaves alone: the events, the time, the keys, and endpoints that are out of use.
pub record Keeps (h h' : Hooks) : Type 0 where
  pub outbox : h'.outbox ≡ h.outbox
  pub now : h'.now ≡ h.now
  pub keyed : IsKeyed h.deliveries → IsKeyed h'.deliveries
  pub count : length h'.deliveries ≡ length h.deliveries
  pub registered : (y : String) → is_registered y h' ≡ is_registered y h
  pub closed : (y : String) → Closed y h → Closed y h'

pub Keeps-refl : (h : Hooks) → Keeps h h
Keeps-refl h = record {
  outbox = refl;
  now = refl;
  keyed = λ k. k;
  count = refl;
  registered = λ y. refl;
  closed = λ y c. c;
}

pub Keeps-trans : (a b c : Hooks) → Keeps a b → Keeps b c → Keeps a c
Keeps-trans a b c f g = record {
  outbox = g.outbox ∙ f.outbox;
  now = g.now ∙ f.now;
  keyed = λ k. g.keyed (f.keyed k);
  count = g.count ∙ f.count;
  registered = λ y. g.registered y ∙ f.registered y;
  closed = λ y k. g.closed y (f.closed y k);
}

update_where-IsKeyed :
    (q : DeliveryRow → Bool) (f : DeliveryRow → DeliveryRow) (ds : List DeliveryRow)
    → ((d : DeliveryRow) → (f d).id ≡ d.id)
    → IsKeyed ds
    → IsKeyed (update_where q f ds)
unfolding update_where
update_where-IsKeyed q f [] keeps keyed = tt
update_where-IsKeyed q f (d ∷ ds) keeps (new, keyed) = (
  ap (λ (x : String). any (is_delivery x) (update_where q f ds)) (same (q d))
      ∙ any-update_where (is_delivery d.id) q f ds (λ e. ap (λ (x : String). x == d.id) (keeps e))
      ∙ new,
  update_where-IsKeyed q f ds keeps keyed,
)
  where
    same : (b : Bool) → (if b then f d else d).id ≡ d.id
    same true = keeps d
    same false = refl

record_attempt-Keeps : (x : String) (w : Written) (h : Hooks) → Keeps h (record_attempt x w h)
unfolding record_attempt written_row get_endpoint
record_attempt-Keeps x w h = record {
  outbox = refl;
  now = refl;
  keyed = update_where-IsKeyed (is_delivery x) (written_row h.now w) h.deliveries (λ d. refl);
  count = length-update_where (is_delivery x) (written_row h.now w) h.deliveries;
  registered = λ y. refl;
  closed = λ y c. c;
}

disable_endpoint_closes :
    (x : String) (h : Hooks) → is_registered x h ≡ true → Closed x (disable_endpoint x h)
unfolding disable_endpoint get_endpoint
disable_endpoint_closes x h there =
    let (e, found) = find-of_any (λ e. e.id == x) h.endpoints there in
    (
      record e { status = disabled },
      find-update_where (λ e. e.id == x) (λ e. e.id == x) (λ e. record e { status = disabled })
          h.endpoints e (λ y. refl) (find-holds (λ e. e.id == x) h.endpoints e found) found,
      refl,
    )

disable_endpoint-Closed : (x y : String) (h : Hooks) → Closed y h → Closed y (disable_endpoint x h)
unfolding disable_endpoint get_endpoint
disable_endpoint-Closed x y h (e, found, off) = elim (Bool-cases (e.id == x)) [
  | inl hit ↦ (
    record e { status = disabled },
    find-update_where (λ e. e.id == y) (λ e. e.id == x) (λ e. record e { status = disabled })
        h.endpoints e (λ z. refl) hit found,
    refl,
  )
  | inr miss ↦ (
    e,
    find-update_where_other (λ e. e.id == y) (λ e. e.id == x) (λ e. record e { status = disabled })
          h.endpoints (λ z. refl) (λ z p. other z p miss)
        ∙ found,
    off,
  )
]
  where
    other : (z : EndpointRow) → (z.id == y) ≡ true → (e.id == x) ≡ false → (z.id == x) ≡ false
    other z p miss =
        ap (λ (i : String). i == x)
          (eq_of_test p ∙ sym (eq_of_test (find-holds (λ e. e.id == y) h.endpoints e found)))
        ∙ miss

disable_endpoint-Keeps : (x : String) (h : Hooks) → Keeps h (disable_endpoint x h)
unfolding disable_endpoint
disable_endpoint-Keeps x h = record {
  outbox = refl;
  now = refl;
  keyed = λ k. k;
  count = refl;
  registered = λ y. any-update_where (λ e. e.id == y) (λ e. e.id == x) _ h.endpoints (λ e. refl);
  closed = λ y c. disable_endpoint-Closed x y h c;
}

pub settled-Keeps : (c : Claimed) (w : Written) (h : Hooks) → Keeps h (settled c w h)
unfolding settled
settled-Keeps c w h = elim (Bool-cases (is_exhausted w.status)) [
  | inl over ↦
      rw over
        (Keeps-trans _ _ _ (record_attempt-Keeps c.delivery.id w h) (disable_endpoint-Keeps _ _))
  | inr more ↦ rw more (record_attempt-Keeps c.delivery.id w h)
]

pub settled-deliveries :
    (c : Claimed) (w : Written) (h : Hooks)
    → (settled c w h).deliveries
      ≡ update_where (is_delivery c.delivery.id) (written_row h.now w) h.deliveries
unfolding settled record_attempt disable_endpoint
settled-deliveries c w h = elim (Bool-cases (is_exhausted w.status)) [
  | inl over ↦ rw over refl
  | inr more ↦ rw more refl
]

pub settled_closes :
    (c : Claimed) (w : Written) (h : Hooks)
    → is_registered c.delivery.endpoint_id h ≡ true
    → is_exhausted w.status ≡ true
    → Closed c.delivery.endpoint_id (settled c w h)
unfolding settled record_attempt
settled_closes c w h there over =
    rw over
      (disable_endpoint_closes c.delivery.endpoint_id (record_attempt c.delivery.id w h) there)
