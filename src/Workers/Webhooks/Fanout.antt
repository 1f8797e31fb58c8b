-- ===== src/Workers/Webhooks/Fanout.antt =====
-- What WebhookFanout.handle of src/ledgerflow/workers/webhooks.py queues for an event.
use ledgerflow.Prelude.{
  ℕ, suc, ◌<◌, ◌≤◌, String, ◌≡◌, refl, sym, ap, ◌∙◌, Bool, true, false, none, some, ◌&&◌, ◌||◌,
  if◌then◌else◌, List, [], ◌∷◌, ◌++◌, ◌==◌, eq_self, Bool-cases, inl, inr, any, select, All, arith,
}
use mathlib.Core.List.{append-nil, append_assoc}
use ledgerflow.Exception.{ok}
use ledgerflow.Adapters.Tx.{>>=-of_ok}
use ledgerflow.Adapters.Tables.{OutboxRow}
use ledgerflow.Adapters.Webhooks.{
  Hooks, enabled, disabled, pending, subscribes, EndpointRow, DeliveryRow, new_delivery, enqueue,
  endpoints_for,
}
use ledgerflow.Workers.Webhooks.{event_row, enqueue_all, fan_out, handle}

-- The enabled endpoints of a tenant and mode that name the type of the event, or "*", in their order.
unfoldable pub subscribed : String → String → String → List EndpointRow → List EndpointRow
subscribed tenant_id mode event_type [] = []
subscribed tenant_id mode event_type (e ∷ es) =
    if (e.tenant_id == tenant_id)
      && ((e.mode == mode)
          && (elim e.status [ enabled ↦ true | disabled ↦ false ]
              && (any (λ name. name == event_type) e.enabled_events
                  || any (λ name. name == "*") e.enabled_events)))
    then e ∷ subscribed tenant_id mode event_type es
    else subscribed tenant_id mode event_type es

-- One pending delivery for each endpoint, due at once, with the ids from the n-th on.
unfoldable pub queued : (ℕ → String) → ℕ → ℕ → String → List EndpointRow → List DeliveryRow
queued new_id n now event_id [] = []
queued new_id n now event_id (e ∷ es) =
    (record {
      id = new_id n;
      endpoint_id = e.id;
      event_id = event_id;
      attempt = 0;
      status = pending;
      response_code = none;
      response_body = none;
      error = none;
      next_attempt_at = some now;
      created_at = now;
      completed_at = none;
    })
    ∷ queued new_id (suc n) now event_id es

-- The ids from the n-th on name no row of a table.
abbrev pub AreNew : (ℕ → String) → ℕ → List DeliveryRow → Type 0
AreNew new_id n ds = (m : ℕ) → n ≤ m → any (λ d. d.id == new_id m) ds ≡ false

abbrev pub AreDifferent : (ℕ → String) → Type 0
AreDifferent new_id = (m n : ℕ) → m < n → (new_id m == new_id n) ≡ false

abbrev pub HasEndpoint : Hooks → EndpointRow → Type 0
HasEndpoint h e = any (λ x. x.id == e.id) h.endpoints ≡ true

any-behind :
    (p : EndpointRow → Bool) (e : EndpointRow) (es : List EndpointRow)
    → any p es ≡ true
    → any p (e ∷ es) ≡ true
unfolding any
any-behind p e es h = elim (Bool-cases (p e)) [ inl here ↦ rw here refl | inr _ ↦ ground arith ]

select-registered :
    (p : EndpointRow → Bool) (all es : List EndpointRow)
    → ((e : EndpointRow) → any (λ x. x.id == e.id) es ≡ true → any (λ x. x.id == e.id) all ≡ true)
    → All (λ e. any (λ x. x.id == e.id) all ≡ true) (select p es)
unfolding select any
select-registered p all [] h = tt
select-registered p all (e ∷ es) h = elim (Bool-cases (p e)) [
  | inl picked ↦ rw picked (
    h e (rw (eq_self e.id) refl),
    select-registered p all es (λ x there. h x (any-behind _ e es there)),
  )
  | inr passed ↦ rw passed (select-registered p all es (λ x there. h x (any-behind _ e es there)))
]

enqueue_lem :
    (delivery_id event_id : String) (e : EndpointRow) (h : Hooks)
    → any (λ d. d.id == delivery_id) h.deliveries ≡ false
    → HasEndpoint h e
    → enqueue delivery_id e.id event_id h
      ≡ ok (
        new_delivery h.now delivery_id e.id event_id,
        record h { deliveries = h.deliveries ++ new_delivery h.now delivery_id e.id event_id ∷ [] },
      )
unfolding enqueue
enqueue_lem delivery_id event_id e h new there = rw new (rw there refl)

any-append_one :
    (p : DeliveryRow → Bool) (ds : List DeliveryRow) (d : DeliveryRow)
    → any p ds ≡ false
    → p d ≡ false
    → any p (ds ++ d ∷ []) ≡ false
unfolding any
any-append_one p [] d h k = rw k refl
any-append_one p (x ∷ ds) d h k = ground (arith, any-append_one p ds d)

enqueue_all_lem :
    (new_id : ℕ → String) (n : ℕ) (event_id : String) (es : List EndpointRow) (h : Hooks)
    → AreDifferent new_id
    → AreNew new_id n h.deliveries
    → All (HasEndpoint h) es
    → enqueue_all new_id n event_id es h
      ≡ ok (tt, record h { deliveries = h.deliveries ++ queued new_id n h.now event_id es })
unfolding enqueue_all queued
enqueue_all_lem new_id n event_id [] h different new there =
    ap (λ (ds : List DeliveryRow). ok (tt, record h { deliveries = ds }))
      (sym (append-nil h.deliveries))
enqueue_all_lem new_id n event_id (e ∷ es) h different new (here, there) =
    let row : DeliveryRow = new_delivery h.now (new_id n) e.id event_id in
    >>=-of_ok (enqueue (new_id n) e.id event_id) _ h
      (enqueue_lem (new_id n) event_id e h (new n (omega arith)) here)
    ∙ enqueue_all_lem new_id (suc n) event_id es
        (record h { deliveries = h.deliveries ++ row ∷ [] }) different
        (λ m late.
          any-append_one _ h.deliveries row (new m (omega arith)) (different n m (omega arith)))
        there
    ∙ ap (λ (ds : List DeliveryRow). ok (tt, record h { deliveries = ds }))
        (append_assoc h.deliveries (row ∷ []) (queued new_id (suc n) h.now event_id es))

select-subscribed :
    (tenant_id mode event_type : String) (es : List EndpointRow)
    → select
        (λ e.
          e.tenant_id == tenant_id
          && (e.mode == mode
              && ((elim e.status as (λ x. Bool) [ enabled ↦ true | disabled ↦ false ])
                  && subscribes event_type e)))
        es
      ≡ subscribed tenant_id mode event_type es
unfolding select subscribed
select-subscribed tenant_id mode event_type [] = refl
select-subscribed tenant_id mode event_type (e ∷ es) =
    ap
      (λ (rest : List EndpointRow).
        if e.tenant_id == tenant_id
          && (e.mode == mode
              && ((elim e.status as (λ x. Bool) [ enabled ↦ true | disabled ↦ false ])
                  && subscribes event_type e))
        then e ∷ rest
        else rest)
      (select-subscribed tenant_id mode event_type es)

-- If the ids it mints are new and different and the event is in the outbox, the handler queues for
-- it one pending delivery without an attempt, due at once, for each enabled endpoint of the event's
-- tenant and mode that names its type or "*", in the order of the endpoints and behind the
-- deliveries that are there, and changes nothing else.
pub handle-queued :
    (new_id : ℕ → String) (event_id event_type : String) (h : Hooks) (row : OutboxRow)
    → AreDifferent new_id
    → AreNew new_id 0 h.deliveries
    → event_row event_id h ≡ some row
    → handle new_id event_id event_type h
      ≡ ok (
        tt,
        record h {
          deliveries =
              h.deliveries
              ++ queued new_id 0 h.now event_id
                  (subscribed row.tenant_id row.mode event_type h.endpoints);
        },
      )
unfolding handle fan_out endpoints_for
handle-queued new_id event_id event_type h row different new sent = rw sent (
    enqueue_all_lem new_id 0 event_id (endpoints_for row.tenant_id row.mode event_type h) h
      different new (select-registered _ h.endpoints h.endpoints (λ e there. there))
    ∙ ap
        (λ (es : List EndpointRow).
          ok (tt, record h { deliveries = h.deliveries ++ queued new_id 0 h.now event_id es }))
        (select-subscribed row.tenant_id row.mode event_type h.endpoints))
