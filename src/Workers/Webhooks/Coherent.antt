-- ===== src/Workers/Webhooks/Coherent.antt =====
-- The columns of webhook_deliveries that go with a status, under the operations of
-- src/ledgerflow/workers/webhooks.py and `WebhookRepository`.
use ledgerflow.Prelude.{
  ℕ, suc, String, ◌≡◌, refl, sym, subst, Bool, true, false, Option, none, some, List, [], ◌∷◌, ◌==◌,
  if◌then◌else◌, Bool-cases, Option-cases, inl, inr, any, update_where, All, All-append,
}
use ledgerflow.Exception.{ok}
use ledgerflow.Adapters.Tx.{>>=-eq_ok}
use ledgerflow.Adapters.Tx.Reads.{ok-injective}
use ledgerflow.Adapters.Tables.{OutboxRow}
use ledgerflow.Adapters.Webhooks.{
  Hooks, EndpointRow, DeliveryRow, pending, succeeded, exhausted, Claimed, new_delivery,
  written_row, retry, enqueue, endpoints_for, claim_due,
}
use ledgerflow.Workers.Webhooks.{
  Reply, Tally, is_ok, backoff, event_row, enqueue_all, fan_out, handle, dispatch_one, dispatch_all,
  dispatch_once,
}
use ledgerflow.Workers.Webhooks.Settled.{verdict, next_status, settle_lem, settled-deliveries}

-- A column that is not NULL.
abbrev pub is_some : Option ℕ → Bool
is_some none = false
is_some (some n) = true

-- A delivery waits for an attempt exactly while it is pending, and has an end exactly when it is not.
abbrev pub IsCoherent : DeliveryRow → Type 0
IsCoherent d = elim d.status [
  | pending ↦ (is_some d.next_attempt_at ≡ true) × (is_some d.completed_at ≡ false)
  | succeeded ↦ (is_some d.next_attempt_at ≡ false) × (is_some d.completed_at ≡ true)
  | exhausted ↦ (is_some d.next_attempt_at ≡ false) × (is_some d.completed_at ≡ true)
]

All-update_where :
    (q : DeliveryRow → Bool) (f : DeliveryRow → DeliveryRow) (ds : List DeliveryRow)
    → ((d : DeliveryRow) → IsCoherent (f d))
    → All IsCoherent ds
    → All IsCoherent (update_where q f ds)
unfolding update_where
All-update_where q f [] makes all = tt
All-update_where q f (d ∷ ds) makes (here, there) = (go (q d), All-update_where q f ds makes there)
  where
    go : (b : Bool) → IsCoherent (if b then f d else d)
    go true = makes d
    go false = here

written_row-IsCoherent :
    (http_error : ℕ → String) (now n : ℕ) (reply : Reply) (d : DeliveryRow)
    → IsCoherent (written_row now (verdict http_error n reply) d)
unfolding written_row verdict next_status
written_row-IsCoherent http_error now n reply d = elim (Bool-cases (is_ok reply)) [
  | inl fine ↦ rw (fine, next_status) (refl, refl)
  | inr refused ↦ elim (Option-cases (backoff n)) [
    | inl over ↦ rw (refused, next_status) (rw (over, next_status) (refl, refl))
    | inr (delay, more) ↦ rw (refused, next_status) (rw (more, next_status) (refl, refl))
  ]
]

dispatch_one-IsCoherent :
    (post : ℕ → Claimed → OutboxRow → Reply) (http_error : ℕ → String) (c : Claimed)
    (o : Option OutboxRow) (h : Hooks) (t : Tally)
    → All IsCoherent h.deliveries
    → All IsCoherent (dispatch_one post http_error c o (h, t)).0.deliveries
unfolding dispatch_one
dispatch_one-IsCoherent post http_error c none h t all = all
dispatch_one-IsCoherent post http_error c (some event) h t all =
    subst (λ (k : Hooks). All IsCoherent k.deliveries) (sym (settle_lem http_error c _ _ h t))
      (subst (All IsCoherent) (sym (settled-deliveries c _ h)) (
        All-update_where _ _ h.deliveries (λ d. written_row-IsCoherent http_error h.now _ _ d) all))

dispatch_all-IsCoherent :
    (post : ℕ → Claimed → OutboxRow → Reply) (http_error : ℕ → String) (cs : List Claimed)
    (s : Hooks × Tally)
    → All IsCoherent s.0.deliveries
    → All IsCoherent (dispatch_all post http_error cs s).0.deliveries
unfolding dispatch_all
dispatch_all-IsCoherent post http_error [] s all = all
dispatch_all-IsCoherent post http_error (c ∷ cs) (h, t) all =
    dispatch_all-IsCoherent post http_error cs _
      (dispatch_one-IsCoherent post http_error c (event_row c.delivery.event_id h) h t all)

enqueue-IsCoherent :
    (delivery_id endpoint_id event_id : String) (h h' : Hooks) (row : DeliveryRow)
    → All IsCoherent h.deliveries
    → enqueue delivery_id endpoint_id event_id h ≡ ok (row, h')
    → All IsCoherent h'.deliveries
unfolding enqueue
enqueue-IsCoherent delivery_id endpoint_id event_id h h' row all done =
    elim (Bool-cases (any (λ d. d.id == delivery_id) h.deliveries)) [
      | inl taken ↦ absurd (cc (rw taken at done))
      | inr new ↦ elim (Bool-cases (any (λ e. e.id == endpoint_id) h.endpoints)) [
        | inl there ↦
            subst (λ (g : Hooks). All IsCoherent g.deliveries)
              (ok-injective (rw there at rw new at done)).1
              (All-append IsCoherent h.deliveries
                (new_delivery h.now delivery_id endpoint_id event_id ∷ []) all ((refl, refl), tt))
        | inr lost ↦ absurd (cc (rw lost at rw new at done))
      ]
    ]

enqueue_all-IsCoherent :
    (new_id : ℕ → String) (n : ℕ) (event_id : String) (es : List EndpointRow) (h h' : Hooks)
    → All IsCoherent h.deliveries
    → enqueue_all new_id n event_id es h ≡ ok (tt, h')
    → All IsCoherent h'.deliveries
unfolding enqueue_all
enqueue_all-IsCoherent new_id n event_id [] h h' all done =
    subst (λ (g : Hooks). All IsCoherent g.deliveries) (ok-injective done).1 all
enqueue_all-IsCoherent new_id n event_id (e ∷ es) h h' all done =
    let (row, h1, first, rest) = >>=-eq_ok (enqueue (new_id n) e.id event_id) _ h done in
    enqueue_all-IsCoherent new_id (suc n) event_id es h1 h'
      (enqueue-IsCoherent (new_id n) e.id event_id h h1 row all first) rest

fan_out-IsCoherent :
    (new_id : ℕ → String) (event_id event_type : String) (o : Option OutboxRow) (h : Hooks)
    → All IsCoherent h.deliveries
    → (h' : Hooks) → fan_out new_id event_id event_type o h ≡ ok (tt, h')
    → All IsCoherent h'.deliveries
unfolding fan_out
fan_out-IsCoherent new_id event_id event_type none h all h' done =
    subst (λ (g : Hooks). All IsCoherent g.deliveries) (ok-injective done).1 all
fan_out-IsCoherent new_id event_id event_type (some row) h all h' done =
    enqueue_all-IsCoherent new_id 0 event_id (endpoints_for row.tenant_id row.mode event_type h) h
      h' all done

-- The fan-out of an event, where it succeeds, the dispatch and a retry all keep it that a delivery
-- has a time for its next attempt exactly while it is pending, and a time of completion exactly
-- when it is not.
pub operations-IsCoherent :
    (post : ℕ → Claimed → OutboxRow → Reply) (http_error : ℕ → String) (new_id : ℕ → String)
    (event_id event_type delivery_id : String) (limit : ℕ) (h h' : Hooks)
    → All IsCoherent h.deliveries
    → handle new_id event_id event_type h ≡ ok (tt, h')
    → All IsCoherent h'.deliveries
      × All IsCoherent (dispatch_once post http_error limit h).0.deliveries
      × All IsCoherent (retry delivery_id h).1.deliveries
unfolding handle dispatch_once retry
operations-IsCoherent post http_error new_id event_id event_type delivery_id limit h h' all done = (
  fan_out-IsCoherent new_id event_id event_type (event_row event_id h) h all h' done,
  dispatch_all-IsCoherent post http_error (claim_due limit h) _ all,
  All-update_where _ _ h.deliveries (λ d. (refl, refl)) all,
)
