-- ===== src/Tests/Webhooks.antt =====
-- Runs of src/ledgerflow/workers/webhooks.py on two endpoints, of which one fails.
use ledgerflow.Prelude.{
  ℕ, String, ◌≡◌, refl, true, false, none, some, List, [], ◌∷◌, ◌++◌, All, arith, String-discrete,
  any, find, select,
}
use ledgerflow.Exception.{ok}
use ledgerflow.Adapters.Tables.{OutboxRow, Resource, posted}
use ledgerflow.Adapters.Webhooks.{
  Hooks, EndpointRow, DeliveryRow, Claimed, enabled, pending, succeeded, exhausted, new_delivery,
  enqueue, endpoints_for, get_delivery, retry,
}
use ledgerflow.Adapters.Webhooks.Claims.{IsKeyed}
use ledgerflow.Workers.Webhooks.{
  Reply, answered, handle, fan_out, enqueue_all, event_row, is_ok, dispatch_once,
}
use ledgerflow.Workers.Webhooks.Fanout.{queued, subscribed, handle-queued}
use ledgerflow.Workers.Webhooks.Settled.{Closed}
use ledgerflow.Workers.Webhooks.Exhausts.{Waiting, runs, exhausts}
use ledgerflow.Workers.Webhooks.Coherent.{IsCoherent, operations-IsCoherent}
use ledgerflow.Tests.Ids.{mark, mark_different}

abbrev endpoint : String → List String → EndpointRow
endpoint id events = record {
  id = id;
  tenant_id = "acme";
  mode = "live";
  url = "https://example.com/hook";
  secret_hash = "0f";
  enabled_events = events;
  status = enabled;
}

abbrev resource : Resource
resource = record {
  txn = record {
    id = "txn_1";
    tenant_id = "acme";
    mode = "live";
    kind = "transfer";
    status = posted;
    effective_at = record { aware = true; instant = 5 };
    reverses_id = none;
    metadata = [];
  };
  entries = [];
}

abbrev event : OutboxRow
event = record {
  id = 1;
  event_id = "evt_1";
  tenant_id = "acme";
  mode = "live";
  partition_key = "cash";
  event_type = "transaction.created";
  payload = resource;
  published = true;
  attempts = 1;
}

-- One endpoint takes every event, one takes another type, and one takes this type.
abbrev hooks : List DeliveryRow → Hooks
hooks deliveries = record {
  endpoints =
      endpoint "we_1" ("*" ∷ [])
      ∷ endpoint "we_2" ("transaction.reversed" ∷ [])
      ∷ endpoint "we_3" ("transaction.created" ∷ [])
      ∷ [];
  deliveries = deliveries;
  outbox = event ∷ [];
  now = 1000;
}

handle-queued_example :
    handle mark "evt_1" "transaction.created" (hooks [])
    ≡ ok (
      tt,
      record (hooks []) {
        deliveries =
            []
            ++ queued mark 0 1000 "evt_1"
                (subscribed "acme" "live" "transaction.created" (hooks []).endpoints);
      },
    )
unfolding any event_row find String-discrete
handle-queued_example =
    handle-queued mark "evt_1" "transaction.created" (hooks []) event mark_different
      (λ m late. refl) refl

queued_example :
    queued mark 0 1000 "evt_1" (subscribed "acme" "live" "transaction.created" (hooks []).endpoints)
    ≡ new_delivery 1000 "id" "we_1" "evt_1" ∷ new_delivery 1000 "xid" "we_3" "evt_1" ∷ []
unfolding queued subscribed any String-discrete
queued_example = refl

-- A delivery that failed four times, with one that succeeded before it.
abbrev done : DeliveryRow
done = record {
  id = "whd_1";
  endpoint_id = "we_1";
  event_id = "evt_1";
  attempt = 1;
  status = succeeded;
  response_code = some 200;
  response_body = some "ok";
  error = none;
  next_attempt_at = none;
  created_at = 3;
  completed_at = some 4;
}

abbrev failing : DeliveryRow
failing = record {
  id = "whd_2";
  endpoint_id = "we_3";
  event_id = "evt_1";
  attempt = 4;
  status = pending;
  response_code = some 500;
  response_body = some "no";
  error = some "HTTP 500";
  next_attempt_at = some 900;
  created_at = 3;
  completed_at = none;
}

abbrev refuse : ℕ → Claimed → OutboxRow → Reply
refuse now c o = answered 503 "busy"

abbrev http_error : ℕ → String
http_error code = "HTTP 503"

both-IsKeyed : IsKeyed (done ∷ failing ∷ [])
unfolding any String-discrete
both-IsKeyed = (refl, (refl, tt))

waiting : Waiting 50 (hooks (done ∷ failing ∷ [])) failing 900
unfolding get_delivery event_row find any String-discrete
waiting = record {
  room = omega arith;
  keyed = both-IsKeyed;
  found = refl;
  status = refl;
  next_attempt_at = refl;
  registered = refl;
  event = event;
  sent = refl;
}

refuse_always :
    (now : ℕ) (c : Claimed) (o : OutboxRow)
    → c.delivery.id ≡ "whd_2"
    → is_ok (refuse now c o) ≡ false
unfolding is_ok
refuse_always now c o own = refl

exhausts_example :
    (last : DeliveryRow) × (get_delivery "whd_2"
        (runs refuse http_error 50 (1000 ∷ 86400001000 ∷ []) (hooks (done ∷ failing ∷ [])))
      ≡ some last)
    × (last.status ≡ exhausted)
    × (last.attempt ≡ 6)
    × Closed "we_3"
        (runs refuse http_error 50 (1000 ∷ 86400001000 ∷ []) (hooks (done ∷ failing ∷ [])))
exhausts_example =
    exhausts refuse http_error 50 (1000 ∷ 86400001000 ∷ []) (hooks (done ∷ failing ∷ [])) failing
      900 waiting refuse_always refl (omega arith) (omega arith, (omega arith, tt))

both-IsCoherent : All IsCoherent (done ∷ failing ∷ [])
both-IsCoherent = ((refl, refl), ((refl, refl), tt))

-- The two new deliveries behind the ones that are there.
abbrev fanned_out : Hooks
fanned_out = hooks (
    done
    ∷ failing
    ∷ new_delivery 1000 "id" "we_1" "evt_1"
    ∷ new_delivery 1000 "xid" "we_3" "evt_1"
    ∷ [])

fan_out_ran :
    handle mark "evt_1" "transaction.created" (hooks (done ∷ failing ∷ [])) ≡ ok (tt, fanned_out)
unfolding handle fan_out enqueue_all enqueue endpoints_for select any event_row find String-discrete
fan_out_ran = refl

operations-IsCoherent_example :
    All IsCoherent fanned_out.deliveries
    × All IsCoherent (dispatch_once refuse http_error 50 (hooks (done ∷ failing ∷ []))).0.deliveries
    × All IsCoherent (retry "whd_1" (hooks (done ∷ failing ∷ []))).1.deliveries
operations-IsCoherent_example =
    operations-IsCoherent refuse http_error mark "evt_1" "transaction.created" "whd_1" 50
      (hooks (done ∷ failing ∷ [])) fanned_out both-IsCoherent fan_out_ran
