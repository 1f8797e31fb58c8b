-- ===== src/Tests/Requests.antt =====
-- A transfer over the API, and the same request again (src/ledgerflow/api/idempotency.py).
use ledgerflow.Prelude.{
  ℕ, String, ◌≡◌, refl, true, some, [], ◌∷◌, ◌+◌, String-discrete, any, update_where,
}
use ledgerflow.Exception.{ok, err, idempotency_key_reuse}
use ledgerflow.Adapters.Tx.{Tx}
use ledgerflow.Api.Idempotency.{
  Settings, Attempt, Store, completed, serve, idempotent, claim, complete, complete_key,
}
use ledgerflow.Api.Idempotency.Retry.{serve_again}
use ledgerflow.Tests.Domain.{apart}
use ledgerflow.Tests.Posts.{ctx}

abbrev settings : Settings
settings = record { idempotency_lease_seconds = 30; idempotency_ttl_hours = 24 }

-- A small handler: it counts its calls, and answers with the count.
abbrev count : Tx ℕ (ℕ × String)
count n = ok ((n + 1, "r"), n + 1)

abbrev quiet : Store ℕ ℕ
quiet = record { idempotency_keys = []; rest = 6; now = 100 }

abbrev first : Attempt
first = record { record_id = "idem_1"; lock_available = true }

abbrev second : Attempt
second = record { record_id = "idem_2"; lock_available = true }

abbrev served : Store ℕ ℕ
served = record {
  idempotency_keys =
      (record {
        id = "idem_1";
        tenant_id = "acme";
        api_key_id = "k";
        idempotency_key = "order-7";
        request_hash = "h1";
        status = completed;
        response_code = some 201;
        response_body = some 7;
        resource_id = some "r";
        lease_expires_at = 30000100;
        expires_at = 86400000100;
      })
      ∷ [];
  rest = 7;
  now = 100;
}

served_ran : serve 0 settings count first ctx (some "order-7") "h1" quiet ≡ ok (7, served)
unfolding serve idempotent claim complete complete_key any update_where String-discrete
served_ran = refl

serve_again_example :
    (serve 0 settings count second ctx (some "order-7") "h1" served ≡ ok (7, served))
    × (serve 0 settings count second ctx (some "order-7") "h2" served ≡ err idempotency_key_reuse)
unfolding String-discrete
serve_again_example =
    serve_again 0 settings ctx "order-7" "h1" count count first second "h2" quiet served 7 refl
      (apart refl) served_ran
