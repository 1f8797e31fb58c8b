-- ===== src/Workers/Webhooks/Dispatch.antt =====
-- What dispatch_once of src/ledgerflow/workers/webhooks.py makes of one delivery among many.
use ledgerflow.Prelude.{
  ℕ, ◌+◌, String, ◌≡◌, refl, sym, subst, ap, ◌∙◌, true, false, Option, none, some, List, [], ◌∷◌,
  ◌==◌, eq_of_test, eq_comm, Bool-cases, ◌⊎◌, inl, inr, any, find, find-update_where,
  find-update_where_other, find-holds, any-of_find, length, ◌≤◌, arith,
}
use ledgerflow.Adapters.Tables.{OutboxRow}
use ledgerflow.Adapters.Webhooks.{
  Hooks, EndpointRow, DeliveryRow, Claimed, is_exhausted, written_row, get_delivery, get_endpoint,
  claim_due, is_due,
}
use ledgerflow.Adapters.Webhooks.Claims.{
  claims, is_delivery, IsKeyed, IsDistinct, claim_due-IsDistinct, find-claim_due,
}
use ledgerflow.Workers.Webhooks.Settled.{
  verdict, settle_lem, Keeps, Keeps-refl, Keeps-trans, settled-Keeps, settled-deliveries,
  settled_closes, Closed, is_registered,
}
use ledgerflow.Workers.Webhooks.{Reply, Tally, event_row, dispatch_one, dispatch_all, dispatch_once}

module _ (post : ℕ → Claimed → OutboxRow → Reply) (http_error : ℕ → String) where
  dispatch_one-Keeps :
      (c : Claimed) (o : Option OutboxRow) (h : Hooks) (t : Tally)
      → Keeps h (dispatch_one post http_error c o (h, t)).0
  unfolding dispatch_one
  dispatch_one-Keeps c none h t = Keeps-refl h
  dispatch_one-Keeps c (some event) h t =
      subst (Keeps h) (sym (settle_lem http_error c _ _ h t)) (settled-Keeps c _ h)

  pub dispatch_all-Keeps :
      (cs : List Claimed) (s : Hooks × Tally) → Keeps s.0 (dispatch_all post http_error cs s).0
  unfolding dispatch_all
  dispatch_all-Keeps [] s = Keeps-refl s.0
  dispatch_all-Keeps (c ∷ cs) (h, t) =
      Keeps-trans _ _ _ (dispatch_one-Keeps c (event_row c.delivery.event_id h) h t)
        (dispatch_all-Keeps cs _)

  -- Another row than the one that is claimed is left as it is.
  dispatch_one_other :
      (x : String) (c : Claimed) (o : Option OutboxRow) (h : Hooks) (t : Tally)
      → claims x c ≡ false
      → get_delivery x (dispatch_one post http_error c o (h, t)).0 ≡ get_delivery x h
  unfolding dispatch_one get_delivery written_row
  dispatch_one_other x c none h t other = refl
  dispatch_one_other x c (some event) h t other =
      ap (λ (k : Hooks). get_delivery x k) (settle_lem http_error c _ _ h t)
      ∙ ap (find (is_delivery x)) (settled-deliveries c _ h)
      ∙ find-update_where_other (is_delivery x) (is_delivery c.delivery.id) _ h.deliveries
          (λ d. refl)
          (λ d p.
            ap (λ (i : String). i == c.delivery.id) (eq_of_test p)
            ∙ eq_comm x c.delivery.id
            ∙ other)

  dispatch_all_other :
      (x : String) (cs : List Claimed) (s : Hooks × Tally)
      → any (claims x) cs ≡ false
      → get_delivery x (dispatch_all post http_error cs s).0 ≡ get_delivery x s.0
  unfolding dispatch_all any
  dispatch_all_other x [] s other = refl
  dispatch_all_other x (c ∷ cs) (h, t) other =
      dispatch_all_other x cs _ (ground arith)
      ∙ dispatch_one_other x c (event_row c.delivery.event_id h) h t (ground arith)

  -- The row that is claimed is written by the verdict on the reply.
  dispatch_one_own :
      (c : Claimed) (event : OutboxRow) (h : Hooks) (t : Tally) (d : DeliveryRow)
      → get_delivery c.delivery.id h ≡ some d
      → get_delivery c.delivery.id (dispatch_one post http_error c (some event) (h, t)).0
        ≡ some
            (written_row h.now (verdict http_error (c.delivery.attempt + 1) (post h.now c event)) d)
  unfolding dispatch_one get_delivery written_row
  dispatch_one_own c event h t d found =
      ap (λ (k : Hooks). get_delivery c.delivery.id k) (settle_lem http_error c _ _ h t)
      ∙ ap (find (is_delivery c.delivery.id)) (settled-deliveries c _ h)
      ∙ find-update_where (is_delivery c.delivery.id) (is_delivery c.delivery.id) _ h.deliveries d
          (λ d. refl) (find-holds (is_delivery c.delivery.id) h.deliveries d found) found

  -- What a claimed delivery becomes by a reply at a time: the row that the verdict writes, and, where
  -- that exhausts it, an endpoint that is out of use.
  abbrev pub Became : String → ℕ → Claimed → OutboxRow → Hooks → Type 0
  Became x now c event h =
      let w = verdict http_error (c.delivery.attempt + 1) (post now c event) in
      (get_delivery x h ≡ some (written_row now w c.delivery))
      × ((is_exhausted w.status ≡ false) ⊎ Closed c.delivery.endpoint_id h)

  dispatch_one_closes :
      (c : Claimed) (event : OutboxRow) (h : Hooks) (t : Tally)
      → is_registered c.delivery.endpoint_id h ≡ true
      → is_exhausted (verdict http_error (c.delivery.attempt + 1) (post h.now c event)).status
        ≡ true
      → Closed c.delivery.endpoint_id (dispatch_one post http_error c (some event) (h, t)).0
  unfolding dispatch_one
  dispatch_one_closes c event h t there over =
      subst (Closed c.delivery.endpoint_id) (sym (settle_lem http_error c _ _ h t))
        (settled_closes c _ h there over)

  dispatch_all_head :
      (c : Claimed) (cs : List Claimed) (h : Hooks) (t : Tally) (event : OutboxRow)
      → any (claims c.delivery.id) cs ≡ false
      → event_row c.delivery.event_id h ≡ some event
      → get_delivery c.delivery.id h ≡ some c.delivery
      → is_registered c.delivery.endpoint_id h ≡ true
      → Became c.delivery.id h.now c event (dispatch_all post http_error (c ∷ cs) (h, t)).0
  unfolding dispatch_all
  dispatch_all_head c cs h t event new sent found there =
      let first = dispatch_one post http_error c (some event) (h, t) in
      subst
        (λ o.
          Became c.delivery.id h.now c event
            (dispatch_all post http_error cs (dispatch_one post http_error c o (h, t))).0)
        (sym sent)
        (
          dispatch_all_other c.delivery.id cs first new
              ∙ dispatch_one_own c event h t c.delivery found,
          elim (Bool-cases (
              is_exhausted
                (verdict http_error (c.delivery.attempt + 1) (post h.now c event)).status)) [
                  | inl over ↦ inr (
                      (dispatch_all-Keeps cs first).closed c.delivery.endpoint_id
                        (dispatch_one_closes c event h t there over))
                  | inr more ↦ inl more
                ],
        )

  pub dispatch_all_own :
      (x : String) (cs : List Claimed) (h : Hooks) (t : Tally) (c : Claimed) (event : OutboxRow)
      → IsDistinct cs
      → find (claims x) cs ≡ some c
      → event_row c.delivery.event_id h ≡ some event
      → get_delivery x h ≡ some c.delivery
      → is_registered c.delivery.endpoint_id h ≡ true
      → Became x h.now c event (dispatch_all post http_error cs (h, t)).0
  unfolding dispatch_all find event_row
  dispatch_all_own x [] h t c event distinct claimed sent found there = absurd (cc claimed)
  dispatch_all_own x (y ∷ ys) h t c event (new, distinct) claimed sent found there =
      elim (Bool-cases (claims x y)) [
        | inl here ↦
            let same : y ≡ c = cc (rw here at claimed) in
            let name : x ≡ c.delivery.id =
              sym (eq_of_test here) ∙ ap (λ (z : Claimed). z.delivery.id) same in
            subst (λ z. Became x h.now c event (dispatch_all post http_error (z ∷ ys) (h, t)).0)
              (sym same)
              (subst (λ i. Became i h.now c event (dispatch_all post http_error (c ∷ ys) (h, t)).0)
                (sym name)
                (dispatch_all_head c ys h t event
                  (ap (λ (z : Claimed). any (claims z.delivery.id) ys) (sym same) ∙ new) sent
                  (ap (λ i. get_delivery i h) (sym name) ∙ found) there))
        | inr other ↦
            let s1 = dispatch_one post http_error y (event_row y.delivery.event_id h) (h, t) in
            let k = dispatch_one-Keeps y (event_row y.delivery.event_id h) h t in
            subst (λ now. Became x now c event (dispatch_all post http_error ys s1).0) k.now
              (dispatch_all_own x ys s1.0 s1.1 c event distinct (rw other at claimed)
                (ap (find (λ o. o.event_id == c.delivery.event_id)) k.outbox ∙ sent)
                (dispatch_one_other x y (event_row y.delivery.event_id h) h t other ∙ found)
                (k.registered c.delivery.endpoint_id ∙ there))
      ]

  pub dispatch_once_lem :
      (limit : ℕ) (h : Hooks) (d : DeliveryRow) (e : EndpointRow) (event : OutboxRow)
      → length h.deliveries ≤ limit
      → IsKeyed h.deliveries
      → get_delivery d.id h ≡ some d
      → is_due h.now d ≡ true
      → get_endpoint d.endpoint_id h ≡ some e
      → event_row d.event_id h ≡ some event
      → Became d.id h.now
          (record { delivery = d; endpoint = e })
          event
          (dispatch_once post http_error limit h).0
  unfolding dispatch_once get_endpoint
  dispatch_once_lem limit h d e event room keyed found due there sent =
      dispatch_all_own d.id (claim_due limit h) h _ (record { delivery = d; endpoint = e }) event
        (claim_due-IsDistinct limit h room keyed)
        (find-claim_due limit h room keyed d.id d e found due there) sent found
        (any-of_find (λ e. e.id == d.endpoint_id) h.endpoints e there)
