-- ===== src/Adapters/Webhooks/Claims.antt =====
-- The result of `WebhookRepository.claim_due` (src/ledgerflow/adapters/repositories.py), row by row.
use ledgerflow.Prelude.{
  ℕ, suc, ◌≤◌, String, ◌≡◌, refl, ap, ◌∙◌, Bool, true, false, ◌||◌, Option, some, List, [], ◌∷◌,
  length, leb, ◌==◌, if◌then◌else◌, Bool-cases, Option-cases, ◌⊎◌, inl, inr, any, find, take-all,
  arith,
}
use ledgerflow.Adapters.Webhooks.{
  Hooks, EndpointRow, DeliveryRow, Claimed, get_endpoint, get_delivery, is_due, join_due,
  insert_claim, order_claims, attempt_time, claim_due,
}

abbrev pub claims : String → Claimed → Bool
claims x c = c.delivery.id == x

abbrev pub is_delivery : String → DeliveryRow → Bool
is_delivery x d = d.id == x

-- No two rows have one id.
abbrev pub IsKeyed : List DeliveryRow → Type 0
IsKeyed [] = Unit
IsKeyed (d ∷ ds) = (any (is_delivery d.id) ds ≡ false) × IsKeyed ds

abbrev pub IsDistinct : List Claimed → Type 0
IsDistinct [] = Unit
IsDistinct (c ∷ cs) = (any (claims c.delivery.id) cs ≡ false) × IsDistinct cs

module _ (h : Hooks) where
  -- A row of the table is passed over, or joined with its endpoint.
  join_due-cases :
      (d : DeliveryRow) (ds : List DeliveryRow)
      → (join_due h (d ∷ ds) ≡ join_due h ds)
        ⊎ ((e : EndpointRow) × (join_due h (d ∷ ds)
              ≡ record { delivery = d; endpoint = e } ∷ join_due h ds))
  unfolding join_due
  join_due-cases d ds = elim (Option-cases (get_endpoint d.endpoint_id h)) [
    | inl lost ↦ inl (rw (lost, join_due) refl)
    | inr (e, there) ↦ elim (Bool-cases (is_due h.now d)) [
      | inl due ↦ inr (e, rw (there, join_due) (rw due refl))
      | inr later ↦ inl (rw (there, join_due) (rw later refl))
    ]
  ]

  join_due-of_due :
      (d : DeliveryRow) (ds : List DeliveryRow) (e : EndpointRow)
      → is_due h.now d ≡ true
      → get_endpoint d.endpoint_id h ≡ some e
      → join_due h (d ∷ ds) ≡ record { delivery = d; endpoint = e } ∷ join_due h ds
  unfolding join_due
  join_due-of_due d ds e due there = rw (there, join_due) (rw due refl)

  any-join_due :
      (x : String) (ds : List DeliveryRow)
      → any (is_delivery x) ds ≡ false
      → any (claims x) (join_due h ds) ≡ false
  unfolding any join_due
  any-join_due x [] e = refl
  any-join_due x (d ∷ ds) e = elim (join_due-cases d ds) [
    | inl over ↦ rw over (any-join_due x ds (ground arith))
    | inr (_, joined) ↦ rw joined (ground (arith, any-join_due x ds))
  ]

  join_due-IsDistinct : (ds : List DeliveryRow) → IsKeyed ds → IsDistinct (join_due h ds)
  unfolding join_due
  join_due-IsDistinct [] keyed = tt
  join_due-IsDistinct (d ∷ ds) (new, keyed) = elim (join_due-cases d ds) [
    | inl over ↦ rw over (join_due-IsDistinct ds keyed)
    | inr (_, joined) ↦ rw joined (any-join_due d.id ds new, join_due-IsDistinct ds keyed)
  ]

  length-join_due : (ds : List DeliveryRow) → length (join_due h ds) ≤ length ds
  unfolding join_due
  length-join_due [] = omega arith
  length-join_due (d ∷ ds) = ground (arith, length-join_due ds)

  find-join_due :
      (x : String) (ds : List DeliveryRow) (d : DeliveryRow) (e : EndpointRow)
      → find (is_delivery x) ds ≡ some d
      → is_due h.now d ≡ true
      → get_endpoint d.endpoint_id h ≡ some e
      → find (claims x) (join_due h ds) ≡ some (record { delivery = d; endpoint = e })
  unfolding find join_due
  find-join_due x [] d e found due there = absurd (cc found)
  find-join_due x (y ∷ ys) d e found due there = elim (Bool-cases (y.id == x)) [
    | inl here ↦
        let same : y ≡ d = cc (rw here at found) in
        rw
          (join_due-of_due y ys e (ap (is_due h.now) same ∙ due)
            (ap (λ (z : DeliveryRow). get_endpoint z.endpoint_id h) same ∙ there))
          (rw here (ap (λ (z : DeliveryRow). some (record { delivery = z; endpoint = e })) same))
    | inr other ↦
        let found' = find-join_due x ys d e (rw other at found) due there in
        elim (join_due-cases y ys) [
          | inl over ↦ rw over found'
          | inr (_, joined) ↦ rw joined (rw other found')
        ]
  ]

any-insert_claim :
    (x : String) (c : Claimed) (cs : List Claimed)
    → any (claims x) (insert_claim c cs) ≡ any (claims x) (c ∷ cs)
unfolding any insert_claim
any-insert_claim x c [] = refl
any-insert_claim x c (y ∷ ys) = ground (arith, any-insert_claim x c ys)

length-insert_claim :
    (c : Claimed) (cs : List Claimed) → length (insert_claim c cs) ≡ suc (length cs)
unfolding insert_claim
length-insert_claim c [] = refl
length-insert_claim c (y ∷ ys) = ground (arith, length-insert_claim c ys)

insert_claim-IsDistinct :
    (c : Claimed) (cs : List Claimed)
    → any (claims c.delivery.id) cs ≡ false
    → IsDistinct cs
    → IsDistinct (insert_claim c cs)
unfolding any insert_claim
insert_claim-IsDistinct c [] new distinct = (refl, tt)
insert_claim-IsDistinct c (y ∷ ys) new (own, distinct) =
    elim (Bool-cases (leb (attempt_time c) (attempt_time y))) [
      | inl first ↦ rw first (new, (own, distinct))
      | inr later ↦ rw later (
        any-insert_claim y.delivery.id c ys ∙ ground arith,
        insert_claim-IsDistinct c ys (ground arith) distinct,
      )
    ]

find-insert_claim :
    (x : String) (c : Claimed) (cs : List Claimed)
    → any (claims c.delivery.id) cs ≡ false
    → find (claims x) (insert_claim c cs) ≡ find (claims x) (c ∷ cs)
unfolding any find insert_claim
find-insert_claim x c [] new = refl
find-insert_claim x c (y ∷ ys) new = elim (Bool-cases (leb (attempt_time c) (attempt_time y))) [
  | inl first ↦ rw first refl
  | inr later ↦ rw later (ground (arith, find-insert_claim x c ys))
]

any-order_claims :
    (x : String) (cs : List Claimed) → any (claims x) (order_claims cs) ≡ any (claims x) cs
unfolding any order_claims
any-order_claims x [] = refl
any-order_claims x (c ∷ cs) =
    any-insert_claim x c (order_claims cs)
    ∙ ap (λ (b : Bool). c.delivery.id == x || b) (any-order_claims x cs)

order_claims-IsDistinct : (cs : List Claimed) → IsDistinct cs → IsDistinct (order_claims cs)
unfolding order_claims
order_claims-IsDistinct [] distinct = tt
order_claims-IsDistinct (c ∷ cs) (new, distinct) =
    insert_claim-IsDistinct c (order_claims cs) (any-order_claims c.delivery.id cs ∙ new)
      (order_claims-IsDistinct cs distinct)

find-order_claims :
    (x : String) (cs : List Claimed)
    → IsDistinct cs
    → find (claims x) (order_claims cs) ≡ find (claims x) cs
unfolding find order_claims
find-order_claims x [] distinct = refl
find-order_claims x (c ∷ cs) (new, distinct) =
    find-insert_claim x c (order_claims cs) (any-order_claims c.delivery.id cs ∙ new)
    ∙ ap (λ (o : Option Claimed). if c.delivery.id == x then some c else o)
        (find-order_claims x cs distinct)

length-order_claims : (cs : List Claimed) → length (order_claims cs) ≡ length cs
unfolding order_claims
length-order_claims [] = refl
length-order_claims (c ∷ cs) =
    length-insert_claim c (order_claims cs) ∙ ap suc (length-order_claims cs)

-- With room for every row, the claim takes all due rows, ordered.
claim_due-all :
    (limit : ℕ) (h : Hooks)
    → length h.deliveries ≤ limit
    → claim_due limit h ≡ order_claims (join_due h h.deliveries)
unfolding claim_due
claim_due-all limit h room =
    let joined = join_due h h.deliveries in
    take-all limit (order_claims joined)
      (omega (arith, length-order_claims joined, length-join_due h h.deliveries))

module _ (limit : ℕ) (h : Hooks) (room : length h.deliveries ≤ limit)
    (keyed : IsKeyed h.deliveries) where
  pub claim_due-IsDistinct : IsDistinct (claim_due limit h)
  claim_due-IsDistinct =
      rw (claim_due-all limit h room)
        (order_claims-IsDistinct _ (join_due-IsDistinct h h.deliveries keyed))

  -- A due delivery whose endpoint is there is claimed as it stands.
  pub find-claim_due :
      (x : String) (d : DeliveryRow) (e : EndpointRow)
      → get_delivery x h ≡ some d
      → is_due h.now d ≡ true
      → get_endpoint d.endpoint_id h ≡ some e
      → find (claims x) (claim_due limit h) ≡ some (record { delivery = d; endpoint = e })
  unfolding get_delivery
  find-claim_due x d e found due there = rw (claim_due-all limit h room) (
      find-order_claims x _ (join_due-IsDistinct h h.deliveries keyed)
      ∙ find-join_due h x h.deliveries d e found due there)
