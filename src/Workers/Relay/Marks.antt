-- ===== src/Workers/Relay/Marks.antt =====
-- The rows that mark_published marks, when the relay (src/ledgerflow/workers/outbox_relay.py) took the
-- first ones that wait.
use ledgerflow.Prelude.{
  ℕ, zero, suc, ◌+◌, ◌≡◌, refl, true, false, not, inl, inr, Bool-cases, nat_eq, List, [], ◌∷◌,
  length, All, if◌then◌else◌, any, select, take, update_where, ap, ◌∙◌, arith,
}
use ledgerflow.Adapters.Tables.{OutboxRow}
use ledgerflow.Adapters.Outbox.{is_among}

-- The ids of outbox rows, in order.
abbrev pub ids : List OutboxRow → List ℕ
ids [] = []
ids (r ∷ rows) = r.id ∷ ids rows

-- The rows that wait, in order.
pub waiting : List OutboxRow → List OutboxRow
waiting [] = []
waiting (o ∷ os) = elim o.published [ true ↦ waiting os | false ↦ o ∷ waiting os ]

-- The table after its first n waiting rows are published.
pub mark_first : ℕ → List OutboxRow → List OutboxRow
mark_first zero os = os
mark_first (suc n) [] = []
mark_first (suc n) (o ∷ os) = elim o.published [
  | true ↦ o ∷ mark_first (suc n) os
  | false ↦ record o { published = true; attempts = o.attempts + 1 } ∷ mark_first n os
]

-- The primary key of the outbox.
abbrev pub AreKeyed : List OutboxRow → Type 0
AreKeyed [] = Unit
AreKeyed (o ∷ os) = All (λ x. nat_eq o.id x.id ≡ false) os × AreKeyed os

pub length-ids : (rows : List OutboxRow) → length (ids rows) ≡ length rows
length-ids [] = refl
length-ids (r ∷ rows) = ap suc (length-ids rows)

pub select-waiting : (os : List OutboxRow) → select (λ o. not o.published) os ≡ waiting os
unfolding select waiting
select-waiting [] = refl
select-waiting (o ∷ os) = elim (Bool-cases o.published) [
  | inl done ↦ simp done (select-waiting os)
  | inr due ↦ simp due (ap (λ (t : List OutboxRow). o ∷ t) (select-waiting os))
]

pub update_where-none :
    (os : List OutboxRow) (f : OutboxRow → OutboxRow)
    → update_where (λ o. is_among [] o.id) f os ≡ os
unfolding update_where is_among any
update_where-none [] f = refl
update_where-none (o ∷ os) f = ap (λ (t : List OutboxRow). o ∷ t) (update_where-none os f)

-- A row whose id no row of a table has is not among the first waiting ones.
not_among :
    (o : OutboxRow) (n : ℕ) (os : List OutboxRow)
    → All (λ x. nat_eq o.id x.id ≡ false) os
    → is_among (ids (take n (waiting os))) o.id ≡ false
unfolding is_among any waiting
not_among o zero os other = refl
not_among o (suc n) [] other = refl
not_among o (suc n) (x ∷ os) (here, there) = elim (Bool-cases x.published) [
  | inl done ↦ simp done (not_among o (suc n) os there)
  | inr due ↦ simp due (rw here (not_among o n os there))
]

update_where-other :
    (i : ℕ) (is : List ℕ) (f : OutboxRow → OutboxRow) (os : List OutboxRow)
    → All (λ x. nat_eq i x.id ≡ false) os
    → update_where (λ o. is_among (i ∷ is) o.id) f os ≡ update_where (λ o. is_among is o.id) f os
unfolding update_where is_among any
update_where-other i is f [] other = refl
update_where-other i is f (o ∷ os) (here, there) =
    let turned : nat_eq o.id i ≡ false = ground arith in
    rw turned (
      ap (λ (t : List OutboxRow). (if is_among is o.id then f o else o) ∷ t)
        (update_where-other i is f os there))

waiting-published :
    (o : OutboxRow) (os : List OutboxRow) → o.published ≡ true → waiting (o ∷ os) ≡ waiting os
unfolding waiting
waiting-published o os done = simp done refl

waiting-due :
    (o : OutboxRow) (os : List OutboxRow) → o.published ≡ false → waiting (o ∷ os) ≡ o ∷ waiting os
unfolding waiting
waiting-due o os due = simp due refl

abbrev pub mark : OutboxRow → OutboxRow
mark o = record o { published = true; attempts = o.attempts + 1 }

eq_itself : (i : ℕ) → nat_eq i i ≡ true
eq_itself i = ground arith

pub update_where-mark_first :
    (n : ℕ) (os : List OutboxRow)
    → AreKeyed os
    → update_where (λ o. is_among (ids (take n (waiting os))) o.id) mark os ≡ mark_first n os
unfolding update_where mark_first is_among any
update_where-mark_first zero os keyed = update_where-none os mark
update_where-mark_first (suc n) [] keyed = refl
update_where-mark_first (suc n) (o ∷ os) (other, keyed) = elim (Bool-cases o.published) [
  | inl done ↦
      published_of (waiting-published o os done)
      ∙ simp done (
          rw (not_among o (suc n) os other)
            (ap (λ (t : List OutboxRow). o ∷ t) (update_where-mark_first (suc n) os keyed)))
  | inr due ↦
      published_of (waiting-due o os due)
      ∙ simp due (
          rw (among (ids (take n (waiting os)))) (
            ap (λ (t : List OutboxRow). mark o ∷ t)
              (update_where-other o.id (ids (take n (waiting os))) mark os other
                ∙ update_where-mark_first n os keyed)))
]
  where
    published_of :
        {v w : List OutboxRow}
        → v ≡ w
        → update_where (λ x. is_among (ids (take (suc n) v)) x.id) mark (o ∷ os)
          ≡ update_where (λ x. is_among (ids (take (suc n) w)) x.id) mark (o ∷ os)
    published_of e =
        ap
          (λ (w : List OutboxRow).
            update_where (λ x. is_among (ids (take (suc n) w)) x.id) mark (o ∷ os))
          e

    among : (is : List ℕ) → is_among (o.id ∷ is) o.id ≡ true
    among is = rw (eq_itself o.id) refl
