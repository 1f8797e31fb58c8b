-- ===== src/Stream/Offsets.antt =====
-- The offset of a consumer group (src/ledgerflow/stream/pg.py).
use ledgerflow.Prelude.{
  ℕ, ◌≤◌, ◌<◌, zero, suc, String, ◌≡◌, refl, Bool, true, false, ◌&&◌, none, List, [], ◌∷◌, ltb,
  ◌==◌, eq_self, if◌then◌else◌, find, any, select, take, All, arith, Bool-cases, inl, inr,
  find-of_any, find-last, find-update_where, find-holds, ap, ◌∙◌,
}
use ledgerflow.Stream.{
  Message, ConsumerOffset, PostgresStream, is_offset_of, greatest, upsert, offset_of, poll,
  commit_offset, last_or_zero,
}

All-select : {A : Type 0} (p : A → Bool) (xs : List A) → All (λ x. p x ≡ true) (select p xs)
unfolding select
All-select p [] = tt
All-select p (x ∷ xs) = go (All-select p xs) (p x) refl
  where
    go :
        All (λ y. p y ≡ true) (select p xs)
        → (b : Bool) → p x ≡ b
        → All (λ y. p y ≡ true) (if b then x ∷ select p xs else select p xs)
    go rest true h = (h, rest)
    go rest false h = rest

All-take : {A : Type 0} (Q : A → Type 0) (n : ℕ) (xs : List A) → All Q xs → All Q (take n xs)
All-take Q zero xs h = tt
All-take Q (suc n) [] h = tt
All-take Q (suc n) (x ∷ xs) h = (h.0, All-take Q n xs h.1)

All-map :
    {A : Type 0} (Q R : A → Type 0) (xs : List A) → ((x : A) → Q x → R x) → All Q xs → All R xs
All-map Q R [] f h = tt
All-map Q R (x ∷ xs) f h = (f x h.0, All-map Q R xs f h.1)

module _ (topic group : String) where
  none_of_any :
      (os : List ConsumerOffset)
      → any (is_offset_of topic group) os ≡ false
      → find (is_offset_of topic group) os ≡ none
  unfolding find any
  none_of_any [] h = refl
  none_of_any (o ∷ os) h = elim (Bool-cases (is_offset_of topic group o)) [
    | inl here ↦ absurd (cc (rw here at h))
    | inr later ↦ rw later (none_of_any os (rw later at h))
  ]

  -- The stored offset is the greater of the old one and the new one.
  upsert-greatest :
      (n : ℕ) (os : List ConsumerOffset)
      → last_or_zero
          (find (is_offset_of topic group) (upsert topic group n (λ old. greatest old n) os))
        ≡ greatest (last_or_zero (find (is_offset_of topic group) os)) n
  unfolding upsert
  upsert-greatest n os = elim (Bool-cases (any (is_offset_of topic group) os)) [
    | inl held ↦
        let (o, found) = find-of_any (is_offset_of topic group) os held in
        rw (held, found)
          (ap last_or_zero (
            find-update_where (is_offset_of topic group) (is_offset_of topic group)
              (λ x. record x { last_offset = greatest x.last_offset n }) os o (λ x. refl)
              (find-holds (is_offset_of topic group) os o found) found))
    | inr fresh ↦
        rw (fresh, none_of_any os fresh)
          (ap last_or_zero (
              find-last (is_offset_of topic group) os
                (record { consumer_group = group; topic = topic; last_offset = n }) fresh
                (rw (eq_self group, eq_self topic) refl))
            ∙ from_zero n)
  ]
    where
      from_zero : (m : ℕ) → m ≡ greatest 0 m
      from_zero m = ground arith

  module _ {P : Type 0} (n limit : ℕ) (s : PostgresStream P) where
    commit_offset-greatest :
        offset_of topic group (commit_offset topic group n s) ≡ greatest (offset_of topic group s) n
    unfolding offset_of commit_offset
    commit_offset-greatest = upsert-greatest n s.consumer_offsets

    -- After a commit the offset of the group is at least the committed one and not below the old
    -- one, and a poll returns no message at or below either.
    pub poll-commit_offset :
        (n ≤ offset_of topic group (commit_offset topic group n s))
        × (offset_of topic group s ≤ offset_of topic group (commit_offset topic group n s))
        × All
            (λ m. (n < m.offset) × (offset_of topic group s < m.offset))
            (poll topic group limit (commit_offset topic group n s))
    unfolding poll
    poll-commit_offset = (
      ground (arith, commit_offset-greatest),
      ground (arith, commit_offset-greatest),
      All-take _ limit _ (
          All-map _ _ _ (λ m h. above m h)
            (All-select
              (λ m.
                m.topic == topic
                && ltb (offset_of topic group (commit_offset topic group n s)) m.offset)
              (commit_offset topic group n s).stream_messages)),
    )
      where
        above :
            (m : Message P)
            → (m.topic == topic
                && ltb (offset_of topic group (commit_offset topic group n s)) m.offset)
              ≡ true
            → (n < m.offset) × (offset_of topic group s < m.offset)
        above m h = (ground (arith, commit_offset-greatest), ground (arith, commit_offset-greatest))
