-- ===== src/Ids/Increasing.antt =====
-- The order of the identifiers that src/ledgerflow/ids.py gives out, call after call.
use Prim.Native.String.{[], ◌++◌}
use text.Mathlib.TextLemmas.{nil-append}
use ledgerflow.Prelude.{
  ◌^◌, ◌-◌, ◌<◌, ◌≤◌, ◌≡◌, ◌⊎◌, inl, inr, String, true, List, All, arith, Bool-cases, ltb, leb, ap,
  ◌∙◌, refl,
}
use ledgerflow.Ids.{
  Clock, Draw, tick, encode, encode_loop, encode_clock, ulid, new_id, new_ids, alphabet,
}
use ledgerflow.Ids.Encoding.{
  precedes, size, is_spelt_in, encode-precedes, encode_loop-precedes, encode_loop-append,
  precedes-append, encode_shape, size-append, is_spelt_in-append,
}

-- Ten bytes are below 2^80.
abbrev pub IsDraw : Draw → Type 0
IsDraw d = d.random < 2 ^ 80

abbrev pub IsClock : Clock → Type 0
IsClock c = c.last_random < 2 ^ 80

-- The state moves forward, by the milliseconds first.
abbrev pub Later : Clock → Clock → Type 0
Later a b = (a.last_ms < b.last_ms) ⊎ ((a.last_ms ≡ b.last_ms) × (a.last_random < b.last_random))

tick-Later : (d : Draw) (c : Clock) → IsDraw d → IsClock c → Later c (tick d c) × IsClock (tick d c)
unfolding tick
tick-Later d c hd hc = elim (Bool-cases (ltb c.last_ms d.now_ms)) [
  | inl new ↦ rw new (inl (ground arith), hd)
  | inr old ↦ rw old (elim (Bool-cases (leb (2 ^ 80 - 1) c.last_random)) [
    | inl full ↦ rw full (inl (omega arith), hd)
    | inr room ↦ rw room (inr (refl, omega arith), ground arith)
  ])
]

Later-trans : (a b c : Clock) → Later a b → Later b c → Later a c
Later-trans a b c h k = ground arith

encode_clock_shape :
    (c : Clock) → (size (encode_clock c) ≡ 26) × (is_spelt_in alphabet (encode_clock c) ≡ true)
encode_clock_shape c =
    let (long, spelt) = encode_shape c.last_ms 10 in
    let (long', spelt') = encode_shape c.last_random 16 in
    (
      omega (arith, size-append (encode c.last_ms 10) (encode c.last_random 16), long, long'),
      is_spelt_in-append alphabet (encode c.last_ms 10) (encode c.last_random 16) spelt spelt',
    )

encode_clock-loop :
    (c : Clock) → encode_clock c ≡ encode_loop 10 c.last_ms (encode_loop 16 c.last_random [])
unfolding encode
encode_clock-loop c =
    encode_loop-append 10 c.last_ms [] (encode c.last_random 16)
    ∙ ap (encode_loop 10 c.last_ms) (nil-append (encode c.last_random 16))

encode_clock-precedes :
    (a b : Clock)
    → b.last_ms < 2 ^ 50
    → IsClock a
    → IsClock b
    → Later a b
    → precedes (encode_clock a) (encode_clock b) ≡ true
unfolding encode
encode_clock-precedes a b hb ha hb' h = rw (encode_clock-loop a) (
    rw (encode_clock-loop b)
      (encode_loop-precedes 10 a.last_ms b.last_ms _ _ (ground arith) (omega arith) (randoms h)))
  where
    randoms :
        Later a b
        → (a.last_ms < b.last_ms)
          ⊎ ((a.last_ms ≡ b.last_ms)
              × (precedes (encode_loop 16 a.last_random []) (encode_loop 16 b.last_random [])
                  ≡ true))
    randoms (inl ms) = inl ms
    randoms (inr (same, lt)) =
        inr (same, encode-precedes 16 a.last_random b.last_random (omega arith) lt)

-- Each string comes before all the later ones.
abbrev pub IsIncreasing : List String → Type 0
IsIncreasing List.[] = Unit
IsIncreasing (List.◌∷◌ id ids) = All (λ later. precedes id later ≡ true) ids × IsIncreasing ids

abbrev spell : String → Clock → String
spell prefix c = prefix ++ "_" ++ encode_clock c

spell-precedes :
    (prefix : String) (a b : Clock)
    → b.last_ms < 2 ^ 50
    → IsClock a
    → IsClock b
    → Later a b
    → precedes (spell prefix a) (spell prefix b) ≡ true
spell-precedes prefix a b hb ha hb' h =
    precedes-append prefix ("_" ++ encode_clock a) ("_" ++ encode_clock b) (
      precedes-append "_" (encode_clock a) (encode_clock b) (encode_clock-precedes a b hb ha hb' h))

new_ids-last_ms :
    (prefix : String) (ds : List Draw) (c : Clock)
    → All IsDraw ds
    → IsClock c
    → c.last_ms ≤ (new_ids prefix ds c).1.last_ms
unfolding new_ids new_id ulid
new_ids-last_ms prefix List.[] c hds hc = omega arith
new_ids-last_ms prefix (List.◌∷◌ d ds) c (hd, hds) hc =
    let (later, hc') = tick-Later d c hd hc in
    ground (arith, new_ids-last_ms prefix ds (tick d c) hds hc')

-- A state whose successors all come after `a` gives only ids that come after the id of `a`.
new_ids_after :
    (prefix : String) (a : Clock) (ds : List Draw) (c : Clock)
    → All IsDraw ds
    → IsClock a
    → IsClock c
    → ((x : Clock) → Later c x → Later a x)
    → (new_ids prefix ds c).1.last_ms < 2 ^ 50
    → All (λ id. precedes (spell prefix a) id ≡ true) (new_ids prefix ds c).0
unfolding new_ids new_id ulid
new_ids_after prefix a List.[] c hds ha hc after fits = tt
new_ids_after prefix a (List.◌∷◌ d ds) c (hd, hds) ha hc after fits =
    let (later, hc') = tick-Later d c hd hc in
    let ms = new_ids-last_ms prefix ds (tick d c) hds hc' in
    (
      spell-precedes prefix a (tick d c) (omega arith) ha hc' (after (tick d c) later),
      new_ids_after prefix a ds (tick d c) hds ha hc'
          (λ x h. Later-trans a (tick d c) x (after (tick d c) later) h) fits,
    )

-- The ids of successive calls with one prefix are strictly increasing in the order of strings,
-- whatever the clock reads, if the random bytes and the one kept are below 2^80 and the time in the
-- state fits in fifty bits at the end.
pub new_ids-IsIncreasing :
    (prefix : String) (ds : List Draw) (c : Clock)
    → All IsDraw ds
    → IsClock c
    → (new_ids prefix ds c).1.last_ms < 2 ^ 50
    → IsIncreasing (new_ids prefix ds c).0
unfolding new_ids new_id ulid
new_ids-IsIncreasing prefix List.[] c hds hc fits = tt
new_ids-IsIncreasing prefix (List.◌∷◌ d ds) c (hd, hds) hc fits =
    let (later, hc') = tick-Later d c hd hc in
    (
      new_ids_after prefix (tick d c) ds (tick d c) hds hc' hc' (λ x h. h) fits,
      new_ids-IsIncreasing prefix ds (tick d c) hds hc' fits,
    )

-- A ULID has twenty-six characters, all of them of the alphabet, in every state of the generator.
pub ulid_shape :
    (d : Draw) (c : Clock) → (size (ulid d c).0 ≡ 26) × (is_spelt_in alphabet (ulid d c).0 ≡ true)
unfolding ulid
ulid_shape d c = encode_clock_shape (tick d c)
