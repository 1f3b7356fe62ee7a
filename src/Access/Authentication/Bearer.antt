-- ===== src/Access/Authentication/Bearer.antt =====
-- Who a request is authenticated as.
use fund_ledger.Base.{
  ℕ, ◌≡◌, refl, ap, true, Option, none, some, List, [], ◌∷◌, ◌==◌, map, In, arith, Bool-cases, inl,
  inr, if◌then◌else◌,
}
use fund_ledger.Access.Keys.{Text, ApiKey, same_text, is_live, verify_key, record_use, is_due}
use fund_ledger.Access.Keys.RoundTrip.{verify_key_sound}
use fund_ledger.Access.Authentication.{
  split, lower, bearer, is_ascii, authenticated, use_key, authenticate_parts, authenticate,
}

touched_rows :
    (now i : ℕ) (keys : List ApiKey) (j : ApiKey)
    → In j
        (map (λ (l : ApiKey). if l.id == i then record l { last_used_at = some now } else l) keys)
    → (l : ApiKey) × In l keys
      × (record j { last_used_at = none } ≡ record l { last_used_at = none })
touched_rows now i [] j h = absurd h
touched_rows now i (l ∷ keys) j (inr later) =
    let (m, there, same) = touched_rows now i keys j later in (m, inr there, same)
touched_rows now i (l ∷ keys) j (inl e) = elim (Bool-cases (l.id == i)) [
  | inl it ↦ (l, inl refl, ap (λ (m : ApiKey). record m { last_used_at = none }) (rw it at e))
  | inr other ↦ (l, inl refl, ap (λ (m : ApiKey). record m { last_used_at = none }) (rw other at e))
]

-- the record of a use changes nothing but its instant
record_use-rows :
    (now : ℕ) (k : ApiKey) (keys : List ApiKey) (j : ApiKey)
    → In j (record_use now k keys)
    → (l : ApiKey) × In l keys
      × (record j { last_used_at = none } ≡ record l { last_used_at = none })
unfolding record_use
record_use-rows now k keys j h = elim (Bool-cases (is_due now k)) [
  | inl due ↦ touched_rows now k.id keys j (rw (due, record_use) at h)
  | inr early ↦ (j, rw (early, record_use) at h, refl)
]

-- what a header that is accepted says
pub record Bears (digest : Text → ℕ) (now : ℕ) (keys : List ApiKey) (header : Text) (k : ApiKey)
    (keys' : List ApiKey) : Type 0 where
  pub scheme : Text
  pub raw : Text
  pub words : split header ≡ scheme ∷ raw ∷ []
  pub of_scheme : same_text (lower scheme) bearer ≡ true
  pub ascii : is_ascii raw ≡ true
  pub verified : verify_key digest now keys raw ≡ some k
  pub used : keys' ≡ record_use now k keys

use_key-authenticated :
    (now : ℕ) (keys : List ApiKey) (o : Option ApiKey) (k : ApiKey) (keys' : List ApiKey)
    → use_key now keys o ≡ authenticated k keys'
    → (o ≡ some k) × (keys' ≡ record_use now k keys)
use_key-authenticated now keys none k keys' h = absurd (cc)
use_key-authenticated now keys (some j) k keys' h = (ground (arith, h), ground (arith, h))

module _ (digest : Text → ℕ) (now : ℕ) (keys : List ApiKey) (header : Text) (k : ApiKey)
    (keys' : List ApiKey) where
  one_word_after :
      (scheme raw : Text)
      → split header ≡ scheme ∷ raw ∷ []
      → same_text (lower scheme) bearer ≡ true
      → authenticate_parts digest now keys (scheme ∷ raw ∷ []) ≡ authenticated k keys'
      → Bears digest now keys header k keys'
  unfolding authenticate_parts
  one_word_after scheme raw e ours h = elim (Bool-cases (is_ascii raw)) [
    | inr other ↦ absurd (cc (rw (ours, other, authenticate_parts) at h))
    | inl ascii ↦
        let (verified, used) =
          use_key-authenticated now keys (verify_key digest now keys raw) k keys'
            (rw (ours, ascii, authenticate_parts) at h) in
        record {
          scheme = scheme;
          raw = raw;
          words = e;
          of_scheme = ours;
          ascii = ascii;
          verified = verified;
          used = used;
        }
  ]

  authenticate_parts-Bears :
      (parts : List Text)
      → split header ≡ parts
      → authenticate_parts digest now keys parts ≡ authenticated k keys'
      → Bears digest now keys header k keys'
  unfolding authenticate_parts
  authenticate_parts-Bears [] e h = absurd (cc)
  authenticate_parts-Bears (scheme ∷ []) e h = elim (Bool-cases (same_text (lower scheme) bearer)) [
    | inr other ↦ absurd (cc (rw (other, authenticate_parts) at h))
    | inl ours ↦ absurd (cc (rw (ours, authenticate_parts) at h))
  ]
  authenticate_parts-Bears (scheme ∷ raw ∷ []) e h =
      elim (Bool-cases (same_text (lower scheme) bearer)) [
        | inr other ↦ absurd (cc (rw (other, authenticate_parts) at h))
        | inl ours ↦ one_word_after scheme raw e ours h
      ]
  authenticate_parts-Bears (scheme ∷ raw ∷ more ∷ others) e h =
      elim (Bool-cases (same_text (lower scheme) bearer)) [
        | inr other ↦ absurd (cc (rw (other, authenticate_parts) at h))
        | inl ours ↦ absurd (cc (rw (ours, authenticate_parts) at h))
      ]

-- A request is authenticated only if its header is the word "bearer", in any case, and one more,
-- which is the text of a live key of the table; and nothing else of the table is changed than what
-- the record of its use changes.
pub authenticate_sound :
    (digest : Text → ℕ) (now : ℕ) (keys : List ApiKey) (header : Text) {k : ApiKey}
    {keys' : List ApiKey}
    → authenticate digest now keys header ≡ authenticated k keys'
    → Bears digest now keys header k keys'
      × In k keys
      × (is_live now k ≡ true)
      × ((j : ApiKey)
          → In j keys'
          → (i : ApiKey) × In i keys
            × (record j { last_used_at = none } ≡ record i { last_used_at = none }))
unfolding authenticate
authenticate_sound digest now keys header {k} {keys'} h =
    let b = authenticate_parts-Bears digest now keys header k keys' (split header) refl h in
    let (here, live, _) = verify_key_sound digest now keys b.raw b.verified in
    (b, here, live, λ j there. record_use-rows now k keys j (rw b.used at there))
