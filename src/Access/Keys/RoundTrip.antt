-- ===== src/Access/Keys/RoundTrip.antt =====
-- What is issued is accepted while it is live, and nothing else is.
use fund_ledger.Base.{
  ℕ, ◌≡◌, refl, subst, true, false, Option, none, some, List, [], ◌∷◌, ◌++◌, ◌==◌, ==_refl, ==_iff,
  if◌then◌else◌, any, find-none, find-snoc, find-holds, find-In, In, arith, Bool-cases,
  Option-cases, inl, inr,
}
use fund_ledger.Access.Keys.{
  Text, User, ApiKey, same_text, key_prefix, dot, partition, is_blank, parse_key, is_live,
  by_prefix, accept, verify_key, issue_key,
}

pub same_text_refl : (cs : Text) → same_text cs cs ≡ true
same_text_refl [] = refl
same_text_refl (c ∷ cs) = ground (arith, ==_refl c, same_text_refl cs)

-- no dot in a text
abbrev pub HasNoDot : Text → Type 0
HasNoDot cs = any (λ c. c == dot) cs ≡ false

partition-at_dot :
    (before after : Text)
    → HasNoDot before
    → partition (before ++ (dot ∷ after)) ≡ some (before, after)
partition-at_dot [] after h = refl
partition-at_dot (c ∷ cs) after h =
    let (first, rest) : ((c == dot) ≡ false) × HasNoDot cs =
      (ground (arith, h), ground (arith, h)) in
    rw (first, partition-at_dot cs after rest) refl

parse_key-of_parts :
    (prefix secret : Text)
    → HasNoDot prefix
    → is_blank prefix ≡ false
    → is_blank secret ≡ false
    → parse_key (key_prefix ++ (prefix ++ (dot ∷ secret))) ≡ some (prefix, secret)
unfolding parse_key
parse_key-of_parts prefix secret clean some_prefix some_secret =
    rw (partition-at_dot prefix secret clean, some_prefix, some_secret) refl

-- the row that is inserted
abbrev issued : (Text → ℕ) → ℕ → User → ℕ → Option ℕ → Text → Text → ApiKey
issued digest id user name expires_at prefix secret = record {
  id = id;
  user = user;
  name = name;
  prefix = prefix;
  key_hash = digest secret;
  expires_at = expires_at;
  revoked_at = none;
  last_used_at = none;
}

issue_key-effect :
    (digest : Text → ℕ) (id : ℕ) (user : User) (name : ℕ) (expires_at : Option ℕ)
    (prefix secret : Text) (keys : List ApiKey) (k : ApiKey) (raw : Text) (keys' : List ApiKey)
    → issue_key digest id user name expires_at prefix secret keys ≡ some ((k, raw), keys')
    → let row = issued digest id user name expires_at prefix secret in
      (any (λ (j : ApiKey). same_text j.prefix prefix) keys ≡ false)
      × (k ≡ row)
      × (raw ≡ key_prefix ++ (prefix ++ (dot ∷ secret)))
      × (keys' ≡ keys ++ (row ∷ []))
unfolding issue_key
issue_key-effect digest id user name expires_at prefix secret keys k raw keys' h =
    elim (Bool-cases (any (λ (j : ApiKey). same_text j.prefix prefix) keys)) [
      | inl taken ↦ absurd (cc (rw taken at h))
      | inr new ↦ (
        new,
        ground (arith, rw new at h),
        ground (arith, rw new at h),
        ground (arith, rw new at h),
      )
    ]

-- the look-up by the new prefix finds the new row
by_prefix-new :
    (k : ApiKey) (keys : List ApiKey)
    → any (λ (j : ApiKey). same_text j.prefix k.prefix) keys ≡ false
    → by_prefix k.prefix (keys ++ (k ∷ [])) ≡ some k
by_prefix-new k keys h =
    let test = λ (j : ApiKey). same_text j.prefix k.prefix in
    find-snoc test keys k (find-none test keys h) (same_text_refl k.prefix)

verify_key-parsed :
    (digest : Text → ℕ) (now : ℕ) (keys : List ApiKey) (raw prefix secret : Text) (k : ApiKey)
    → parse_key raw ≡ some (prefix, secret)
    → by_prefix prefix keys ≡ some k
    → (k.key_hash == digest secret) ≡ true
    → verify_key digest now keys raw ≡ (if is_live now k then some k else none)
unfolding verify_key
verify_key-parsed digest now keys raw prefix secret k parsed found same =
    rw (parsed, found, same) refl

-- A key that `issue_key` returns is accepted by `verify_key` at any time at which it is live, and
-- refused at any other, where the prefix has no dot and neither text is empty.
pub verify_key-issue_key :
    (digest : Text → ℕ) (id : ℕ) (user : User) (name : ℕ) (expires_at : Option ℕ)
    (prefix secret : Text) (keys : List ApiKey) {k : ApiKey} {raw : Text} {keys' : List ApiKey}
    → issue_key digest id user name expires_at prefix secret keys ≡ some ((k, raw), keys')
    → HasNoDot prefix
    → is_blank prefix ≡ false
    → is_blank secret ≡ false
    → (now : ℕ) → verify_key digest now keys' raw ≡ (if is_live now k then some k else none)
verify_key-issue_key digest id user name expires_at prefix secret keys {k} {raw} {keys'} h clean
      some_prefix some_secret now =
    let (new, row, text, table) =
      issue_key-effect digest id user name expires_at prefix secret keys k raw keys' h in
    let it = issued digest id user name expires_at prefix secret in
    rw (row, text, table)
      (verify_key-parsed digest now (keys ++ (it ∷ [])) (key_prefix ++ (prefix ++ (dot ∷ secret)))
        prefix secret it (parse_key-of_parts prefix secret clean some_prefix some_secret)
        (by_prefix-new it keys new) (==_refl (digest secret)))

accept-returns :
    (digest : Text → ℕ) (now : ℕ) (secret : Text) (j k : ApiKey)
    → accept digest now secret (some j) ≡ some k
    → (j ≡ k) × (is_live now k ≡ true) × (k.key_hash ≡ digest secret)
accept-returns digest now secret j k h = elim (Bool-cases (j.key_hash == digest secret)) [
  | inl hash ↦ elim (Bool-cases (is_live now j)) [
    | inl live ↦
        let same : j ≡ k = ground (arith, rw (hash, live) at h) in
        (
          same,
          subst (λ (x : ApiKey). is_live now x ≡ true) same live,
          subst (λ (x : ApiKey). x.key_hash ≡ digest secret) same
              ((==_iff j.key_hash (digest secret)).0 hash),
        )
    | inr dead ↦ absurd (cc (rw (hash, dead) at h))
  ]
  | inr other ↦ absurd (cc (rw other at h))
]

-- A key that `verify_key` accepts is a row of the table that is live, and the text that was given
-- has its form: a prefix that is the row's, and a secret whose digest is the row's.
pub verify_key_sound :
    (digest : Text → ℕ) (now : ℕ) (keys : List ApiKey) (raw : Text) {k : ApiKey}
    → verify_key digest now keys raw ≡ some k
    → In k keys
      × (is_live now k ≡ true)
      × ((prefix : Text) × (secret : Text) × (parse_key raw ≡ some (prefix, secret))
          × (same_text k.prefix prefix ≡ true)
          × (k.key_hash ≡ digest secret))
unfolding verify_key
verify_key_sound digest now keys raw {k} h = elim (Option-cases (parse_key raw)) [
  | inl malformed ↦ absurd (cc (rw (malformed, verify_key) at h))
  | inr ((prefix, secret), parsed) ↦ elim (Option-cases (by_prefix prefix keys)) [
    | inl unknown ↦ absurd (cc (rw (parsed, verify_key, unknown) at h))
    | inr (j, found) ↦
        let (same, live, hash) =
          accept-returns digest now secret j k (rw (parsed, verify_key, found) at h) in
        let test = λ (i : ApiKey). same_text i.prefix prefix in
        (
          subst (λ (x : ApiKey). In x keys) same (find-In test keys j found),
          live,
          (
            prefix,
            secret,
            parsed,
            subst (λ (x : ApiKey). same_text x.prefix prefix ≡ true) same
                (find-holds test keys j found),
            hash,
          ),
        )
  ]
]
