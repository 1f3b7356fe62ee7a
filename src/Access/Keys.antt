-- ===== src/Access/Keys.antt =====
-- access/keys.py and access/authentication.py: API keys of the form fl_<prefix>.<secret>. A text is
-- the list of its code points.
pub mod RoundTrip
use fund_ledger.Base.{
  ℕ, ◌-◌, Bool, true, false, not, ◌&&◌, Option, none, some, List, [], ◌∷◌, ◌++◌, ◌==◌, leb, ltb,
  if◌then◌else◌, find, map, map_or, any,
}

abbrev pub Text : Type 0
Text = List ℕ

abbrev pub same_text : Text → Text → Bool
same_text [] [] = true
same_text [] (d ∷ ds) = false
same_text (c ∷ cs) [] = false
same_text (c ∷ cs) (d ∷ ds) = (c == d) && same_text cs ds

-- a row of auth_user
pub record User : Type 0 where
  pub id : ℕ
  pub username : ℕ
  pub is_active : Bool

-- `key_hash` is the digest of the secret; instants are in seconds
pub record ApiKey : Type 0 where
  pub id : ℕ
  pub user : User
  pub name : ℕ
  pub prefix : Text
  pub key_hash : ℕ
  pub expires_at : Option ℕ
  pub revoked_at : Option ℕ
  pub last_used_at : Option ℕ

-- "fl_" and "."
abbrev pub key_prefix : Text
key_prefix = 102 ∷ 108 ∷ 95 ∷ []

abbrev pub dot : ℕ
dot = 46

-- `raw.removeprefix(KEY_PREFIX)`, where `raw` starts with it
abbrev pub without_prefix : Text → Text → Option Text
without_prefix [] raw = some raw
without_prefix (p ∷ ps) [] = none
without_prefix (p ∷ ps) (c ∷ cs) = if p == c then without_prefix ps cs else none

-- `partition(".")`: what is before the first dot and after it, or none where there is no dot
abbrev pub onto_head : ℕ → Option (Text × Text) → Option (Text × Text)
onto_head c none = none
onto_head c (some (before, after)) = some (c ∷ before, after)

abbrev pub partition : Text → Option (Text × Text)
partition [] = none
partition (c ∷ cs) = if c == dot then some ([], cs) else onto_head c (partition cs)

abbrev pub is_blank : Text → Bool
is_blank [] = true
is_blank (c ∷ cs) = false

-- the prefix and the secret of a key, if it has the form
abbrev pub full_parts : Option (Text × Text) → Option (Text × Text)
full_parts none = none
full_parts (some (prefix, secret)) =
    if is_blank prefix then none else if is_blank secret then none else some (prefix, secret)

unfoldable pub parse_key : Text → Option (Text × Text)
parse_key raw = elim (without_prefix key_prefix raw) [
  | none ↦ none
  | some rest ↦ full_parts (partition rest)
]

-- neither revoked, nor expired, nor of a user who is not active
abbrev pub is_live : ℕ → ApiKey → Bool
is_live now k =
    map_or k.revoked_at true (λ _. false)
    && (map_or k.expires_at true (λ t. not (leb t now)) && k.user.is_active)

abbrev pub by_prefix : Text → List ApiKey → Option ApiKey
by_prefix prefix keys = find (λ k. same_text k.prefix prefix) keys

abbrev pub accept : (Text → ℕ) → ℕ → Text → Option ApiKey → Option ApiKey
accept digest now secret none = none
accept digest now secret (some k) =
    if k.key_hash == digest secret then if is_live now k then some k else none else none

-- `verify_key`; `digest` is SHA-256
unfoldable pub verify_key : (Text → ℕ) → ℕ → List ApiKey → Text → Option ApiKey
unfolding parse_key
verify_key digest now keys raw = elim (parse_key raw) [
  | none ↦ none
  | some (prefix, secret) ↦ accept digest now secret (by_prefix prefix keys)
]

-- `issue_key`, with the two texts that `secrets` has drawn; a prefix is used once
-- (apikey_prefix_unique)
unfoldable pub issue_key :
    (Text → ℕ)
    → ℕ
    → User
    → ℕ
    → Option ℕ
    → Text
    → Text
    → List ApiKey
    → Option ((ApiKey × Text) × List ApiKey)
issue_key digest id user name expires_at prefix secret keys =
    let k : ApiKey = record {
      id = id;
      user = user;
      name = name;
      prefix = prefix;
      key_hash = digest secret;
      expires_at = expires_at;
      revoked_at = none;
      last_used_at = none;
    } in
    if any (λ j. same_text j.prefix prefix) keys
    then none
    else some ((k, key_prefix ++ (prefix ++ (dot ∷ secret))), keys ++ (k ∷ []))

abbrev pub touch_interval : ℕ
touch_interval = 60

abbrev pub is_due : ℕ → ApiKey → Bool
is_due now k = map_or k.last_used_at true (λ t. ltb touch_interval (now - t))

-- `record_use`: at most one write a minute
unfoldable pub record_use : ℕ → ApiKey → List ApiKey → List ApiKey
record_use now k keys =
    if is_due now k
    then map (λ j. if j.id == k.id then record j { last_used_at = some now } else j) keys
    else keys
