-- ===== src/Access/Commands/Revoked.antt =====
-- A revoked key is refused from then on.
use fund_ledger.Base.{
  ℕ, ◌≡◌, refl, sym, ap, subst, true, false, not, some, List, [], ◌∷◌, any, In, inl, inr, arith,
  Bool-cases,
}
use fund_ledger.Base.Result.{ok, guard-returns}
use fund_ledger.Ledger.Insert.{is_some}
use fund_ledger.Access.Keys.{Text, ApiKey, same_text, verify_key}
use fund_ledger.Access.Keys.RoundTrip.{verify_key_sound}
use fund_ledger.Access.Commands.{AccessDb, revocable, revoke, has_prefix, revoke_api_key}

-- no row with the prefix is without an instant of revocation
no_live_row :
    (prefix : Text) (now : ℕ) (keys : List ApiKey) (k : ApiKey)
    → In k (revoke (has_prefix prefix) now keys)
    → has_prefix prefix k ≡ true
    → is_some k.revoked_at ≡ true
no_live_row prefix now [] k h own = absurd h
no_live_row prefix now (j ∷ keys) k (inr later) own = no_live_row prefix now keys k later own
no_live_row prefix now (j ∷ keys) k (inl e) own =
    elim (Bool-cases (revocable (has_prefix prefix) j)) [
      | inl hit ↦ rw (e, hit) refl
      | inr miss ↦
          let same : k ≡ j = rw miss at e in
          rw same
            (ground (arith, miss, subst (λ (x : ApiKey). has_prefix prefix x ≡ true) same own))
    ]

-- After a key was revoked by its prefix, no text with that prefix is accepted, at any time.
pub verify_key-revoke_api_key :
    (digest : Text → ℕ) (prefix : Text) (now : ℕ) (a : AccessDb) {b : AccessDb}
    → revoke_api_key prefix now a ≡ ok b
    → (later : ℕ) (raw : Text) (k : ApiKey) → verify_key digest later b.api_keys raw ≡ some k
    → same_text k.prefix prefix ≡ false
unfolding revoke_api_key
verify_key-revoke_api_key digest prefix now a {b} h later raw k accepted =
    let (_, done) = guard-returns (not (any (revocable (has_prefix prefix)) a.api_keys)) _ _ h in
    let same : record a { api_keys = revoke (has_prefix prefix) now a.api_keys } ≡ b =
      ground (arith, done) in
    let keys = ap (λ (x : AccessDb). x.api_keys) (sym same) in
    let (here, live, _) = verify_key_sound digest later b.api_keys raw accepted in
    elim (Bool-cases (same_text k.prefix prefix)) [
      | inr other ↦ other
      | inl own ↦
          let revoked = no_live_row prefix now a.api_keys k (rw keys at here) own in
          absurd (ground (arith, live, revoked))
    ]
