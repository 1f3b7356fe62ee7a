-- ===== src/Access/Commands.antt =====
-- The management commands of access/: grant_access, create_api_key, revoke_api_key, rotate_sandbox
-- and demo_access. Days are counted in seconds; what the commands print is left out.
pub mod Revoked
pub mod Rotated
use fund_ledger.Base.{
  ℕ, suc, ◌+◌, ◌*◌, Bool, true, false, not, ◌&&◌, ◌||◌, Option, none, some, List, [], ◌∷◌, ◌++◌,
  ◌==◌, ltb, find, filter, any, map, map_or, if◌then◌else◌,
}
use fund_ledger.Base.Result.{
  Result, ok, err, integrity, command_error, not_found, membership_lp_iff_lp_role,
  apikey_prefix_unique, ◌>>=◌, ◌>>◌, raise_if,
}
use fund_ledger.Ledger.Model.{Db, Fund, Commitment}
use fund_ledger.Ledger.Insert.{is_some}
use fund_ledger.Ledger.Idempotency.{Hashing, Others}
use fund_ledger.Operations.Reference.{
  DemoName, demo_fund, demo_lp, DemoKey, is_commitment, open_sandbox_fund, seed_demo,
}
use fund_ledger.Access.Keys.{Text, User, ApiKey, same_text, issue_key}
use fund_ledger.Access.Permissions.{
  Role, lp, viewer, operator, controller, role_rank, is_lp, FundMembership, or_404,
}

-- the tables of access/ and auth_user
pub record AccessDb : Type 0 where
  pub users : List User
  pub memberships : List FundMembership
  pub api_keys : List ApiKey
  pub next_user_id : ℕ
  pub next_key_id : ℕ

-- `get_user_model().objects.get_or_create`; a new user has no usable password
unfoldable pub ensure_user : ℕ → AccessDb → User × AccessDb
ensure_user username a = elim (find (λ u. u.username == username) a.users) [
  | some u ↦ (u, a)
  | none ↦
      let u : User = record { id = a.next_user_id; username = username; is_active = true } in
      (u, record a { users = a.users ++ (u ∷ []); next_user_id = suc a.next_user_id })
]

abbrev pub is_membership : ℕ → ℕ → FundMembership → Bool
is_membership user fund m = (m.user_id == user) && (m.fund_id == fund)

abbrev pub same_parity : Bool → Bool → Bool
same_parity true b = b
same_parity false b = not b

-- `FundMembership.objects.update_or_create`, with the table's check
unfoldable pub set_membership :
    ℕ → ℕ → Role → Option ℕ → List FundMembership → Result (List FundMembership)
set_membership user fund role lp_id ms =
    let row : FundMembership = record {
      user_id = user;
      fund_id = fund;
      role = role;
      lp_id = lp_id;
    } in
    do
      raise_if (not (same_parity (is_lp role) (is_some lp_id)))
          (integrity membership_lp_iff_lp_role)
      ok (
          if any (is_membership user fund) ms
          then map (λ m. if is_membership user fund m then row else m) ms
          else ms ++ (row ∷ []))

-- the fund that a command names
abbrev pub or_command_error : {A : Type 0} → Option A → Result A
or_command_error none = err command_error
or_command_error (some a) = ok a

-- `grant_access`
unfoldable pub grant_access : ℕ → ℕ → Role → Option ℕ → Db → AccessDb → Result AccessDb
unfolding ensure_user
grant_access username fund_id role lp_id db a = do
  raise_if (not (same_parity (is_lp role) (is_some lp_id))) command_error
  fund ← or_command_error (find (λ f. f.id == fund_id) db.funds)
  raise_if (map_or lp_id false (λ i. not (any (is_commitment fund.id i) db.commitments)))
      command_error
  let (user, b) = ensure_user username a
  ms ← set_membership user.id fund.id role lp_id b.memberships
  ok (record b { memberships = ms })

abbrev pub day : ℕ
day = 86400

-- the row and the raw key, or the unique constraint on prefixes
abbrev pub issued_or :
    AccessDb → Option ((ApiKey × Text) × List ApiKey) → Result ((ApiKey × Text) × AccessDb)
issued_or a none = err (integrity apikey_prefix_unique)
issued_or a (some (key, keys)) =
    ok (key, record a { api_keys = keys; next_key_id = suc a.next_key_id })

unfoldable pub issue :
    (Text → ℕ) → User → ℕ → Option ℕ → Text → Text → AccessDb → Result ((ApiKey × Text) × AccessDb)
issue digest user name expires_at prefix secret a =
    issued_or a (issue_key digest a.next_key_id user name expires_at prefix secret a.api_keys)

-- `create_api_key`, with the two texts that `secrets` draws
unfoldable pub create_api_key :
    (Text → ℕ) → ℕ → ℕ → ℕ → ℕ → Text → Text → AccessDb → Result ((ApiKey × Text) × AccessDb)
unfolding issue
create_api_key digest now username name days prefix secret a = do
  user ← or_command_error (find (λ u. u.username == username) a.users)
  issue digest user name (if ltb 0 days then some (now + days * day) else none) prefix secret a

-- a key of the filter that is not revoked yet
abbrev pub revocable : (ApiKey → Bool) → ApiKey → Bool
revocable chosen k = chosen k && not (is_some k.revoked_at)

abbrev pub revoke : (ApiKey → Bool) → ℕ → List ApiKey → List ApiKey
revoke chosen now keys =
    map (λ k. if revocable chosen k then record k { revoked_at = some now } else k) keys

abbrev pub has_prefix : Text → ApiKey → Bool
has_prefix prefix k = same_text k.prefix prefix

-- `revoke_api_key`
unfoldable pub revoke_api_key : Text → ℕ → AccessDb → Result AccessDb
revoke_api_key prefix now a = do
  raise_if (not (any (revocable (has_prefix prefix)) a.api_keys)) command_error
  ok (record a { api_keys = revoke (has_prefix prefix) now a.api_keys })

-- the user's memberships of other funds
abbrev pub elsewhere : ℕ → ℕ → FundMembership → Bool
elsewhere user fund m = (m.user_id == user) && not (m.fund_id == fund)

-- `rotate_sandbox`, on a day of the year `year`
unfoldable pub rotate_sandbox :
    (DemoName → ℕ) → ℕ → ℕ → ℕ → Db → AccessDb → Result ((Fund × User) × Db × AccessDb)
unfolding ensure_user
rotate_sandbox demo_id username on year db a = do
  (fund, db') ← open_sandbox_fund demo_id on year db
  let (user, b) = ensure_user username a
  ms ←
      set_membership user.id fund.id controller none
        (filter (λ m. not (elsewhere user.id fund.id m)) b.memberships)
  ok ((fund, user), db', record b { memberships = ms })

-- a line of ROLES, with the texts that `secrets` draws for its key
pub record DemoRole : Type 0 where
  pub role : Role
  pub username : ℕ
  pub prefix : Text
  pub secret : Text

abbrev pub is_users_key : ℕ → ℕ → ApiKey → Bool
is_users_key user name k = (k.user.id == user) && (k.name == name)

-- one pass of the loop of `demo_access`
unfoldable pub give_demo_role :
    (Text → ℕ) → ℕ → ℕ → ℕ → ℕ → ℕ → DemoRole → AccessDb → Result (Text × AccessDb)
unfolding ensure_user issue
give_demo_role digest key_name fund lp_id now expires_at r a =
    let (user, b) = ensure_user r.username a in
    do
      ms ←
          set_membership user.id fund r.role (if is_lp r.role then some lp_id else none)
            b.memberships
      let c : AccessDb = record b {
        memberships = ms;
        api_keys = revoke (is_users_key user.id key_name) now b.api_keys;
      }
      ((_, raw), e) ← issue digest user key_name (some expires_at) r.prefix r.secret c
      ok (raw, e)

-- the loop, over the lines of ROLES that are wanted
unfoldable pub give_demo_roles :
    (Text → ℕ) → ℕ → ℕ → ℕ → ℕ → ℕ → List DemoRole → AccessDb → Result (List Text × AccessDb)
unfolding give_demo_role
give_demo_roles digest key_name fund lp_id now expires_at [] a = ok ([], a)
give_demo_roles digest key_name fund lp_id now expires_at (r ∷ rs) a = do
  (raw, b) ← give_demo_role digest key_name fund lp_id now expires_at r a
  (raws, c) ← give_demo_roles digest key_name fund lp_id now expires_at rs b
  ok (raw ∷ raws, c)

-- the roles that `--roles` asks for; a text that names none is `none`
abbrev pub is_wanted : List (Option Role) → Role → Bool
is_wanted wanted r = any (λ w. map_or w false (λ v. role_rank v == role_rank r)) wanted

-- `demo_access`: the demo fund, then the keys in one transaction; LP_NAME is the fourth of DEMO_LPS
unfoldable pub demo_access :
    Hashing
    → Others
    → (DemoName → ℕ)
    → (DemoKey → ℕ)
    → (Text → ℕ)
    → ℕ
    → ℕ
    → ℕ
    → List (Option Role)
    → List DemoRole
    → Db
    → AccessDb
    → Result (List Text × Db × AccessDb)
unfolding give_demo_roles
demo_access x others demo_id demo_key digest key_name now days wanted roles db a = do
  (_, db') ← seed_demo x others demo_id demo_key db
  fund ← or_404 (find (λ f. f.id == demo_id demo_fund) db'.funds)
  raise_if (any (λ w. not (is_some w)) wanted) command_error
  (raws, b) ←
      give_demo_roles digest key_name fund.id (demo_id (demo_lp 3)) now (now + days * day)
        (filter (λ r. is_wanted wanted r.role) roles) a
  ok (raws, db', b)
