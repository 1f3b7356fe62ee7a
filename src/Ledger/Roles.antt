-- ===== src/Ledger/Roles.antt =====
-- ledger/db_roles.py, and ledger/management/commands/apply_db_grants.py: the role that the
-- application connects as. Names of roles and sequences are numbers; the empty text is 0.
pub mod Exact
use fund_ledger.Base.{
  ℕ, Bool, true, false, not, ◌&&◌, ◌||◌, Option, none, some, List, [], ◌∷◌, ◌++◌, ◌==◌,
  if◌then◌else◌, map, find, any, all,
}
use fund_ledger.Base.Result.{
  Result, ok, err, command_error, programming_error, ◌>>=◌, ◌>>◌, raise_if,
}

pub data Table : Type 0 where
  ledger_entry ledger_transfer django_migrations : Table
  other_table : ℕ → Table

abbrev pub same_table : Table → Table → Bool
same_table ledger_entry ledger_entry = true
same_table ledger_transfer ledger_transfer = true
same_table django_migrations django_migrations = true
same_table (other_table i) (other_table j) = i == j
same_table _ _ = false

abbrev pub append_only_tables : List Table
append_only_tables = ledger_entry ∷ ledger_transfer ∷ []

abbrev pub read_only_tables : List Table
read_only_tables = django_migrations ∷ []

-- the privileges on a table
pub data Privilege : Type 0 where
  select insert update delete truncate references trigger : Privilege

abbrev pub same_privilege : Privilege → Privilege → Bool
same_privilege select select = true
same_privilege insert insert = true
same_privilege update update = true
same_privilege delete delete = true
same_privilege truncate truncate = true
same_privilege references references = true
same_privilege trigger trigger = true
same_privilege _ _ = false

abbrev pub all_privileges : List Privilege
all_privileges = select ∷ insert ∷ update ∷ delete ∷ truncate ∷ references ∷ trigger ∷ []

pub data Setting : Type 0 where
  statement_timeout lock_timeout idle_in_transaction_session_timeout : Setting

-- `ROLE_SETTINGS`, in seconds
abbrev pub role_settings : List (Setting × ℕ)
role_settings =
    (statement_timeout, 5) ∷ (lock_timeout, 3) ∷ (idle_in_transaction_session_timeout, 30) ∷ []

abbrev pub set_setting : Setting → ℕ → (Setting → Option ℕ) → Setting → Option ℕ
set_setting statement_timeout n f statement_timeout = some n
set_setting lock_timeout n f lock_timeout = some n
set_setting idle_in_transaction_session_timeout n f idle_in_transaction_session_timeout = some n
set_setting _ n f s = f s

-- a row of pg_roles
pub record DbRole : Type 0 where
  pub name : ℕ
  pub password : ℕ
  pub login : Bool
  pub superuser : Bool
  pub create_db : Bool
  pub create_role : Bool
  pub bypass_rls : Bool
  pub settings : Setting → Option ℕ

-- What a database says of its roles: `grants r t p` is the privilege of `r` on a table, and
-- `sequence_grants r s` the right to use a sequence and read it.
pub record Catalog : Type 0 where
  pub roles : List DbRole
  pub tables : List Table
  pub sequences : List ℕ
  pub grants : ℕ → Table → Privilege → Bool
  pub sequence_grants : ℕ → ℕ → Bool
  pub connects : ℕ → Bool
  pub uses_schema : ℕ → Bool
  pub public_creates : Bool

-- LOGIN NOSUPERUSER NOCREATEDB NOCREATEROLE NOBYPASSRLS PASSWORD …
abbrev pub restricted : ℕ → DbRole → DbRole
restricted password r = record r {
  password = password;
  login = true;
  superuser = false;
  create_db = false;
  create_role = false;
  bypass_rls = false;
}

abbrev pub blank_role : ℕ → DbRole
blank_role name = record {
  name = name;
  password = 0;
  login = false;
  superuser = false;
  create_db = false;
  create_role = false;
  bypass_rls = false;
  settings = λ _. none;
}

-- the loop over ROLE_SETTINGS
abbrev pub with_settings : List (Setting × ℕ) → DbRole → DbRole
with_settings [] r = r
with_settings ((s, n) ∷ rest) r =
    with_settings rest (record r { settings = set_setting s n r.settings })

-- ALTER ROLE where there is one of the name, CREATE ROLE where there is none
unfoldable pub ensure_login_role : ℕ → ℕ → Catalog → Catalog
ensure_login_role role password c =
    let ready = λ (r : DbRole). with_settings role_settings (restricted password r) in
    if any (λ r. r.name == role) c.roles
    then record c { roles = map (λ r. if r.name == role then ready r else r) c.roles }
    else record c { roles = c.roles ++ (ready (blank_role role) ∷ []) }

pub data GrantStatement : Type 0 where
  revoke_create_from_public : GrantStatement
  revoke_all_on_all_tables revoke_all_on_all_sequences : ℕ → GrantStatement
  grant_connect grant_usage_on_schema grant_on_all_sequences : ℕ → GrantStatement
  grant_on_all_tables : List Privilege → ℕ → GrantStatement
  revoke_on : List Privilege → List Table → ℕ → GrantStatement

-- `role` gets (or loses) the privileges on the tables
abbrev pub set_grants :
    Bool
    → List Privilege
    → List Table
    → ℕ
    → (ℕ → Table → Privilege → Bool)
    → ℕ
    → Table
    → Privilege
    → Bool
set_grants value ps ts role grants r t p =
    if r == role
    then if any (same_table t) ts && any (same_privilege p) ps then value else grants r t p
    else grants r t p

abbrev pub set_sequences : Bool → List ℕ → ℕ → (ℕ → ℕ → Bool) → ℕ → ℕ → Bool
set_sequences value ss role grants r s =
    if (r == role) && any (λ i. i == s) ss then value else grants r s

abbrev pub granting : ℕ → (ℕ → Bool) → ℕ → Bool
granting role f r = (r == role) || f r

unfoldable pub run_grant : GrantStatement → Catalog → Result Catalog
run_grant revoke_create_from_public c = ok (record c { public_creates = false })
run_grant (revoke_all_on_all_tables r) c =
    ok (record c { grants = set_grants false all_privileges c.tables r c.grants })
run_grant (revoke_all_on_all_sequences r) c =
    ok (record c { sequence_grants = set_sequences false c.sequences r c.sequence_grants })
run_grant (grant_connect r) c = ok (record c { connects = granting r c.connects })
run_grant (grant_usage_on_schema r) c = ok (record c { uses_schema = granting r c.uses_schema })
run_grant (grant_on_all_sequences r) c =
    ok (record c { sequence_grants = set_sequences true c.sequences r c.sequence_grants })
run_grant (grant_on_all_tables ps r) c =
    ok (record c { grants = set_grants true ps c.tables r c.grants })
run_grant (revoke_on ps ts r) c = do
  raise_if (not (all (λ t. any (same_table t) c.tables) ts)) programming_error
  ok (record c { grants = set_grants false ps ts r c.grants })

unfoldable pub run_grants : List GrantStatement → Catalog → Result Catalog
unfolding run_grant
run_grants [] c = ok c
run_grants (s ∷ ss) c = run_grant s c >>= run_grants ss

-- the statements of `apply_grants`, in its order
abbrev pub grant_statements : ℕ → List GrantStatement
grant_statements r =
    revoke_create_from_public
    ∷ revoke_all_on_all_tables r
    ∷ revoke_all_on_all_sequences r
    ∷ grant_connect r
    ∷ grant_usage_on_schema r
    ∷ grant_on_all_tables (select ∷ insert ∷ update ∷ delete ∷ []) r
    ∷ grant_on_all_sequences r
    ∷ revoke_on (update ∷ delete ∷ []) append_only_tables r
    ∷ revoke_on (insert ∷ update ∷ delete ∷ []) read_only_tables r
    ∷ []

unfoldable pub apply_grants : ℕ → Catalog → Result Catalog
unfolding run_grants
apply_grants role c = run_grants (grant_statements role) c

-- the command, run by `owner`
unfoldable pub apply_db_grants : ℕ → ℕ → ℕ → Catalog → Result Catalog
unfolding ensure_login_role apply_grants
apply_db_grants owner role password c = do
  raise_if (password == 0) command_error
  raise_if (role == owner) command_error
  apply_grants role (ensure_login_role role password c)
