-- ===== src/Ledger/Roles/Exact.antt =====
-- What the application's role may do, once the command has run.
use fund_ledger.Base.{
  ℕ, ◌≡◌, refl, Bool, true, false, some, List, [], ◌∷◌, ◌==◌, ==_refl, arith, map, find, find-snoc,
  find-none, any, not, Bool-cases, inl, inr, if◌then◌else◌,
}
use fund_ledger.Base.Result.{ok}
use fund_ledger.Ledger.Roles.{
  Table, ledger_entry, ledger_transfer, django_migrations, other_table, same_table, Privilege,
  select, insert, update, delete, DbRole, Catalog, restricted, blank_role, with_settings,
  role_settings, ensure_login_role, set_grants, set_sequences, granting, all_privileges,
  append_only_tables, read_only_tables, apply_grants, apply_db_grants,
}

-- read and add, and change or remove where the table is neither append-only nor read-only
abbrev pub may : Table → Privilege → Bool
may t select = true
may t insert = not (same_table t django_migrations)
may (other_table i) update = true
may (other_table i) delete = true
may t _ = false

abbrev pub HasTable : Catalog → Table → Type 0
HasTable c t = any (same_table t) c.tables ≡ true

-- the migrations have run
abbrev pub IsMigrated : Catalog → Type 0
IsMigrated c = HasTable c ledger_entry × HasTable c ledger_transfer × HasTable c django_migrations

-- a role that may log in, and has no power over the whole database
abbrev pub IsRestricted : DbRole → Type 0
IsRestricted r =
    (r.login ≡ true) × (r.superuser ≡ false) × (r.create_role ≡ false) × (r.bypass_rls ≡ false)

pub record Granted (role : ℕ) (c c' : Catalog) : Type 0 where
  pub exact : (t : Table) (p : Privilege) → HasTable c t → c'.grants role t p ≡ may t p
  pub others :
      (r : ℕ) (t : Table) (p : Privilege) → (r == role) ≡ false → c'.grants r t p ≡ c.grants r t p
  pub restricted_role :
      (r : DbRole) × (find (λ r. r.name == role) c'.roles ≡ some r) × IsRestricted r

-- the database after the statements
abbrev granted : ℕ → Catalog → Catalog
granted r c = record c {
  public_creates = false;
  grants = set_grants false (insert ∷ update ∷ delete ∷ []) read_only_tables r (
      set_grants false (update ∷ delete ∷ []) append_only_tables r (
        set_grants true (select ∷ insert ∷ update ∷ delete ∷ []) c.tables r
          (set_grants false all_privileges c.tables r c.grants)));
  sequence_grants =
      set_sequences true c.sequences r (set_sequences false c.sequences r c.sequence_grants);
  connects = granting r c.connects;
  uses_schema = granting r c.uses_schema;
}

apply_grants-granted :
    (role : ℕ) (c : Catalog) → IsMigrated c → apply_grants role c ≡ ok (granted role c)
unfolding apply_grants
apply_grants-granted role c (entry, transfer, migrations) = rw (entry, transfer, migrations) refl

granted-exact :
    (role : ℕ) (c : Catalog) (t : Table) (p : Privilege)
    → HasTable c t
    → (granted role c).grants role t p ≡ may t p
granted-exact role c ledger_entry p h = rw (==_refl role, h) (ground arith)
granted-exact role c ledger_transfer p h = rw (==_refl role, h) (ground arith)
granted-exact role c django_migrations p h = rw (==_refl role, h) (ground arith)
granted-exact role c (other_table i) p h = rw (==_refl role, h) (ground arith)

granted-others :
    (role : ℕ) (c : Catalog) (r : ℕ) (t : Table) (p : Privilege)
    → (r == role) ≡ false
    → (granted role c).grants r t p ≡ c.grants r t p
granted-others role c r t p h = rw h refl

abbrev ready : ℕ → DbRole → DbRole
ready password r = with_settings role_settings (restricted password r)

find-ready :
    (role password : ℕ) (rs : List DbRole)
    → any (λ r. r.name == role) rs ≡ true
    → (r : DbRole) × (find
          (λ r. r.name == role)
          (map (λ r. if r.name == role then ready password r else r) rs)
        ≡ some r)
      × IsRestricted r
find-ready role password [] h = absurd (cc)
find-ready role password (r ∷ rs) h = elim (Bool-cases (r.name == role)) [
  | inl own ↦ (ready password r, rw (own, own) refl, (refl, refl, refl, refl))
  | inr other ↦ rw (other, other) (find-ready role password rs (rw other at h))
]

ensure_login_role-IsRestricted :
    (role password : ℕ) (c : Catalog)
    → (r : DbRole) × (find (λ r. r.name == role) (ensure_login_role role password c).roles ≡ some r)
      × IsRestricted r
unfolding ensure_login_role
ensure_login_role-IsRestricted role password c =
    elim (Bool-cases (any (λ r. r.name == role) c.roles)) [
      | inl there ↦ rw there (find-ready role password c.roles there)
      | inr missing ↦ rw missing (
        ready password (blank_role role),
        find-snoc (λ r. r.name == role) c.roles (ready password (blank_role role))
            (find-none (λ r. r.name == role) c.roles missing) (==_refl role),
        (refl, refl, refl, refl),
      )
    ]

ensure_login_role-catalog :
    (role password : ℕ) (c : Catalog)
    → ensure_login_role role password c
      ≡ record c { roles = (ensure_login_role role password c).roles }
unfolding ensure_login_role
ensure_login_role-catalog role password c = ground arith

-- On a migrated database the command gives the application's role, where it has a password and is
-- not the owner, exactly the privileges of `may` on every table, whatever it had before; leaves
-- those of every other role as they were; and makes it a role that can log in, and is no superuser,
-- cannot create roles and is under row security.
pub apply_db_grants-Granted :
    (owner role password : ℕ) (c : Catalog)
    → (password == 0) ≡ false
    → (role == owner) ≡ false
    → IsMigrated c
    → (c' : Catalog) × (apply_db_grants owner role password c ≡ ok c') × Granted role c c'
unfolding apply_db_grants
apply_db_grants-Granted owner role password c given apart migrated =
    let roles = (ensure_login_role role password c).roles in
    let middle : Catalog = record c { roles = roles } in
    (
      granted role middle,
      rw (given, apart, ensure_login_role-catalog role password c)
          (apply_grants-granted role middle migrated),
      record {
        exact = granted-exact role middle;
        others = granted-others role middle;
        restricted_role = ensure_login_role-IsRestricted role password c;
      },
    )
