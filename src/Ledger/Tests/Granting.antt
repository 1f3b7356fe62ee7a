-- ===== src/Ledger/Tests/Granting.antt =====
-- The application's role at a small catalog.
use fund_ledger.Base.{◌≡◌, refl, true, false, [], ◌∷◌}
use fund_ledger.Base.Result.{ok, err, command_error, programming_error}
use fund_ledger.Ledger.Roles.{
  Catalog, blank_role, ledger_entry, ledger_transfer, django_migrations, other_table,
  apply_db_grants,
}
use fund_ledger.Ledger.Roles.Exact.{Granted, IsMigrated, apply_db_grants-Granted}

-- the owner is 1, and some role had been granted everything
abbrev catalog : Catalog
catalog = record {
  roles = blank_role 1 ∷ blank_role 2 ∷ [];
  tables = django_migrations ∷ ledger_transfer ∷ ledger_entry ∷ other_table 7 ∷ [];
  sequences = [];
  grants = λ r t p. true;
  sequence_grants = λ r s. false;
  connects = λ r. false;
  uses_schema = λ r. false;
  public_creates = true;
}

catalog-IsMigrated : IsMigrated catalog
catalog-IsMigrated = (refl, refl, refl)

refusals :
    (apply_db_grants 1 2 0 catalog ≡ err command_error)
    × (apply_db_grants 1 1 9 catalog ≡ err command_error)
    × (apply_db_grants 1 2 9 (record catalog { tables = [] }) ≡ err programming_error)
unfolding apply_db_grants
refusals = (refl, refl, refl)

apply_db_grants-Granted_example :
    (c : Catalog) × (apply_db_grants 1 2 9 catalog ≡ ok c) × Granted 2 catalog c
apply_db_grants-Granted_example = apply_db_grants-Granted 1 2 9 catalog refl refl catalog-IsMigrated
