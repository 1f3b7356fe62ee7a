-- ===== src/Ledger/Insert.antt =====
-- The writes to ledger_transfer and ledger_entry, with every constraint and trigger that the
-- database puts on them (ledger/models.py, ledger/migrations/0002 and 0003).
pub mod Effect
use fund_ledger.Base.{
  ℕ, ◌^◌, Bool, true, false, not, ◌&&◌, Option, none, some, List, [], ◌∷◌, ◌++◌, ◌==◌, ltb, filter,
  find, any, map_or,
}
use fund_ledger.Base.Int.{ℤ, pos, abs, eqb_ℤ, leb_ℤ, sum_by}
use fund_ledger.Base.Result.{
  Result, ok, integrity, data_error, ◌>>=◌, ◌>>◌, raise_if, transfer_pkey,
  transfer_idempotency_key_unique, transfer_reverses_unique, transfer_idempotency_key_present,
  transfer_only_reversals_reverse, transfer_reversal_has_target, entry_pkey, entry_amount_positive,
  entry_base_amount_positive, entry_direction_valid, entry_fx_rate_positive,
  entry_currency_matches_account, period_open, transfer_balanced,
}
use fund_ledger.Ledger.Model.{Db, Transfer, Entry, Period, is_reversal, is_open, signed_base_amount}
use fund_ledger.Ledger.Queries.{transfer_by_id}
use fund_ledger.Ledger.Validate.{is_unrecognised}

abbrev pub is_some {ℓ} : {A : Type ℓ} → Option A → Bool
is_some none = false
is_some (some a) = true

-- `reverses` refers to the transfer `r`
abbrev pub refers : ℕ → Option ℕ → Bool
refers r none = false
refers r (some s) = r == s

abbrev pub reversed_already : Option ℕ → Db → Bool
reversed_already none db = false
reversed_already (some r) db = any (λ t. refers r t.reverses) db.transfers

-- INSERT INTO ledger_transfer
unfoldable pub insert_transfer : Transfer → Db → Result Db
insert_transfer t db = do
  raise_if (t.idempotency_key == 0) (integrity transfer_idempotency_key_present)
  raise_if (is_some t.reverses && not (is_reversal t.transfer_type))
      (integrity transfer_only_reversals_reverse)
  raise_if (is_reversal t.transfer_type && not (is_some t.reverses))
      (integrity transfer_reversal_has_target)
  raise_if (is_some (transfer_by_id t.id db)) (integrity transfer_pkey)
  raise_if (any (λ s. s.idempotency_key == t.idempotency_key) db.transfers)
      (integrity transfer_idempotency_key_unique)
  raise_if (reversed_already t.reverses db) (integrity transfer_reverses_unique)
  ok (record db { transfers = db.transfers ++ (t ∷ []) })

abbrev pub period_by_id : ℕ → Db → Option Period
period_by_id i db = find (λ p. p.id == i) db.periods

-- `assert_period_open`, before each row
abbrev pub in_open_period : Entry → Db → Bool
in_open_period e db =
    map_or (transfer_by_id e.transfer_id db) false
      (λ t. map_or (period_by_id t.period_id db) false (λ p. is_open p.status))

-- NUMERIC(20, 4) and NUMERIC(20, 10) hold 20 digits
abbrev pub column_limit : ℕ
column_limit = 10 ^ 20

abbrev pub fits : Entry → Bool
fits e =
    ltb e.amount column_limit
    && (ltb (abs e.base_amount) column_limit && map_or e.fx_rate true (λ r. ltb r column_limit))

-- the row that the composite foreign key refers to
abbrev pub has_account : Entry → Db → Bool
has_account e db = any (λ a. (a.id == e.account_id) && (a.currency == e.currency)) db.accounts

-- one row of INSERT INTO ledger_entry
unfoldable pub insert_entry : Entry → Db → Result Db
insert_entry e db = do
  raise_if (not (fits e)) data_error
  raise_if (not (in_open_period e db)) (integrity period_open)
  raise_if (e.amount == 0) (integrity entry_amount_positive)
  raise_if (leb_ℤ e.base_amount (pos 0)) (integrity entry_base_amount_positive)
  raise_if (is_unrecognised e.direction) (integrity entry_direction_valid)
  raise_if (map_or e.fx_rate false (λ r. r == 0)) (integrity entry_fx_rate_positive)
  raise_if (any (λ f. f.id == e.id) db.entries) (integrity entry_pkey)
  raise_if (not (has_account e db)) (integrity entry_currency_matches_account)
  ok (record db { entries = db.entries ++ (e ∷ []) })

-- `bulk_create`
unfoldable pub insert_entries : List Entry → Db → Result Db
unfolding insert_entry
insert_entries [] db = ok db
insert_entries (e ∷ es) db = insert_entry e db >>= insert_entries es

-- the sum of a transfer's entries
unfoldable pub transfer_imbalance : ℕ → Db → ℤ
transfer_imbalance t db = sum_by signed_base_amount (filter (λ e. e.transfer_id == t) db.entries)

-- `_fire_deferred_balance_check`: `assert_transfer_balances` for each row that was inserted
unfoldable pub check_balances : List Entry → Db → Result (Unit {0})
check_balances [] db = ok tt
check_balances (e ∷ es) db = do
  raise_if (not (eqb_ℤ (transfer_imbalance e.transfer_id db) (pos 0))) (integrity transfer_balanced)
  check_balances es db
