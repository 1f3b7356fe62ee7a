-- ===== src/Ledger/Guards.antt =====
-- The statements that a session can send to ledger_transfer, ledger_entry and funds_period, with
-- the triggers on them: ledger/migrations/0002_integrity_triggers.py and 0003_period_guards.py, and
-- the constraints of funds/models.py on a period. `Statement` has what the application's role may send
-- to them (ledger/db_roles.py withholds TRUNCATE), and the updates and deletes of transfers and entries
-- that only the owner may.
pub mod Grows
pub mod Inserts
pub mod Calendar
pub mod Runs
pub mod Frozen
use fund_ledger.Base.{
  ℕ, Bool, true, false, not, ◌&&◌, ◌||◌, Option, none, some, List, [], ◌∷◌, ◌++◌, ◌==◌, ltb,
  if◌then◌else◌, map, filter, any,
}
use fund_ledger.Base.Result.{
  Result, ok, err, integrity, ◌>>=◌, ◌>>◌, raise_if, append_only, period_closed_is_final,
  period_closed_at_matches_status, period_unique_start, period_end_not_before_start, period_pkey,
  transfer_period_fkey, period_fund_fkey,
}
use fund_ledger.Ledger.Model.{Db, Transfer, Entry, Period, is_open}
use fund_ledger.Ledger.Insert.{
  is_some, period_by_id, insert_transfer, insert_entries, check_balances,
}

-- `forbid_mutation`, before each row that the statement touches
abbrev pub forbid_mutation : {A : Type 0} → (A → Bool) → List A → Result (Unit {0})
forbid_mutation touched rows = raise_if (any touched rows) (integrity append_only)

-- UPDATE … SET … WHERE, and DELETE … WHERE, of a list of rows
abbrev pub updated : {A : Type 0} → (A → Bool) → (A → A) → List A → List A
updated touched set rows = map (λ r. if touched r then set r else r) rows

abbrev pub remaining : {A : Type 0} → (A → Bool) → List A → List A
remaining touched rows = filter (λ r. not (touched r)) rows

unfoldable pub update_transfers : (Transfer → Bool) → (Transfer → Transfer) → Db → Result Db
update_transfers touched set db = do
  forbid_mutation touched db.transfers
  ok (record db { transfers = updated touched set db.transfers })

unfoldable pub delete_transfers : (Transfer → Bool) → Db → Result Db
delete_transfers touched db = do
  forbid_mutation touched db.transfers
  ok (record db { transfers = remaining touched db.transfers })

unfoldable pub update_entries : (Entry → Bool) → (Entry → Entry) → Db → Result Db
update_entries touched set db = do
  forbid_mutation touched db.entries
  ok (record db { entries = updated touched set db.entries })

unfoldable pub delete_entries : (Entry → Bool) → Db → Result Db
delete_entries touched db = do
  forbid_mutation touched db.entries
  ok (record db { entries = remaining touched db.entries })

-- the constraint of the same name
abbrev pub closed_at_matches_status : Period → Bool
closed_at_matches_status p =
    if is_open p.status then not (is_some p.closed_at) else is_some p.closed_at

-- another row with the fund and the start
abbrev pub shares_start : List Period → Period → Bool
shares_start rows p =
    any (λ q. not (q.id == p.id) && ((q.fund_id == p.fund_id) && (q.start_date == p.start_date)))
      rows

-- the columns of `set`, under the row's own key
abbrev pub keeping_id : (Period → Period) → Period → Period
keeping_id set p = record (set p) { id = p.id }

-- the constraints that are checked as a row is written
unfoldable pub check_periods : List Period → Result (Unit {0})
check_periods rows = do
  raise_if (any (λ p. not (closed_at_matches_status p)) rows)
      (integrity period_closed_at_matches_status)
  raise_if (any (λ p. ltb p.end_date p.start_date) rows) (integrity period_end_not_before_start)
  raise_if (any (shares_start rows) rows) (integrity period_unique_start)

-- UPDATE funds_period: `forbid_period_reopen` before each row, then the constraints
unfoldable pub update_periods : (Period → Bool) → (Period → Period) → Db → Result Db
unfolding check_periods
update_periods touched set db =
    let rows = updated touched (keeping_id set) db.periods in
    do
      raise_if (any (λ p. touched p && not (is_open p.status)) db.periods)
          (integrity period_closed_is_final)
      check_periods rows
      ok (record db { periods = rows })

-- INSERT INTO funds_period, which no trigger is on
unfoldable pub insert_period : Period → Db → Result Db
unfolding check_periods
insert_period p db =
    let rows = db.periods ++ (p ∷ []) in
    do
      raise_if (any (λ q. q.id == p.id) db.periods) (integrity period_pkey)
      check_periods rows
      ok (record db { periods = rows })

-- DELETE FROM funds_period, which no trigger is on: the foreign key of a transfer is checked at COMMIT
unfoldable pub delete_periods : (Period → Bool) → Db → Result Db
delete_periods touched db = ok (record db { periods = remaining touched db.periods })

pub data Statement : Type 0 where
  insert_transfer_row : Transfer → Statement
  insert_entry_rows : List Entry → Statement
  update_transfer_rows : (Transfer → Bool) → (Transfer → Transfer) → Statement
  delete_transfer_rows : (Transfer → Bool) → Statement
  update_entry_rows : (Entry → Bool) → (Entry → Entry) → Statement
  delete_entry_rows : (Entry → Bool) → Statement
  update_period_rows : (Period → Bool) → (Period → Period) → Statement
  insert_period_row : Period → Statement
  delete_period_rows : (Period → Bool) → Statement

unfoldable pub execute : Statement → Db → Result Db
unfolding insert_transfer insert_entries update_transfers delete_transfers update_entries
    delete_entries update_periods insert_period delete_periods
execute (insert_transfer_row t) db = insert_transfer t db
execute (insert_entry_rows es) db = insert_entries es db
execute (update_transfer_rows touched set) db = update_transfers touched set db
execute (delete_transfer_rows touched) db = delete_transfers touched db
execute (update_entry_rows touched set) db = update_entries touched set db
execute (delete_entry_rows touched) db = delete_entries touched db
execute (update_period_rows touched set) db = update_periods touched set db
execute (insert_period_row p) db = insert_period p db
execute (delete_period_rows touched) db = delete_periods touched db

unfoldable pub execute_all : List Statement → Db → Result Db
unfolding execute
execute_all [] db = ok db
execute_all (s ∷ ss) db = execute s db >>= execute_all ss

-- the rows for which the deferred trigger is queued
abbrev pub inserted_by : Statement → List Entry
inserted_by (insert_entry_rows es) = es
inserted_by _ = []

abbrev pub inserted : List Statement → List Entry
inserted [] = []
inserted (s ∷ ss) = inserted_by s ++ inserted ss

-- the foreign keys between the tables, which Django declares DEFERRABLE INITIALLY DEFERRED
unfoldable pub check_keys : Db → Result (Unit {0})
check_keys db = do
  raise_if (any (λ t. not (is_some (period_by_id t.period_id db))) db.transfers)
      (integrity transfer_period_fkey)
  raise_if (any (λ p. not (any (λ f. f.id == p.fund_id) db.funds)) db.periods)
      (integrity period_fund_fkey)

-- a transaction: its statements, then the foreign keys and `entry_balance_check` at COMMIT
unfoldable pub transact : List Statement → Db → Result Db
unfolding execute_all check_keys
transact ss db = do
  db' ← execute_all ss db
  check_keys db'
  check_balances (inserted ss) db'
  ok db'

-- one that raises is rolled back
abbrev pub or_rollback : Db → Result Db → Db
or_rollback db (err e) = db
or_rollback db (ok db') = db'

unfoldable pub history : List (List Statement) → Db → Db
unfolding transact
history [] db = db
history (ss ∷ rest) db = history rest (or_rollback db (transact ss db))
