-- ===== src/Operations/Periods.antt =====
-- operations/periods.py: the period of a date, and the closing of a period.
pub mod Closing
use fund_ledger.Base.{
  ℕ, Bool, true, false, not, ◌&&◌, Option, none, some, List, ◌==◌, leb, ltb, find, any, map, filter,
  sort_by, if◌then◌else◌,
}
use fund_ledger.Base.Int.{pos, eqb_ℤ}
use fund_ledger.Base.Result.{
  Result, ok, err, ledger, not_found, no_period, period_not_closable, ◌>>=◌, ◌>>◌, raise_if,
}
use fund_ledger.Ledger.Model.{Db, Period, is_open, closed_period}
use fund_ledger.Ledger.Reconciliation.{period_imbalance}

abbrev pub or_no_period : Option Period → Result Period
or_no_period none = err (ledger no_period)
or_no_period (some p) = ok p

-- the model's ordering: of two periods that cover a date, the earlier is first
abbrev pub periods_of : ℕ → Db → List Period
periods_of fund db =
    sort_by (λ p q. leb p.start_date q.start_date) (filter (λ p. p.fund_id == fund) db.periods)

unfoldable pub period_for : ℕ → ℕ → Db → Result Period
period_for fund on db =
    or_no_period (find (λ p. leb p.start_date on && leb on p.end_date) (periods_of fund db))

abbrev pub period_or : Option Period → Result Period
period_or none = err not_found
period_or (some p) = ok p

-- an open period of the fund that starts earlier
abbrev pub open_before : ℕ → ℕ → Period → Bool
open_before fund start p = (p.fund_id == fund) && (ltb p.start_date start && is_open p.status)

-- the row that is saved, by its primary key
abbrev pub closed_row : ℕ → ℕ → Period → Period
closed_row now who p = record p { status = closed_period; closed_at = some now; closed_by = who }

abbrev pub save_closed : ℕ → ℕ → ℕ → Period → Period
save_closed i now who p = if p.id == i then closed_row now who p else p

-- the period, whether it was changed, and the database after
unfoldable pub close_period : ℕ → ℕ → ℕ → Db → Result ((Period × Bool) × Db)
close_period fund i who db = do
  p ← period_or (find (λ p. (p.id == i) && (p.fund_id == fund)) db.periods)
  if not (is_open p.status) then ok ((p, false), db) else do
    raise_if (any (open_before fund p.start_date) db.periods) (ledger period_not_closable)
    raise_if (not (eqb_ℤ (period_imbalance p.id db) (pos 0))) (ledger period_not_closable)
    ok (
      (closed_row db.now who p, true),
      record db { periods = map (save_closed p.id db.now who) db.periods },
    )
