-- ===== src/Operations/History.antt =====
-- The ledger over time: everything that the code does to the database, in any order, with other
-- sessions at the points where `_run_once` meets them (operations/services.py, operations/periods.py,
-- operations/chart.py, ledger/services.py).
pub mod Postings
pub mod Accounts
pub mod Sound
use fund_ledger.Base.{ℕ, ◌≡◌, Bool, Option, List}
use fund_ledger.Base.Int.{ℤ}
use fund_ledger.Base.Result.{Result, ok, err}
use fund_ledger.Ledger.Decimal.{Number}
use fund_ledger.Ledger.Model.{
  Db, Fund, Commitment, Period, FxRate, Transfer, CapitalCall, Distribution,
}
use fund_ledger.Ledger.Idempotency.{Hashing, Others}
use fund_ledger.Ledger.Submit.{Submission, post_transfer_idempotent}
use fund_ledger.Ledger.Reverse.{reverse_transfer}
use fund_ledger.Operations.Chart.{open_fund_accounts}
use fund_ledger.Operations.Periods.{close_period}
use fund_ledger.Operations.Calls.{CallRequest, create_capital_call}
use fund_ledger.Operations.Distributions.{DistributionRequest, create_distribution}
use fund_ledger.Operations.Portfolio.{record_investment, charge_fee, record_valuation}

-- what an operation leaves that commits an account before it can fail
abbrev pub left_by : {T : Type 0} → Db × Result (T × Db) → Db
left_by (db, err e) = db
left_by (db, ok (value, db')) = db'

-- One operation that returned, or several: `Runs x db db'` is a history from `db` to `db'`. What the
-- other sessions of a run commit is a history as well.
pub data Runs (x : Hashing) : Db → Db → Type 0 where
  rests : {db : Db} → Runs x db db
  follows : {db mid db' : Db} → Runs x db mid → Runs x mid db' → Runs x db db'
  posts :
      {db db' : Db} (others : Others)
      → ((d : Db) → Runs x d (others.before d))
      → ((d : Db) → Runs x d (others.after d))
      → (s : Submission) {t : Transfer} {c : Bool}
      → post_transfer_idempotent x others s db ≡ ok ((t, c), db')
      → Runs x db db'
  reverses :
      {db db' : Db} (others : Others)
      → ((d : Db) → Runs x d (others.before d))
      → ((d : Db) → Runs x d (others.after d))
      → (i key : ℕ) (period : Period) (who : ℕ) {t : Transfer} {c : Bool}
      → reverse_transfer x others i key period who db ≡ ok ((t, c), db')
      → Runs x db db'
  calls :
      {db db' : Db} (others : Others)
      → ((d : Db) → Runs x d (others.before d))
      → ((d : Db) → Runs x d (others.after d))
      → (q : CallRequest) {d : CapitalCall} {c : Bool}
      → create_capital_call x others q db ≡ ok ((d, c), db')
      → Runs x db db'
  pays_out :
      {db db' : Db} (others : Others)
      → ((d : Db) → Runs x d (others.before d))
      → ((d : Db) → Runs x d (others.after d))
      → (q : DistributionRequest) {d : Distribution} {c : Bool}
      → create_distribution x others q db ≡ ok ((d, c), db')
      → Runs x db db'
  invests :
      {db : Db} (others : Others)
      → ((d : Db) → Runs x d (others.before d))
      → ((d : Db) → Runs x d (others.after d))
      → (fund key : ℕ) (c : ℤ) (k currency on : ℕ)
      → Runs x db (left_by (record_investment x others fund key c k currency on db))
  charges :
      {db db' : Db} (others : Others)
      → ((d : Db) → Runs x d (others.before d))
      → ((d : Db) → Runs x d (others.after d))
      → (fund key : ℕ) (amount : Number) (on : ℕ) {t : Transfer} {c : Bool}
      → charge_fee x others fund key amount on db ≡ ok ((t, c), db')
      → Runs x db db'
  values_at :
      {db db' : Db} (others : Others)
      → ((d : Db) → Runs x d (others.before d))
      → ((d : Db) → Runs x d (others.after d))
      → (fund key : ℕ) (v : ℤ) (k on : ℕ) {t : Transfer} {c : Bool}
      → record_valuation x others fund key v k on db ≡ ok ((t, c), db')
      → Runs x db db'
  closes :
      {db db' : Db} (fund i who : ℕ) {p : Period} {c : Bool}
      → close_period fund i who db ≡ ok ((p, c), db')
      → Runs x db db'
  opens : {db db' : Db} (fund : Fund) → open_fund_accounts fund db ≡ ok db' → Runs x db db'
  -- the tables that are kept by hand, and the clock
  administers :
      {db : Db} (funds : List Fund) (commitments : List Commitment) (periods : List Period)
      (rates : List FxRate) (now today : ℕ)
      → Runs x db (record db {
        funds = funds;
        commitments = commitments;
        periods = periods;
        fx_rates = rates;
        now = now;
        today = today;
      })
