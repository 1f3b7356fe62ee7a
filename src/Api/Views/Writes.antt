-- ===== src/Api/Views/Writes.antt =====
-- The views that write: capital calls, distributions, reversals, and the closing of a period.
pub mod Answers
pub mod Again
use fund_ledger.Base.{ℕ, Bool, Option, none, some, List, map_or}
use fund_ledger.Base.Result.{Result, ok}
use fund_ledger.Ledger.Model.{Db, CapitalCall, Distribution, Period, Transfer}
use fund_ledger.Ledger.Queries.{transfer_by_id}
use fund_ledger.Ledger.Reverse.{reverse_transfer, found_or}
use fund_ledger.Operations.Periods.{period_for, close_period}
use fund_ledger.Operations.Calls.{CallRequest, create_capital_call}
use fund_ledger.Operations.Distributions.{DistributionRequest, create_distribution}
use fund_ledger.Access.Keys.{Text}
use fund_ledger.Access.Permissions.{operator, controller, FundMembership, fund_of_transfer}
use fund_ledger.Api.Errors.{Handled, handled, ◌>>=◌, of_result}
use fund_ledger.Api.Requests.{
  idempotency_key, CallForm, CallBody, validate_call, DistributionForm, DistributionBody,
  validate_distribution, validate_reverse,
}
use fund_ledger.Api.Views.{Service, Request, Turn, permit, retrying}

-- the keyword arguments of `create_capital_call`
abbrev pub call_request : Service → Request → ℕ → Text → CallBody → CallRequest
call_request v r fund key body = record {
  fund_id = fund;
  idempotency_key = v.number_of key;
  total = body.total;
  places = body.places;
  notice_date = body.notice_date;
  due_date = body.due_date;
  created_by = r.username;
}

-- `CapitalCallsView.post`; the memberships are those at the time of the request
unfoldable pub capital_calls_post :
    Service
    → List FundMembership
    → (ℕ → Turn)
    → Request
    → ℕ
    → CallForm
    → Handled ((CapitalCall × Bool) × Db)
capital_calls_post v ms turns r fund form = do
  m ← permit r (ok fund) operator ms
  key ← idempotency_key r.idempotency_header
  body ← validate_call v.fields form
  retrying (λ others. create_capital_call v.hashing others (call_request v r fund key body)) turns

abbrev pub distribution_request :
    Service → Request → ℕ → Text → DistributionBody → DistributionRequest
distribution_request v r fund key body = record {
  fund_id = fund;
  idempotency_key = v.number_of key;
  total = body.total;
  places = body.places;
  payment_date = body.payment_date;
  classification = body.classification;
  created_by = r.username;
}

-- `DistributionsView.post`
unfoldable pub distributions_post :
    Service
    → List FundMembership
    → (ℕ → Turn)
    → Request
    → ℕ
    → DistributionForm
    → Handled ((Distribution × Bool) × Db)
distributions_post v ms turns r fund form = do
  m ← permit r (ok fund) operator ms
  key ← idempotency_key r.idempotency_header
  body ← validate_distribution v.fields form
  retrying (λ others. create_distribution v.hashing others (distribution_request v r fund key body))
      turns

-- `ReverseTransferView.post`, at the tables `db`; the fund is the one of the original's period
unfoldable pub reverse_post :
    Service
    → List FundMembership
    → (ℕ → Turn)
    → Request
    → ℕ
    → Option ℕ
    → Db
    → Handled ((Transfer × Bool) × Db)
reverse_post v ms turns r transfer_id on_date db = do
  m ← permit r (fund_of_transfer transfer_id db) operator ms
  key ← idempotency_key r.idempotency_header
  original ← of_result (found_or (transfer_by_id transfer_id db))
  given ← validate_reverse v.fields on_date
  fund ← of_result (fund_of_transfer original.id db)
  period ← of_result (period_for fund (map_or given db.today (λ d. d)) db)
  retrying
      (λ others. reverse_transfer v.hashing others original.id (v.number_of key) period r.username)
      turns

-- `ClosePeriodView.post`
unfoldable pub close_period_post :
    List FundMembership → Request → ℕ → ℕ → Db → Handled (Period × Db)
close_period_post ms r fund period_id db = do
  m ← permit r (ok fund) controller ms
  ((period, _), db') ← of_result (close_period fund period_id r.username db)
  handled (period, db')
