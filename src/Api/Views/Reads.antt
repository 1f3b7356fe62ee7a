-- ===== src/Api/Views/Reads.antt =====
-- The views that read: the caller's memberships, accounts, periods, balances and reconciliation.
use fund_ledger.Base.{
  ℕ, Bool, true, false, ◌&&◌, Option, none, some, List, [], ◌∷◌, ◌==◌, leb, filter, find, sort_by,
}
use fund_ledger.Base.Int.{ℤ, pos, eqb_ℤ}
use fund_ledger.Base.Result.{ok}
use fund_ledger.Ledger.Model.{Db, Account, Entry, Period}
use fund_ledger.Ledger.Queries.{native_balance, base_balance}
use fund_ledger.Ledger.Reconciliation.{fund_imbalance, unbalanced_transfers}
use fund_ledger.Operations.Periods.{periods_of}
use fund_ledger.Access.Keys.{Text}
use fund_ledger.Access.Permissions.{lp, viewer, FundMembership, or_404, fund_of_account}
use fund_ledger.Api.Errors.{
  Handled, failed, handled, framework, not_authenticated, ◌>>=◌, of_result,
}
use fund_ledger.Api.Requests.{parse_as_of}
use fund_ledger.Api.Views.{Service, Request, permit}

-- `MeView.get`: the caller's memberships, in the order of the funds' names
unfoldable pub me_get :
    (ℕ → ℕ → Bool) → List FundMembership → Request → Handled (List FundMembership)
me_get name_le ms r = elim r.user [
  | none ↦ failed (framework not_authenticated)
  | some user ↦
      handled (sort_by (λ m n. name_le m.fund_id n.fund_id) (filter (λ m. m.user_id == user) ms))
]

-- `FundAccountsView.get`, in the order of the codes
unfoldable pub accounts_get :
    (Account → Account → Bool) → List FundMembership → Request → ℕ → Db → Handled (List Account)
accounts_get code_le ms r fund db = do
  m ← permit r (ok fund) viewer ms
  handled (sort_by code_le (filter (λ a. a.fund_id == fund) db.accounts))

-- `FundPeriodsView.get`
unfoldable pub periods_get : List FundMembership → Request → ℕ → Db → Handled (List Period)
periods_get ms r fund db = do m ← permit r (ok fund) lp ms; handled (periods_of fund db)

-- what `AccountBalanceView.get` returns
pub record Balance : Type 0 where
  pub account : ℕ
  pub currency : ℕ
  pub balance : ℤ
  pub base_balance : ℤ
  pub as_of : Option ℕ

unfoldable pub balance_get :
    Service → List FundMembership → Request → ℕ → Option Text → Db → Handled Balance
balance_get v ms r account_id as_of_text db = do
  m ← permit r (fund_of_account account_id db) viewer ms
  account ← of_result (or_404 (find (λ a. a.id == account_id) db.accounts))
  as_of ← parse_as_of v.parse_datetime as_of_text
  handled (record {
    account = account.id;
    currency = account.currency;
    balance = native_balance account.id as_of db;
    base_balance = base_balance account.id as_of db;
    as_of = as_of;
  })

-- `AccountEntriesView`, before it is cut into pages: the latest entry is first
unfoldable pub entries_get : List FundMembership → Request → ℕ → Db → Handled (List Entry)
entries_get ms r account_id db = do
  m ← permit r (fund_of_account account_id db) viewer ms
  handled (
      sort_by (λ e f. leb f.created_at e.created_at)
        (filter (λ e. e.account_id == account_id) db.entries))

-- what `FundReconciliationView.get` returns
pub record Reconciliation : Type 0 where
  pub fund : ℕ
  pub balanced : Bool
  pub imbalance : ℤ
  pub unbalanced : List (ℕ × ℤ)

abbrev pub is_empty_report : List (ℕ × ℤ) → Bool
is_empty_report [] = true
is_empty_report (t ∷ ts) = false

unfoldable pub reconciliation_get : List FundMembership → Request → ℕ → Db → Handled Reconciliation
reconciliation_get ms r fund db = do
  m ← permit r (ok fund) viewer ms
  let imbalance = fund_imbalance fund db
  let broken = unbalanced_transfers (some fund) 100 db
  handled (record {
    fund = fund;
    balanced = eqb_ℤ imbalance (pos 0) && is_empty_report broken;
    imbalance = imbalance;
    unbalanced = broken;
  })
