-- ===== src/Access/Permissions.antt =====
-- access/permissions.py, with the roles of access/models.py and what the views of api/views.py
-- authorise against.
pub mod Scope
use fund_ledger.Base.{
  ℕ, Bool, true, false, not, ◌&&◌, Option, none, some, List, ◌==◌, leb, if◌then◌else◌, find, map_or,
}
use fund_ledger.Base.Result.{Result, ok, err, not_found, ◌>>=◌, ◌>>◌, raise_if}
use fund_ledger.Ledger.Model.{Db}
use fund_ledger.Ledger.Queries.{transfer_by_id}
use fund_ledger.Ledger.Insert.{period_by_id}
use fund_ledger.Operations.Statements.{Statement, lp_statement}

pub data Role : Type 0 where
  lp viewer operator controller : Role

-- `ROLE_RANK`
abbrev pub role_rank : Role → ℕ
role_rank lp = 0
role_rank viewer = 1
role_rank operator = 2
role_rank controller = 3

abbrev pub is_lp : Role → Bool
is_lp lp = true
is_lp _ = false

-- one for each user and fund (membership_one_per_user_fund)
pub record FundMembership : Type 0 where
  pub user_id : ℕ
  pub fund_id : ℕ
  pub role : Role
  pub lp_id : Option ℕ

abbrev pub membership_in : ℕ → ℕ → List FundMembership → Option FundMembership
membership_in user fund ms = find (λ m. (m.user_id == user) && (m.fund_id == fund)) ms

-- what is found, or a 404
abbrev pub or_404 {ℓ} : {A : Type ℓ} → Option A → Result A
or_404 none = err not_found
or_404 (some a) = ok a

-- `has_permission` for the fund that the view names: the membership, if its role is high enough
unfoldable pub has_permission :
    Option ℕ → Result ℕ → Role → List FundMembership → Result (Option FundMembership)
has_permission none fund required ms = ok none
has_permission (some user) fund required ms = do
  i ← fund
  m ← or_404 (membership_in user i ms)
  ok (if leb (role_rank required) (role_rank m.role) then some m else none)

-- `get_fund_id` of AccountScoped and of ReverseTransferView
abbrev pub fund_of_account : ℕ → Db → Result ℕ
fund_of_account i db = or_404 (find (λ a. a.id == i) db.accounts) >>= λ a. ok a.fund_id

abbrev pub fund_of_transfer : ℕ → Db → Result ℕ
fund_of_transfer i db =
    or_404 (transfer_by_id i db) >>= λ t. or_404 (period_by_id t.period_id db) >>= λ p. ok p.fund_id

-- an LP other than the one asked for
abbrev pub is_other_lp : FundMembership → ℕ → Bool
is_other_lp m i = is_lp m.role && not (map_or m.lp_id false (λ o. o == i))

-- `LPStatementView.get`, past the permission; the period is the one of the query string
unfoldable pub statement_view : FundMembership → ℕ → ℕ → ℕ → Db → Result Statement
statement_view m fund_id lp_id period_id db = do
  raise_if (is_other_lp m lp_id) not_found
  fund ← or_404 (find (λ f. f.id == fund_id) db.funds)
  period ← or_404 (find (λ p. (p.id == period_id) && (p.fund_id == fund.id)) db.periods)
  lp_statement fund lp_id period db
