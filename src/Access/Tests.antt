-- ===== src/Access/Tests.antt =====
-- A key, and the statement of a partner at a fund without entries.
mod Moves
use fund_ledger.Base.{ℕ, ◌+◌, ◌≤◌, ◌≡◌, refl, true, none, some, [], ◌∷◌, if◌then◌else◌, In}
use fund_ledger.Base.Int.{pos, ◌+ℤ◌, ◌-ℤ◌, neg}
use fund_ledger.Base.Result.{Result, ok}
use fund_ledger.Ledger.Model.{Db, AccountType, lp_code, Period, open_period}
use fund_ledger.Operations.Allocation.{allocate}
use fund_ledger.Operations.Chart.{lp_capital_accounts}
use fund_ledger.Operations.Statements.{Statement, lp_statement}
use fund_ledger.Access.Keys.{
  Text, User, ApiKey, same_text, parse_key, is_live, verify_key, issue_key,
}
use fund_ledger.Access.Keys.RoundTrip.{verify_key-issue_key, verify_key_sound}
use fund_ledger.Access.Permissions.{
  viewer, operator, lp, FundMembership, has_permission, statement_view,
}
use fund_ledger.Access.Permissions.Scope.{has_permission_sound, statement_view-own}

-- a digest of two values
abbrev digest : Text → ℕ
digest [] = 7
digest (c ∷ cs) = 11

abbrev user : User
user = record { id = 3; username = 30; is_active = true }

abbrev key : ApiKey
key = record {
  id = 1;
  user = user;
  name = 4;
  prefix = 97 ∷ [];
  key_hash = 11;
  expires_at = some 50;
  revoked_at = none;
  last_used_at = none;
}

-- fl_a.s
abbrev raw : Text
raw = 102 ∷ 108 ∷ 95 ∷ 97 ∷ 46 ∷ 115 ∷ []

issuing : issue_key digest 1 user 4 (some 50) (97 ∷ []) (115 ∷ []) [] ≡ some ((key, raw), key ∷ [])
unfolding issue_key
issuing = refl

verify_key-issue_key_example :
    verify_key digest 20 (key ∷ []) raw ≡ (if is_live 20 key then some key else none)
verify_key-issue_key_example =
    verify_key-issue_key digest 1 user 4 (some 50) (97 ∷ []) (115 ∷ []) [] issuing refl refl refl 20

verifying : verify_key digest 20 (key ∷ []) raw ≡ some key
unfolding verify_key
verifying = refl

abbrev partner : FundMembership
partner = record { user_id = 3; fund_id = 1; role = lp; lp_id = some 60 }

abbrev member : FundMembership
member = record { user_id = 4; fund_id = 1; role = operator; lp_id = none }

permitting : has_permission (some 4) (ok 1) viewer (partner ∷ member ∷ []) ≡ ok (some member)
unfolding has_permission
permitting = refl

has_permission_sound_example :
    In member (partner ∷ member ∷ [])
    × (◌≡◌ {A = Result ℕ} (ok 1) (ok 1))
    × (4 ≡ member.user_id)
    × (1 ≤ 2)
has_permission_sound_example =
    has_permission_sound 4 (ok 1) viewer (partner ∷ member ∷ []) permitting

abbrev year : Period
year = record {
  id = 5;
  fund_id = 1;
  start_date = 100;
  end_date = 199;
  status = open_period;
  closed_at = none;
  closed_by = 0;
}

abbrev world : Db
world = record {
  funds = record { id = 1; base_currency = 826 } ∷ [];
  commitments = record { fund_id = 1; lp_id = 60; committed_amount = 20000000000 } ∷ [];
  periods = year ∷ [];
  fx_rates = [];
  accounts =
      record {
        id = 11;
        fund_id = 1;
        code = lp_code 60;
        account_type = AccountType.lp_capital;
        owner_lp = some 60;
        currency = 826;
      }
      ∷ [];
  transfers = [];
  entries = [];
  capital_calls = [];
  distributions = [];
  uuid = λ n. 1000 + n;
  drawn = 0;
  now = 7;
  today = 120;
}

abbrev statement : Statement
statement = record {
  fund_id = 1;
  lp_id = 60;
  period_start = 100;
  period_end = 199;
  currency = 826;
  opening_balance = pos 0;
  contributions = pos 0;
  distributions = pos 0;
  other_adjustments = pos 0;
  allocated_gains = pos 0;
  allocated_fees = pos 0;
  closing_balance = pos 0;
  commitment = pos 20000000000;
  contributed_to_date = pos 0;
  unfunded_commitment = pos 20000000000;
}

viewing : statement_view partner 1 60 5 world ≡ ok statement
unfolding statement_view lp_statement allocate lp_capital_accounts ◌+ℤ◌ ◌-ℤ◌ neg
viewing = refl

statement_view-own_example : partner.lp_id ≡ some statement.lp_id
statement_view-own_example = statement_view-own partner 1 60 5 world viewing refl
