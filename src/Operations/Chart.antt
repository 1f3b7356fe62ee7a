-- ===== src/Operations/Chart.antt =====
-- operations/chart.py: each fund's standard accounts, and the look-ups of them.
use fund_ledger.Base.{
  ℕ, Bool, true, false, not, ◌&&◌, Option, none, some, List, [], ◌∷◌, ◌++◌, suc, ◌==◌,
  if◌then◌else◌, find, filter, any, map_or,
}
use fund_ledger.Base.Dict.{Dict, set}
use fund_ledger.Base.Result.{
  Result, ok, err, integrity, not_found, assertion_error, account_pkey,
  account_owner_lp_iff_lp_capital, account_code_unique_per_fund,
  account_one_lp_capital_per_lp_currency, ◌>>=◌, ◌>>◌, raise_if,
}
use fund_ledger.Ledger.Model.{
  Db, Fund, Commitment, Account, AccountType, AccountCode, lp_code, in_currency, plain, cash,
  investment, fee_expense, gain_loss, lp_capital, gp_capital, is_lp_capital,
}
use fund_ledger.Ledger.Insert.{is_some}

-- `account_code`
abbrev pub account_code : AccountType → ℕ → Option ℕ → Result AccountCode
account_code lp_capital currency none = err assertion_error
account_code lp_capital currency (some lp) = ok (lp_code lp)
account_code cash currency lp = ok (in_currency cash currency)
account_code investment currency lp = ok (in_currency investment currency)
account_code fee_expense currency lp = ok (plain fee_expense)
account_code gain_loss currency lp = ok (plain gain_loss)
account_code gp_capital currency lp = ok (plain gp_capital)

abbrev pub same_type : AccountType → AccountType → Bool
same_type cash cash = true
same_type investment investment = true
same_type fee_expense fee_expense = true
same_type gain_loss gain_loss = true
same_type lp_capital lp_capital = true
same_type gp_capital gp_capital = true
same_type _ _ = false

-- whether two codes are the same text
abbrev pub same_code : AccountCode → AccountCode → Bool
same_code (lp_code i) (lp_code j) = i == j
same_code (in_currency k c) (in_currency l d) = same_type k l && (c == d)
same_code (plain k) (plain l) = same_type k l
same_code _ _ = false

abbrev pub account_with : ℕ → AccountCode → Db → Option Account
account_with fund code db = find (λ a. (a.fund_id == fund) && same_code a.code code) db.accounts

-- the accounts that the partial unique constraint compares
abbrev pub is_capital_of : ℕ → Option ℕ → ℕ → Account → Bool
is_capital_of fund none currency a = false
is_capital_of fund (some lp) currency a =
    is_lp_capital a.account_type
    && ((a.fund_id == fund) && ((a.currency == currency) && map_or a.owner_lp false (λ o. o == lp)))

-- INSERT INTO ledger_account, with its constraints
unfoldable pub insert_account : Account → Db → Result Db
insert_account a db = do
  raise_if (if is_lp_capital a.account_type then not (is_some a.owner_lp) else is_some a.owner_lp)
      (integrity account_owner_lp_iff_lp_capital)
  raise_if (any (λ b. b.id == a.id) db.accounts) (integrity account_pkey)
  raise_if (is_some (account_with a.fund_id a.code db)) (integrity account_code_unique_per_fund)
  raise_if
      (is_lp_capital a.account_type
        && any (is_capital_of a.fund_id a.owner_lp a.currency) db.accounts)
      (integrity account_one_lp_capital_per_lp_currency)
  ok (record db { accounts = db.accounts ++ (a ∷ []) })

-- `Account.objects.get_or_create`, by fund and code
unfoldable pub get_or_create :
    ℕ → AccountCode → AccountType → ℕ → Option ℕ → Db → Result (Account × Db)
unfolding insert_account
get_or_create fund code kind currency lp db = elim (account_with fund code db) [
  | some a ↦ ok (a, db)
  | none ↦
      let a : Account = record {
        id = db.uuid db.drawn;
        fund_id = fund;
        code = code;
        account_type = kind;
        owner_lp = lp;
        currency = currency;
      } in
      do db₁ ← insert_account a (record db { drawn = suc db.drawn }); ok (a, db₁)
]

-- `currency or fund.base_currency`; no currency is 0
abbrev pub or_base : ℕ → Fund → ℕ
or_base currency fund = if currency == 0 then fund.base_currency else currency

unfoldable pub ensure_account : Fund → AccountType → ℕ → Db → Result (Account × Db)
unfolding get_or_create
ensure_account fund kind currency db = do
  code ← account_code kind (or_base currency fund) none
  get_or_create fund.id code kind (or_base currency fund) none db

-- the two loops of `open_fund_accounts`
abbrev pub ensure_accounts : Fund → List AccountType → Db → Result Db
ensure_accounts fund [] db = ok db
ensure_accounts fund (k ∷ ks) db = do
  made ← ensure_account fund k 0 db
  ensure_accounts fund ks made.1

abbrev pub ensure_capital : Fund → List Commitment → Db → Result Db
ensure_capital fund [] db = ok db
ensure_capital fund (c ∷ cs) db = do
  code ← account_code lp_capital fund.base_currency (some c.lp_id)
  made ← get_or_create fund.id code lp_capital fund.base_currency (some c.lp_id) db
  ensure_capital fund cs made.1

abbrev pub commitments_of : Fund → Db → List Commitment
commitments_of fund db = filter (λ c. c.fund_id == fund.id) db.commitments

unfoldable pub open_fund_accounts : Fund → Db → Result Db
unfolding ensure_account
open_fund_accounts fund db = do
  db₁ ← ensure_accounts fund (cash ∷ investment ∷ fee_expense ∷ gain_loss ∷ gp_capital ∷ []) db
  ensure_capital fund (commitments_of fund db₁) db₁

abbrev pub account_or : Option Account → Result Account
account_or none = err not_found
account_or (some a) = ok a

unfoldable pub get_account : Fund → AccountType → ℕ → Db → Result Account
get_account fund kind currency db = do
  code ← account_code kind (or_base currency fund) none
  account_or (account_with fund.id code db)

-- `{a.owner_lp_id: a for a in accounts if a.owner_lp_id is not None}`
abbrev pub by_owner : List Account → Dict Account → Dict Account
by_owner [] d = d
by_owner (a ∷ rest) d = by_owner rest (map_or a.owner_lp d (λ lp. set lp a d))

unfoldable pub lp_capital_accounts : Fund → Db → Dict Account
lp_capital_accounts fund db =
    by_owner
      (filter
        (λ a.
          (a.fund_id == fund.id)
          && (is_lp_capital a.account_type && (a.currency == fund.base_currency)))
        db.accounts)
      []
