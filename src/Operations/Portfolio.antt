-- ===== src/Operations/Portfolio.antt =====
-- `record_investment`, `charge_fee` and `record_valuation` of operations/services.py.
use fund_ledger.Base.{
  ℕ, ◌+◌, ◌*◌, ◌^◌, Bool, Option, none, some, List, [], ◌∷◌, ◌==◌, leb, if◌then◌else◌,
}
use fund_ledger.Base.Int.{ℤ, pos, abs, ltb_ℤ, eqb_ℤ}
use fund_ledger.Base.Result.{
  Result, ok, err, ledger, invalid_transfer, invalid_operation, ◌>>=◌, ◌>>◌, raise_if,
}
use fund_ledger.Ledger.Decimal.{Number, finite, round_half_even, with_sign, in_context}
use fund_ledger.Ledger.Model.{
  Db, Fund, Account, AccountType, Transfer, TransferType, Description, Period, Leg, leg, debit,
  credit,
}
use fund_ledger.Ledger.Pricing.{fx_rate_for}
use fund_ledger.Ledger.Post.{fund_by_id}
use fund_ledger.Ledger.Idempotency.{Hashing, Others}
use fund_ledger.Ledger.Submit.{Submission, post_transfer_idempotent}
use fund_ledger.Operations.Chart.{ensure_account, get_account}
use fund_ledger.Operations.Periods.{period_for}

-- a posting of two legs: what each of the three operations submits
abbrev pub submission : ℕ → List Leg → Period → TransferType → Description → Option ℕ → Submission
submission key legs period kind description fx_date = record {
  idempotency_key = key;
  legs = legs;
  period = period;
  transfer_type = kind;
  description = description;
  created_by = 0;
  fx_date = fx_date;
}

-- `(amount * rate).quantize(PENNY)` in pennies, of the amount c / 10^k at a rate in units of 10^-10
unfoldable pub cost_of : ℤ → ℕ → ℕ → Result ℤ
unfolding in_context
cost_of c k rate =
    let n = round_half_even (in_context (abs c * rate)) (10 ^ (k + 8)) in
    if leb (10 ^ 28) n then err invalid_operation else ok (with_sign c n)

-- pennies in units of 0.0001
abbrev pub pennies : ℤ → ℤ
pennies c = with_sign c (abs c * 100)

abbrev pub purchase_legs : ℕ → ℕ → ℤ → ℕ → ℕ → ℤ → List Leg
purchase_legs investment cash c k rate cost =
    record {
      account_id = investment;
      direction = debit;
      amount = finite c k;
      fx_rate = some rate;
      base_amount = some (pennies cost);
    }
    ∷ leg cash credit (finite cost 2)
    ∷ []

-- the legs of a purchase of c / 10^k in a currency
abbrev pub investment_legs : Fund → ℕ → ℕ → ℤ → ℕ → ℕ → ℕ → Db → Result (List Leg)
investment_legs fund investment cash c k currency on db =
    if currency == fund.base_currency
    then ok (leg investment debit (finite c k) ∷ leg cash credit (finite c k) ∷ [])
    else do
      rate ← fx_rate_for currency fund.base_currency on db
      cost ← cost_of c k rate
      ok (purchase_legs investment cash c k rate cost)

-- what follows `ensure_account`
unfoldable pub buy :
    Hashing
    → Others
    → Fund
    → Period
    → Account
    → ℕ
    → ℤ
    → ℕ
    → ℕ
    → ℕ
    → Db
    → Result ((Transfer × Bool) × Db)
buy x others fund period investment key c k currency on db = do
  cash ← get_account fund AccountType.cash 0 db
  legs ← investment_legs fund investment.id cash.id c k currency on db
  post_transfer_idempotent x others
      (submission key legs period TransferType.investment
        (Description.investment_of (finite c k) currency) (some on))
      db

-- the fund, the period and the account of the holding, made if it is missing
unfoldable pub open_holding : ℕ → ℕ → ℕ → Db → Result ((Fund × Period × Account) × Db)
open_holding fund_id currency on db = do
  fund ← fund_by_id fund_id db
  period ← period_for fund.id on db
  (investment, db₁) ← ensure_account fund AccountType.investment currency db
  ok ((fund, period, investment), db₁)

-- `record_investment`. The account is made in a transaction of its own, before the transfer: the
-- first result is the database that is left where the second is an error.
unfoldable pub record_investment :
    Hashing → Others → ℕ → ℕ → ℤ → ℕ → ℕ → ℕ → Db → Db × Result ((Transfer × Bool) × Db)
unfolding buy open_holding
record_investment x others fund_id key c k currency on db =
    elim (open_holding fund_id currency on db) [
      | err e ↦ (db, err e)
      | ok ((fund, period, investment), db₁) ↦
          (db₁, buy x others fund period investment key c k currency on db₁)
    ]

-- `charge_fee`
unfoldable pub charge_fee :
    Hashing → Others → ℕ → ℕ → Number → ℕ → Db → Result ((Transfer × Bool) × Db)
charge_fee x others fund_id key amount on db = do
  fund ← fund_by_id fund_id db
  expense ← get_account fund AccountType.fee_expense 0 db
  cash ← get_account fund AccountType.cash 0 db
  period ← period_for fund.id on db
  post_transfer_idempotent x others
      (submission key (leg expense.id debit amount ∷ leg cash.id credit amount ∷ []) period
        TransferType.fee Description.management_fee none)
      db

-- the legs of a change of value: up if it is positive, down if it is not; `abs` rounds to 28 digits
abbrev pub valuation_legs : ℕ → ℕ → ℤ → ℕ → List Leg
valuation_legs investment gain_loss c k =
    let amount = finite (pos (in_context (abs c))) k in
    if ltb_ℤ (pos 0) c
    then leg investment debit amount ∷ leg gain_loss credit amount ∷ []
    else leg gain_loss debit amount ∷ leg investment credit amount ∷ []

-- `record_valuation`, of the change c / 10^k
unfoldable pub record_valuation :
    Hashing → Others → ℕ → ℕ → ℤ → ℕ → ℕ → Db → Result ((Transfer × Bool) × Db)
record_valuation x others fund_id key c k on db = do
  raise_if (eqb_ℤ c (pos 0)) (ledger invalid_transfer)
  fund ← fund_by_id fund_id db
  investment ← get_account fund AccountType.investment 0 db
  gain_loss ← get_account fund AccountType.gain_loss 0 db
  period ← period_for fund.id on db
  post_transfer_idempotent x others
      (submission key (valuation_legs investment.id gain_loss.id c k) period TransferType.adjustment
        Description.valuation_change none)
      db
