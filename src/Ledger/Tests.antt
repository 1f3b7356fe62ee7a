-- ===== src/Ledger/Tests.antt =====
-- The ledger engine at a small database: a fund with a dollar account, and the theorems there.
mod Retries
mod Amounts
mod Checks
mod Locking
mod Guarded
mod Granting
use fund_ledger.Base.{
  any, length, ◌==◌, ◌⊎◌, ◌<◌, ◌*◌, false, ◌↔◌, ℕ, suc, ◌+◌, ◌≡◌, refl, none, some, List, [], ◌∷◌,
  ◌++◌, arith, true,
}
use fund_ledger.Base.Int.{abs, pos, ◌+ℤ◌, ◌-ℤ◌, neg}
use fund_ledger.Base.Result.{ok, err, ledger, insufficient_funds}
use fund_ledger.Ledger.Decimal.{finite, units, quantize, convert, rate_scale}
use fund_ledger.Ledger.Decimal.Rounding.{IsNearest, convert-IsNearest}
use fund_ledger.Ledger.Model.{
  Db, PricedLeg, is_open, Period, Account, Transfer, Entry, Leg, leg, debit, credit, open_period,
  AccountType, TransferType, Description, AccountCode,
}
use fund_ledger.Ledger.Validate.{validate_legs}
use fund_ledger.Ledger.Validate.Exact.{IsRequest, validate_legs_iff}
use fund_ledger.Ledger.Pricing.{price_legs, absorb, residual}
use fund_ledger.Ledger.Pricing.Residual.{candidates, absorb-residual}
use fund_ledger.Ledger.Pricing.Verbatim.{IsVerbatim, price_legs-IsVerbatim}
use fund_ledger.Ledger.Reconciliation.{total_imbalance, period_imbalance}
use fund_ledger.Ledger.Reconciliation.Zero.{IsBalanced, reconciled}
use fund_ledger.Ledger.Queries.{native_balance}
use fund_ledger.Ledger.Insert.{
  insert_transfer, insert_entries, check_balances, transfer_imbalance, period_by_id,
}
use fund_ledger.Ledger.Post.{Posting, post_transfer, new_transfer}
use fund_ledger.Ledger.Post.Rows.{BookedAs, post_transfer-appends}
use fund_ledger.Ledger.Post.Balanced.{post_transfer-IsBalanced}
use fund_ledger.Ledger.Post.Solvent.{IsKeyed, IsSolvent, post_transfer-IsSolvent}

abbrev gbp : ℕ
gbp = 826

abbrev usd : ℕ
usd = 840

abbrev account : ℕ → AccountType → ℕ → Account
account i k c = record {
  id = i;
  fund_id = 1;
  code = AccountCode.in_currency k c;
  account_type = k;
  owner_lp = none;
  currency = c;
}

abbrev cash : Account
cash = account 10 AccountType.cash gbp

abbrev equity : Account
equity = account 11 AccountType.gp_capital gbp

abbrev holding : Account
holding = account 12 AccountType.investment usd

abbrev year : Period
year = record {
  id = 5;
  fund_id = 1;
  start_date = 100;
  end_date = 200;
  status = open_period;
  closed_at = none;
  closed_by = 0;
}

-- a dollar is worth 0.79
abbrev world : Db
world = record {
  funds = record { id = 1; base_currency = gbp } ∷ [];
  commitments = [];
  periods = year ∷ [];
  fx_rates =
      record { from_currency = usd; to_currency = gbp; rate = 7900000000; as_of_date = 50 } ∷ [];
  accounts = cash ∷ equity ∷ holding ∷ [];
  transfers = [];
  entries = [];
  capital_calls = [];
  distributions = [];
  uuid = λ n. 1000 + n;
  drawn = 0;
  now = 7;
  today = 120;
}

abbrev posting : ℕ → TransferType → List Leg → Posting
posting key kind legs = record {
  idempotency_key = key;
  legs = legs;
  period = year;
  transfer_type = kind;
  description = Description.text 0;
  reverses = none;
  request_hash = 77;
  created_by = 3;
  fx_date = none;
}

-- 100.00 of capital is paid in
abbrev paying_in : Posting
paying_in =
    posting 21 TransferType.adjustment
      (leg 10 debit (finite (pos 10000) 2) ∷ leg 11 credit (finite (pos 1000000) 4) ∷ [])

abbrev row_in : Transfer
row_in = record {
  id = 1000;
  idempotency_key = 21;
  request_hash = 77;
  transfer_type = TransferType.adjustment;
  reverses = none;
  period_id = 5;
  description = Description.text 0;
  created_by = 3;
  created_at = 7;
}

abbrev line : ℕ → ℕ → Account → ℕ → Entry
line i t a n = record {
  id = i;
  transfer_id = t;
  account_id = a.id;
  direction = debit;
  amount = n;
  currency = a.currency;
  fx_rate = none;
  base_amount = pos n;
  created_at = 7;
}

abbrev paid : Db
paid = record world {
  transfers = row_in ∷ [];
  entries =
      line 1001 1000 cash 1000000
      ∷ record (line 1002 1000 equity 1000000) { direction = credit }
      ∷ [];
  drawn = 3;
}

posting_in : post_transfer paying_in world ≡ ok (row_in, paid)
unfolding post_transfer validate_legs quantize price_legs insert_transfer insert_entries
    check_balances transfer_imbalance native_balance units ◌+ℤ◌ ◌-ℤ◌ neg
posting_in = refl

-- buying 100 dollars takes 79.00 out; 127 dollars cost more than there is
abbrev buying : ℕ → ℕ → ℕ → Posting
buying key dollars pence =
    posting key TransferType.investment
      (leg 12 debit (finite (pos dollars) 0) ∷ leg 10 credit (finite (pos pence) 2) ∷ [])

overdraft : post_transfer (buying 22 127 10033) paid ≡ err (ledger insufficient_funds)
unfolding post_transfer validate_legs quantize price_legs insert_transfer insert_entries
    check_balances transfer_imbalance native_balance units convert ◌+ℤ◌ ◌-ℤ◌ neg
overdraft = refl

abbrev bought_row : Transfer
bought_row = record row_in {
  id = 1003;
  idempotency_key = 22;
  transfer_type = TransferType.investment;
}

abbrev bought : Db
bought = record paid {
  transfers = row_in ∷ bought_row ∷ [];
  entries =
      line 1001 1000 cash 1000000
      ∷ record (line 1002 1000 equity 1000000) { direction = credit }
      ∷ record (line 1004 1003 holding 1000000) {
        fx_rate = some 7900000000;
        base_amount = pos 790000;
      }
      ∷ record (line 1005 1003 cash 790000) { direction = credit }
      ∷ [];
  drawn = 6;
}

pub buying-paid : post_transfer (buying 22 100 7900) paid ≡ ok (bought_row, bought)
unfolding post_transfer validate_legs quantize price_legs insert_transfer insert_entries
    check_balances transfer_imbalance native_balance units convert ◌+ℤ◌ ◌-ℤ◌ neg
buying-paid = refl

world-IsBalanced : IsBalanced world
unfolding transfer_imbalance
world-IsBalanced t = refl

world-IsKeyed : IsKeyed world
world-IsKeyed a b here there e = ground arith

world-IsSolvent : IsSolvent world
unfolding native_balance
world-IsSolvent a here cash = omega arith

pub paid-IsBalanced : IsBalanced paid
paid-IsBalanced = post_transfer-IsBalanced paying_in world world-IsBalanced posting_in

paid-IsSolvent : IsSolvent paid
paid-IsSolvent = post_transfer-IsSolvent paying_in world world-IsKeyed world-IsSolvent posting_in

pub paid-IsKeyed : IsKeyed paid
paid-IsKeyed a b here there e = world-IsKeyed a b here there e

post_transfer-IsBalanced_example : IsBalanced bought
post_transfer-IsBalanced_example =
    post_transfer-IsBalanced (buying 22 100 7900) paid paid-IsBalanced buying-paid

post_transfer-IsSolvent_example : IsSolvent bought
post_transfer-IsSolvent_example =
    post_transfer-IsSolvent (buying 22 100 7900) paid paid-IsKeyed paid-IsSolvent buying-paid

post_transfer-appends_example :
    (es : List Entry) × (bought ≡ record paid {
      transfers = paid.transfers ++ (bought_row ∷ []);
      entries = paid.entries ++ es;
      drawn = suc paid.drawn + length es;
    })
    × (bought_row ≡ new_transfer (buying 22 100 7900) paid)
    × BookedAs bought_row (buying 22 100 7900).legs es
post_transfer-appends_example = post_transfer-appends (buying 22 100 7900) paid buying-paid
