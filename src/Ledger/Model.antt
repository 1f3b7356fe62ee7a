-- ===== src/Ledger/Model.antt =====
-- The rows of the database (ledger/models.py, funds/models.py) and the legs of a request
-- (ledger/legs.py). Ids, dates, instants, currencies and free texts are numbers: the code compares
-- and orders them, and does nothing else with them. The empty text is 0.
use fund_ledger.Base.{ℕ, Bool, true, false, Option, none, List}
use fund_ledger.Base.Int.{ℤ, pos, neg}
use fund_ledger.Ledger.Decimal.{Number}

pub data AccountType : Type 0 where
  cash investment fee_expense gain_loss lp_capital gp_capital : AccountType

-- `unrecognised` is any text but DEBIT and CREDIT
pub data Direction : Type 0 where
  debit credit unrecognised : Direction

pub data TransferType : Type 0 where
  capital_call distribution fee investment reversal adjustment : TransferType

pub data PeriodStatus : Type 0 where
  open_period closed_period : PeriodStatus

abbrev pub is_debit : Direction → Bool
is_debit Direction.debit = true
is_debit _ = false

abbrev pub is_credit : Direction → Bool
is_credit Direction.credit = true
is_credit _ = false

abbrev pub is_open : PeriodStatus → Bool
is_open open_period = true
is_open closed_period = false

abbrev pub is_reversal : TransferType → Bool
is_reversal TransferType.reversal = true
is_reversal _ = false

abbrev pub is_cash : AccountType → Bool
is_cash AccountType.cash = true
is_cash _ = false

abbrev pub is_lp_capital : AccountType → Bool
is_lp_capital AccountType.lp_capital = true
is_lp_capital _ = false

-- The texts that `account_code` makes.
pub data AccountCode : Type 0 where
  lp_code : ℕ → AccountCode
  in_currency : AccountType → ℕ → AccountCode
  plain : AccountType → AccountCode

pub data Classification : Type 0 where
  return_of_capital gain income : Classification

-- The texts that the services write as a transfer's description.
pub data Description : Type 0 where
  text : ℕ → Description
  capital_call_number reversal_of : ℕ → Description
  distribution_number : ℕ → Classification → Description
  investment_of : Number → ℕ → Description
  management_fee valuation_change : Description

pub record Fund : Type 0 where
  pub id : ℕ
  pub base_currency : ℕ

pub record Commitment : Type 0 where
  pub fund_id : ℕ
  pub lp_id : ℕ
  pub committed_amount : ℕ

pub record Period : Type 0 where
  pub id : ℕ
  pub fund_id : ℕ
  pub start_date : ℕ
  pub end_date : ℕ
  pub status : PeriodStatus
  pub closed_at : Option ℕ
  pub closed_by : ℕ

-- the rate is in units of 10^-10, and positive (fxrate_positive)
pub record FxRate : Type 0 where
  pub from_currency : ℕ
  pub to_currency : ℕ
  pub rate : ℕ
  pub as_of_date : ℕ

pub record Account : Type 0 where
  pub id : ℕ
  pub fund_id : ℕ
  pub code : AccountCode
  pub account_type : AccountType
  pub owner_lp : Option ℕ
  pub currency : ℕ

pub record Transfer : Type 0 where
  pub id : ℕ
  pub idempotency_key : ℕ
  pub request_hash : ℕ
  pub transfer_type : TransferType
  pub reverses : Option ℕ
  pub period_id : ℕ
  pub description : Description
  pub created_by : ℕ
  pub created_at : ℕ

-- The generated columns signed_amount and signed_base_amount are the functions below.
pub record Entry : Type 0 where
  pub id : ℕ
  pub transfer_id : ℕ
  pub account_id : ℕ
  pub direction : Direction
  pub amount : ℕ
  pub currency : ℕ
  pub fx_rate : Option ℕ
  pub base_amount : ℤ
  pub created_at : ℕ

-- `_signed`: + for DEBIT, - for anything else
abbrev pub signed : Direction → ℤ → ℤ
signed Direction.debit n = n
signed Direction.credit n = neg n
signed Direction.unrecognised n = neg n

abbrev pub signed_amount : Entry → ℤ
signed_amount e = signed e.direction (pos e.amount)

abbrev pub signed_base_amount : Entry → ℤ
signed_base_amount e = signed e.direction e.base_amount

pub record Leg : Type 0 where
  pub account_id : ℕ
  pub direction : Direction
  pub amount : Number
  pub fx_rate : Option ℕ
  pub base_amount : Option ℤ

-- a leg with no override
abbrev pub leg : ℕ → Direction → Number → Leg
leg a d n = record { account_id = a; direction = d; amount = n; fx_rate = none; base_amount = none }

pub record PricedLeg : Type 0 where
  pub account : Account
  pub direction : Direction
  pub amount : ℕ
  pub currency : ℕ
  pub fx_rate : Option ℕ
  pub base_amount : ℤ
  pub adjustable : Bool

-- operations/models.py
pub record CapitalCall : Type 0 where
  pub fund_id : ℕ
  pub call_number : ℕ
  pub notice_date : ℕ
  pub due_date : ℕ
  pub total_amount : ℕ
  pub transfer_id : ℕ

pub record Distribution : Type 0 where
  pub fund_id : ℕ
  pub distribution_number : ℕ
  pub payment_date : ℕ
  pub total_amount : ℕ
  pub classification : Classification
  pub transfer_id : ℕ

-- The tables. `uuid` is what the successive calls of uuid4() return, of which `drawn` have been
-- made; `now` is the instant at which the current transaction began.
pub record Db : Type 0 where
  pub funds : List Fund
  pub commitments : List Commitment
  pub periods : List Period
  pub fx_rates : List FxRate
  pub accounts : List Account
  pub transfers : List Transfer
  pub entries : List Entry
  pub capital_calls : List CapitalCall
  pub distributions : List Distribution
  pub uuid : ℕ → ℕ
  pub drawn : ℕ
  pub now : ℕ
  pub today : ℕ
