-- ===== src/Operations/Distributions.antt =====
-- `create_distribution` of operations/services.py, and the table of distributions.
pub mod Once
use fund_ledger.Base.{
  ℕ, suc, ◌+◌, Bool, ◌&&◌, Option, none, some, List, [], ◌∷◌, ◌++◌, ◌==◌, leb, any, filter, find,
}
use fund_ledger.Base.Int.{ℤ, pos_part}
use fund_ledger.Base.Result.{
  Result, ok, err, integrity, not_found, data_error, distribution_number_unique,
  distribution_positive, distribution_transfer_unique, ◌>>=◌, ◌>>◌, raise_if,
}
use fund_ledger.Ledger.Decimal.{finite, quantize}
use fund_ledger.Ledger.Model.{
  Db, AccountType, Transfer, TransferType, Description, Period, Classification, Distribution, Leg,
  leg, debit, credit,
}
use fund_ledger.Ledger.Insert.{column_limit}
use fund_ledger.Ledger.Post.{Posting, post_transfer, fund_by_id}
use fund_ledger.Ledger.Idempotency.{Hashing, for_distribution, Others, run_once}
use fund_ledger.Operations.Chart.{get_account, lp_capital_accounts}
use fund_ledger.Operations.Periods.{period_for}
use fund_ledger.Operations.ProRata.{pro_rata, share_legs, sorted_shares, max}

-- the keyword arguments; the total is total / 10^places
pub record DistributionRequest : Type 0 where
  pub fund_id : ℕ
  pub idempotency_key : ℕ
  pub total : ℤ
  pub places : ℕ
  pub payment_date : ℕ
  pub classification : Classification
  pub created_by : ℕ

abbrev pub distribution_pair : ℕ → ℕ → ℤ → List Leg
distribution_pair cash lp share =
    leg lp debit (finite share 4) ∷ leg cash credit (finite share 4) ∷ []

abbrev pub last_distribution_number : List Distribution → ℕ
last_distribution_number [] = 0
last_distribution_number (d ∷ ds) = max d.distribution_number (last_distribution_number ds)

abbrev pub next_distribution_number : ℕ → Db → ℕ
next_distribution_number fund db =
    last_distribution_number (filter (λ d. d.fund_id == fund) db.distributions) + 1

-- INSERT INTO operations_distribution, with its constraints
unfoldable pub insert_distribution : Distribution → Db → Result Db
insert_distribution d db = do
  raise_if (leb column_limit d.total_amount) data_error
  raise_if (d.total_amount == 0) (integrity distribution_positive)
  raise_if
      (any (λ e. (e.fund_id == d.fund_id) && (e.distribution_number == d.distribution_number))
        db.distributions)
      (integrity distribution_number_unique)
  raise_if (any (λ e. e.transfer_id == d.transfer_id) db.distributions)
      (integrity distribution_transfer_unique)
  ok (record db { distributions = db.distributions ++ (d ∷ []); drawn = suc db.drawn })

abbrev pub distribution_posting : DistributionRequest → ℕ → List Leg → Period → ℕ → Posting
distribution_posting q hash legs period number = record {
  idempotency_key = q.idempotency_key;
  legs = legs;
  period = period;
  transfer_type = TransferType.distribution;
  description = Description.distribution_number number q.classification;
  reverses = none;
  request_hash = hash;
  created_by = q.created_by;
  fx_date = none;
}

abbrev pub new_distribution : DistributionRequest → ℤ → Transfer → ℕ → Distribution
new_distribution q amount t number = record {
  fund_id = q.fund_id;
  distribution_number = number;
  payment_date = q.payment_date;
  total_amount = pos_part amount;
  classification = q.classification;
  transfer_id = t.id;
}

-- the writes, once the shares are known
unfoldable pub write_distribution :
    DistributionRequest → ℕ → ℤ → List Leg → Period → Db → Result (Distribution × Db)
unfolding insert_distribution
write_distribution q hash amount legs period db =
    let number = next_distribution_number q.fund_id db in
    do
      (t, db₁) ← post_transfer (distribution_posting q hash legs period number) db
      db₂ ← insert_distribution (new_distribution q amount t number) db₁
      ok (new_distribution q amount t number, db₂)

-- `create`
unfoldable pub pay_out : DistributionRequest → ℕ → ℤ → Db → Result (Distribution × Db)
unfolding write_distribution
pay_out q hash amount db = do
  fund ← fund_by_id q.fund_id db
  period ← period_for fund.id q.payment_date db
  (_, shares) ← pro_rata fund q.total q.places db
  let accounts = lp_capital_accounts fund db
  cash ← get_account fund AccountType.cash 0 db
  legs ← share_legs (distribution_pair cash.id) accounts (sorted_shares shares)
  write_distribution q hash amount legs period db

abbrev pub distribution_or : Option Distribution → Result Distribution
distribution_or none = err not_found
distribution_or (some d) = ok d

-- `replay`
abbrev pub distribution_of : Transfer → Db → Result Distribution
distribution_of t db = distribution_or (find (λ d. d.transfer_id == t.id) db.distributions)

abbrev pub distribution_hash : Hashing → DistributionRequest → ℤ → ℕ
distribution_hash x q amount =
    x.fingerprint (for_distribution q.fund_id amount q.payment_date q.classification)

unfoldable pub create_distribution :
    Hashing → Others → DistributionRequest → Db → Result ((Distribution × Bool) × Db)
create_distribution x others q db = do
  amount ← quantize q.total q.places
  run_once others q.idempotency_key (distribution_hash x q amount)
      (pay_out q (distribution_hash x q amount) amount) distribution_of db
