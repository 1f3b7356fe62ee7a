-- ===== src/Operations/Tests/Payout.antt =====
-- A distribution after the capital call.
use fund_ledger.Base.{◌≡◌, refl, true, none, some, [], ◌∷◌, ◌++◌, ◌==◌, if◌then◌else◌}
use fund_ledger.Base.Int.{ℤ, pos, ◌+ℤ◌, ◌-ℤ◌, neg}
use fund_ledger.Base.Result.{ok, err, ledger, idempotency_conflict}
use fund_ledger.Ledger.Decimal.{units, quantize}
use fund_ledger.Ledger.Model.{Db, Transfer, TransferType, Description, Distribution, income, credit}
use fund_ledger.Ledger.Queries.{native_balance}
use fund_ledger.Ledger.Validate.{validate_legs}
use fund_ledger.Ledger.Pricing.{price_legs}
use fund_ledger.Ledger.Insert.{insert_transfer, insert_entries, check_balances, transfer_imbalance}
use fund_ledger.Ledger.Post.{post_transfer}
use fund_ledger.Ledger.Idempotency.{alone, by_key, run_once, as_replay}
use fund_ledger.Operations.Allocation.{allocate}
use fund_ledger.Operations.Chart.{get_account, lp_capital_accounts}
use fund_ledger.Operations.Periods.{period_for}
use fund_ledger.Operations.ProRata.{pro_rata}
use fund_ledger.Operations.Distributions.{
  DistributionRequest, distribution_of, distribution_hash, create_distribution, pay_out,
  insert_distribution,
}
use fund_ledger.Operations.Distributions.Once.{create_distribution_again}
use fund_ledger.Operations.Tests.{called, hashing, line, call_row}

abbrev pub payout : DistributionRequest
payout = record {
  fund_id = 1;
  idempotency_key = 22;
  total = pos 30;
  places = 0;
  payment_date = 210;
  classification = income;
  created_by = 3;
}

abbrev payout_row : Transfer
payout_row = record {
  id = 1006;
  idempotency_key = 22;
  request_hash = 0;
  transfer_type = TransferType.distribution;
  reverses = none;
  period_id = 6;
  description = Description.distribution_number 1 income;
  created_by = 3;
  created_at = 7;
}

abbrev pub document : Distribution
document = record {
  fund_id = 1;
  distribution_number = 1;
  payment_date = 210;
  total_amount = 300000;
  classification = income;
  transfer_id = 1006;
}

abbrev pub paid_out : Db
paid_out = record called {
  transfers = call_row ∷ payout_row ∷ [];
  entries =
      called.entries
      ++ (record (line 1007 11 200000) { transfer_id = 1006 }
          ∷ record (line 1008 10 200000) { transfer_id = 1006; direction = credit }
          ∷ record (line 1009 12 100000) { transfer_id = 1006 }
          ∷ record (line 1010 10 100000) { transfer_id = 1006; direction = credit }
          ∷ []);
  distributions = document ∷ [];
  drawn = 12;
}

pub paying_out : create_distribution hashing alone payout called ≡ ok ((document, true), paid_out)
unfolding create_distribution run_once pay_out insert_distribution pro_rata allocate period_for
    get_account lp_capital_accounts post_transfer validate_legs quantize price_legs insert_transfer
    insert_entries check_balances transfer_imbalance native_balance units ◌+ℤ◌ ◌-ℤ◌ neg
paying_out = refl

size : quantize (pos 30) 0 ≡ ok (pos 300000)
unfolding quantize
size = refl

create_distribution_again_example :
    (amount : ℤ) × (t : Transfer) × (quantize (pos 30) 0 ≡ ok amount)
    × (by_key 22 paid_out ≡ some t)
    × (distribution_of t paid_out ≡ ok document)
    × (create_distribution hashing alone payout paid_out ≡ (
        if distribution_hash hashing payout amount == distribution_hash hashing payout (pos 300000)
        then as_replay (distribution_of t paid_out) paid_out
        else err (ledger idempotency_conflict)))
create_distribution_again_example =
    create_distribution_again hashing alone payout called paying_out alone payout (pos 300000)
      paid_out [] refl size refl
