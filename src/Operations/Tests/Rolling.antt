-- ===== src/Operations/Tests/Rolling.antt =====
-- The statements of the first partner after its capital call, for two periods in a row.
use fund_ledger.Base.{◌≡◌, refl, []}
use fund_ledger.Base.Int.{pos, ◌+ℤ◌, ◌-ℤ◌, neg}
use fund_ledger.Base.Result.{ok}
use fund_ledger.Ledger.Model.{Fund}
use fund_ledger.Ledger.Queries.{effective_type}
use fund_ledger.Operations.Allocation.{allocate}
use fund_ledger.Operations.Chart.{lp_capital_accounts}
use fund_ledger.Operations.Statements.{Statement, lp_statement}
use fund_ledger.Operations.Statements.Forward.{lp_statement-rolls_forward}
use fund_ledger.Operations.Tests.{gbp, period, called}

abbrev fund : Fund
fund = record { id = 1; base_currency = gbp }

abbrev first : Statement
first = record {
  fund_id = 1;
  lp_id = 60;
  period_start = 100;
  period_end = 199;
  currency = gbp;
  opening_balance = pos 0;
  contributions = pos 666700;
  distributions = pos 0;
  other_adjustments = pos 0;
  allocated_gains = pos 0;
  allocated_fees = pos 0;
  closing_balance = pos 666700;
  commitment = pos 20000000000;
  contributed_to_date = pos 666700;
  unfunded_commitment = pos 19999333300;
}

abbrev second : Statement
second = record first {
  period_start = 200;
  period_end = 299;
  opening_balance = pos 666700;
  contributions = pos 0;
}

of_first : lp_statement fund 60 (period 5 100 199) called ≡ ok first
unfolding lp_statement effective_type allocate lp_capital_accounts ◌+ℤ◌ ◌-ℤ◌ neg
of_first = refl

of_second : lp_statement fund 60 (period 6 200 299) called ≡ ok second
unfolding lp_statement effective_type allocate lp_capital_accounts ◌+ℤ◌ ◌-ℤ◌ neg
of_second = refl

lp_statement-rolls_forward_example :
    (second.opening_balance ≡ first.closing_balance)
    × (second.contributed_to_date ≡ first.contributed_to_date +ℤ second.contributions)
lp_statement-rolls_forward_example =
    lp_statement-rolls_forward fund 60 (period 5 100 199) (period 6 200 299) [] called refl refl
      refl refl of_first of_second
