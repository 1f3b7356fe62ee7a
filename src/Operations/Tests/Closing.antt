-- ===== src/Operations/Tests/Closing.antt =====
-- The closing of periods at the small fund.
use fund_ledger.Base.{◌≡◌, refl, true, false, [], ◌∷◌, not, any, map, arith, if◌then◌else◌}
use fund_ledger.Base.Result.{ok, err, ledger, period_not_closable}
use fund_ledger.Ledger.Model.{Db, is_open}
use fund_ledger.Ledger.Insert.{transfer_imbalance}
use fund_ledger.Ledger.Reconciliation.{period_imbalance}
use fund_ledger.Ledger.Reconciliation.Zero.{IsBalanced}
use fund_ledger.Operations.Periods.{open_before, closed_row, save_closed, close_period}
use fund_ledger.Operations.Periods.Closing.{
  IsPrefix, IsKeyedPeriods, close_period-IsPrefix, close_period-of_balanced,
}
use fund_ledger.Operations.Tests.{period, world}

world-IsKeyedPeriods : IsKeyedPeriods world.periods
world-IsKeyedPeriods p q here there e = ground arith

world-IsPrefix : IsPrefix world.periods
world-IsPrefix p q here there same before shut = ground arith

world-IsBalanced : IsBalanced world
unfolding transfer_imbalance
world-IsBalanced t = refl

abbrev closed : Db
closed = record world { periods = closed_row 7 3 (period 5 100 199) ∷ period 6 200 299 ∷ [] }

closing : close_period 1 5 3 world ≡ ok ((closed_row 7 3 (period 5 100 199), true), closed)
unfolding close_period period_imbalance
closing = refl

close_period-IsPrefix_example : IsPrefix closed.periods
close_period-IsPrefix_example =
    close_period-IsPrefix 1 5 3 world world-IsKeyedPeriods world-IsPrefix closing

close_period-of_balanced_example : close_period 1 6 3 world ≡ (
    if not (is_open (period 6 200 299).status)
    then ok ((period 6 200 299, false), world)
    else if any (open_before 1 200) world.periods
    then err (ledger period_not_closable)
    else ok (
      (closed_row 7 3 (period 6 200 299), true),
      record world { periods = map (save_closed 6 7 3) world.periods },
    ))
close_period-of_balanced_example =
    close_period-of_balanced 1 6 3 world (period 6 200 299) world-IsBalanced refl
