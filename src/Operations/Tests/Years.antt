-- ===== src/Operations/Tests/Years.antt =====
-- A history of the small fund: its accounts, a call, a distribution, and the close of a period.
use fund_ledger.Base.{refl}
use fund_ledger.Base.Int.{int_laws}
use fund_ledger.Ledger.Insert.{transfer_imbalance}
use fund_ledger.Ledger.Queries.{native_balance}
use fund_ledger.Ledger.Idempotency.{alone}
use fund_ledger.Operations.History.{Runs, rests, follows, calls, pays_out}
use fund_ledger.Operations.History.Postings.{IsSound}
use fund_ledger.Operations.History.Sound.{Runs-IsSound}
use fund_ledger.Operations.Tests.{world, hashing, request, calling, world-IsKeyed}
use fund_ledger.Operations.Tests.Payout.{payout, paid_out, paying_out}

year : Runs hashing world paid_out
year =
    follows (calls alone (λ d. rests) (λ d. rests) request calling)
      (pays_out alone (λ d. rests) (λ d. rests) payout paying_out)

world-IsSound : IsSound world
unfolding transfer_imbalance native_balance
world-IsSound = record {
  balanced = λ t. refl;
  solvent = λ a here cash. grind int_laws;
  keyed = world-IsKeyed;
  booked = λ e here. absurd here;
}

Runs-IsSound_example : IsSound paid_out
Runs-IsSound_example = Runs-IsSound hashing year world-IsSound
