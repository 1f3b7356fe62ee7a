-- ===== src/Ledger/Tests/Checks.antt =====
-- The check of cash and the check of the books at the small database.
use fund_ledger.Base.{In, All-In, inl, inr, arith, ◌↔◌, ◌≡◌, refl, false, ◌⊎◌, none, some, [], ◌∷◌}
use fund_ledger.Base.Int.{pos, ◌+ℤ◌, ◌-ℤ◌, neg}
use fund_ledger.Base.Result.{ok, err, ledger, command_error, insufficient_funds}
use fund_ledger.Ledger.Model.{Db, Entry, PricedLeg, credit}
use fund_ledger.Ledger.Queries.{native_balance}
use fund_ledger.Ledger.Post.Filed.{IsFiled, post_transfer-IsFiled}
use fund_ledger.Ledger.Post.{check_sufficient_funds}
use fund_ledger.Ledger.Post.Funds.{IsCovered, check_sufficient_funds_exact}
use fund_ledger.Ledger.Reconciliation.{total_imbalance, unbalanced_transfers}
use fund_ledger.Ledger.Reconciliation.Zero.{IsBalanced}
use fund_ledger.Ledger.Reconciliation.Command.{reconcile, reconcile_iff}
use fund_ledger.Ledger.Tests.{
  gbp, year, cash, equity, row_in, paid, paid-IsKeyed, buying, bought, buying-paid, line,
}

abbrev cash_leg : PricedLeg
cash_leg = record {
  account = cash;
  direction = credit;
  amount = 1000000;
  currency = gbp;
  fx_rate = none;
  base_amount = pos 1000000;
  adjustable = false;
}

-- taking all of the hundred pounds is allowed, and a ten-thousandth more is not
all_of_it : check_sufficient_funds (cash_leg ∷ []) paid ≡ ok tt
unfolding check_sufficient_funds native_balance ◌+ℤ◌ ◌-ℤ◌ neg
all_of_it = refl

more :
    check_sufficient_funds (record cash_leg { amount = 1000001 } ∷ []) paid
    ≡ err (ledger insufficient_funds)
unfolding check_sufficient_funds native_balance ◌+ℤ◌ ◌-ℤ◌ neg
more = refl

check_sufficient_funds_exact_example :
    ((check_sufficient_funds (cash_leg ∷ []) paid ≡ ok tt) × IsCovered (cash_leg ∷ []) paid)
    ⊎ ((check_sufficient_funds (cash_leg ∷ []) paid ≡ err (ledger insufficient_funds))
        × (¬ IsCovered (cash_leg ∷ []) paid))
check_sufficient_funds_exact_example = check_sufficient_funds_exact (cash_leg ∷ []) paid

-- a line of one transfer that has no other side
abbrev lopsided : Db
lopsided = record paid { entries = line 1001 1000 cash 1000000 ∷ [] }

books :
    (reconcile none paid ≡ ok tt)
    × (reconcile (some 6) lopsided ≡ err command_error)
    × (reconcile none lopsided ≡ err command_error)
unfolding reconcile total_imbalance unbalanced_transfers ◌+ℤ◌ neg
books = (refl, refl, refl)

reconcile_iff_example : (reconcile none paid ≡ ok tt) ↔ IsBalanced paid
reconcile_iff_example = reconcile_iff paid

paid-IsFiled : (e : Entry) → In e paid.entries → IsFiled paid e
paid-IsFiled = All-In (IsFiled paid) paid.entries (
  record {
    transfer = row_in;
    period = year;
    account = cash;
    has_transfer = refl;
    has_period = refl;
    has_account = refl;
    of_one = refl;
  },
  (
    record {
      transfer = row_in;
      period = year;
      account = equity;
      has_transfer = refl;
      has_period = refl;
      has_account = refl;
      of_one = refl;
    },
    tt,
  ),
)

abbrev sold : Entry
sold = record (line 1005 1003 cash 790000) { direction = credit }

post_transfer-IsFiled_example : IsFiled bought sold
post_transfer-IsFiled_example =
    post_transfer-IsFiled (buying 22 100 7900) paid paid-IsKeyed (λ r found. ground (arith, found))
      paid-IsFiled buying-paid sold (inr (inr (inr (inl refl))))
