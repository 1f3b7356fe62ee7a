-- ===== src/Operations/Tests/Netting.antt =====
-- The statements of both partners after a capital call and a fee, and the net asset value.
use fund_ledger.Base.{
  ℕ, ◌≡◌, refl, true, none, some, [], ◌∷◌, ◌++◌, ◌==◌, In, All-In, find, ◌&&◌, inl, inr,
  if◌then◌else◌, arith,
}
use fund_ledger.Base.Int.{pos, ◌+ℤ◌, ◌-ℤ◌, neg}
use fund_ledger.Base.Result.{ok}
use fund_ledger.Ledger.Model.{
  Db, Fund, Account, AccountType, AccountCode, Transfer, TransferType, Description, Period, Entry,
  credit, is_lp_capital,
}
use fund_ledger.Ledger.Queries.{effective_type, transfer_by_id}
use fund_ledger.Ledger.Insert.{period_by_id}
use fund_ledger.Base.Dict.{get}
use fund_ledger.Ledger.Post.Solvent.{IsKeyed}
use fund_ledger.Ledger.Reconciliation.{total_imbalance, unbalanced_transfers}
use fund_ledger.Ledger.Reconciliation.Command.{reconcile, reconcile_iff}
use fund_ledger.Operations.Periods.Closing.{IsKeyedPeriods}
use fund_ledger.Operations.Allocation.{allocate}
use fund_ledger.Operations.Chart.{lp_capital_accounts}
use fund_ledger.Ledger.Post.Filed.{IsFiled}
use fund_ledger.Operations.Statements.{Statement, lp_statement, fund_total, nav}
use fund_ledger.Operations.Statements.Tally.{IsOwned}
use fund_ledger.Operations.Statements.Totals.{Fits, partners}
use fund_ledger.Operations.Statements.Entries.{gp_total}
use fund_ledger.Operations.Statements.Capital.{closing_balances-nav}
use fund_ledger.Operations.Tests.{gbp, period, account, call_row, line, called}

abbrev fund : Fund
fund = record { id = 1; base_currency = gbp }

abbrev expense : Account
expense =
    account 13 (AccountCode.in_currency AccountType.fee_expense gbp) AccountType.fee_expense none

abbrev fee_row : Transfer
fee_row = record call_row {
  id = 1006;
  idempotency_key = 22;
  transfer_type = TransferType.fee;
  period_id = 6;
  description = Description.management_fee;
}

-- a fee of 10.00 in the second period
abbrev charged : Db
charged = record called {
  accounts = called.accounts ++ (expense ∷ []);
  transfers = call_row ∷ fee_row ∷ [];
  entries =
      called.entries
      ++ (record (line 1007 13 100000) { transfer_id = 1006 }
          ∷ record (line 1008 10 100000) { transfer_id = 1006; direction = credit }
          ∷ []);
}

abbrev statement : ℕ → Statement
statement i =
    if i == 60
    then record {
      fund_id = 1;
      lp_id = 60;
      period_start = 200;
      period_end = 299;
      currency = gbp;
      opening_balance = pos 666700;
      contributions = pos 0;
      distributions = pos 0;
      other_adjustments = pos 0;
      allocated_gains = pos 0;
      allocated_fees = pos 66667;
      closing_balance = pos 600033;
      commitment = pos 20000000000;
      contributed_to_date = pos 666700;
      unfunded_commitment = pos 19999333300;
    }
    else record {
      fund_id = 1;
      lp_id = 61;
      period_start = 200;
      period_end = 299;
      currency = gbp;
      opening_balance = pos 333300;
      contributions = pos 0;
      distributions = pos 0;
      other_adjustments = pos 0;
      allocated_gains = pos 0;
      allocated_fees = pos 33333;
      closing_balance = pos 299967;
      commitment = pos 10000000000;
      contributed_to_date = pos 333300;
      unfunded_commitment = pos 9999666700;
    }

stated :
    (i : ℕ)
    → In i (partners fund charged)
    → lp_statement fund i (period 6 200 299) charged ≡ ok (statement i)
unfolding lp_statement fund_total effective_type allocate lp_capital_accounts ◌+ℤ◌ ◌-ℤ◌ neg
stated =
    All-In (λ i. lp_statement fund i (period 6 200 299) charged ≡ ok (statement i)) (60 ∷ 61 ∷ [])
      (refl, (refl, tt))

filed :
    {e : Entry} (t : Transfer) (q : Period) (a : Account)
    → transfer_by_id e.transfer_id charged ≡ some t
    → period_by_id t.period_id charged ≡ some q
    → find (λ b. b.id == e.account_id) charged.accounts ≡ some a
    → a.fund_id ≡ q.fund_id
    → IsFiled charged e
filed t q a has_transfer has_period has_account of_one = record {
  transfer = t;
  period = q;
  account = a;
  has_transfer = has_transfer;
  has_period = has_period;
  has_account = has_account;
  of_one = of_one;
}

abbrev bank : Account
bank = account 10 (AccountCode.in_currency AccountType.cash gbp) AccountType.cash none

abbrev capital : ℕ → ℕ → Account
capital i lp = account i (AccountCode.lp_code lp) AccountType.lp_capital (some lp)

charged-IsFiled : (e : Entry) → In e charged.entries → IsFiled charged e
charged-IsFiled = All-In (IsFiled charged) charged.entries (
  filed call_row (period 5 100 199) bank refl refl refl refl,
  (
    filed call_row (period 5 100 199) (capital 11 60) refl refl refl refl,
    (
      filed call_row (period 5 100 199) bank refl refl refl refl,
      (
        filed call_row (period 5 100 199) (capital 12 61) refl refl refl refl,
        (
          filed fee_row (period 6 200 299) expense refl refl refl refl,
          (filed fee_row (period 6 200 299) bank refl refl refl refl, tt),
        ),
      ),
    ),
  ),
)

passes : reconcile none charged ≡ ok tt
unfolding reconcile total_imbalance unbalanced_transfers ◌+ℤ◌ neg
passes = refl

charged-IsKeyed : IsKeyed charged
charged-IsKeyed a b here there e = ground arith

charged-IsKeyedPeriods : IsKeyedPeriods charged.periods
charged-IsKeyedPeriods p q here there e = ground arith

charged-IsOwned : IsOwned fund charged (60 ∷ 61 ∷ [])
unfolding lp_capital_accounts
charged-IsOwned =
    All-In
      (λ a.
        ((a.fund_id == fund.id) && is_lp_capital a.account_type) ≡ true
        → (lp : ℕ) × In lp (60 ∷ 61 ∷ []) × (get lp (lp_capital_accounts fund charged) ≡ some a))
      charged.accounts
      (
        λ own. absurd (cc),
        (
          λ own. (60, inl refl, refl),
          (λ own. (61, inr (inl refl), refl), (λ own. absurd (cc), tt)),
        ),
      )

charged-Fits : (q : Period) → In q (period 5 100 199 ∷ period 6 200 299 ∷ []) → Fits fund charged q
unfolding fund_total ◌+ℤ◌ neg
charged-Fits =
    All-In (Fits fund charged) (period 5 100 199 ∷ period 6 200 299 ∷ [])
      ((omega arith, omega arith), ((omega arith, omega arith), tt))

closing_balances-nav_example :
    pos 600033 +ℤ (pos 299967 +ℤ pos 0) +ℤ neg (gp_total fund (period 6 200 299) charged)
    ≡ nav fund (some (period 6 200 299)) charged
closing_balances-nav_example =
    closing_balances-nav fund (period 6 200 299) (period 5 100 199 ∷ []) charged statement 60
      (inl refl) (refl, (refl, tt)) refl (refl, (refl, tt)) charged-IsKeyedPeriods charged-IsKeyed
      ((reconcile_iff charged).0 passes) charged-IsFiled charged-IsOwned (omega arith) charged-Fits
      stated
