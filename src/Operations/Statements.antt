-- ===== src/Operations/Statements.antt =====
-- operations/statements.py: capital account statements and net asset value.
pub mod Forward
pub mod Shares
pub mod Closing
pub mod Tally
pub mod Totals
pub mod Entries
pub mod Capital
pub mod Snapshots
use fund_ledger.Base.{
  ℕ, Bool, true, false, ◌&&◌, ◌||◌, Option, none, some, List, [], ◌∷◌, ◌==◌, leb, if◌then◌else◌,
  filter, find, map_or, sort_by,
}
use fund_ledger.Base.Int.{ℤ, pos, neg, ◌+ℤ◌, ◌-ℤ◌, sum_by}
use fund_ledger.Base.Dict.{get, at}
use fund_ledger.Base.Result.{Result, ok, err, not_found, ◌>>=◌}
use fund_ledger.Ledger.Model.{
  Db, Fund, Account, AccountType, cash, investment, Entry, TransferType, Period, signed_base_amount,
}
use fund_ledger.Ledger.Insert.{period_by_id}
use fund_ledger.Ledger.Queries.{transfer_by_id, effective_type}
use fund_ledger.Operations.Allocation.{Weights, allocate}
use fund_ledger.Operations.Chart.{commitments_of, lp_capital_accounts, same_type}
use fund_ledger.Operations.ProRata.{weights_of}

pub record Movement : Type 0 where
  pub contributions : ℤ
  pub distributions : ℤ
  pub other : ℤ
  pub allocated_gains : ℤ
  pub allocated_fees : ℤ

-- `Movement.net`
abbrev pub net : Movement → ℤ
net m = (((m.contributions -ℤ m.distributions) +ℤ m.other) +ℤ m.allocated_gains) -ℤ m.allocated_fees

abbrev pub no_movement : Movement
no_movement = record {
  contributions = pos 0;
  distributions = pos 0;
  other = pos 0;
  allocated_gains = pos 0;
  allocated_fees = pos 0;
}

-- an entry of a transfer of the period
abbrev pub falls_in : Db → ℕ → Entry → Bool
falls_in db period e = map_or (transfer_by_id e.transfer_id db) false (λ t. t.period_id == period)

-- where an entry's amount goes: one column by the effective type of its transfer
pub data Column : Type 0 where
  as_contribution as_distribution as_other : Column

abbrev pub column_of_type : TransferType → Column
column_of_type TransferType.capital_call = as_contribution
column_of_type TransferType.distribution = as_distribution
column_of_type _ = as_other

abbrev pub column_of : Db → Entry → Column
column_of db e =
    map_or (transfer_by_id e.transfer_id db) as_other (λ t. column_of_type (effective_type t db))

-- LP capital is credit-normal
abbrev pub add_entry : Column → Entry → Movement → Movement
add_entry as_contribution e m = record m {
  contributions = m.contributions +ℤ neg (signed_base_amount e);
}
add_entry as_distribution e m = record m {
  distributions = m.distributions -ℤ neg (signed_base_amount e);
}
add_entry as_other e m = record m { other = m.other +ℤ neg (signed_base_amount e) }

-- The query groups the rows by type and adds each group's sum, which is to add them one by one.
abbrev pub add_entries : Db → List Entry → Movement → Movement
add_entries db [] m = m
add_entries db (e ∷ es) m = add_entries db es (add_entry (column_of db e) e m)

abbrev pub entries_in : ℕ → ℕ → Db → List Entry
entries_in account period db =
    filter (λ e. (e.account_id == account) && falls_in db period e) db.entries

-- `_lp_ledger_movement`
unfoldable pub lp_ledger_movement : Account → Period → Db → Movement
lp_ledger_movement account p db = add_entries db (entries_in account.id p.id db) no_movement

-- an entry of an account of the fund, of a type
abbrev pub on_type : Db → ℕ → AccountType → Entry → Bool
on_type db fund kind e =
    map_or (find (λ a. a.id == e.account_id) db.accounts) false
      (λ a. (a.fund_id == fund) && same_type a.account_type kind)

-- `_fund_total`
unfoldable pub fund_total : Fund → Period → AccountType → Db → ℤ
fund_total fund p kind db =
    sum_by signed_base_amount
      (filter (λ e. on_type db fund.id kind e && falls_in db p.id e) db.entries)

-- one unit
abbrev pub four_dp : ℕ
four_dp = 1

-- the share of a partner in a total of units
abbrev pub allocated : ℕ → Weights → ℤ → Result ℤ
allocated lp commitments total = allocate total 4 commitments four_dp >>= at lp

-- what a period has moved on a partner's account
unfoldable pub movement_of : Fund → ℕ → Account → Weights → Db → Period → Result Movement
unfolding lp_ledger_movement fund_total
movement_of fund lp account commitments db p = do
  gains ← allocated lp commitments (neg (fund_total fund p AccountType.gain_loss db))
  fees ← allocated lp commitments (fund_total fund p AccountType.fee_expense db)
  ok (record (lp_ledger_movement account p db) { allocated_gains = gains; allocated_fees = fees })

-- the variables of the loop
pub record Progress : Type 0 where
  pub opening : ℤ
  pub contributed_to_date : ℤ
  pub current : Movement

abbrev pub start : Progress
start = record { opening = pos 0; contributed_to_date = pos 0; current = no_movement }

-- one pass of the loop
abbrev pub advance : ℕ → Period → Movement → Progress → Progress
advance target p m s =
    if p.id == target
    then record s { contributed_to_date = s.contributed_to_date +ℤ m.contributions; current = m }
    else record s {
      contributed_to_date = s.contributed_to_date +ℤ m.contributions;
      opening = s.opening +ℤ net m;
    }

unfoldable pub roll : (Period → Result Movement) → ℕ → List Period → Progress → Result Progress
roll movement target [] s = ok s
roll movement target (p ∷ ps) s = do m ← movement p; roll movement target ps (advance target p m s)

-- the fund's periods that start no later, in order
abbrev pub periods_until : ℕ → Period → Db → List Period
periods_until fund p db =
    sort_by (λ p q. leb p.start_date q.start_date)
      (filter (λ q. (q.fund_id == fund) && leb q.start_date p.start_date) db.periods)

-- `CapitalAccountStatement`, without the partner's name
pub record Statement : Type 0 where
  pub fund_id : ℕ
  pub lp_id : ℕ
  pub period_start : ℕ
  pub period_end : ℕ
  pub currency : ℕ
  pub opening_balance : ℤ
  pub contributions : ℤ
  pub distributions : ℤ
  pub other_adjustments : ℤ
  pub allocated_gains : ℤ
  pub allocated_fees : ℤ
  pub closing_balance : ℤ
  pub commitment : ℤ
  pub contributed_to_date : ℤ
  pub unfunded_commitment : ℤ

abbrev pub statement_of : Fund → ℕ → Period → ℤ → Progress → Statement
statement_of fund lp p commitment s = record {
  fund_id = fund.id;
  lp_id = lp;
  period_start = p.start_date;
  period_end = p.end_date;
  currency = fund.base_currency;
  opening_balance = s.opening;
  contributions = s.current.contributions;
  distributions = s.current.distributions;
  other_adjustments = s.current.other;
  allocated_gains = s.current.allocated_gains;
  allocated_fees = s.current.allocated_fees;
  closing_balance = s.opening +ℤ net s.current;
  commitment = commitment;
  contributed_to_date = s.contributed_to_date;
  unfunded_commitment = commitment -ℤ s.contributed_to_date;
}

abbrev pub commitment_or : Option ℤ → Result ℤ
commitment_or none = err not_found
commitment_or (some c) = ok c

-- `lp_statement`
unfoldable pub lp_statement : Fund → ℕ → Period → Db → Result Statement
unfolding movement_of roll
lp_statement fund lp p db =
    let commitments = weights_of (commitments_of fund db) in
    do
      commitment ← commitment_or (get lp commitments)
      account ← at lp (lp_capital_accounts fund db)
      s ← roll (movement_of fund lp account commitments db) p.id (periods_until fund.id p db) start
      ok (statement_of fund lp p commitment s)

-- an entry of a period that starts no later
abbrev pub in_or_before : Db → Option Period → Entry → Bool
in_or_before db none e = true
in_or_before db (some p) e =
    map_or (transfer_by_id e.transfer_id db) false
      (λ t. map_or (period_by_id t.period_id db) false (λ q. leb q.start_date p.start_date))

-- `nav`: cash and investments
unfoldable pub nav : Fund → Option Period → Db → ℤ
nav fund through db = sum_by signed_base_amount (
    filter
      (λ e.
        (on_type db fund.id cash e || on_type db fund.id investment e) && in_or_before db through e)
      db.entries)
