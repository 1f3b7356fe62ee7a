-- ===== src/Operations/Tests.antt =====
-- The operations at a small fund with two partners.
mod Rolling
mod Netting
mod Payout
mod Years
mod Closing
use fund_ledger.Base.{
  ℕ, ◌≡◌, ◌≤◌, refl, true, false, Option, none, some, [], ◌∷◌, ◌+◌, ◌*◌, ◌^◌, ◌==◌, not, any, map,
  inl, inr, arith, if◌then◌else◌, leb,
}
use fund_ledger.Base.Int.{ℤ, pos, abs, sum_by, ◌+ℤ◌, ◌-ℤ◌, neg}
use fund_ledger.Base.Result.{
  ok, err, ledger, idempotency_conflict, period_not_closable, commitment_exceeded,
  invalid_operation,
}
use fund_ledger.Ledger.Decimal.{finite, in_context, round_half_even, units, quantize, with_sign}
use fund_ledger.Ledger.Model.{
  Db, Account, AccountType, AccountCode, lp_code, in_currency, Transfer, TransferType, Description,
  Entry, Period, open_period, is_open, leg, debit, credit, CapitalCall,
}
use fund_ledger.Ledger.Queries.{native_balance, effective_type}
use fund_ledger.Ledger.Validate.{validate_legs}
use fund_ledger.Ledger.Pricing.{price_legs}
use fund_ledger.Ledger.Insert.{insert_transfer, insert_entries, check_balances, transfer_imbalance}
use fund_ledger.Ledger.Post.{post_transfer}
use fund_ledger.Ledger.Reconciliation.{period_imbalance}
use fund_ledger.Ledger.Reconciliation.Zero.{IsBalanced}
use fund_ledger.Ledger.Idempotency.{
  Hashing, Payload, for_capital_call, alone, by_key, run_once, as_replay,
}
use fund_ledger.Operations.Allocation.{Shares, Weights, allocate, weight_sum, distribute}
use fund_ledger.Base.Dict.{get}
use fund_ledger.Operations.Allocation.Fair.{IsDict, distribute-IsFair}
use fund_ledger.Operations.Allocation.Fair.{distribute-IsFair}
use fund_ledger.Operations.Allocation.Sum.{allocate-sum}
use fund_ledger.Operations.Chart.{get_account, lp_capital_accounts}
use fund_ledger.Operations.Contributions.{contributed_by_account}
use fund_ledger.Operations.Periods.{open_before, closed_row, save_closed, close_period, period_for}
use fund_ledger.Operations.Periods.Closing.{
  IsPrefix, IsKeyedPeriods, close_period-IsPrefix, close_period-of_balanced,
}
use fund_ledger.Operations.ProRata.{pro_rata}
use fund_ledger.Operations.Calls.{
  CallRequest, call_of, call_hash, create_capital_call, create_call, insert_capital_call,
}
use fund_ledger.Ledger.Post.Solvent.{IsKeyed}
use fund_ledger.Operations.Contributions.Growth.{IsReferenced}
use fund_ledger.Operations.ProRata.{weights_of}
use fund_ledger.Operations.Chart.{commitments_of}
use fund_ledger.Operations.Portfolio.{cost_of, valuation_legs}
use fund_ledger.Operations.Calls.Funded.{IsFunded, create_capital_call-IsFunded}
use fund_ledger.Operations.Calls.Once.{create_capital_call_again}

abbrev gbp : ℕ
gbp = 826

abbrev period : ℕ → ℕ → ℕ → Period
period i from to = record {
  id = i;
  fund_id = 1;
  start_date = from;
  end_date = to;
  status = open_period;
  closed_at = none;
  closed_by = 0;
}

abbrev account : ℕ → AccountCode → AccountType → Option ℕ → Account
account i code kind lp = record {
  id = i;
  fund_id = 1;
  code = code;
  account_type = kind;
  owner_lp = lp;
  currency = gbp;
}

-- commitments of 2 and of 1 million
abbrev pub world : Db
world = record {
  funds = record { id = 1; base_currency = gbp } ∷ [];
  commitments =
      record { fund_id = 1; lp_id = 60; committed_amount = 20000000000 }
      ∷ record { fund_id = 1; lp_id = 61; committed_amount = 10000000000 }
      ∷ [];
  periods = period 5 100 199 ∷ period 6 200 299 ∷ [];
  fx_rates = [];
  accounts =
      account 10 (in_currency AccountType.cash gbp) AccountType.cash none
      ∷ account 11 (lp_code 60) AccountType.lp_capital (some 60)
      ∷ account 12 (lp_code 61) AccountType.lp_capital (some 61)
      ∷ [];
  transfers = [];
  entries = [];
  capital_calls = [];
  distributions = [];
  uuid = λ n. 1000 + n;
  drawn = 0;
  now = 7;
  today = 120;
}

-- 100.00 between them
abbrev request : CallRequest
request = record {
  fund_id = 1;
  idempotency_key = 21;
  total = pos 100;
  places = 0;
  notice_date = 150;
  due_date = 160;
  created_by = 3;
}

abbrev mark : Payload → ℕ
mark (for_capital_call fund total notice due) = 70 + abs total
mark _ = 0

abbrev pub hashing : Hashing
hashing = record { fingerprint = mark; money_le = leb }

abbrev weights : Weights
weights = (60, pos 20000000000) ∷ (61, pos 10000000000) ∷ []

abbrev shares : Shares
shares = (60, pos 666700) ∷ (61, pos 333300) ∷ []

allocating : allocate (pos 100) 0 weights 100 ≡ ok shares
unfolding allocate
allocating = refl

-- a total of 33 digits loses its last one to the context: the shares sum to 1.00
allocating_long :
    allocate (pos (10 ^ 32 + 1)) 32 ((60, pos 2) ∷ (61, pos 1) ∷ []) 100
    ≡ ok ((60, pos 6700) ∷ (61, pos 3300) ∷ [])
unfolding allocate
allocating_long = refl

-- and a change of value of as many digits is posted without it
valuing_long :
    valuation_legs 14 15 (pos (10 ^ 32 + 1)) 32
    ≡ leg 14 debit (finite (pos (10 ^ 32)) 32) ∷ leg 15 credit (finite (pos (10 ^ 32)) 32) ∷ []
unfolding in_context
valuing_long = refl

allocate-sum_example :
    (u : ℕ) × (sum_by (λ (s : ℕ × ℤ). s.1) shares ≡ with_sign (pos 100) u)
    × (u * 10 ^ 0 ≡ abs (pos 100) * 10 ^ 4)
allocate-sum_example =
    allocate-sum (pos 100) 0 weights 100 (omega arith) (omega arith) (omega arith) allocating

abbrev call_row : Transfer
call_row = record {
  id = 1000;
  idempotency_key = 21;
  request_hash = 1000070;
  transfer_type = TransferType.capital_call;
  reverses = none;
  period_id = 5;
  description = Description.capital_call_number 1;
  created_by = 3;
  created_at = 7;
}

abbrev line : ℕ → ℕ → ℕ → Entry
line i a n = record {
  id = i;
  transfer_id = 1000;
  account_id = a;
  direction = debit;
  amount = n;
  currency = gbp;
  fx_rate = none;
  base_amount = pos n;
  created_at = 7;
}

abbrev pub call : CapitalCall
call = record {
  fund_id = 1;
  call_number = 1;
  notice_date = 150;
  due_date = 160;
  total_amount = 1000000;
  transfer_id = 1000;
}

abbrev pub called : Db
called = record world {
  transfers = call_row ∷ [];
  entries =
      line 1001 10 666700
      ∷ record (line 1002 11 666700) { direction = credit }
      ∷ line 1003 10 333300
      ∷ record (line 1004 12 333300) { direction = credit }
      ∷ [];
  capital_calls = call ∷ [];
  drawn = 6;
}

calling : create_capital_call hashing alone request world ≡ ok ((call, true), called)
unfolding create_capital_call run_once create_call insert_capital_call pro_rata allocate period_for
    get_account lp_capital_accounts contributed_by_account effective_type post_transfer
    validate_legs quantize price_legs insert_transfer insert_entries check_balances
    transfer_imbalance native_balance units ◌+ℤ◌ ◌-ℤ◌ neg
calling = refl

size : quantize (pos 100) 0 ≡ ok (pos 1000000)
unfolding quantize
size = refl

create_capital_call_again_example :
    (amount : ℤ) × (t : Transfer) × (quantize (pos 100) 0 ≡ ok amount)
    × (by_key 21 called ≡ some t)
    × (call_of t called ≡ ok call)
    × (create_capital_call hashing alone request called ≡ (
        if call_hash hashing request amount == call_hash hashing request (pos 1000000)
        then as_replay (call_of t called) called
        else err (ledger idempotency_conflict)))
create_capital_call_again_example =
    create_capital_call_again hashing alone request world calling alone request (pos 1000000) called
      [] refl size refl

-- a call of 40 million is above the commitments
over :
    create_capital_call hashing alone (record request { total = pos 40000000 }) world
    ≡ err (ledger commitment_exceeded)
unfolding create_capital_call run_once create_call insert_capital_call pro_rata allocate period_for
    get_account lp_capital_accounts contributed_by_account effective_type post_transfer
    validate_legs quantize price_legs insert_transfer insert_entries check_balances
    transfer_imbalance native_balance units ◌+ℤ◌ ◌-ℤ◌ neg
over = refl

world-IsKeyed : IsKeyed world
world-IsKeyed a b here there same = ground arith

world-IsReferenced : IsReferenced world
world-IsReferenced e here = absurd here

commitments-IsDict :
    IsDict (weights_of (commitments_of (record { id = 1; base_currency = gbp }) world))
commitments-IsDict k = ground arith

create_capital_call-IsFunded_example :
    IsFunded
      (record { id = 1; base_currency = gbp })
      world
      called
      (record { fund_id = 1; lp_id = 61; committed_amount = 10000000000 })
create_capital_call-IsFunded_example =
    create_capital_call-IsFunded hashing alone request world world
      (record { id = 1; base_currency = gbp }) refl world-IsKeyed world-IsReferenced
      commitments-IsDict refl calling
      (record { fund_id = 1; lp_id = 61; committed_amount = 10000000000 }) (inr (inl refl))

cost : cost_of (pos 127) 0 7900000000 ≡ ok (pos 10033)
unfolding cost_of round_half_even
cost = refl

-- a product of 31 digits is rounded to 28 before the pennies
long_cost : cost_of (pos 1234567890123456) 4 123450123456789 ≡ ok (pos 152407558451528160)
unfolding cost_of round_half_even
long_cost = refl

-- and one with more than 28 digits of pennies is refused
huge_cost : cost_of (pos 12345678901234567890) 0 12345678901234567890 ≡ err invalid_operation
unfolding cost_of round_half_even
huge_cost = refl

weights-IsDict : IsDict weights
weights-IsDict k = ground arith

distribute-IsFair_example :
    (m : ℕ) × (get 61 (distribute 10000 weights) ≡ some m)
    × (m * weight_sum weights ≤ 10000 * 10000000000 + weight_sum weights)
    × (10000 * 10000000000 ≤ m * weight_sum weights + weight_sum weights)
distribute-IsFair_example =
    distribute-IsFair 10000 weights weights-IsDict (omega arith) 61 (pos 10000000000) refl
