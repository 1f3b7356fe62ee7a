-- ===== src/Operations/Calls.antt =====
-- `create_capital_call` of operations/services.py, and the table of capital calls.
pub mod Once
pub mod Legs
pub mod Lookups
pub mod Growth
pub mod Funded
use fund_ledger.Base.{
  ℕ, suc, ◌+◌, Bool, true, false, not, ◌&&◌, Option, none, some, List, [], ◌∷◌, ◌++◌, ◌==◌, leb,
  ltb, any, filter, find, map, if◌then◌else◌,
}
use fund_ledger.Base.Int.{ℤ, pos, pos_part, ◌-ℤ◌, ltb_ℤ, leb_ℤ}
use fund_ledger.Base.Dict.{Dict, at, values}
use fund_ledger.Base.Result.{
  Result, ok, err, ledger, integrity, not_found, data_error, commitment_exceeded,
  capital_call_number_unique, capital_call_positive, capital_call_due_after_notice,
  capital_call_transfer_unique, ◌>>=◌, ◌>>◌, raise_if,
}
use fund_ledger.Ledger.Decimal.{finite, quantize}
use fund_ledger.Ledger.Model.{
  Db, Fund, Commitment, Account, AccountType, Transfer, TransferType, Description, Period,
  CapitalCall, Leg, leg, debit, credit,
}
use fund_ledger.Ledger.Insert.{column_limit}
use fund_ledger.Ledger.Post.{Posting, post_transfer, fund_by_id}
use fund_ledger.Ledger.Idempotency.{Hashing, for_capital_call, Others, run_once}
use fund_ledger.Operations.Allocation.{Shares}
use fund_ledger.Operations.Chart.{get_account, lp_capital_accounts}
use fund_ledger.Operations.Contributions.{contributed_by_account}
use fund_ledger.Operations.Periods.{period_for}
use fund_ledger.Operations.ProRata.{pro_rata, share_legs, sorted_shares, max}

-- the keyword arguments; the total is total / 10^places
pub record CallRequest : Type 0 where
  pub fund_id : ℕ
  pub idempotency_key : ℕ
  pub total : ℤ
  pub places : ℕ
  pub notice_date : ℕ
  pub due_date : ℕ
  pub created_by : ℕ

-- no share above what its partner has left to pay
abbrev pub check_unfunded : Shares → Dict Account → Dict ℤ → List Commitment → Result (Unit {0})
check_unfunded shares accounts paid_in [] = ok tt
check_unfunded shares accounts paid_in (c ∷ cs) = do
  account ← at c.lp_id accounts
  paid ← at account.id paid_in
  share ← at c.lp_id shares
  raise_if (ltb_ℤ (pos c.committed_amount -ℤ paid) share) (ledger commitment_exceeded)
  check_unfunded shares accounts paid_in cs

abbrev pub call_pair : ℕ → ℕ → ℤ → List Leg
call_pair cash lp share = leg cash debit (finite share 4) ∷ leg lp credit (finite share 4) ∷ []

abbrev pub last_call_number : List CapitalCall → ℕ
last_call_number [] = 0
last_call_number (d ∷ ds) = max d.call_number (last_call_number ds)

abbrev pub next_call_number : ℕ → Db → ℕ
next_call_number fund db = last_call_number (filter (λ d. d.fund_id == fund) db.capital_calls) + 1

-- INSERT INTO operations_capitalcall, with its constraints
unfoldable pub insert_capital_call : CapitalCall → Db → Result Db
insert_capital_call d db = do
  raise_if (leb column_limit d.total_amount) data_error
  raise_if (d.total_amount == 0) (integrity capital_call_positive)
  raise_if (ltb d.due_date d.notice_date) (integrity capital_call_due_after_notice)
  raise_if
      (any (λ e. (e.fund_id == d.fund_id) && (e.call_number == d.call_number)) db.capital_calls)
      (integrity capital_call_number_unique)
  raise_if (any (λ e. e.transfer_id == d.transfer_id) db.capital_calls)
      (integrity capital_call_transfer_unique)
  ok (record db { capital_calls = db.capital_calls ++ (d ∷ []); drawn = suc db.drawn })

abbrev pub call_posting : CallRequest → ℕ → List Leg → Period → ℕ → Posting
call_posting q hash legs period number = record {
  idempotency_key = q.idempotency_key;
  legs = legs;
  period = period;
  transfer_type = TransferType.capital_call;
  description = Description.capital_call_number number;
  reverses = none;
  request_hash = hash;
  created_by = q.created_by;
  fx_date = none;
}

-- The document of a transfer. An amount that `_pro_rata` has split is a whole number of units, and a
-- negative one has no legs that can be posted.
abbrev pub new_call : CallRequest → ℤ → Transfer → ℕ → CapitalCall
new_call q amount t number = record {
  fund_id = q.fund_id;
  call_number = number;
  notice_date = q.notice_date;
  due_date = q.due_date;
  total_amount = pos_part amount;
  transfer_id = t.id;
}

-- the writes, once the shares are checked
unfoldable pub write_call : CallRequest → ℕ → ℤ → List Leg → Period → Db → Result (CapitalCall × Db)
unfolding insert_capital_call
write_call q hash amount legs period db =
    let number = next_call_number q.fund_id db in
    do
      (t, db₁) ← post_transfer (call_posting q hash legs period number) db
      db₂ ← insert_capital_call (new_call q amount t number) db₁
      ok (new_call q amount t number, db₂)

-- `create`
unfoldable pub create_call : CallRequest → ℕ → ℤ → Db → Result (CapitalCall × Db)
unfolding write_call
create_call q hash amount db = do
  fund ← fund_by_id q.fund_id db
  period ← period_for fund.id q.notice_date db
  (commitments, shares) ← pro_rata fund q.total q.places db
  let accounts = lp_capital_accounts fund db
  check_unfunded shares accounts (contributed_by_account (values accounts) db) commitments
  cash ← get_account fund AccountType.cash 0 db
  legs ← share_legs (call_pair cash.id) accounts (sorted_shares shares)
  write_call q hash amount legs period db

abbrev pub call_or : Option CapitalCall → Result CapitalCall
call_or none = err not_found
call_or (some d) = ok d

-- `replay`
abbrev pub call_of : Transfer → Db → Result CapitalCall
call_of t db = call_or (find (λ d. d.transfer_id == t.id) db.capital_calls)

abbrev pub call_hash : Hashing → CallRequest → ℤ → ℕ
call_hash x q amount = x.fingerprint (for_capital_call q.fund_id amount q.notice_date q.due_date)

unfoldable pub create_capital_call :
    Hashing → Others → CallRequest → Db → Result ((CapitalCall × Bool) × Db)
create_capital_call x others q db = do
  amount ← quantize q.total q.places
  run_once others q.idempotency_key (call_hash x q amount)
      (create_call q (call_hash x q amount) amount) call_of db
