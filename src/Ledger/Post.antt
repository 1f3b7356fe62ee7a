-- ===== src/Ledger/Post.antt =====
-- `post_transfer` of ledger/services.py, the only code that writes entries. It runs in one
-- transaction: an error means that nothing was written.
pub mod Effect
pub mod Rows
pub mod Solvent
pub mod Funds
pub mod Balanced
pub mod Settled
pub mod Filed
use fund_ledger.Base.{
  Bool, ℕ, suc, ◌+◌, false, not, Option, none, some, List, [], ◌∷◌, ◌==◌, leb, if◌then◌else◌,
  filter, find, any, length, map_or, sort_by,
}
use fund_ledger.Base.Int.{ℤ, pos, ◌+ℤ◌, neg, eqb_ℤ, ltb_ℤ, sum_by}
use fund_ledger.Base.Result.{
  Result, ok, err, ledger, not_found, unknown_account, period_closed, invalid_transfer,
  unbalanced_transfer, insufficient_funds, ◌>>=◌, ◌>>◌, raise_if,
}
use fund_ledger.Ledger.Model.{
  Db, Fund, Account, Period, Transfer, TransferType, Description, Entry, Leg, PricedLeg, is_open,
  is_cash, is_debit,
}
use fund_ledger.Ledger.Queries.{native_balance}
use fund_ledger.Ledger.Validate.{validate_legs}
use fund_ledger.Ledger.Pricing.{price_legs, debit_base, credit_base}
use fund_ledger.Ledger.Insert.{insert_transfer, insert_entries, check_balances}

-- the keyword arguments of `post_transfer`; `period` is the row as the caller read it
pub record Posting : Type 0 where
  pub idempotency_key : ℕ
  pub legs : List Leg
  pub period : Period
  pub transfer_type : TransferType
  pub description : Description
  pub reverses : Option ℕ
  pub request_hash : ℕ
  pub created_by : ℕ
  pub fx_date : Option ℕ

-- `{leg.account_id for leg in legs}`
abbrev pub account_ids : List Leg → List ℕ
account_ids [] = []
account_ids (l ∷ legs) =
    let rest = account_ids legs in
    if any (λ i. i == l.account_id) rest then rest else l.account_id ∷ rest

-- the rows of the accounts that the legs name, in ascending order of their ids
abbrev pub rows_for : List Leg → Db → List Account
rows_for legs db =
    sort_by (λ a b. leb a.id b.id)
      (filter (λ a. any (λ i. i == a.id) (account_ids legs)) db.accounts)

-- `_lock_accounts`
unfoldable pub lock_accounts : List Leg → Db → Result (List Account)
lock_accounts legs db = do
  raise_if (not (length (rows_for legs db) == length (account_ids legs))) (ledger unknown_account)
  ok (rows_for legs db)

-- `_validate_context`
unfoldable pub validate_context : Period → List Account → Result (Unit {0})
validate_context p accounts = do
  raise_if (not (is_open p.status)) (ledger period_closed)
  raise_if (any (λ a. not (a.fund_id == p.fund_id)) accounts) (ledger invalid_transfer)

unfoldable pub check_balanced : List PricedLeg → Result (Unit {0})
check_balanced priced =
    raise_if (not (eqb_ℤ (sum_by debit_base priced) (sum_by credit_base priced)))
      (ledger unbalanced_transfer)

-- the dict `deltas`
abbrev pub Deltas : Type 0
Deltas = List (ℕ × ℤ)

-- `deltas[k] += v`
abbrev pub add_delta : ℕ → ℤ → Deltas → Deltas
add_delta k v [] = (k, v) ∷ []
add_delta k v ((j, w) ∷ ds) = if k == j then (j, w +ℤ v) ∷ ds else (j, w) ∷ add_delta k v ds

abbrev pub leg_delta : PricedLeg → ℤ
leg_delta p = if is_debit p.direction then pos p.amount else neg (pos p.amount)

unfoldable pub add_deltas : List PricedLeg → Deltas → Deltas
add_deltas [] ds = ds
add_deltas (p ∷ ps) ds =
    add_deltas ps
      (if is_cash p.account.account_type then add_delta p.account.id (leg_delta p) ds else ds)

-- a delta that takes the account below zero
abbrev pub is_overdrawn : ℤ → ℤ → Bool
is_overdrawn available d = if ltb_ℤ d (pos 0) then ltb_ℤ (available +ℤ d) (pos 0) else false

unfoldable pub check_deltas : Deltas → Db → Result (Unit {0})
check_deltas [] db = ok tt
check_deltas ((a, d) ∷ ds) db = do
  raise_if (is_overdrawn (native_balance a none db) d) (ledger insufficient_funds)
  check_deltas ds db

-- `_check_sufficient_funds`
unfoldable pub check_sufficient_funds : List PricedLeg → Db → Result (Unit {0})
unfolding add_deltas check_deltas
check_sufficient_funds priced db = check_deltas (add_deltas priced []) db

-- `uuid.uuid4()`
abbrev pub draw : Db → Db
draw db = record db { drawn = suc db.drawn }

-- the row of the transfer, and one for each priced leg
abbrev pub new_transfer : Posting → Db → Transfer
new_transfer q db = record {
  id = db.uuid db.drawn;
  idempotency_key = q.idempotency_key;
  request_hash = q.request_hash;
  transfer_type = q.transfer_type;
  reverses = q.reverses;
  period_id = q.period.id;
  description = q.description;
  created_by = q.created_by;
  created_at = db.now;
}

abbrev pub new_entry : ℕ → ℕ → ℕ → PricedLeg → Entry
new_entry i t now p = record {
  id = i;
  transfer_id = t;
  account_id = p.account.id;
  direction = p.direction;
  amount = p.amount;
  currency = p.currency;
  fx_rate = p.fx_rate;
  base_amount = p.base_amount;
  created_at = now;
}

-- the ids are drawn from `k` on
unfoldable pub new_entries : (ℕ → ℕ) → ℕ → ℕ → ℕ → List PricedLeg → List Entry
new_entries uuid k t now [] = []
new_entries uuid k t now (p ∷ ps) = new_entry (uuid k) t now p ∷ new_entries uuid (suc k) t now ps

abbrev pub fund_by_id : ℕ → Db → Result Fund
fund_by_id i db = elim (find (λ f. f.id == i) db.funds) [ none ↦ err not_found | some f ↦ ok f ]

-- the writes of `post_transfer`, once the legs are priced and checked
unfoldable pub write_transfer : Posting → List PricedLeg → Db → Result (Transfer × Db)
unfolding new_entries
write_transfer q priced db =
    let t = new_transfer q db in
    let es = new_entries db.uuid (suc db.drawn) t.id db.now priced in
    do
      db₁ ← insert_transfer t (record db { drawn = suc db.drawn + length priced })
      db₂ ← insert_entries es db₁
      check_balances es db₂
      ok (t, db₂)

unfoldable pub post_transfer : Posting → Db → Result (Transfer × Db)
unfolding write_transfer lock_accounts validate_context check_balanced check_sufficient_funds
post_transfer q db = do
  validate_legs q.legs
  accounts ← lock_accounts q.legs db
  validate_context q.period accounts
  fund ← fund_by_id q.period.fund_id db
  priced ← price_legs q.legs accounts fund.base_currency (map_or q.fx_date db.today (λ d. d)) db
  check_balanced priced
  check_sufficient_funds priced db
  write_transfer q priced db
