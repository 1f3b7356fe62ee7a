-- ===== src/Ledger/Queries.antt =====
-- ledger/queries.py: balances are sums over entries; and the effective type of a transfer.
use fund_ledger.Base.{
  ℕ, Bool, true, ◌&&◌, Option, none, some, List, ◌==◌, leb, filter, find, map_or,
}
use fund_ledger.Base.Int.{ℤ, sum_by}
use fund_ledger.Ledger.Model.{Db, Entry, Transfer, TransferType, signed_amount, signed_base_amount}

abbrev pub up_to : Option ℕ → ℕ → Bool
up_to none t = true
up_to (some as_of) t = leb t as_of

-- `_entries`
unfoldable pub entries_of : ℕ → Option ℕ → Db → List Entry
entries_of account as_of db =
    filter (λ e. (e.account_id == account) && up_to as_of e.created_at) db.entries

-- debit-positive, in the account's own currency
unfoldable pub native_balance : ℕ → Option ℕ → Db → ℤ
unfolding entries_of
native_balance account as_of db = sum_by signed_amount (entries_of account as_of db)

-- debit-positive, in the fund's base currency
unfoldable pub base_balance : ℕ → Option ℕ → Db → ℤ
unfolding entries_of
base_balance account as_of db = sum_by signed_base_amount (entries_of account as_of db)

-- the row with a given primary key
abbrev pub transfer_by_id : ℕ → Db → Option Transfer
transfer_by_id i db = find (λ t. t.id == i) db.transfers

-- `EFFECTIVE_TYPE`: a reversal counts as what it reverses
unfoldable pub effective_type : Transfer → Db → TransferType
effective_type t db =
    map_or t.reverses t.transfer_type
      (λ r. map_or (transfer_by_id r db) t.transfer_type (λ o. o.transfer_type))
