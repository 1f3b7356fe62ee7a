-- ===== src/Operations/Contributions.antt =====
-- operations/queries.py: the net capital that each limited partner has paid in.
pub mod Growth
use fund_ledger.Base.{ℕ, Bool, true, false, ◌&&◌, List, ◌==◌, filter, map, map_or}
use fund_ledger.Base.Int.{ℤ, neg, sum_by}
use fund_ledger.Base.Dict.{Dict}
use fund_ledger.Ledger.Model.{Db, Account, Entry, TransferType, signed_base_amount}
use fund_ledger.Ledger.Queries.{transfer_by_id, effective_type}

abbrev pub is_capital_call : TransferType → Bool
is_capital_call TransferType.capital_call = true
is_capital_call _ = false

-- the rows that the grouped query sums for an account
abbrev pub counts_as_call : Db → ℕ → Entry → Bool
counts_as_call db account e =
    (e.account_id == account)
    && map_or (transfer_by_id e.transfer_id db) false (λ t. is_capital_call (effective_type t db))

-- `contributed`: capital is credit-normal
unfoldable pub contributed : ℕ → Db → ℤ
unfolding effective_type
contributed account db =
    neg (sum_by signed_base_amount (filter (counts_as_call db account) db.entries))

-- by the accounts' ids, which are different
unfoldable pub contributed_by_account : List Account → Db → Dict ℤ
unfolding contributed
contributed_by_account accounts db = map (λ a. (a.id, contributed a.id db)) accounts
