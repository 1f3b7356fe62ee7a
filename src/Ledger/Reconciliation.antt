-- ===== src/Ledger/Reconciliation.antt =====
-- ledger/reconciliation.py: sums over the raw columns, which share no code with the rest.
pub mod Grouping
pub mod Zero
pub mod Command
use fund_ledger.Base.{
  ℕ, zero, suc, Bool, not, ◌&&◌, Option, none, some, List, [], ◌∷◌, ◌==◌, leb, if◌then◌else◌,
  filter, any, map_or, sort_by, map,
}
use fund_ledger.Base.Int.{ℤ, pos, neg, eqb_ℤ, sum_by}
use fund_ledger.Ledger.Model.{Db, Entry, Direction, is_debit}
use fund_ledger.Ledger.Queries.{up_to, transfer_by_id}

-- `SIGNED`: CASE WHEN e.direction = 'DEBIT' THEN e.base_amount ELSE -e.base_amount END
abbrev pub raw_signed : Entry → ℤ
raw_signed e = if is_debit e.direction then e.base_amount else neg e.base_amount

-- the system-wide sum, at an instant or over all
unfoldable pub total_imbalance : Option ℕ → Db → ℤ
total_imbalance as_of db = sum_by raw_signed (filter (λ e. up_to as_of e.created_at) db.entries)

-- the entries of a transfer of the period, by the join with ledger_transfer
abbrev pub transfer_in_period : ℕ → Db → ℕ → Bool
transfer_in_period p db t = any (λ s. (s.id == t) && (s.period_id == p)) db.transfers

unfoldable pub period_imbalance : ℕ → Db → ℤ
period_imbalance p db =
    sum_by raw_signed (filter (λ e. transfer_in_period p db e.transfer_id) db.entries)

-- the join with ledger_account
abbrev pub account_in_fund : ℕ → Db → ℕ → Bool
account_in_fund f db i = any (λ a. (a.id == i) && (a.fund_id == f)) db.accounts

unfoldable pub fund_imbalance : ℕ → Db → ℤ
fund_imbalance f db = sum_by raw_signed (filter (λ e. account_in_fund f db e.account_id) db.entries)

-- the groups of `GROUP BY e.transfer_id ORDER BY e.transfer_id`
abbrev pub add_group : ℕ → List ℕ → List ℕ
add_group t ts = if any (λ s. s == t) ts then ts else t ∷ ts

abbrev pub group_ids : List Entry → List ℕ
group_ids [] = []
group_ids (e ∷ es) = add_group e.transfer_id (group_ids es)

abbrev pub group_sum : List Entry → ℕ → ℤ
group_sum es t = sum_by raw_signed (filter (λ e. e.transfer_id == t) es)

abbrev pub take : {A : Type 0} → ℕ → List A → List A
take zero xs = []
take (suc n) [] = []
take (suc n) (x ∷ xs) = x ∷ take n xs

abbrev pub of_fund : Option ℕ → Db → Entry → Bool
of_fund none db e = Bool.true
of_fund (some f) db e = account_in_fund f db e.account_id

-- the transfers whose entries, in the fund or in all, do not sum to 0, at most `limit` of them
unfoldable pub unbalanced_transfers : Option ℕ → ℕ → Db → List (ℕ × ℤ)
unbalanced_transfers fund limit db =
    let es = filter (of_fund fund db) db.entries in
    take limit (
      filter (λ (_, s). not (eqb_ℤ s (pos 0)))
        (map (λ t. (t, group_sum es t)) (sort_by leb (group_ids es))))
