-- ===== src/Ledger/Reconciliation/Zero.antt =====
-- If every transfer balances, so does every sum that reconciliation takes over whole transfers.
use fund_ledger.Base.{ℕ, ◌≡◌, refl, ap, ◌∙◌, true, List, [], ◌∷◌, ◌==◌, filter, none, arith}
use fund_ledger.Base.Int.{pos, sum_by}
use fund_ledger.Ledger.Model.{Db, Entry, signed_base_amount}
use fund_ledger.Ledger.Insert.{transfer_imbalance}
use fund_ledger.Ledger.Reconciliation.{
  raw_signed, total_imbalance, period_imbalance, transfer_in_period,
}
use fund_ledger.Ledger.Reconciliation.Grouping.{zero-of_groups_where}

-- every transfer's entries sum to 0
abbrev pub IsBalanced : Db → Type 0
IsBalanced db = (t : ℕ) → transfer_imbalance t db ≡ pos 0

-- the raw column and the generated one are one number
raw_signed-eq : (e : Entry) → raw_signed e ≡ signed_base_amount e
raw_signed-eq e = ground arith

pub sum-raw_signed : (es : List Entry) → sum_by raw_signed es ≡ sum_by signed_base_amount es
sum-raw_signed [] = refl
sum-raw_signed (e ∷ es) = rw (raw_signed-eq e, sum-raw_signed es)

raw_group_zero :
    (db : Db)
    → IsBalanced db
    → (t : ℕ) → sum_by raw_signed (filter (λ e. e.transfer_id == t) db.entries) ≡ pos 0
unfolding transfer_imbalance
raw_group_zero db h t = sum-raw_signed (filter (λ e. e.transfer_id == t) db.entries) ∙ h t

pub filter-true {ℓ} : {A : Type ℓ} (xs : List A) → filter (λ _. true) xs ≡ xs
filter-true [] = refl
filter-true (x ∷ xs) = ap (◌∷◌ x) (filter-true xs)

pub total_imbalance-zero : (db : Db) → IsBalanced db → total_imbalance none db ≡ pos 0
unfolding total_imbalance
total_imbalance-zero db h =
    zero-of_groups_where (λ (e : Entry). e.transfer_id) raw_signed (λ _. true) db.entries
      (raw_group_zero db h)

pub period_imbalance-zero : (db : Db) → IsBalanced db → (p : ℕ) → period_imbalance p db ≡ pos 0
unfolding period_imbalance
period_imbalance-zero db h p =
    zero-of_groups_where (λ (e : Entry). e.transfer_id) raw_signed (transfer_in_period p db)
      db.entries (raw_group_zero db h)

-- Where every transfer balances, the system-wide sum and the sum of every period are 0.
pub reconciled :
    (db : Db)
    → IsBalanced db
    → (p : ℕ) → (total_imbalance none db ≡ pos 0) × (period_imbalance p db ≡ pos 0)
reconciled db h p = (total_imbalance-zero db h, period_imbalance-zero db h p)
