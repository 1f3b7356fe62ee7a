-- ===== src/Ledger/Guards/Runs.antt =====
-- What any statement, and a transaction of them, does to the three tables.
use fund_ledger.Base.{◌≡◌, refl, sym, subst, true, List, [], ◌∷◌, arith, any, all, inl, inr, ◌⊎◌}
use fund_ledger.Base.Result.{Result, ok, err, >>=-returns, guard-returns}
use fund_ledger.Ledger.Model.{Db, Period}
use fund_ledger.Ledger.Insert.{check_balances}
use fund_ledger.Ledger.Guards.{
  update_transfers, delete_transfers, update_entries, delete_entries, Statement,
  insert_transfer_row, insert_entry_rows, update_transfer_rows, delete_transfer_rows,
  update_entry_rows, delete_entry_rows, update_period_rows, insert_period_row, delete_period_rows,
  execute, execute_all, inserted_by, inserted, check_keys, transact, or_rollback,
}
use fund_ledger.Ledger.Guards.Grows.{
  spares, Grows, updated_none, remaining_none, and-true, Grows-refl, Grows-trans,
}
use fund_ledger.Ledger.Guards.Inserts.{insert_entries-Grows, insert_transfer-Grows}
use fund_ledger.Ledger.Guards.Calendar.{
  update_periods-Grows, insert_period-Grows, delete_periods-Grows,
}

pub execute-Grows :
    {K : Period → Type 0} (s : Statement) (db db' : Db)
    → ((p : Period) → K p → spares p s ≡ true)
    → execute s db ≡ ok db'
    → Grows K db db' (inserted_by s)
unfolding execute update_transfers delete_transfers update_entries delete_entries
execute-Grows (insert_transfer_row t) db db' spared h = insert_transfer-Grows t db db' h
execute-Grows (insert_entry_rows es) db db' spared h = insert_entries-Grows es db db' h
execute-Grows (update_period_rows touched set) db db' spared h =
    update_periods-Grows touched set db db' h
execute-Grows (insert_period_row p) db db' spared h = insert_period-Grows p db db' h
execute-Grows (delete_period_rows touched) db db' spared h =
    delete_periods-Grows touched db db' spared h
execute-Grows {K} (update_transfer_rows touched set) db db' spared h =
    let (clear, done) = guard-returns (any touched db.transfers) _ _ h in
    let same : db ≡ db' = ground (arith, done, updated_none touched set db.transfers clear) in
    subst (λ (x : Db). Grows K db x []) same (Grows-refl db)
execute-Grows {K} (delete_transfer_rows touched) db db' spared h =
    let (clear, done) = guard-returns (any touched db.transfers) _ _ h in
    let same : db ≡ db' = ground (arith, done, remaining_none touched db.transfers clear) in
    subst (λ (x : Db). Grows K db x []) same (Grows-refl db)
execute-Grows {K} (update_entry_rows touched set) db db' spared h =
    let (clear, done) = guard-returns (any touched db.entries) _ _ h in
    let same : db ≡ db' = ground (arith, done, updated_none touched set db.entries clear) in
    subst (λ (x : Db). Grows K db x []) same (Grows-refl db)
execute-Grows {K} (delete_entry_rows touched) db db' spared h =
    let (clear, done) = guard-returns (any touched db.entries) _ _ h in
    let same : db ≡ db' = ground (arith, done, remaining_none touched db.entries clear) in
    subst (λ (x : Db). Grows K db x []) same (Grows-refl db)

pub execute_all-Grows :
    {K : Period → Type 0} (ss : List Statement) (db db' : Db)
    → ((p : Period) → K p → all (spares p) ss ≡ true)
    → execute_all ss db ≡ ok db'
    → Grows K db db' (inserted ss)
unfolding execute_all
execute_all-Grows {K} [] db db' spared h =
    let same : db ≡ db' = ground (arith, h) in
    subst (λ (x : Db). Grows K db x []) same (Grows-refl db)
execute_all-Grows (s ∷ ss) db db' spared h =
    let (mid, first, rest) = >>=-returns (execute s db) (execute_all ss) h in
    Grows-trans
      (execute-Grows s db mid (λ p k. (and-true (spares p s) (all (spares p) ss) (spared p k)).0)
        first)
      (execute_all-Grows ss mid db'
        (λ p k. (and-true (spares p s) (all (spares p) ss) (spared p k)).1) rest)

-- how a transaction ends: rolled back, or with its rows written and checked
pub transact_cases :
    (ss : List Statement) (db : Db)
    → (or_rollback db (transact ss db) ≡ db)
      ⊎ ((db' : Db) × (or_rollback db (transact ss db) ≡ db')
          × (execute_all ss db ≡ ok db')
          × (check_balances (inserted ss) db' ≡ ok tt))
unfolding transact
transact_cases ss db = go (transact ss db) refl
  where
    go :
        (r : Result Db)
        → transact ss db ≡ r
        → (or_rollback db r ≡ db)
          ⊎ ((db' : Db) × (or_rollback db r ≡ db')
              × (execute_all ss db ≡ ok db')
              × (check_balances (inserted ss) db' ≡ ok tt))
    go (err e) h = inl refl
    go (ok last) h =
        let (db', written, h₁) = >>=-returns (execute_all ss db) _ h in
        let (_, keyed, h₂) = >>=-returns (check_keys db') _ h₁ in
        let (_, checked, h₃) = >>=-returns (check_balances (inserted ss) db') _ h₂ in
        let same : db' ≡ last = ground (arith, h₃) in inr (db', sym same, written, checked)
