-- ===== src/Ledger/Tests/Guarded.antt =====
-- Statements at the small database: what the triggers refuse and what they let through.
use fund_ledger.Base.{◌≡◌, refl, none, some, List, [], ◌∷◌, ◌++◌, ◌==◌, inl, inr}
use fund_ledger.Base.Int.{neg, ◌+ℤ◌}
use fund_ledger.Base.Result.{
  err, integrity, append_only, period_closed_is_final, period_open, transfer_period_fkey, ok,
}
use fund_ledger.Ledger.Model.{Db, Period, Transfer, Entry, open_period, closed_period, credit}
use fund_ledger.Ledger.Insert.{check_balances, transfer_imbalance}
use fund_ledger.Ledger.Reconciliation.Zero.{IsBalanced}
use fund_ledger.Ledger.Guards.{
  Statement, insert_transfer_row, insert_entry_rows, update_entry_rows, delete_transfer_rows,
  update_period_rows, insert_period_row, delete_period_rows, transact, history,
}
use fund_ledger.Ledger.Guards.Grows.{IsClosed}
use fund_ledger.Ledger.Guards.Frozen.{
  IsOwned, entries_of_period, history-appends, history-closed, history-IsBalanced,
}
use fund_ledger.Ledger.Tests.{paid, year, row_in, line, paid-IsBalanced, cash, equity}

abbrev shut_year : Period
shut_year = record year { status = closed_period; closed_at = some 9; closed_by = 3 }

abbrev next_year : Period
next_year = record year { id = 6; start_date = 201; end_date = 300 }

-- the year is closed, with what was paid in
abbrev settled : Db
settled = record paid { periods = shut_year ∷ next_year ∷ [] }

abbrev late_row : Transfer
late_row = record row_in { id = 1500; idempotency_key = 22; period_id = 6 }

abbrev late_lines : List Entry
late_lines =
    record (line 1501 1500 cash 20000) { direction = credit } ∷ line 1502 1500 equity 20000 ∷ []

-- a transaction that pays 2.00 back in the next year, and others that tamper with the ledger
abbrev repay : List Statement
repay = insert_transfer_row late_row ∷ insert_entry_rows late_lines ∷ []

abbrev inflate : List Statement
inflate = update_entry_rows (λ e. e.id == 1001) (λ e. record e { amount = 5 }) ∷ []

abbrev erase : List Statement
erase = delete_transfer_rows (λ t. t.id == 1000) ∷ []

abbrev reopen : List Statement
reopen =
    update_period_rows (λ p. p.id == 5) (λ p. record p { status = open_period; closed_at = none })
    ∷ []

abbrev backdate : List Statement
backdate =
    insert_transfer_row (record late_row { period_id = 5 }) ∷ insert_entry_rows late_lines ∷ []

tampering_refused :
    (transact inflate settled ≡ err (integrity append_only))
    × (transact erase settled ≡ err (integrity append_only))
    × (transact reopen settled ≡ err (integrity period_closed_is_final))
    × (transact backdate settled ≡ err (integrity period_open))
unfolding transact
tampering_refused = (refl, refl, refl, refl)

-- a close of the next year is let through
abbrev close_next : List Statement
close_next =
    update_period_rows (λ p. p.id == 6)
      (λ p. record p { status = closed_period; closed_at = some 11 })
    ∷ []

-- the triggers let a closed period be deleted: with its row inserted anew, open and under its key,
-- before COMMIT, the foreign key of its transfers holds and a transfer is posted into it
abbrev made_anew : List Statement
made_anew = delete_period_rows (λ p. p.id == 5) ∷ insert_period_row year ∷ backdate

made_anew_commits :
    transact made_anew settled
    ≡ ok (record settled {
      transfers = row_in ∷ record late_row { period_id = 5 } ∷ [];
      entries = paid.entries ++ late_lines;
      periods = next_year ∷ year ∷ [];
    })
unfolding transact transfer_imbalance ◌+ℤ◌ neg check_balances
made_anew_commits = refl

deleting_refused :
    transact (delete_period_rows (λ p. p.id == 5) ∷ []) settled
    ≡ err (integrity transfer_period_fkey)
unfolding transact
deleting_refused = refl

-- deletes of other periods are among the statements
abbrev session : List (List Statement)
session =
    inflate ∷ repay ∷ reopen ∷ (delete_period_rows (λ p. p.id == 7) ∷ close_next) ∷ backdate ∷ []

abbrev after : Db
after = record settled {
  transfers = row_in ∷ late_row ∷ [];
  entries = paid.entries ++ late_lines;
  periods = shut_year ∷ record next_year { status = closed_period; closed_at = some 11 } ∷ [];
}

session_runs : history session settled ≡ after
unfolding history transfer_imbalance ◌+ℤ◌ neg check_balances
session_runs = refl

settled-IsOwned : IsOwned settled
settled-IsOwned e (inl same) = (row_in, rw same refl)
settled-IsOwned e (inr (inl same)) = (row_in, rw same refl)
settled-IsOwned e (inr (inr none_left)) = absurd none_left

history-appends_example :
    ((ts : List Transfer) × ((history session settled).transfers ≡ settled.transfers ++ ts))
    × ((es : List Entry) × ((history session settled).entries ≡ settled.entries ++ es))
history-appends_example = history-appends session settled

history-closed_example :
    IsClosed 5 shut_year (history session settled)
    × (entries_of_period 5 (history session settled) ≡ entries_of_period 5 settled)
history-closed_example =
    history-closed session settled 5 shut_year settled-IsOwned (refl, refl) refl

settled-IsBalanced : IsBalanced settled
unfolding transfer_imbalance
settled-IsBalanced t = paid-IsBalanced t

history-IsBalanced_example : IsBalanced (history session settled)
history-IsBalanced_example = history-IsBalanced session settled settled-IsBalanced
