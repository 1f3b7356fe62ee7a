-- ===== src/Ledger/Insert/Effect.antt =====
-- What a successful insert has done, and what the database has found before it.
use fund_ledger.Base.{
  ◌≡◌, true, false, List, [], ◌∷◌, ◌++◌, ◌==◌, any, arith, All, append_snoc, Bool-cases, inl, inr,
}
use mathlib.Core.List.{append-nil}
use fund_ledger.Base.Int.{pos, leb_ℤ, eqb_ℤ, eqb_ℤ→eq}
use fund_ledger.Base.Result.{ok, >>=-returns}
use fund_ledger.Ledger.Model.{Db, Transfer, Entry}
use fund_ledger.Ledger.Queries.{transfer_by_id}
use fund_ledger.Ledger.Insert.{
  insert_transfer, insert_entry, insert_entries, check_balances, reversed_already, is_some,
  in_open_period, has_account, transfer_imbalance,
}

-- the row that is written, and the constraints that were met
pub record TransferInserted (t : Transfer) (db db' : Db) : Type 0 where
  pub effect : db' ≡ record db { transfers = db.transfers ++ (t ∷ []) }
  pub key_present : (t.idempotency_key == 0) ≡ false
  pub id_fresh : is_some (transfer_by_id t.id db) ≡ false
  pub key_fresh : any (λ s. s.idempotency_key == t.idempotency_key) db.transfers ≡ false
  pub not_reversed : reversed_already t.reverses db ≡ false

pub insert_transfer-TransferInserted :
    (t : Transfer) (db db' : Db) → insert_transfer t db ≡ ok db' → TransferInserted t db db'
unfolding insert_transfer
insert_transfer-TransferInserted t db db' h = ground arith

pub record EntryInserted (e : Entry) (db db' : Db) : Type 0 where
  pub effect : db' ≡ record db { entries = db.entries ++ (e ∷ []) }
  pub in_open : in_open_period e db ≡ true
  pub amount_positive : (e.amount == 0) ≡ false
  pub base_positive : leb_ℤ e.base_amount (pos 0) ≡ false
  pub id_fresh : any (λ f. f.id == e.id) db.entries ≡ false
  pub account_found : has_account e db ≡ true

pub insert_entry-EntryInserted :
    (e : Entry) (db db' : Db) → insert_entry e db ≡ ok db' → EntryInserted e db db'
unfolding insert_entry
insert_entry-EntryInserted e db db' h = ground arith

-- what the database has checked of each row that it holds
abbrev pub IsChecked : Entry → Type 0
IsChecked e = ((e.amount == 0) ≡ false) × (leb_ℤ e.base_amount (pos 0) ≡ false)

abbrev with_entries : Db → List Entry → Db
with_entries db es = record db { entries = db.entries ++ es }

pub insert_entries-effect :
    (es : List Entry) (db db' : Db)
    → insert_entries es db ≡ ok db'
    → db' ≡ record db { entries = db.entries ++ es }
unfolding insert_entries
insert_entries-effect [] db db' h = ground (arith, append-nil db.entries)
insert_entries-effect (e ∷ es) db db' h =
    let (db₁, first, rest) = >>=-returns (insert_entry e db) (insert_entries es) h in
    let one = (insert_entry-EntryInserted e db db₁ first).effect in
    ground (arith, one, insert_entries-effect es db₁ db' rest, append_snoc db.entries e es)

pub insert_entries-IsChecked :
    (es : List Entry) (db db' : Db) → insert_entries es db ≡ ok db' → All IsChecked es
unfolding insert_entries
insert_entries-IsChecked [] db db' h = tt
insert_entries-IsChecked (e ∷ es) db db' h =
    let (db₁, first, rest) = >>=-returns (insert_entry e db) (insert_entries es) h in
    let one = insert_entry-EntryInserted e db db₁ first in
    ((one.amount_positive, one.base_positive), insert_entries-IsChecked es db₁ db' rest)

-- no row is written whose transfer stands in a period that is not open
pub insert_entries-in_open :
    (e : Entry) (es : List Entry) (db db' : Db)
    → insert_entries (e ∷ es) db ≡ ok db'
    → in_open_period e db ≡ true
unfolding insert_entries
insert_entries-in_open e es db db' h =
    let (db₁, first, rest) = >>=-returns (insert_entry e db) (insert_entries es) h in
    (insert_entry-EntryInserted e db db₁ first).in_open

-- the deferred check passes only if every transfer that it looks at balances
pub check_balances-balanced :
    (es : List Entry) (db : Db)
    → check_balances es db ≡ ok tt
    → All (λ e. transfer_imbalance e.transfer_id db ≡ pos 0) es
unfolding check_balances
check_balances-balanced [] db h = tt
check_balances-balanced (e ∷ es) db h =
    let i = transfer_imbalance e.transfer_id db in
    elim (Bool-cases (eqb_ℤ i (pos 0))) [
      | inl zero_sum ↦
          (eqb_ℤ→eq i (pos 0) zero_sum, check_balances-balanced es db (rw zero_sum at h))
      | inr other ↦ absurd (cc (rw other at h))
    ]
