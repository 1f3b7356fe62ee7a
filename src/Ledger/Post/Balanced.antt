-- ===== src/Ledger/Post/Balanced.antt =====
-- Posting keeps every transfer balanced, and the balance check of the code makes that of the
-- database a mere repetition.
use fund_ledger.Base.{
  ℕ, suc, ◌≡◌, refl, ap, ◌∙◌, Bool, true, false, List, [], ◌∷◌, ◌++◌, ◌==◌, arith, ==_iff, filter,
  filter-append, Bool-cases, inl, inr, if◌then◌else◌, ◌⊎◌,
}
use fund_ledger.Base.Int.{pos, ◌+ℤ◌, int_laws, sum_by, sum_by-append}
use fund_ledger.Base.Result.{ok}
use fund_ledger.Ledger.Model.{Db, Entry, PricedLeg, Transfer, signed_base_amount}
use fund_ledger.Ledger.Insert.{transfer_imbalance, check_balances}
use fund_ledger.Ledger.Insert.Effect.{check_balances-balanced}
use fund_ledger.Ledger.Reconciliation.Zero.{IsBalanced}
use fund_ledger.Ledger.Post.{Posting, post_transfer, new_entries, new_transfer}
use fund_ledger.Ledger.Post.Effect.{
  Posted, entries_for, post_transfer-Posted, write_transfer-Written, write_transfer-effect,
}

-- all the entries of a posting carry the id of its transfer
pub new_entries-filter :
    (uuid : ℕ → ℕ) (k t now s : ℕ) (ps : List PricedLeg)
    → filter (λ e. e.transfer_id == s) (new_entries uuid k t now ps)
      ≡ (if t == s then new_entries uuid k t now ps else [])
unfolding new_entries
new_entries-filter uuid k t now s [] = ground arith
new_entries-filter uuid k t now s (p ∷ ps) =
    ground (arith, new_entries-filter uuid (suc k) t now s ps)

imbalance-append :
    (s : ℕ) (es fs : List Entry)
    → sum_by signed_base_amount (filter (λ e. e.transfer_id == s) (es ++ fs))
      ≡ sum_by signed_base_amount (filter (λ e. e.transfer_id == s) es)
        +ℤ sum_by signed_base_amount (filter (λ e. e.transfer_id == s) fs)
imbalance-append s es fs =
    rw (filter-append (λ (e : Entry). e.transfer_id == s) es fs)
      (sum_by-append signed_base_amount (filter (λ e. e.transfer_id == s) es) _)

sum-if :
    (b : Bool) (es : List Entry)
    → sum_by signed_base_amount (if b then es else [])
      ≡ (if b then sum_by signed_base_amount es else pos 0)
sum-if true es = refl
sum-if false es = refl

-- The sum of the transfer `s` after the call: unchanged, unless `s` is the new transfer.
imbalance-write :
    (q : Posting) (db : Db) (t : Transfer) (db' : Db) (s : ℕ) (p : Posted q db t db')
    → transfer_imbalance s db'
      ≡ transfer_imbalance s db
        +ℤ (if (new_transfer q db).id == s
            then sum_by signed_base_amount (entries_for q p.priced db)
            else pos 0)
unfolding transfer_imbalance
imbalance-write q db t db' s p =
    let new = (new_transfer q db).id in
    let es = entries_for q p.priced db in
    rw (write_transfer-effect q p.priced db t db' p.written) (
      imbalance-append s db.entries es
      ∙ ap (◌+ℤ◌ (sum_by signed_base_amount (filter (λ e. e.transfer_id == s) db.entries))) (
          ap (sum_by signed_base_amount)
            (new_entries-filter db.uuid (suc db.drawn) new db.now s p.priced)
          ∙ sum-if (new == s) es))

-- the trigger has looked at the new transfer, if it has any entry
new-IsBalanced :
    (q : Posting) (db : Db) (t : Transfer) (db' : Db) (ps : List PricedLeg)
    → check_balances (entries_for q ps db) db' ≡ ok tt
    → (ps ≡ []) ⊎ (transfer_imbalance (new_transfer q db).id db' ≡ pos 0)
unfolding new_entries
new-IsBalanced q db t db' [] h = inl refl
new-IsBalanced q db t db' (p ∷ ps) h = inr (check_balances-balanced _ db' h).0

-- A successful call keeps every transfer balanced.
pub post_transfer-IsBalanced :
    (q : Posting) (db : Db) {t : Transfer} {db' : Db}
    → IsBalanced db
    → post_transfer q db ≡ ok (t, db')
    → IsBalanced db'
post_transfer-IsBalanced q db {t} {db'} before h s =
    let p = post_transfer-Posted q db t db' h in
    let w = write_transfer-Written q p.priced db t db' p.written in
    let new = (new_transfer q db).id in
    let moved = imbalance-write q db t db' s p in
    elim (Bool-cases (new == s)) [
      | inr other ↦ rw (moved, other, before s) (grind int_laws)
      | inl same ↦ elim (new-IsBalanced q db t db' p.priced w.checked) [
        | inr balanced ↦ rw (← (==_iff new s).0 same) balanced
        | inl empty ↦ rw (moved, same, empty, before s) (unfold new_entries in grind int_laws)
      ]
    ]
