-- ===== src/Ledger/Reverse/Cancels.antt =====
-- A reversal takes every account back to where it was, in its own currency and in the fund's, and a
-- transfer is reversed once.
use fund_ledger.Base.{
  ℕ, ◌≡◌, refl, subst, ap, ◌∙◌, Bool, true, false, Option, none, some, List, [], ◌∷◌, ◌++◌, ◌==◌,
  ◌&&◌, filter, arith, if◌then◌else◌, map, leb, ==_iff, filter-append, find-holds,
}
use fund_ledger.Base.Int.{ℤ, pos, neg, ◌+ℤ◌, int_laws, sum_by, sum_by-append, sum_by-sort_by}
use fund_ledger.Base.Result.{
  Result, ok, err, integrity, transfer_reverses_unique, >>=-returns, guard-returns,
}
use fund_ledger.Ledger.Decimal.{units, finite, quantize_size}
use fund_ledger.Ledger.Model.{
  Db, Entry, Transfer, Period, Direction, debit, credit, unrecognised, signed, signed_amount,
  signed_base_amount, is_reversal,
}
use fund_ledger.Ledger.Queries.{native_balance, base_balance, transfer_by_id}
use fund_ledger.Ledger.Post.{post_transfer}
use fund_ledger.Ledger.Post.Rows.{Books, BookedAs, post_transfer-appends}
use fund_ledger.Ledger.Idempotency.{Hashing, Others}
use fund_ledger.Ledger.Idempotency.Once.{run_once-creates}
use fund_ledger.Ledger.Submit.Retry.{itself, post_transfer-CreatesOne}
use fund_ledger.Ledger.Reverse.{
  flip, flipped, entries_by_id, reversal_posting, reverse_transfer, lost_race, found_or,
}

-- What the entries of a list add to the account `i`, in its own currency and in the fund's.
abbrev pub on_account : (Entry → ℤ) → ℕ → List Entry → ℤ
on_account f i = sum_by (λ e. if e.account_id == i then f e else pos 0)

signed-flip : (d : Direction) (n : ℤ) → signed (flip d) n ≡ neg (signed d n)
signed-flip debit n = refl
signed-flip credit n = grind int_laws
signed-flip unrecognised n = grind int_laws

pub units-entry : (n : ℕ) → units (finite (pos n) 4) ≡ n
unfolding units quantize_size
units-entry n = omega arith

-- the entry that books a flipped leg takes back what the entry has added
Books-cancels :
    (t : Transfer) (e f : Entry)
    → Books t (flipped e) f
    → (f.account_id ≡ e.account_id)
      × (signed_amount f ≡ neg (signed_amount e))
      × (signed_base_amount f ≡ neg (signed_base_amount e))
Books-cancels t e f b =
    let amount : f.amount ≡ e.amount = b.same_amount ∙ units-entry e.amount in
    (
      b.same_account,
      rw (b.same_direction, amount) (signed-flip e.direction (pos e.amount)),
      rw (b.same_direction, b.given_base e.base_amount refl)
          (signed-flip e.direction e.base_amount),
    )

BookedAs-cancels :
    (t : Transfer) (i : ℕ) (es fs : List Entry)
    → BookedAs t (map flipped es) fs
    → (on_account signed_amount i fs ≡ neg (on_account signed_amount i es))
      × (on_account signed_base_amount i fs ≡ neg (on_account signed_base_amount i es))
BookedAs-cancels t i [] [] h = (grind int_laws, grind int_laws)
BookedAs-cancels t i [] (f ∷ fs) h = absurd h
BookedAs-cancels t i (e ∷ es) [] h = absurd h
BookedAs-cancels t i (e ∷ es) (f ∷ fs) h =
    let (account, native, base) = Books-cancels t e f h.0 in
    let (natives, bases) = BookedAs-cancels t i es fs h.1 in
    (rw (account, native, natives) (grind int_laws), rw (account, base, bases) (grind int_laws))

on_account-filter :
    (f : Entry → ℤ) (i : ℕ) (es : List Entry)
    → sum_by f (filter (λ e. (e.account_id == i) && true) es) ≡ on_account f i es
on_account-filter f i [] = refl
on_account-filter f i (e ∷ es) = grind (int_laws, on_account-filter f i es)

-- a balance after entries are appended
balance-append :
    (f : Entry → ℤ) (i : ℕ) (es fs : List Entry)
    → sum_by f (filter (λ e. (e.account_id == i) && true) (es ++ fs))
      ≡ sum_by f (filter (λ e. (e.account_id == i) && true) es) +ℤ on_account f i fs
balance-append f i es fs =
    rw
      (
        filter-append (λ (e : Entry). (e.account_id == i) && true) es fs,
        sum_by-append f (filter (λ e. (e.account_id == i) && true) es) _,
        on_account-filter f i fs,
      )
      refl

lost_race-returns :
    (r : Result ((Transfer × Bool) × Db)) (v : (Transfer × Bool) × Db)
    → lost_race r ≡ ok v
    → r ≡ ok v
lost_race-returns (ok w) v h = h
lost_race-returns (err (integrity transfer_reverses_unique)) v h = absurd (cc)
lost_race-returns (err e) v h = absurd (cc)

found_or-returns : (o : Option Transfer) (t : Transfer) → found_or o ≡ ok t → o ≡ some t
found_or-returns none t h = absurd (cc)
found_or-returns (some s) t h = ground arith

-- What a reversal that was created has done, step by step.
pub record Reversed (x : Hashing) (others : Others) (t key : ℕ) (period : Period) (who : ℕ)
    (db : Db) (s : Transfer) (db' : Db) : Type 0 where
  pub original : Transfer
  pub found : transfer_by_id t db ≡ some original
  pub reversible : is_reversal original.transfer_type ≡ false
  pub posted :
      post_transfer (reversal_posting x t key period who db) (others.before db) ≡ ok (s, db')

pub reverse_transfer-Reversed :
    (x : Hashing) (others : Others) (t key : ℕ) (period : Period) (who : ℕ) (db : Db) (s : Transfer)
    (db' : Db)
    → reverse_transfer x others t key period who db ≡ ok ((s, true), db')
    → Reversed x others t key period who db s db'
unfolding reverse_transfer
reverse_transfer-Reversed x others t key period who db s db' h =
    let (original, got, h₁) = >>=-returns (found_or (transfer_by_id t db)) _ h in
    let (reversible, h₂) = guard-returns (is_reversal original.transfer_type) _ _ h₁ in
    let (_, h₃) = guard-returns _ _ _ h₂ in
    let found : transfer_by_id t db ≡ some original = found_or-returns _ original got in
    let same : original.id ≡ t =
      (==_iff original.id t).0 (find-holds _ db.transfers original found) in
    let q = reversal_posting x original.id key period who db in
    let made =
      (run_once-creates itself others key q.request_hash (post_transfer q)
        (post_transfer-CreatesOne q) db (lost_race-returns _ _ h₃)).0 in
    record {
      original = original;
      found = found;
      reversible = reversible;
      posted =
          subst
            (λ (i : ℕ).
              post_transfer (reversal_posting x i key period who db) (others.before db)
              ≡ ok (s, db'))
            same made;
    }

-- A reversal that is created leaves every account with what it held without the original, in its
-- own currency and in the base currency, at the rates of the original.
pub reverse_transfer-cancels :
    (x : Hashing) (others : Others) (t key : ℕ) (period : Period) (who : ℕ) (db : Db) {s : Transfer}
    {db' : Db}
    → reverse_transfer x others t key period who db ≡ ok ((s, true), db')
    → (i : ℕ)
    → let originals = filter (λ (e : Entry). e.transfer_id == t) db.entries in
      (native_balance i none db' +ℤ on_account signed_amount i originals
        ≡ native_balance i none (others.before db))
      × (base_balance i none db' +ℤ on_account signed_base_amount i originals
          ≡ base_balance i none (others.before db))
unfolding native_balance base_balance
reverse_transfer-cancels x others t key period who db {s} {db'} h i =
    let r = reverse_transfer-Reversed x others t key period who db s db' h in
    let q = reversal_posting x t key period who db in
    let (fs, effect, _, books) = post_transfer-appends q (others.before db) r.posted in
    let (natives, bases) = BookedAs-cancels s i (entries_by_id t db) fs books in
    let entries = ap (λ (d : Db). d.entries) effect in
    let originals = filter (λ (e : Entry). e.transfer_id == t) db.entries in
    (
      rw
          (
            entries,
            balance-append signed_amount i (others.before db).entries fs,
            natives,
            sum_by-sort_by (λ (e : Entry). if e.account_id == i then signed_amount e else pos 0)
                (λ e f. leb e.id f.id) originals,
          )
          (grind int_laws),
      rw
          (
            entries,
            balance-append signed_base_amount i (others.before db).entries fs,
            bases,
            sum_by-sort_by
                (λ (e : Entry). if e.account_id == i then signed_base_amount e else pos 0)
                (λ e f. leb e.id f.id) originals,
          )
          (grind int_laws),
    )
