-- ===== src/Ledger/Post/Solvent.antt =====
-- No posting takes a cash account below zero.
use fund_ledger.Base.{
  ℕ, suc, ◌≡◌, refl, ap, true, false, none, List, [], ◌∷◌, ◌==◌, ◌&&◌, arith, ==_iff, filter,
  filter-append, Bool-cases, inl, inr, if◌then◌else◌, In, In-filter, In-sort_by, any, leb,
}
use fund_ledger.Base.Int.{ℤ, pos, ◌+ℤ◌, ◌≤ℤ◌, int_laws, sum_by, sum_by-append, +ℤ_assoc}
use fund_ledger.Base.Result.{ok, guard-returns}
use fund_ledger.Ledger.Model.{
  Db, Account, Entry, PricedLeg, Leg, Transfer, signed, signed_amount, is_cash,
}
use fund_ledger.Ledger.Queries.{native_balance}
use fund_ledger.Ledger.Pricing.Mirror.{Mirrors, price_legs-Mirrors}
use fund_ledger.Ledger.Post.{
  Posting, Deltas, post_transfer, new_entries, new_transfer, add_delta, add_deltas, check_deltas,
  check_sufficient_funds, leg_delta, lock_accounts, account_ids, rows_for, is_overdrawn,
}
use fund_ledger.Ledger.Post.Effect.{
  Posted, entries_for, post_transfer-Posted, write_transfer-effect,
}

-- ids of accounts are a primary key
abbrev pub IsKeyed : Db → Type 0
IsKeyed db = (a b : Account) → In a db.accounts → In b db.accounts → a.id ≡ b.id → a ≡ b

-- every account of a type in NON_NEGATIVE_TYPES holds zero or more
abbrev pub IsSolvent : Db → Type 0
IsSolvent db =
    (a : Account)
    → In a db.accounts
    → is_cash a.account_type ≡ true
    → pos 0 ≤ℤ native_balance a.id none db

-- what the legs add to the account `i`, and what its cash legs add
abbrev pub moved : ℕ → List PricedLeg → ℤ
moved i = sum_by (λ p. if p.account.id == i then leg_delta p else pos 0)

abbrev pub moved_cash : ℕ → List PricedLeg → ℤ
moved_cash i =
    sum_by (λ p. if is_cash p.account.account_type && p.account.id == i then leg_delta p else pos 0)

-- `deltas[i]`, 0 where there is none
abbrev pub delta : ℕ → Deltas → ℤ
delta i [] = pos 0
delta i ((j, d) ∷ ds) = if j == i then d else delta i ds

delta-add_delta :
    (i k : ℕ) (v : ℤ) (ds : Deltas)
    → delta i (add_delta k v ds) ≡ delta i ds +ℤ (if k == i then v else pos 0)
delta-add_delta i k v [] = grind int_laws
delta-add_delta i k v ((j, d) ∷ ds) = grind (int_laws, delta-add_delta i k v ds)

pub delta-add_deltas :
    (i : ℕ) (ps : List PricedLeg) (ds : Deltas)
    → delta i (add_deltas ps ds) ≡ delta i ds +ℤ moved_cash i ps
unfolding add_deltas
delta-add_deltas i [] ds = grind int_laws
delta-add_deltas i (p ∷ ps) ds = elim (Bool-cases (is_cash p.account.account_type)) [
  | inl cash ↦
      rw
        (
          cash,
          delta-add_deltas i ps (add_delta p.account.id (leg_delta p) ds),
          delta-add_delta i p.account.id (leg_delta p) ds,
        )
        (+ℤ_assoc _ _ _)
  | inr other ↦ rw (other, delta-add_deltas i ps ds) (grind int_laws)
]

delta_covered : (b d : ℤ) → pos 0 ≤ℤ b → is_overdrawn b d ≡ false → pos 0 ≤ℤ b +ℤ d
delta_covered b d before h = grind int_laws

-- the check looks at every delta
check_deltas-covers :
    (i : ℕ) (ds : Deltas) (db : Db)
    → check_deltas ds db ≡ ok tt
    → pos 0 ≤ℤ native_balance i none db
    → pos 0 ≤ℤ native_balance i none db +ℤ delta i ds
unfolding check_deltas
check_deltas-covers i [] db h before = grind int_laws
check_deltas-covers i ((j, d) ∷ ds) db h before =
    let balance = native_balance j none db in
    let (first, rest) = guard-returns (is_overdrawn balance d) _ (check_deltas ds db) h in
    elim (Bool-cases (j == i)) [
      | inr other ↦ rw other (check_deltas-covers i ds db rest before)
      | inl same ↦
          rw same
            (delta_covered (native_balance i none db) d before (rw ((==_iff j i).0 same) at first))
    ]

leg_delta-signed : (p : PricedLeg) → signed p.direction (pos p.amount) ≡ leg_delta p
leg_delta-signed p = ground arith

-- the sum of an account's new entries is what the legs move
sum-new_entries :
    (uuid : ℕ → ℕ) (k t now i : ℕ) (ps : List PricedLeg)
    → sum_by signed_amount (filter (λ e. (e.account_id == i) && true) (new_entries uuid k t now ps))
      ≡ moved i ps
unfolding new_entries
sum-new_entries uuid k t now i [] = refl
sum-new_entries uuid k t now i (p ∷ ps) =
    grind (int_laws, sum-new_entries uuid (suc k) t now i ps, leg_delta-signed p)

-- The balance of any account after a successful call.
pub native_balance-write :
    (q : Posting) (db : Db) (t : Transfer) (db' : Db) (i : ℕ) (p : Posted q db t db')
    → native_balance i none db' ≡ native_balance i none db +ℤ moved i p.priced
unfolding native_balance
native_balance-write q db t db' i p =
    let es = entries_for q p.priced db in
    rw (write_transfer-effect q p.priced db t db' p.written) (
      rw
        (
          filter-append (λ (e : Entry). (e.account_id == i) && true) db.entries es,
          sum_by-append signed_amount (filter (λ e. (e.account_id == i) && true) db.entries) _,
          sum-new_entries db.uuid (suc db.drawn) (new_transfer q db).id db.now i p.priced,
        )
        refl)

pub lock_accounts-In :
    (legs : List Leg) (db : Db) (accounts : List Account)
    → lock_accounts legs db ≡ ok accounts
    → (a : Account) → In a accounts
    → In a db.accounts
unfolding lock_accounts
lock_accounts-In legs db accounts h a here =
    let (_, done) = guard-returns _ _ (ok (rows_for legs db)) h in
    let same : rows_for legs db ≡ accounts = ground (arith, done) in
    let chosen = λ (b : Account). any (λ i. i == b.id) (account_ids legs) in
    let sorted : In a (rows_for legs db) = rw same here in
    In-filter chosen a db.accounts
      (In-sort_by (λ b c. leb b.id c.id) a (filter chosen db.accounts) sorted)

-- under the primary key, all that moves on a cash account is on its cash legs
moved-eq-moved_cash :
    (db : Db) (accounts : List Account) (a : Account) (legs : List Leg) (ps : List PricedLeg)
    → IsKeyed db
    → ((b : Account) → In b accounts → In b db.accounts)
    → In a db.accounts
    → is_cash a.account_type ≡ true
    → Mirrors accounts legs ps
    → moved a.id ps ≡ moved_cash a.id ps
moved-eq-moved_cash db accounts a [] [] keyed sub here cash m = refl
moved-eq-moved_cash db accounts a (l ∷ legs) (p ∷ ps) keyed sub here cash m =
    let ih = moved-eq-moved_cash db accounts a legs ps keyed sub here cash m.1 in
    elim (Bool-cases (p.account.id == a.id)) [
      | inr other ↦ ground (arith, ih)
      | inl same ↦
          let e = keyed p.account a (sub p.account m.0.known) here ((==_iff _ _).0 same) in
          ground (arith, ih, ap (λ (b : Account). is_cash b.account_type) e)
    ]
moved-eq-moved_cash db accounts a [] (p ∷ ps) keyed sub here cash m = absurd m
moved-eq-moved_cash db accounts a (l ∷ legs) [] keyed sub here cash m = absurd m

-- After a successful call every cash account still holds zero or more, if it did before.
pub post_transfer-IsSolvent :
    (q : Posting) (db : Db) {t : Transfer} {db' : Db}
    → IsKeyed db
    → IsSolvent db
    → post_transfer q db ≡ ok (t, db')
    → IsSolvent db'
unfolding check_sufficient_funds
post_transfer-IsSolvent q db {t} {db'} keyed before h a here cash =
    let p = post_transfer-Posted q db t db' h in
    let here₀ : In a db.accounts =
      rw (write_transfer-effect q p.priced db t db' p.written) at here in
    let covered =
      check_deltas-covers a.id (add_deltas p.priced []) db p.funded (before a here₀ cash) in
    let m = price_legs-Mirrors q.legs p.accounts _ _ db p.priced p.pricing in
    let same =
      moved-eq-moved_cash db p.accounts a q.legs p.priced keyed
        (lock_accounts-In q.legs db p.accounts p.locked) here₀ cash m in
    rw (native_balance-write q db t db' a.id p, same)
      (grind (int_laws, covered, delta-add_deltas a.id p.priced []))
