-- ===== src/Ledger/Post/Rows.antt =====
-- The rows that a posting appends: one transfer, and one entry for each leg, in an open period.
use fund_ledger.Base.{
  ℕ, suc, ◌+◌, ◌≡◌, refl, sym, ap, ◌∙◌, subst, true, false, Option, none, some, List, [], ◌∷◌, ◌++◌,
  ◌==◌, arith, ==_refl, length, any, find, find-snoc, map_or,
}
use fund_ledger.Base.Int.{ℤ}
use fund_ledger.Ledger.Pricing.Verbatim.{IsVerbatim, settled, price_legs-IsVerbatim}
use fund_ledger.Base.Result.{ok}
use fund_ledger.Ledger.Decimal.{units}
use fund_ledger.Ledger.Model.{Db, Account, Entry, PricedLeg, Leg, Transfer, Period, is_open}
use fund_ledger.Ledger.Queries.{transfer_by_id}
use fund_ledger.Ledger.Validate.{validate_legs}
use fund_ledger.Ledger.Pricing.Mirror.{Mirrors, price_legs-Mirrors}
use fund_ledger.Ledger.Insert.{period_by_id, in_open_period, is_some, reversed_already}
use fund_ledger.Ledger.Insert.Effect.{insert_entries-in_open}
use fund_ledger.Ledger.Post.{Posting, post_transfer, new_entries, new_transfer}
use fund_ledger.Ledger.Post.Effect.{
  entries_for, post_transfer-Posted, write_transfer-Written, write_transfer-effect,
}

-- the line of a transfer that books a leg
pub record Books (t : Transfer) (l : Leg) (e : Entry) : Type 0 where
  pub of_transfer : e.transfer_id ≡ t.id
  pub same_account : e.account_id ≡ l.account_id
  pub same_direction : e.direction ≡ l.direction
  pub same_amount : e.amount ≡ units l.amount
  pub given_base : (b : ℤ) → l.base_amount ≡ some b → e.base_amount ≡ b

settled-given :
    (base : ℕ) (l : Leg) (a : Account) (b : ℤ) → l.base_amount ≡ some b → settled base l a ≡ some b
settled-given base l a b h = ground arith

abbrev pub BookedAs : Transfer → List Leg → List Entry → Type 0
BookedAs t [] [] = Unit
BookedAs t (l ∷ legs) (e ∷ es) = Books t l e × BookedAs t legs es
BookedAs t _ _ = ⊥

new_entries-BookedAs :
    (t : Transfer) (accounts : List Account) (base : ℕ) (uuid : ℕ → ℕ) (k now : ℕ) (legs : List Leg)
    (ps : List PricedLeg)
    → Mirrors accounts legs ps
    → IsVerbatim base legs ps
    → BookedAs t legs (new_entries uuid k t.id now ps)
unfolding new_entries
new_entries-BookedAs t accounts base uuid k now [] [] m v = tt
new_entries-BookedAs t accounts base uuid k now (l ∷ legs) (p ∷ ps) m v = (
  record {
    of_transfer = refl;
    same_account = m.0.same_account;
    same_direction = m.0.same_direction;
    same_amount = m.0.same_amount;
    given_base = λ b given. v.0 b (settled-given base l p.account b given);
  },
  new_entries-BookedAs t accounts base uuid (suc k) now legs ps m.1 v.1,
)
new_entries-BookedAs t accounts base uuid k now [] (p ∷ ps) m v = absurd m
new_entries-BookedAs t accounts base uuid k now (l ∷ legs) [] m v = absurd m

length-new_entries :
    (uuid : ℕ → ℕ) (k t now : ℕ) (ps : List PricedLeg)
    → length (new_entries uuid k t now ps) ≡ length ps
unfolding new_entries
length-new_entries uuid k t now [] = refl
length-new_entries uuid k t now (p ∷ ps) = ap suc (length-new_entries uuid (suc k) t now ps)

-- A successful call appends the transfer that was asked for and one entry for each leg, in order,
-- with the leg's account, direction and amount and the base amount that the leg gives, if any. It
-- draws an id for each, and nothing else changes.
pub post_transfer-appends :
    (q : Posting) (db : Db) {t : Transfer} {db' : Db}
    → post_transfer q db ≡ ok (t, db')
    → (es : List Entry) × (db' ≡ record db {
      transfers = db.transfers ++ (t ∷ []);
      entries = db.entries ++ es;
      drawn = suc db.drawn + length es;
    })
      × (t ≡ new_transfer q db)
      × BookedAs t q.legs es
post_transfer-appends q db {t} {db'} h =
    let p = post_transfer-Posted q db t db' h in
    let w = write_transfer-Written q p.priced db t db' p.written in
    let row = w.row in
    let es = entries_for q p.priced db in
    let count = length-new_entries db.uuid (suc db.drawn) (new_transfer q db).id db.now p.priced in
    let m = price_legs-Mirrors q.legs p.accounts _ _ db p.priced p.pricing in
    (
      es,
      rw count (write_transfer-effect q p.priced db t db' p.written),
      row,
      subst (λ (s : Transfer). BookedAs s q.legs es) (sym row)
          (new_entries-BookedAs (new_transfer q db) p.accounts p.fund.base_currency db.uuid
            (suc db.drawn) db.now q.legs p.priced m
            (price_legs-IsVerbatim q.legs p.accounts _ _ db p.pricing)),
    )

-- A key that a transfer already has is never posted a second time.
pub post_transfer-key_fresh :
    (q : Posting) (db : Db) {t : Transfer} {db' : Db}
    → post_transfer q db ≡ ok (t, db')
    → any (λ s. s.idempotency_key == q.idempotency_key) db.transfers ≡ false
post_transfer-key_fresh q db {t} {db'} h =
    let p = post_transfer-Posted q db t db' h in
    let w = write_transfer-Written q p.priced db t db' p.written in
    rw (ap (λ (t : Transfer). t.idempotency_key) w.row) at w.inserted.key_fresh

none-of_is_some : (o : Option Transfer) → is_some o ≡ false → o ≡ none
none-of_is_some o h = ground arith

open-of_test :
    (o : Option Period)
    → map_or o false (λ p. is_open p.status) ≡ true
    → (p : Period) × (o ≡ some p) × (is_open p.status ≡ true)
open-of_test none h = absurd (cc)
open-of_test (some p) h = (p, refl, h)

-- the trigger on a row of the new transfer looks up the period of that transfer
in_open_period-new :
    (t : Transfer) (e : Entry) (db mid : Db)
    → is_some (transfer_by_id t.id db) ≡ false
    → mid.transfers ≡ db.transfers ++ (t ∷ [])
    → mid.periods ≡ db.periods
    → e.transfer_id ≡ t.id
    → in_open_period e mid ≡ true
    → (p : Period) × (period_by_id t.period_id db ≡ some p) × (is_open p.status ≡ true)
in_open_period-new t e db mid fresh transfers periods own h =
    let test = λ (s : Transfer). s.id == t.id in
    let found : find test (db.transfers ++ (t ∷ [])) ≡ some t =
      find-snoc test db.transfers t (none-of_is_some _ fresh) (==_refl t.id) in
    let looked : transfer_by_id e.transfer_id mid ≡ some t = rw (own, transfers) found in
    open-of_test (period_by_id t.period_id db) (rw (looked, periods) at h)

first_entry :
    (q : Posting) (db : Db) (ps : List PricedLeg) (accounts : List Account) (legs : List Leg)
    → validate_legs legs ≡ ok tt
    → Mirrors accounts legs ps
    → (e : Entry) × (es : List Entry) × (entries_for q ps db ≡ e ∷ es)
      × (e.transfer_id ≡ (new_transfer q db).id)
unfolding new_entries validate_legs
first_entry q db [] accounts [] h m = absurd (cc)
first_entry q db [] accounts (l ∷ legs) h m = absurd m
first_entry q db (p ∷ ps) accounts legs h m = (_, _, refl, refl)

-- Nothing is posted into a period that the database holds as closed, or does not hold, whatever
-- the row that the caller read says.
pub post_transfer-in_open :
    (q : Posting) (db : Db) {t : Transfer} {db' : Db}
    → post_transfer q db ≡ ok (t, db')
    → (p : Period) × (period_by_id q.period.id db ≡ some p) × (is_open p.status ≡ true)
post_transfer-in_open q db {t} {db'} h =
    let p = post_transfer-Posted q db t db' h in
    let w = write_transfer-Written q p.priced db t db' p.written in
    let m = price_legs-Mirrors q.legs p.accounts _ _ db p.priced p.pricing in
    let (e, es, shape, own) = first_entry q db p.priced p.accounts q.legs p.validated m in
    let row = w.row in
    let found =
      in_open_period-new t e db w.middle w.inserted.id_fresh
        (ap (λ (d : Db). d.transfers) w.inserted.effect)
        (ap (λ (d : Db). d.periods) w.inserted.effect) (own ∙ ap (λ (t : Transfer). t.id) (sym row))
        (insert_entries-in_open e es w.middle db' (rw shape at w.entries_in)) in
    rw (ap (λ (t : Transfer). t.period_id) row) at found

reversed-start :
    (o : Option ℕ) (db : Db) (n : ℕ)
    → reversed_already o (record db { drawn = n }) ≡ false
    → reversed_already o db ≡ false
reversed-start none db n h = refl
reversed-start (some r) db n h = h

-- What a posting reverses has not been reversed before.
pub post_transfer-not_reversed :
    (q : Posting) (db : Db) {t : Transfer} {db' : Db}
    → post_transfer q db ≡ ok (t, db')
    → reversed_already q.reverses db ≡ false
post_transfer-not_reversed q db {t} {db'} h =
    let p = post_transfer-Posted q db t db' h in
    let w = write_transfer-Written q p.priced db t db' p.written in
    reversed-start q.reverses db (suc db.drawn + length p.priced)
      (rw (ap (λ (t : Transfer). t.reverses) w.row) at w.inserted.not_reversed)

-- The new transfer is found by its id.
pub post_transfer-found :
    (q : Posting) (db : Db) {t : Transfer} {db' : Db}
    → post_transfer q db ≡ ok (t, db')
    → transfer_by_id t.id db' ≡ some t
post_transfer-found q db {t} {db'} h =
    let p = post_transfer-Posted q db t db' h in
    let w = write_transfer-Written q p.priced db t db' p.written in
    let test = λ (s : Transfer). s.id == t.id in
    let transfers =
      ap (λ (d : Db). d.transfers) (write_transfer-effect q p.priced db t db' p.written) in
    rw transfers
      (find-snoc test db.transfers t (none-of_is_some _ w.inserted.id_fresh) (==_refl t.id))
