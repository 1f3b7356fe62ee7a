-- ===== src/Ledger/Post/Settled.antt =====
-- The base amounts of the entries that stand on accounts in the fund's own currency.
use fund_ledger.Base.{ℕ, suc, ◌≡◌, refl, sym, ap, ◌∙◌, none, some, List, [], ◌∷◌, ◌++◌, ==_refl, In}
use fund_ledger.Base.Int.{pos}
use fund_ledger.Base.Result.{ok}
use fund_ledger.Ledger.Decimal.{units}
use fund_ledger.Ledger.Model.{Db, Account, Fund, Entry, Leg, PricedLeg, Transfer}
use fund_ledger.Ledger.Pricing.Verbatim.{IsVerbatim, settled, price_legs-IsVerbatim}
use fund_ledger.Ledger.Pricing.Mirror.{Mirrors, price_legs-Mirrors}
use fund_ledger.Ledger.Post.{Posting, post_transfer, new_entries, new_transfer, fund_by_id}
use fund_ledger.Ledger.Post.Effect.{entries_for, post_transfer-Posted, write_transfer-effect}
use fund_ledger.Ledger.Post.Solvent.{IsKeyed, lock_accounts-In}

-- an entry on an account in the base currency has its own amount as the base amount, unless the leg
-- gives one
abbrev pub InBase : Db → ℕ → List Leg → List Entry → Type 0
InBase db base [] es = Unit
InBase db base (l ∷ legs) [] = ⊥
InBase db base (l ∷ legs) (e ∷ es) =
    ((a : Account)
      → In a db.accounts
      → a.id ≡ e.account_id
      → a.currency ≡ base
      → l.base_amount ≡ none
      → e.base_amount ≡ pos (units l.amount))
    × InBase db base legs es

settled-own :
    (base : ℕ) (l : Leg) (a : Account)
    → a.currency ≡ base
    → l.base_amount ≡ none
    → settled base l a ≡ some (pos (units l.amount))
settled-own base l a c n = rw (n, c, ==_refl base) refl

new_entries-InBase :
    (db : Db) (base : ℕ) (accounts : List Account) (t k : ℕ) (legs : List Leg) (ps : List PricedLeg)
    → IsKeyed db
    → ((a : Account) → In a accounts → In a db.accounts)
    → Mirrors accounts legs ps
    → IsVerbatim base legs ps
    → InBase db base legs (new_entries db.uuid k t db.now ps)
unfolding new_entries
new_entries-InBase db base accounts t k [] ps keyed known m v = tt
new_entries-InBase db base accounts t k (l ∷ legs) [] keyed known m v = absurd m
new_entries-InBase db base accounts t k (l ∷ legs) (p ∷ ps) keyed known m v = (
  λ a here same own given.
      let it : a ≡ p.account = keyed a p.account here (known p.account m.0.known) same in
      v.0 (pos (units l.amount))
        (settled-own base l p.account (sym (ap (λ (x : Account). x.currency) it) ∙ own) given),
  new_entries-InBase db base accounts t (suc k) legs ps keyed known m.1 v.1,
)

pub post_transfer-InBase :
    (q : Posting) (db : Db) {t : Transfer} {db' : Db}
    → IsKeyed db
    → post_transfer q db ≡ ok (t, db')
    → (fund : Fund) × (es : List Entry) × (fund_by_id q.period.fund_id db ≡ ok fund)
      × (db'.entries ≡ db.entries ++ es)
      × InBase db fund.base_currency q.legs es
post_transfer-InBase q db {t} {db'} keyed h =
    let p = post_transfer-Posted q db t db' h in
    (
      p.fund,
      entries_for q p.priced db,
      p.fund_found,
      ap (λ (d : Db). d.entries) (write_transfer-effect q p.priced db t db' p.written),
      new_entries-InBase db p.fund.base_currency p.accounts (new_transfer q db).id (suc db.drawn)
          q.legs p.priced keyed (lock_accounts-In q.legs db p.accounts p.locked)
          (price_legs-Mirrors q.legs p.accounts _ _ db p.priced p.pricing)
          (price_legs-IsVerbatim q.legs p.accounts _ _ db p.pricing),
    )
