-- ===== src/Ledger/Pricing/Mirror.antt =====
-- A priced leg stands for its leg: pricing changes no account, direction or amount, and the
-- residual goes to base amounts alone.
use fund_ledger.Base.{
  In, find-In, ℕ, zero, suc, ◌≡◌, sym, ap, ◌∙◌, List, [], ◌∷◌, ◌==◌, arith, find, find-holds,
  Option-cases, inl, inr, ==_iff,
}
use fund_ledger.Base.Int.{ℤ}
use fund_ledger.Base.Result.{ok, >>=-returns}
use fund_ledger.Ledger.Decimal.{units}
use fund_ledger.Ledger.Model.{Db, Account, Leg, PricedLeg}
use fund_ledger.Ledger.Pricing.Residual.{absorb-Adjusts}
use fund_ledger.Ledger.Pricing.{
  Rates, price_leg, price_found, price_each, price_legs, account_in, absorb, adjust_at, residual,
}

-- what pricing keeps of one leg
pub record Stands (accounts : List Account) (l : Leg) (p : PricedLeg) : Type 0 where
  pub same_account : p.account.id ≡ l.account_id
  pub same_direction : p.direction ≡ l.direction
  pub same_amount : p.amount ≡ units l.amount
  pub own_currency : p.currency ≡ p.account.currency
  pub known : In p.account accounts

abbrev pub Mirrors : List Account → List Leg → List PricedLeg → Type 0
Mirrors accounts [] [] = Unit
Mirrors accounts (l ∷ legs) (p ∷ ps) = Stands accounts l p × Mirrors accounts legs ps
Mirrors accounts _ _ = ⊥

account_in-found :
    (i : ℕ) (accounts : List Account) (a : Account)
    → account_in i accounts ≡ ok a
    → (a.id ≡ i) × In a accounts
account_in-found i accounts a h = elim (Option-cases (find (λ a. a.id == i) accounts)) [
  | inl missing ↦ absurd (cc (rw (missing, account_in) at h))
  | inr (b, found) ↦
      let same : b ≡ a = ground (arith, rw (found, account_in) at h) in
      rw (← same) (
        (==_iff b.id i).0 (find-holds (λ a. a.id == i) accounts b found),
        find-In _ accounts b found,
      )
]

-- the four columns that pricing copies
record Copies (a : Account) (l : Leg) (p : PricedLeg) : Type 0 where
  of_account : p.account ≡ a
  same_direction : p.direction ≡ l.direction
  same_amount : p.amount ≡ units l.amount
  own_currency : p.currency ≡ a.currency

price_leg-Copies :
    (a : Account) (base on : ℕ) (db : Db) (l : Leg) (rates : Rates) (p : PricedLeg) (rates' : Rates)
    → price_found a base on db l rates ≡ ok (p, rates')
    → Copies a l p
unfolding price_found
price_leg-Copies a base on db l rates p rates' h = ground arith

price_leg-Stands :
    (accounts : List Account) (base on : ℕ) (db : Db) (l : Leg) (rates : Rates) (p : PricedLeg)
    (rates' : Rates)
    → price_leg accounts base on db l rates ≡ ok (p, rates')
    → Stands accounts l p
unfolding price_leg
price_leg-Stands accounts base on db l rates p rates' h =
    let (a, found, h₁) = >>=-returns (account_in l.account_id accounts) _ h in
    let (same, here) = account_in-found l.account_id accounts a found in
    let c = price_leg-Copies a base on db l rates p rates' h₁ in
    record {
      same_account = ap (λ (b : Account). b.id) c.of_account ∙ same;
      same_direction = c.same_direction;
      same_amount = c.same_amount;
      own_currency = c.own_currency ∙ ap (λ (b : Account). b.currency) (sym c.of_account);
      known = rw c.of_account here;
    }

price_each-Mirrors :
    (accounts : List Account) (base on : ℕ) (db : Db) (legs : List Leg) (rates : Rates)
    (ps : List PricedLeg)
    → price_each accounts base on db legs rates ≡ ok ps
    → Mirrors accounts legs ps
unfolding price_each
price_each-Mirrors accounts base on db [] rates [] h = tt
price_each-Mirrors accounts base on db [] rates (p ∷ ps) h = absurd (cc)
price_each-Mirrors accounts base on db (l ∷ legs) rates ps h =
    let (first, priced, h₁) = >>=-returns (price_leg accounts base on db l rates) _ h in
    let (rest, others, h₂) = >>=-returns (price_each accounts base on db legs first.1) _ h₁ in
    let whole : first.0 ∷ rest ≡ ps = ground (arith, h₂) in
    rw (← whole) (
      price_leg-Stands accounts base on db l rates first.0 first.1 priced,
      price_each-Mirrors accounts base on db legs first.1 rest others,
    )

adjust_at-Mirrors :
    (accounts : List Account) (i : ℕ) (r : ℤ) (legs : List Leg) (ps : List PricedLeg)
    → Mirrors accounts legs ps
    → Mirrors accounts legs (adjust_at i r ps)
unfolding adjust_at
adjust_at-Mirrors accounts zero r [] [] m = tt
adjust_at-Mirrors accounts (suc i) r [] [] m = tt
adjust_at-Mirrors accounts zero r (l ∷ legs) (p ∷ ps) m = (
  record {
    same_account = m.0.same_account;
    same_direction = m.0.same_direction;
    same_amount = m.0.same_amount;
    own_currency = m.0.own_currency;
    known = m.0.known;
  },
  m.1,
)
adjust_at-Mirrors accounts (suc i) r (l ∷ legs) (p ∷ ps) m =
    (m.0, adjust_at-Mirrors accounts i r legs ps m.1)
adjust_at-Mirrors accounts i r [] (p ∷ ps) m = absurd m
adjust_at-Mirrors accounts i r (l ∷ legs) [] m = absurd m

-- every priced leg stands for the leg at its place
pub price_legs-Mirrors :
    (legs : List Leg) (accounts : List Account) (base on : ℕ) (db : Db) (ps : List PricedLeg)
    → price_legs legs accounts base on db ≡ ok ps
    → Mirrors accounts legs ps
unfolding price_legs
price_legs-Mirrors legs accounts base on db ps h =
    let (each, priced, h₁) = >>=-returns (price_each accounts base on db legs []) _ h in
    let m = price_each-Mirrors accounts base on db legs [] each priced in
    let whole : absorb each ≡ ps = ground (arith, h₁) in
    rw (← whole) (elim (absorb-Adjusts each) [
      | inl same ↦ rw same m
      | inr (i, _, adjusted) ↦
          rw adjusted (adjust_at-Mirrors accounts i (residual each) legs each m)
    ])
