-- ===== src/Ledger/Pricing/Verbatim.antt =====
-- Base amounts that pricing may not change: those that the caller gives (a reversal does), and those
-- of legs in the fund's own currency.
use fund_ledger.Base.{
  ℕ, zero, suc, ◌≡◌, false, Option, none, some, List, [], ◌∷◌, ◌==◌, arith, if◌then◌else◌, inl, inr,
}
use fund_ledger.Base.Int.{ℤ, pos}
use fund_ledger.Base.Result.{ok, >>=-returns}
use fund_ledger.Ledger.Decimal.{units}
use fund_ledger.Ledger.Model.{Db, Account, Leg, PricedLeg}
use fund_ledger.Ledger.Pricing.{
  Rates, price_leg, price_found, price_each, price_legs, account_in, absorb, adjust_at, residual,
}
use fund_ledger.Ledger.Pricing.Residual.{Picks, absorb-Adjusts}

-- the base amount of a leg whose base amount is settled
abbrev pub settled : ℕ → Leg → Account → Option ℤ
settled base l a = elim l.base_amount [
  | some b ↦ some b
  | none ↦ if a.currency == base then some (pos (units l.amount)) else none
]

record Settles (base : ℕ) (l : Leg) (p : PricedLeg) : Type 0 where
  pub amount : (b : ℤ) → settled base l p.account ≡ some b → p.base_amount ≡ b
  pub fixed : (b : ℤ) → settled base l p.account ≡ some b → p.adjustable ≡ false

-- every settled base amount is the one in the priced leg
abbrev pub IsVerbatim : ℕ → List Leg → List PricedLeg → Type 0
IsVerbatim base [] ps = Unit
IsVerbatim base (l ∷ legs) [] = ⊥
IsVerbatim base (l ∷ legs) (p ∷ ps) =
    ((b : ℤ) → settled base l p.account ≡ some b → p.base_amount ≡ b) × IsVerbatim base legs ps

abbrev Settled : ℕ → List Leg → List PricedLeg → Type 0
Settled base [] ps = Unit
Settled base (l ∷ legs) [] = ⊥
Settled base (l ∷ legs) (p ∷ ps) = Settles base l p × Settled base legs ps

price_found-amount :
    (a : Account) (base on : ℕ) (db : Db) (l : Leg) (rates : Rates) (p : PricedLeg) (rates' : Rates)
    (b : ℤ)
    → price_found a base on db l rates ≡ ok (p, rates')
    → settled base l p.account ≡ some b
    → (p.base_amount ≡ b) × (p.adjustable ≡ false)
unfolding price_found
price_found-amount a base on db l rates p rates' b h s = ground arith

price_leg-Settles :
    (accounts : List Account) (base on : ℕ) (db : Db) (l : Leg) (rates : Rates) (p : PricedLeg)
    (rates' : Rates)
    → price_leg accounts base on db l rates ≡ ok (p, rates')
    → Settles base l p
unfolding price_leg
price_leg-Settles accounts base on db l rates p rates' h =
    let (a, found, h₁) = >>=-returns (account_in l.account_id accounts) _ h in
    record {
      amount = λ b s. (price_found-amount a base on db l rates p rates' b h₁ s).0;
      fixed = λ b s. (price_found-amount a base on db l rates p rates' b h₁ s).1;
    }

price_each-Settled :
    (accounts : List Account) (base on : ℕ) (db : Db) (legs : List Leg) (rates : Rates)
    (ps : List PricedLeg)
    → price_each accounts base on db legs rates ≡ ok ps
    → Settled base legs ps
unfolding price_each
price_each-Settled accounts base on db [] rates ps h = tt
price_each-Settled accounts base on db (l ∷ legs) rates ps h =
    let (first, priced, h₁) = >>=-returns (price_leg accounts base on db l rates) _ h in
    let (rest, others, h₂) = >>=-returns (price_each accounts base on db legs first.1) _ h₁ in
    let whole : first.0 ∷ rest ≡ ps = ground (arith, h₂) in
    rw (← whole) (
      price_leg-Settles accounts base on db l rates first.0 first.1 priced,
      price_each-Settled accounts base on db legs first.1 rest others,
    )

Settled-IsVerbatim :
    (base : ℕ) (legs : List Leg) (ps : List PricedLeg)
    → Settled base legs ps
    → IsVerbatim base legs ps
Settled-IsVerbatim base [] ps s = tt
Settled-IsVerbatim base (l ∷ legs) [] s = s
Settled-IsVerbatim base (l ∷ legs) (p ∷ ps) s = (s.0.amount, Settled-IsVerbatim base legs ps s.1)

-- the leg that takes the residual is not settled
adjust_at-IsVerbatim :
    (base : ℕ) (k : ℕ) (r : ℤ) (legs : List Leg) (ps : List PricedLeg)
    → Picks k ps
    → Settled base legs ps
    → IsVerbatim base legs (adjust_at k r ps)
unfolding adjust_at
adjust_at-IsVerbatim base k r [] ps picks s = tt
adjust_at-IsVerbatim base k r (l ∷ legs) [] picks s = absurd s
adjust_at-IsVerbatim base zero r (l ∷ legs) (p ∷ ps) picks s =
    (λ b e. absurd (clash (s.0.fixed b e)), Settled-IsVerbatim base legs ps s.1)
  where
    clash : p.adjustable ≡ false → ⊥
    clash e = cc
adjust_at-IsVerbatim base (suc k) r (l ∷ legs) (p ∷ ps) picks s =
    (s.0.amount, adjust_at-IsVerbatim base k r legs ps picks s.1)

-- A base amount that the caller gives, and the amount of a leg in the fund's own currency, come
-- through pricing unchanged, the residual's adjustment included.
pub price_legs-IsVerbatim :
    (legs : List Leg) (accounts : List Account) (base on : ℕ) (db : Db) {ps : List PricedLeg}
    → price_legs legs accounts base on db ≡ ok ps
    → IsVerbatim base legs ps
unfolding price_legs
price_legs-IsVerbatim legs accounts base on db {ps} h =
    let (each, priced, h₁) = >>=-returns (price_each accounts base on db legs []) _ h in
    let s = price_each-Settled accounts base on db legs [] each priced in
    let whole : absorb each ≡ ps = ground (arith, h₁) in
    rw (← whole) (elim (absorb-Adjusts each) [
      | inl same ↦ rw same (Settled-IsVerbatim base legs each s)
      | inr (k, picks, adjusted) ↦
          rw adjusted (adjust_at-IsVerbatim base k (residual each) legs each picks s)
    ])
