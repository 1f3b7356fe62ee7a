-- ===== src/Ledger/Pricing.antt =====
-- ledger/pricing.py: currency, rate and base-currency amount of each leg, and the rounding residual.
pub mod Mirror
pub mod Residual
pub mod Verbatim
use fund_ledger.Base.{
  ℕ, zero, suc, Bool, true, false, ◌&&◌, Option, none, some, List, [], ◌∷◌, ◌==◌, leb, ltb,
  if◌then◌else◌, filter, find, length,
}
use fund_ledger.Base.Int.{ℤ, pos, ◌+ℤ◌, ◌-ℤ◌, neg, abs, eqb_ℤ, ltb_ℤ, sum_by}
use fund_ledger.Base.Result.{Result, ok, err, ledger, missing_fx_rate, not_found, ◌>>=◌}
use fund_ledger.Ledger.Decimal.{units, convert}
use fund_ledger.Ledger.Model.{Db, FxRate, Account, Leg, PricedLeg, is_debit, is_credit}

-- the rows that `fx_rate_for` reads, and the latest of them
abbrev pub latest : List FxRate → Option FxRate
latest [] = none
latest (r ∷ rs) = elim (latest rs) [
  | none ↦ some r
  | some s ↦ if ltb r.as_of_date s.as_of_date then some s else some r
]

abbrev pub applies : ℕ → ℕ → ℕ → FxRate → Bool
applies from to on r = (r.from_currency == from) && ((r.to_currency == to) && leb r.as_of_date on)

abbrev pub or_missing : Option FxRate → Result ℕ
or_missing none = err (ledger missing_fx_rate)
or_missing (some r) = ok r.rate

-- the latest published rate on or before `on`
unfoldable pub fx_rate_for : ℕ → ℕ → ℕ → Db → Result ℕ
fx_rate_for from to on db = or_missing (latest (filter (applies from to on) db.fx_rates))

-- the dict `rates`, currency → rate
abbrev pub Rates : Type 0
Rates = List (ℕ × ℕ)

abbrev pub rate_in : ℕ → Rates → Option ℕ
rate_in c [] = none
rate_in c ((d, r) ∷ rates) = if c == d then some r else rate_in c rates

-- the rate of a leg in a foreign currency, with the dict after it
unfoldable pub leg_rate : Leg → ℕ → ℕ → ℕ → Rates → Db → Result (ℕ × Rates)
unfolding fx_rate_for
leg_rate l currency base on rates db = elim l.fx_rate [
  | some r ↦ ok (r, rates)
  | none ↦ elim (rate_in currency rates) [
    | some r ↦ ok (r, rates)
    | none ↦ fx_rate_for currency base on db >>= λ r. ok (r, (currency, r) ∷ rates)
  ]
]

-- `if leg.base_amount is not None`
abbrev pub override : Option ℤ → PricedLeg → PricedLeg
override none p = p
override (some b) p = record p { base_amount = b; adjustable = false }

abbrev pub account_in : ℕ → List Account → Result Account
account_in i accounts = elim (find (λ a. a.id == i) accounts) [
  | none ↦ err not_found
  | some a ↦ ok a
]

-- the body of the loop of `price_legs`, once the account is found
unfoldable pub price_found : Account → ℕ → ℕ → Db → Leg → Rates → Result (PricedLeg × Rates)
unfolding leg_rate
price_found a base on db l rates =
    let native : PricedLeg = record {
      account = a;
      direction = l.direction;
      amount = units l.amount;
      currency = a.currency;
      fx_rate = none;
      base_amount = pos (units l.amount);
      adjustable = false;
    } in
    if a.currency == base
    then ok (override l.base_amount native, rates)
    else (leg_rate l a.currency base on rates db >>= λ (r, rates'). ok (
      override l.base_amount (record native {
        fx_rate = some r;
        base_amount = pos (convert (units l.amount) r);
        adjustable = true;
      }),
      rates',
    ))

unfoldable pub price_leg : List Account → ℕ → ℕ → Db → Leg → Rates → Result (PricedLeg × Rates)
unfolding price_found
price_leg accounts base on db l rates =
    account_in l.account_id accounts >>= λ a. price_found a base on db l rates

unfoldable pub price_each : List Account → ℕ → ℕ → Db → List Leg → Rates → Result (List PricedLeg)
unfolding price_leg
price_each accounts base on db [] rates = ok []
price_each accounts base on db (l ∷ legs) rates = do
  (p, rates') ← price_leg accounts base on db l rates
  rest ← price_each accounts base on db legs rates'
  ok (p ∷ rest)

-- what a leg adds to the sum of the debits, and to the sum of the credits
abbrev pub debit_base : PricedLeg → ℤ
debit_base p = if is_debit p.direction then p.base_amount else pos 0

abbrev pub credit_base : PricedLeg → ℤ
credit_base p = if is_credit p.direction then p.base_amount else pos 0

abbrev pub residual : List PricedLeg → ℤ
residual ps = sum_by debit_base ps -ℤ sum_by credit_base ps

-- `max(candidates, key=lambda j: (priced[j].base_amount, j))`, counted from `i`
unfoldable pub max_candidate : ℕ → List PricedLeg → Option (ℕ × ℤ)
max_candidate i [] = none
max_candidate i (p ∷ ps) =
    let rest = max_candidate (suc i) ps in
    if p.adjustable
    then (elim rest [
      | none ↦ some (i, p.base_amount)
      | some (j, b) ↦ if ltb_ℤ b p.base_amount then some (i, p.base_amount) else some (j, b)
    ])
    else rest

abbrev pub adjustment : ℤ → PricedLeg → ℤ
adjustment r p = if is_debit p.direction then neg r else r

unfoldable pub adjust_at : ℕ → ℤ → List PricedLeg → List PricedLeg
adjust_at i r [] = []
adjust_at zero r (p ∷ ps) = record p { base_amount = p.base_amount +ℤ adjustment r p } ∷ ps
adjust_at (suc i) r (p ∷ ps) = p ∷ adjust_at i r ps

-- `_absorb_rounding_residual`
unfoldable pub absorb : List PricedLeg → List PricedLeg
unfolding max_candidate adjust_at
absorb ps =
    let r = residual ps in
    if eqb_ℤ r (pos 0)
    then ps
    else if ltb (length (filter (λ p. p.adjustable) ps)) (abs r)
    then ps
    else (elim (max_candidate 0 ps) [ none ↦ ps | some (i, _) ↦ adjust_at i r ps ])

unfoldable pub price_legs : List Leg → List Account → ℕ → ℕ → Db → Result (List PricedLeg)
unfolding price_each absorb
price_legs legs accounts base on db =
    price_each accounts base on db legs [] >>= λ priced. ok (absorb priced)
