-- ===== src/Ledger/Tests/Amounts.antt =====
-- Validation and pricing at the small database.
use fund_ledger.Base.{◌⊎◌, ◌<◌, ◌*◌, false, ◌↔◌, ◌≡◌, refl, none, some, List, [], ◌∷◌, true}
use fund_ledger.Base.Int.{abs, pos, ◌+ℤ◌, ◌-ℤ◌}
use fund_ledger.Base.Result.{ok}
use fund_ledger.Ledger.Decimal.{units, convert, rate_scale}
use fund_ledger.Ledger.Decimal.Rounding.{IsNearest, convert-IsNearest}
use fund_ledger.Ledger.Model.{PricedLeg, debit, credit}
use fund_ledger.Ledger.Validate.{validate_legs}
use fund_ledger.Ledger.Validate.Exact.{IsRequest, validate_legs_iff}
use fund_ledger.Ledger.Pricing.{price_legs, absorb, residual}
use fund_ledger.Ledger.Pricing.Residual.{candidates, absorb-residual}
use fund_ledger.Ledger.Pricing.Verbatim.{IsVerbatim, price_legs-IsVerbatim}
use fund_ledger.Ledger.Tests.{usd, gbp, cash, holding, world, paying_in, buying}

validate_legs_iff_example : (validate_legs paying_in.legs ≡ ok tt) ↔ IsRequest paying_in.legs
validate_legs_iff_example = validate_legs_iff paying_in.legs

-- 33.333333 dollars at 0.79 against 26.3333: the dollars take the missing hundredth of a penny
abbrev uneven : List PricedLeg
uneven =
    record {
      account = holding;
      direction = debit;
      amount = 333333;
      currency = usd;
      fx_rate = some 7900000000;
      base_amount = pos 263333;
      adjustable = true;
    }
    ∷ record {
      account = cash;
      direction = credit;
      amount = 263334;
      currency = gbp;
      fx_rate = none;
      base_amount = pos 263334;
      adjustable = false;
    }
    ∷ []

absorb-residual_example :
    (residual (absorb uneven) ≡ pos 0)
    ⊎ ((absorb uneven ≡ uneven) × (candidates uneven < abs (residual uneven)))
absorb-residual_example = absorb-residual uneven (refl, (refl, tt))

abbrev priced_purchase : List PricedLeg
priced_purchase =
    record {
      account = holding;
      direction = debit;
      amount = 1000000;
      currency = usd;
      fx_rate = some 7900000000;
      base_amount = pos 790000;
      adjustable = true;
    }
    ∷ record {
      account = cash;
      direction = credit;
      amount = 790000;
      currency = gbp;
      fx_rate = none;
      base_amount = pos 790000;
      adjustable = false;
    }
    ∷ []

pricing_purchase :
    price_legs (buying 22 100 7900).legs world.accounts gbp 120 world ≡ ok priced_purchase
unfolding price_legs units convert ◌+ℤ◌ ◌-ℤ◌
pricing_purchase = refl

price_legs-IsVerbatim_example : IsVerbatim gbp (buying 22 100 7900).legs priced_purchase
price_legs-IsVerbatim_example =
    price_legs-IsVerbatim (buying 22 100 7900).legs world.accounts gbp 120 world pricing_purchase

convert-IsNearest_example : IsNearest (1000000 * 7900000000) rate_scale (convert 1000000 7900000000)
convert-IsNearest_example = convert-IsNearest 1000000 7900000000
