-- ===== src/Ledger/Validate.antt =====
-- `validate_legs` of ledger/services.py: what a request must be before any database work.
pub mod Exact
use fund_ledger.Base.{Bool, true, false, not, ◌&&◌, List, [], ◌∷◌, ltb, any, length}
use fund_ledger.Base.Int.{pos, leb_ℤ}
use fund_ledger.Base.Result.{Result, ok, err, ledger, invalid_transfer, ◌>>=◌, ◌>>◌, raise_if}
use fund_ledger.Ledger.Decimal.{Number, finite, not_finite, not_decimal, quantize, is_quantized}
use fund_ledger.Ledger.Model.{Leg, Direction, unrecognised, is_debit, is_credit}

abbrev pub is_unrecognised : Direction → Bool
is_unrecognised unrecognised = true
is_unrecognised _ = false

-- the checks of one amount, in the order of the loop's body
unfoldable pub check_amount : Number → Result (Unit {0})
check_amount not_decimal = err (ledger invalid_transfer)
check_amount not_finite = err (ledger invalid_transfer)
check_amount (finite c k) = do
  raise_if (leb_ℤ c (pos 0)) (ledger invalid_transfer)
  u ← quantize c k
  raise_if (not (is_quantized c k u)) (ledger invalid_transfer)

unfoldable pub check_amounts : List Leg → Result (Unit {0})
unfolding check_amount
check_amounts [] = ok tt
check_amounts (l ∷ legs) = check_amount l.amount >> check_amounts legs

unfoldable pub validate_legs : List Leg → Result (Unit {0})
unfolding check_amounts
validate_legs legs = do
  raise_if (ltb (length legs) 2) (ledger invalid_transfer)
  raise_if (any (λ l. is_unrecognised l.direction) legs) (ledger invalid_transfer)
  raise_if (not (any (λ l. is_debit l.direction) legs && any (λ l. is_credit l.direction) legs))
      (ledger invalid_transfer)
  check_amounts legs
