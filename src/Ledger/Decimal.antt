-- ===== src/Ledger/Decimal.antt =====
-- Python's `Decimal` as far as the ledger uses it: money is counted in units of 0.0001 (MONEY in
-- funds/models.py has 4 decimal places) and rates in units of 0.0000000001.
pub mod Context
pub mod Rounding
use fund_ledger.Base.{
  ℕ, zero, suc, ◌+◌, ◌-◌, ◌*◌, ◌/◌, ◌%◌, ◌^◌, Bool, true, false, ltb, leb, ◌==◌, if◌then◌else◌,
}
use fund_ledger.Base.Int.{ℤ, pos, negsuc, abs}
use fund_ledger.Base.Result.{Result, ok, err, invalid_operation}

-- What a caller passes as an amount: `finite c k` is c / 10^k. `not_finite` is NaN or Infinity, and
-- `not_decimal` a number of another type.
pub data Number : Type 0 where
  finite : ℤ → ℕ → Number
  not_finite not_decimal : Number

-- n / d rounded to the nearest integer, a tie to the even one (ROUND_HALF_EVEN)
unfoldable pub round_half_even : ℕ → ℕ → ℕ
round_half_even n d =
    let q = n / d in
    let r = n % d in
    if ltb (2 * r) d then q else if ltb d (2 * r) then q + 1 else if q % 2 == 0 then q else q + 1

-- the size in units of the number c / 10^k quantized to 4 decimal places
unfoldable pub quantize_size : ℕ → ℕ → ℕ
unfolding round_half_even
quantize_size c k = if leb k 4 then c * 10 ^ (4 - k) else round_half_even c (10 ^ (k - 4))

-- how many of the last digits of a result the default context of 28 digits drops
unfoldable pub excess_digits : ℕ → ℕ → ℕ
excess_digits zero n = 0
excess_digits (suc fuel) n = elim (ltb n (10 ^ 28)) [
  | true ↦ 0
  | false ↦ suc (excess_digits fuel (n / 10))
]

-- the size of a result, rounded to 28 digits
unfoldable pub in_context : ℕ → ℕ
unfolding excess_digits round_half_even
in_context n = let d = excess_digits n n in round_half_even n (10 ^ d) * 10 ^ d

abbrev pub with_sign : ℤ → ℕ → ℤ
with_sign (pos _) n = pos n
with_sign (negsuc _) zero = pos 0
with_sign (negsuc _) (suc n) = negsuc n

-- `amount.quantize(FOUR_DP)` in units; the default context has 28 digits
unfoldable pub quantize : ℤ → ℕ → Result ℤ
unfolding quantize_size
quantize c k =
    let n = quantize_size (abs c) k in
    if leb (10 ^ 28) n then err invalid_operation else ok (with_sign c n)

-- `amount == amount.quantize(FOUR_DP)`, for a quantized amount of `u` units
abbrev pub is_quantized : ℤ → ℕ → ℤ → Bool
is_quantized c k u = (abs c * 10 ^ 4) == (abs u * 10 ^ k)

-- The units of an amount that has passed `validate_legs`; nothing else is asked of this function.
unfoldable pub units : Number → ℕ
unfolding quantize_size
units (finite c k) = quantize_size (abs c) k
units not_finite = 0
units not_decimal = 0

abbrev pub rate_scale : ℕ
rate_scale = 10 ^ 10

-- `convert`: an amount in units at a rate in units; 50 digits lose nothing before the rounding
unfoldable pub convert : ℕ → ℕ → ℕ
unfolding round_half_even
convert amount rate = round_half_even (amount * rate) rate_scale
