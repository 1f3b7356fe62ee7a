-- ===== src/Operations/Allocation.antt =====
-- `allocate` of operations/allocation.py: the largest-remainder method. A total is c / 10^k, and the
-- quantum and the shares are counted in units of 0.0001. Keys are ordered as their texts are.
-- The sum of the weights, `abs(total)` and the shares are rounded to the 28 digits of the decimal
-- context; the fractions are exact.
pub mod Sum
pub mod Fair
use fund_ledger.Base.{
  ℕ, zero, suc, ◌+◌, ◌-◌, ◌*◌, ◌/◌, ◌%◌, ◌^◌, Bool, true, false, not, List, [], ◌∷◌, ◌==◌, ltb, leb,
  if◌then◌else◌, any, length, map, sort_by,
}
use fund_ledger.Base.Int.{ℤ, pos, abs, pos_part, ltb_ℤ}
use fund_ledger.Base.Result.{Result, ok, value_error, ◌>>=◌, ◌>>◌, raise_if}
use fund_ledger.Ledger.Decimal.{with_sign, in_context}

-- the dicts, in insertion order
abbrev pub Weights : Type 0
Weights = List (ℕ × ℤ)

abbrev pub Quotas : Type 0
Quotas = List (ℕ × ℕ)

abbrev pub Shares : Type 0
Shares = List (ℕ × ℤ)

abbrev pub is_empty : Weights → Bool
is_empty [] = true
is_empty (w ∷ ws) = false

-- what weights that are not negative sum to, exactly
abbrev pub weight_sum : Weights → ℕ
weight_sum [] = 0
weight_sum ((k, w) ∷ ws) = pos_part w + weight_sum ws

-- `sum(weights.values(), Decimal(0))`, which rounds each sum to 28 digits
abbrev pub sum_from : ℕ → Weights → ℕ
sum_from acc [] = acc
sum_from acc ((k, w) ∷ ws) = sum_from (in_context (acc + pos_part w)) ws

unfoldable pub context_sum : Weights → ℕ
unfolding in_context
context_sum ws = sum_from 0 ws

-- `math.floor(total_units * w / weight_sum)`, and the numerator of what it leaves
abbrev pub floors : ℕ → ℕ → Weights → Quotas
floors n total [] = []
floors n total ((k, w) ∷ ws) = (k, n * pos_part w / total) ∷ floors n total ws

abbrev pub remainders : ℕ → ℕ → Weights → Quotas
remainders n total [] = []
remainders n total ((k, w) ∷ ws) = (k, n * pos_part w % total) ∷ remainders n total ws

abbrev pub quota_sum : Quotas → ℕ
quota_sum [] = 0
quota_sum ((k, n) ∷ qs) = n + quota_sum qs

-- the sort key: the largest remainder first, then the key
abbrev pub goes_before : ℕ × ℕ → ℕ × ℕ → Bool
goes_before (j, r) (k, s) = if ltb s r then true else if ltb r s then false else leb j k

abbrev pub take : {A : Type 0} → ℕ → List A → List A
take zero xs = []
take (suc n) [] = []
take (suc n) (x ∷ xs) = x ∷ take n xs

-- `floors[k] += 1`
abbrev pub add_one : ℕ → Quotas → Quotas
add_one k [] = []
add_one k ((j, n) ∷ qs) = if k == j then (j, suc n) ∷ qs else (j, n) ∷ add_one k qs

abbrev pub add_ones : Quotas → Quotas → Quotas
add_ones [] qs = qs
add_ones ((k, r) ∷ rest) qs = add_ones rest (add_one k qs)

-- how many `by_remainder[:total_units - low]` has, of `keys` ones: a negative index counts from the end
abbrev pub leftover : ℕ → ℕ → ℕ → ℕ
leftover n low keys = if leb low n then n - low else keys - (low - n)

-- the whole quanta of each key, by a sum of the weights
unfoldable pub distribute_by : ℕ → ℕ → Weights → Quotas
distribute_by total n ws =
    let low = floors n total ws in
    let by_remainder = sort_by goes_before (remainders n total ws) in
    add_ones (take (leftover n (quota_sum low) (length ws)) by_remainder) low

-- by their exact sum
unfoldable pub distribute : ℕ → Weights → Quotas
unfolding distribute_by
distribute n ws = distribute_by (weight_sum ws) n ws

-- `sign * floors[k] * quantum`, a product of Decimals
unfoldable pub to_shares : ℤ → ℕ → Quotas → Shares
unfolding in_context
to_shares c quantum [] = []
to_shares c quantum ((k, n) ∷ qs) =
    (k, with_sign c (in_context (n * quantum))) ∷ to_shares c quantum qs

unfoldable pub allocate : ℤ → ℕ → Weights → ℕ → Result Shares
unfolding context_sum distribute_by to_shares in_context
allocate c k ws quantum =
    let total = context_sum ws in
    let size = in_context (abs c) * 10 ^ 4 in
    do
      raise_if (is_empty ws) value_error
      raise_if (any (λ (_, w). ltb_ℤ w (pos 0)) ws) value_error
      raise_if (total == 0) value_error
      raise_if (not (size % (quantum * 10 ^ k) == 0)) value_error
      ok (to_shares c quantum (distribute_by total (size / (quantum * 10 ^ k)) ws))
