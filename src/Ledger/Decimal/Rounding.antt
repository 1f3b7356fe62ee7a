-- ===== src/Ledger/Decimal/Rounding.antt =====
-- Rounding goes to a nearest integer, a tie to the even one; conversion is off by half a unit at most.
use native.Mathlib.Nat.{div-add-mod', mod-lt}
use fund_ledger.Base.{ℕ, ◌+◌, ◌*◌, ◌/◌, ◌%◌, ◌≤◌, ◌<◌, ◌≡◌, arith, Bool-cases, ltb, inl, inr, ◌==◌}
use fund_ledger.Ledger.Decimal.{round_half_even, convert, rate_scale}

-- The quotient `q` is within half a unit of n / d, and even if the two neighbours are equally near.
abbrev pub IsNearest : ℕ → ℕ → ℕ → Type 0
IsNearest n d q =
    (2 * (q * d) ≤ 2 * n + d)
    × (2 * n ≤ 2 * (q * d) + d)
    × ((2 * (q * d) ≡ 2 * n + d) → q % 2 ≡ 0)
    × ((2 * n ≡ 2 * (q * d) + d) → q % 2 ≡ 0)

-- the floor is nearest if what remains is below half, or half with an even floor
floor-IsNearest :
    (n d q r : ℕ) → 0 < d → q * d + r ≡ n → 2 * r ≤ d → ((2 * r ≡ d) → q % 2 ≡ 0) → IsNearest n d q
floor-IsNearest n d q r h e below tie =
    (omega arith, omega arith, λ x. absurd (omega arith), λ x. tie (omega arith))

-- and the next integer otherwise
ceiling-IsNearest :
    (n d q r : ℕ)
    → q * d + r ≡ n
    → r < d
    → d ≤ 2 * r
    → ((2 * r ≡ d) → (q + 1) % 2 ≡ 0)
    → IsNearest n d (q + 1)
ceiling-IsNearest n d q r e below above tie =
    (omega arith, omega arith, λ x. tie (omega arith), λ x. absurd (omega arith))

pub round_half_even-IsNearest : (n d : ℕ) → 0 < d → IsNearest n d (round_half_even n d)
unfolding round_half_even
round_half_even-IsNearest n d h =
    let q : ℕ = n / d in
    let r : ℕ = n % d in
    let e : q * d + r ≡ n = div-add-mod' n d in
    let below : r < d = mod-lt n h in
    elim (Bool-cases (ltb (2 * r) d)) [
      | inl less ↦ rw less (floor-IsNearest n d q r h e (ground arith) (λ x. absurd (ground arith)))
      | inr not_less ↦ elim (Bool-cases (ltb d (2 * r))) [
        | inl more ↦
            rw (not_less, more)
              (ceiling-IsNearest n d q r e below (ground arith) (λ x. absurd (ground arith)))
        | inr tie ↦ elim (Bool-cases (q % 2 == 0)) [
          | inl even ↦
              rw (not_less, tie, even)
                (floor-IsNearest n d q r h e (ground arith) (λ _. ground arith))
          | inr odd ↦
              rw (not_less, tie, odd)
                (ceiling-IsNearest n d q r e below (ground arith) (λ _. ground arith))
        ]
      ]
    ]

-- A converted amount is the nearest number of units to amount × rate, ties to even.
pub convert-IsNearest :
    (amount rate : ℕ) → IsNearest (amount * rate) rate_scale (convert amount rate)
unfolding convert
convert-IsNearest amount rate = round_half_even-IsNearest (amount * rate) rate_scale (omega arith)
