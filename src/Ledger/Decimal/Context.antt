-- ===== src/Ledger/Decimal/Context.antt =====
-- What the default context of `Decimal` keeps of a result.
use native.Mathlib.Nat.{div-add-mod}
use fund_ledger.Base.{
  ℕ, zero, suc, ◌*◌, ◌/◌, ◌^◌, ◌<◌, ◌≤◌, ◌≡◌, subst, sym, true, refl, ltb, arith, Bool-cases, inl,
  inr,
}
use fund_ledger.Ledger.Decimal.{excess_digits, in_context, round_half_even}

-- with fuel for every digit, dropping the excess leaves at most 28 digits
excess_digits_lem : (fuel n : ℕ) → n ≤ fuel → n < 10 ^ 28 * 10 ^ excess_digits fuel n
unfolding excess_digits
excess_digits_lem zero n h = omega (arith, h)
excess_digits_lem (suc fuel) n h = elim (Bool-cases (ltb n (10 ^ 28))) [
  | inl small ↦ rw (small, excess_digits) (ground (arith, small))
  | inr large ↦
      rw (large, excess_digits)
        (subst (λ (p : ℕ). n < 10 ^ 28 * p) (sym (pow_suc (excess_digits fuel (n / 10))))
          (next (10 ^ 28) (10 ^ excess_digits fuel (n / 10))
            (excess_digits_lem fuel (n / 10) (omega (arith, h)))))
]
  where
    pow_suc : (d : ℕ) → 10 ^ suc d ≡ 10 * 10 ^ d
    pow_suc d = omega arith

    next : (a b : ℕ) → n / 10 < a * b → n < a * (10 * b)
    next a b l = grind (arith, div-add-mod n 10)

-- a number of 28 digits is kept
pub in_context_fits : (n : ℕ) → n < 10 ^ 28 → in_context n ≡ n
unfolding in_context
in_context_fits zero h = refl
in_context_fits (suc n) h =
    let small : ltb (suc n) (10 ^ 28) ≡ true = ground (arith, h) in
    let none_dropped : excess_digits (suc n) (suc n) ≡ 0 = rw (excess_digits, small) refl in
    rw none_dropped (whole (suc n))
  where
    whole : (m : ℕ) → round_half_even m (10 ^ 0) * 10 ^ 0 ≡ m
    whole m = ground arith
