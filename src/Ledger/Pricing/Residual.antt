-- ===== src/Ledger/Pricing/Residual.antt =====
-- `_absorb_rounding_residual`: which leg takes the residual, and what is left of it.
use fund_ledger.Base.{
  ℕ, zero, suc, ◌+◌, ◌<◌, ◌≡◌, ◌≢◌, refl, ap, ◌∙◌, true, false, none, some, List, [], ◌∷◌, arith,
  length, filter, Bool-cases, Option-cases, inl, inr, ◌⊎◌, ltb, ltb→lt, All,
}
use fund_ledger.Base.Int.{ℤ, pos, ◌+ℤ◌, ◌-ℤ◌, eqb_ℤ, eqb_ℤ→eq, abs, int_laws, ltb_ℤ}
use fund_ledger.Ledger.Model.{PricedLeg}
use fund_ledger.Ledger.Validate.{is_unrecognised}
use fund_ledger.Ledger.Pricing.{
  absorb, adjust_at, max_candidate, residual, debit_base, credit_base, adjustment,
}

-- the number of legs that may absorb a residual
abbrev pub candidates : List PricedLeg → ℕ
candidates ps = length (filter (λ p. p.adjustable) ps)

abbrev pub IsDirected : PricedLeg → Type 0
IsDirected p = is_unrecognised p.direction ≡ false

-- the leg at the place `k` may absorb a residual
abbrev pub Picks : ℕ → List PricedLeg → Type 0
Picks k [] = ⊥
Picks zero (p ∷ ps) = p.adjustable ≡ true
Picks (suc k) (p ∷ ps) = Picks k ps

pub max_candidate-Picks :
    (i : ℕ) (ps : List PricedLeg) (j : ℕ) (b : ℤ)
    → max_candidate i ps ≡ some (j, b)
    → (k : ℕ) × (j ≡ i + k) × Picks k ps
unfolding max_candidate
max_candidate-Picks i [] j b h = absurd (cc)
max_candidate-Picks i (p ∷ ps) j b h = elim (Bool-cases p.adjustable) [
  | inr fixed ↦
      let (k, e, picks) = max_candidate-Picks (suc i) ps j b (rw fixed at h) in
      (suc k, omega arith, picks)
  | inl open_leg ↦ elim (Option-cases (max_candidate (suc i) ps)) [
    | inl alone ↦ (0, ground arith, open_leg)
    | inr (c, found) ↦ elim (Bool-cases (ltb_ℤ c.1 p.base_amount)) [
      | inl larger ↦ (0, ground arith, open_leg)
      | inr smaller ↦
          let e : c ≡ (j, b) = ground arith in
          let (k, at, picks) = max_candidate-Picks (suc i) ps j b (found ∙ ap some e) in
          (suc k, omega arith, picks)
    ]
  ]
]

max_candidate-found : (i : ℕ) (ps : List PricedLeg) → 0 < candidates ps → max_candidate i ps ≢ none
unfolding max_candidate
max_candidate-found i [] h = absurd (omega arith)
max_candidate-found i (p ∷ ps) h = ground (arith, max_candidate-found (suc i) ps)

adjust_debits :
    (p : PricedLeg) (r : ℤ)
    → IsDirected p
    → debit_base (record p { base_amount = p.base_amount +ℤ adjustment r p })
        -ℤ credit_base (record p { base_amount = p.base_amount +ℤ adjustment r p })
      ≡ debit_base p -ℤ credit_base p -ℤ r
adjust_debits p r h = grind int_laws

-- what one leg takes is taken off the residual
adjust_at-residual :
    (k : ℕ) (r : ℤ) (ps : List PricedLeg)
    → Picks k ps
    → All IsDirected ps
    → residual (adjust_at k r ps) ≡ residual ps -ℤ r
unfolding adjust_at
adjust_at-residual k r [] picks h = absurd picks
adjust_at-residual zero r (p ∷ ps) picks h = grind (int_laws, adjust_debits p r h.0)
adjust_at-residual (suc k) r (p ∷ ps) picks h =
    grind (int_laws, adjust_at-residual k r ps picks h.1)

pub absorb-residual :
    (ps : List PricedLeg)
    → All IsDirected ps
    → (residual (absorb ps) ≡ pos 0) ⊎ ((absorb ps ≡ ps) × (candidates ps < abs (residual ps)))
unfolding absorb
absorb-residual ps h = elim (Bool-cases (eqb_ℤ (residual ps) (pos 0))) [
  | inl even ↦ inl (rw even (eqb_ℤ→eq (residual ps) (pos 0) even))
  | inr odd ↦ elim (Bool-cases (ltb (candidates ps) (abs (residual ps)))) [
    | inl large ↦ inr (rw (odd, large) refl, ltb→lt _ _ large)
    | inr small ↦ elim (Option-cases (max_candidate 0 ps)) [
      | inl missing ↦ absurd (
          max_candidate-found 0 ps (some_candidate (residual ps) (candidates ps) odd small) missing)
      | inr ((j, b), found) ↦
          let (k, e, picks) = max_candidate-Picks 0 ps j b found in
          let at : j ≡ k = omega arith in
          inl (
            rw (odd, small, found, at)
              (adjust_at-residual k (residual ps) ps picks h ∙ sub_self (residual ps)))
    ]
  ]
]
  where
    some_candidate : (r : ℤ) (n : ℕ) → eqb_ℤ r (pos 0) ≡ false → ltb n (abs r) ≡ false → 0 < n
    some_candidate r n odd small = ground arith

    sub_self : (r : ℤ) → r -ℤ r ≡ pos 0
    sub_self r = grind int_laws

-- `absorb` returns the list, or the list with one leg adjusted that may be
pub absorb-Adjusts :
    (ps : List PricedLeg)
    → (absorb ps ≡ ps) ⊎ ((k : ℕ) × Picks k ps × (absorb ps ≡ adjust_at k (residual ps) ps))
unfolding absorb
absorb-Adjusts ps = elim (Bool-cases (eqb_ℤ (residual ps) (pos 0))) [
  | inl even ↦ inl (rw even refl)
  | inr odd ↦ elim (Bool-cases (ltb (candidates ps) (abs (residual ps)))) [
    | inl large ↦ inl (rw (odd, large) refl)
    | inr small ↦ elim (Option-cases (max_candidate 0 ps)) [
      | inl missing ↦ inl (rw (odd, small, missing) refl)
      | inr ((j, b), found) ↦
          let (k, e, picks) = max_candidate-Picks 0 ps j b found in
          let at : j ≡ k = omega arith in inr (k, picks, rw (odd, small, found, at) refl)
    ]
  ]
]
