-- ===== src/Operations/Statements/Shares.antt =====
-- What the partners are allocated of a total sums to the total.
use fund_ledger.Base.{
  ℕ, ◌*◌, ◌^◌, ◌/◌, ◌%◌, ◌<◌, ◌≡◌, refl, sym, ap, ◌∙◌, subst, not, List, [], ◌∷◌, ◌==◌, ==_refl,
  any, any-In, map, sort_by, length, arith, Bool-cases, inl, inr,
}
use fund_ledger.Base.Int.{ℤ, pos, negsuc, abs, ltb_ℤ, ◌+ℤ◌, sum_by}
use fund_ledger.Base.Sums.{Apart, sum_by-alike}
use fund_ledger.Base.Dict.{Dict, at}
use fund_ledger.Base.Result.{Result, ok, err, >>=-returns, guard-returns}
use fund_ledger.Ledger.Decimal.{with_sign, in_context}
use fund_ledger.Operations.Allocation.{
  Weights, Quotas, Shares, floors, add_one, add_ones, is_empty, weight_sum, take, quota_sum,
  goes_before, leftover, remainders, context_sum, distribute_by, to_shares, allocate,
}
use fund_ledger.Operations.Allocation.Sum.{allocate-sum}
use fund_ledger.Operations.Statements.{allocated, four_dp}

abbrev pub keys : {A : Type 0} → List (ℕ × A) → List ℕ
keys d = map (λ p. p.0) d

abbrev pub value_or_zero : Result ℤ → ℤ
value_or_zero (err e) = pos 0
value_or_zero (ok v) = v

keys-add_one : (k : ℕ) (qs : Quotas) → keys (add_one k qs) ≡ keys qs
keys-add_one k [] = refl
keys-add_one k ((j, n) ∷ qs) = elim (Bool-cases (k == j)) [
  | inl same ↦ rw same refl
  | inr other ↦ rw other (ap (◌∷◌ j) (keys-add_one k qs))
]

keys-add_ones : (picks qs : Quotas) → keys (add_ones picks qs) ≡ keys qs
keys-add_ones [] qs = refl
keys-add_ones ((k, r) ∷ picks) qs = keys-add_ones picks (add_one k qs) ∙ keys-add_one k qs

keys-floors : (n total : ℕ) (ws : Weights) → keys (floors n total ws) ≡ keys ws
keys-floors n total [] = refl
keys-floors n total ((k, w) ∷ ws) = ap (◌∷◌ k) (keys-floors n total ws)

keys-to_shares : (c : ℤ) (quantum : ℕ) (qs : Quotas) → keys (to_shares c quantum qs) ≡ keys qs
unfolding to_shares
keys-to_shares c quantum [] = refl
keys-to_shares c quantum ((k, n) ∷ qs) = ap (◌∷◌ k) (keys-to_shares c quantum qs)

keys-distribute_by : (total n : ℕ) (ws : Weights) → keys (distribute_by total n ws) ≡ keys ws
unfolding distribute_by
keys-distribute_by total n ws =
    let low = floors n total ws in
    let by_remainder = sort_by goes_before (remainders n total ws) in
    keys-add_ones (take (leftover n (quota_sum low) (length ws)) by_remainder) low
    ∙ keys-floors n total ws

-- the shares are those of the partners, in their order
keys-allocate :
    (c : ℤ) (k : ℕ) (ws : Weights) (quantum : ℕ) (ss : Shares)
    → allocate c k ws quantum ≡ ok ss
    → keys ss ≡ keys ws
unfolding allocate
keys-allocate c k ws quantum ss h =
    let a = in_context (abs c) * 10 ^ 4 in
    let q = quantum * 10 ^ k in
    let (_, h₁) = guard-returns (is_empty ws) _ _ h in
    let (_, h₂) = guard-returns (any (λ (_, w). ltb_ℤ w (pos 0)) ws) _ _ h₁ in
    let (_, h₃) = guard-returns (context_sum ws == 0) _ _ h₂ in
    let (_, h₄) = guard-returns (not (a % q == 0)) _ _ h₃ in
    let same : to_shares c quantum (distribute_by (context_sum ws) (a / q) ws) ≡ ss =
      ground (arith, h₄) in
    rw (← same) (
      keys-to_shares c quantum (distribute_by (context_sum ws) (a / q) ws)
      ∙ keys-distribute_by (context_sum ws) (a / q) ws)

-- the values of a dict, looked up by its keys
sum-at :
    (d : Dict ℤ)
    → Apart (λ k. k) (keys d)
    → sum_by (λ k. value_or_zero (at k d)) (keys d) ≡ sum_by (λ p. p.1) d
sum-at [] h = refl
sum-at ((k, v) ∷ d) (fresh, h) =
    let rest =
      sum_by-alike (λ j. value_or_zero (at j ((k, v) ∷ d))) (λ j. value_or_zero (at j d)) (keys d)
        (λ j there. elim (Bool-cases (j == k)) [
          | inl same ↦ absurd (cc (any-In (λ i. i == k) (keys d) j there same))
          | inr other ↦ rw other refl
        ]) in
    rw (==_refl k) (ap (λ (z : ℤ). v +ℤ z) (rest ∙ sum-at d h))

with_sign-abs : (c : ℤ) → with_sign c (abs c) ≡ c
with_sign-abs (pos n) = ground arith
with_sign-abs (negsuc n) = ground arith

pub allocated-sum :
    (ws : Weights) (total : ℤ) (lp : ℕ) {v : ℤ}
    → Apart (λ k. k) (keys ws)
    → abs total < 10 ^ 28
    → weight_sum ws < 10 ^ 28
    → allocated lp ws total ≡ ok v
    → sum_by (λ i. value_or_zero (allocated i ws total)) (keys ws) ≡ total
allocated-sum ws total lp {v} apart short light h =
    let (ss, given, _) = >>=-returns (allocate total 4 ws four_dp) (at lp) h in
    let (u, summed, whole) =
      allocate-sum total 4 ws four_dp short (omega (arith, short)) light given in
    let same = keys-allocate total 4 ws four_dp ss given in
    let exact : u ≡ abs total = omega (arith, whole) in
    rw given (
      subst (λ (l : List ℕ). sum_by (λ i. value_or_zero (at i ss)) l ≡ total) same
        (sum-at ss (subst (λ (l : List ℕ). Apart (λ k. k) l) (sym same) apart)
          ∙ (summed ∙ (ap (with_sign total) exact ∙ with_sign-abs total))))
