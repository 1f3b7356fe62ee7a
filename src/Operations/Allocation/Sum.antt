-- ===== src/Operations/Allocation/Sum.antt =====
-- The shares sum to the total, exactly.
use native.Mathlib.Nat.{div-add-mod, mod-lt}
use fund_ledger.Base.{
  ℕ, zero, suc, ◌+◌, ◌-◌, ◌*◌, ◌/◌, ◌%◌, ◌^◌, ◌≤◌, ◌<◌, ◌≡◌, refl, ap, sym, ◌∙◌, Bool, true, false,
  not, [], ◌∷◌, ◌==◌, any, length, sort_by, All, arith, ◌||◌, ==_refl, All-map, All-sort_by,
  length-sort_by,
}
use fund_ledger.Base.Int.{ℤ, pos, negsuc, abs, pos_part, neg_part, ltb_ℤ, sum_by, ◌+ℤ◌, int_laws}
use fund_ledger.Base.Result.{ok, guard-returns}
use fund_ledger.Ledger.Decimal.{with_sign, in_context}
use fund_ledger.Ledger.Decimal.Context.{in_context_fits}
use fund_ledger.Operations.Allocation.{
  Weights, Quotas, Shares, is_empty, weight_sum, floors, remainders, quota_sum, goes_before, take,
  add_one, add_ones, leftover, sum_from, context_sum, distribute_by, distribute, to_shares,
  allocate,
}

-- what the floors leave is the sum of the remainders
floors-remainders :
    (n total : ℕ) (ws : Weights)
    → total * quota_sum (floors n total ws) + quota_sum (remainders n total ws) ≡ n * weight_sum ws
floors-remainders n total [] = omega arith
floors-remainders n total ((k, w) ∷ ws) =
    omega (arith, floors-remainders n total ws, div-add-mod (n * pos_part w) total)

remainders-below :
    (n total : ℕ) (ws : Weights)
    → 0 < total
    → quota_sum (remainders n total ws) + length ws ≤ total * length ws
remainders-below n total [] h = omega arith
remainders-below n total ((k, w) ∷ ws) h =
    omega (arith, remainders-below n total ws h, mod-lt (n * pos_part w) h)

length-floors : (n total : ℕ) (ws : Weights) → length (floors n total ws) ≡ length ws
length-floors n total [] = refl
length-floors n total (w ∷ ws) = ap suc (length-floors n total ws)

length-remainders : (n total : ℕ) (ws : Weights) → length (remainders n total ws) ≡ length ws
length-remainders n total [] = refl
length-remainders n total (w ∷ ws) = ap suc (length-remainders n total ws)

le_of_products : (w a b : ℕ) → 0 < w → w * a ≤ w * b → a ≤ b
le_of_products w a b h le = grind arith

lt_of_products : (w a b : ℕ) → 0 < w → 0 < b → w * a + b ≤ w * b → a < b
lt_of_products w a b h some_b le = grind arith

lt_of_multiples : (w a b : ℕ) → a * w < b * w → a < b
lt_of_multiples w a b less = grind arith

weights_present : (ws : Weights) → 0 < weight_sum ws → 0 < length ws
weights_present [] h = h
weights_present (w ∷ ws) h = omega arith

floors_le : (n : ℕ) (ws : Weights) → 0 < weight_sum ws → quota_sum (floors n (weight_sum ws) ws) ≤ n
floors_le n ws h =
    le_of_products (weight_sum ws) _ n h (omega (arith, floors-remainders n (weight_sum ws) ws))

-- fewer quanta are left over than there are keys
leftover-lt :
    (n : ℕ) (ws : Weights)
    → 0 < weight_sum ws
    → n - quota_sum (floors n (weight_sum ws) ws) < length ws
leftover-lt n ws h =
    let total = weight_sum ws in
    let low = quota_sum (floors n total ws) in
    let d = n - low in
    let whole : n ≡ low + d = omega (arith, floors_le n ws h) in
    lt_of_products total d (length ws) h (weights_present ws h) (
      omega (
        arith,
        ap (λ (m : ℕ). total * m) whole,
        floors-remainders n total ws,
        remainders-below n total ws h,
      ))

-- a key of the dict
abbrev pub has_key : Quotas → ℕ → Bool
has_key [] k = false
has_key ((j, n) ∷ qs) k = k == j || has_key qs k

quota_sum-add_one :
    (k : ℕ) (qs : Quotas) → has_key qs k ≡ true → quota_sum (add_one k qs) ≡ suc (quota_sum qs)
quota_sum-add_one k [] h = absurd (cc)
quota_sum-add_one k ((j, n) ∷ qs) h = ground (arith, quota_sum-add_one k qs)

has_key-add_one : (i k : ℕ) (qs : Quotas) → has_key (add_one k qs) i ≡ has_key qs i
has_key-add_one i k [] = refl
has_key-add_one i k ((j, n) ∷ qs) = ground (arith, has_key-add_one i k qs)

quota_sum-add_ones :
    (rs qs : Quotas)
    → All (λ (r : ℕ × ℕ). has_key qs r.0 ≡ true) rs
    → quota_sum (add_ones rs qs) ≡ length rs + quota_sum qs
quota_sum-add_ones [] qs h = omega arith
quota_sum-add_ones ((k, r) ∷ rs) qs h =
    let still =
      All-map (λ (r : ℕ × ℕ). has_key qs r.0 ≡ true) (λ s t. has_key-add_one s.0 k qs ∙ t) rs h.1 in
    omega (arith, quota_sum-add_ones rs (add_one k qs) still, quota_sum-add_one k qs h.0)

remainders-keys :
    (n total : ℕ) (ws : Weights)
    → All (λ (r : ℕ × ℕ). has_key (floors n total ws) r.0 ≡ true) (remainders n total ws)
remainders-keys n total [] = tt
remainders-keys n total ((k, w) ∷ ws) = (
  ground (arith, ==_refl k),
  All-map (λ (r : ℕ × ℕ). has_key (floors n total ws) r.0 ≡ true) (λ s t. ground (arith, t))
      (remainders n total ws) (remainders-keys n total ws),
)

All-take : (P : ℕ × ℕ → Type 0) (n : ℕ) (rs : Quotas) → All P rs → All P (take n rs)
All-take P zero rs h = tt
All-take P (suc n) [] h = tt
All-take P (suc n) (r ∷ rs) h = (h.0, All-take P n rs h.1)

length-take : (n : ℕ) (rs : Quotas) → n ≤ length rs → length (take n rs) ≡ n
length-take zero rs h = refl
length-take (suc n) [] h = absurd (omega arith)
length-take (suc n) (r ∷ rs) h = omega (arith, length-take n rs)

leftover_exact : (n low keys : ℕ) → low ≤ n → leftover n low keys ≡ n - low
leftover_exact n low keys le = ground (arith, le)

-- all the quanta are handed out
pub distribute-sum : (n : ℕ) (ws : Weights) → 0 < weight_sum ws → quota_sum (distribute n ws) ≡ n
unfolding distribute
distribute-sum n ws h =
    let total = weight_sum ws in
    let low = floors n total ws in
    let rs = remainders n total ws in
    let sorted = sort_by goes_before rs in
    let P = λ (r : ℕ × ℕ). has_key low r.0 ≡ true in
    let d = n - quota_sum low in
    let keyed = All-take P d sorted (All-sort_by P goes_before rs (remainders-keys n total ws)) in
    let enough : d ≤ length sorted =
      omega
        (arith, length-sort_by goes_before rs, length-remainders n total ws, leftover-lt n ws h) in
    rw (leftover_exact n (quota_sum low) (length ws) (floors_le n ws h)) (
      omega (
        arith,
        quota_sum-add_ones (take d sorted) low keyed,
        length-take d sorted enough,
        floors_le n ws h,
      ))

with_sign-parts :
    (c n : ℕ) → (pos_part (with_sign (negsuc c) n) ≡ 0) × (neg_part (with_sign (negsuc c) n) ≡ n)
with_sign-parts c zero = (refl, refl)
with_sign-parts c (suc n) = (refl, refl)

with_sign-add : (c : ℤ) (a b : ℕ) → with_sign c a +ℤ with_sign c b ≡ with_sign c (a + b)
with_sign-add (pos c) a b = grind int_laws
with_sign-add (negsuc c) a b =
    omega (int_laws, with_sign-parts c a, with_sign-parts c b, with_sign-parts c (a + b))

-- where no product has more than 28 digits
to_shares-sum :
    (c : ℤ) (quantum : ℕ) (qs : Quotas)
    → quota_sum qs * quantum < 10 ^ 28
    → sum_by (λ (s : ℕ × ℤ). s.1) (to_shares c quantum qs) ≡ with_sign c (quota_sum qs * quantum)
unfolding to_shares
to_shares-sum (pos a) quantum [] h = omega int_laws
to_shares-sum (negsuc a) quantum [] h = omega (int_laws, with_sign-parts a (0 * quantum))
to_shares-sum c quantum ((k, n) ∷ qs) h =
    let spread : (n + quota_sum qs) * quantum ≡ n * quantum + quota_sum qs * quantum =
      omega arith in
    rw
      (
        in_context_fits (n * quantum) (omega (arith, h, spread)),
        to_shares-sum c quantum qs (omega (arith, h, spread)),
      )
      (with_sign-add c (n * quantum) (quota_sum qs * quantum) ∙ ap (with_sign c) (sym spread))

sum_from_exact :
    (acc : ℕ) (ws : Weights) → acc + weight_sum ws < 10 ^ 28 → sum_from acc ws ≡ acc + weight_sum ws
sum_from_exact acc [] h = omega arith
sum_from_exact acc ((k, w) ∷ ws) h =
    rw (in_context_fits (acc + pos_part w) (omega (arith, h)))
      (sum_from_exact (acc + pos_part w) ws (omega (arith, h)) ∙ omega arith)

context_sum_exact : (ws : Weights) → weight_sum ws < 10 ^ 28 → context_sum ws ≡ weight_sum ws
unfolding context_sum
context_sum_exact ws h = sum_from_exact 0 ws (omega (arith, h)) ∙ omega arith

-- `allocate` distributes by the exact sum of weights, if it has at most 28 digits
by_exact_sum :
    (n : ℕ) (ws : Weights)
    → weight_sum ws < 10 ^ 28
    → distribute_by (context_sum ws) n ws ≡ distribute n ws
unfolding distribute
by_exact_sum n ws h = ap (λ (total : ℕ). distribute_by total n ws) (context_sum_exact ws h)

-- Where `allocate` returns, its shares sum to the total: u units, which are c / 10^k exactly. The
-- total has at most 28 digits and is below 10^24, and the weights sum to at most 28 digits.
pub allocate-sum :
    (c : ℤ) (k : ℕ) (ws : Weights) (quantum : ℕ) {shares : Shares}
    → abs c < 10 ^ 28
    → abs c * 10 ^ 4 < 10 ^ 28 * 10 ^ k
    → weight_sum ws < 10 ^ 28
    → allocate c k ws quantum ≡ ok shares
    → (u : ℕ) × (sum_by (λ (s : ℕ × ℤ). s.1) shares ≡ with_sign c u) × (u * 10 ^ k ≡ abs c * 10 ^ 4)
unfolding allocate
allocate-sum c k ws quantum {shares} short below light h =
    let a = in_context (abs c) * 10 ^ 4 in
    let q = quantum * 10 ^ k in
    let n = a / q in
    let (_, h₁) = guard-returns (is_empty ws) _ _ h in
    let (_, h₂) = guard-returns (any (λ (_, w). ltb_ℤ w (pos 0)) ws) _ _ h₁ in
    let (some_weight, h₃) = guard-returns (context_sum ws == 0) _ _ h₂ in
    let (whole, h₄) = guard-returns (not (a % q == 0)) _ _ h₃ in
    let same : to_shares c quantum (distribute_by (context_sum ws) n ws) ≡ shares =
      ground (arith, h₄) in
    let positive : 0 < weight_sum ws = ground (arith, some_weight, context_sum_exact ws light) in
    let exact : a % q ≡ 0 = ground (arith, whole) in
    let kept : in_context (abs c) ≡ abs c = in_context_fits (abs c) short in
    let all_units : n * quantum * 10 ^ k ≡ abs c * 10 ^ 4 =
      omega (arith, div-add-mod a q, exact, kept) in
    let few : n * quantum < 10 ^ 28 =
      lt_of_multiples (10 ^ k) (n * quantum) (10 ^ 28) (omega (arith, all_units, below)) in
    let handed = distribute-sum n ws positive in
    (
      n * quantum,
      rw (← same, by_exact_sum n ws light)
          (to_shares-sum c quantum (distribute n ws) (rw handed few)
            ∙ ap (λ (m : ℕ). with_sign c (m * quantum)) handed),
      all_units,
    )
