-- ===== src/Operations/Allocation/Fair.antt =====
-- Each share is within one quantum of the exact pro-rata value.
use native.Mathlib.Nat.{div-add-mod, mod-lt}
use fund_ledger.Base.{
  ℕ, zero, suc, ◌+◌, ◌*◌, ◌/◌, ◌%◌, ◌≤◌, ◌<◌, ◌≡◌, refl, ap, ◌∙◌, Bool, some, [], ◌∷◌, ◌==◌,
  if◌then◌else◌, insert_by, sort_by, length, arith,
}
use fund_ledger.Base.Int.{ℤ, pos_part}
use fund_ledger.Base.Dict.{Dict, get}
use fund_ledger.Operations.Allocation.{
  Weights, Quotas, weight_sum, floors, remainders, quota_sum, goes_before, take, add_one, add_ones,
  leftover, distribute,
}

-- how often a key stands in a dict
abbrev pub occurrences : {A : Type 0} → ℕ → Dict A → ℕ
occurrences k [] = 0
occurrences k ((j, a) ∷ d) = let rest = occurrences k d in if k == j then suc rest else rest

-- a key stands there once
abbrev pub IsDict : {A : Type 0} → Dict A → Type 0
IsDict d = (k : ℕ) → occurrences k d ≤ 1

occurrences-insert_by :
    (le : ℕ × ℕ → ℕ × ℕ → Bool) (k : ℕ) (x : ℕ × ℕ) (qs : Quotas)
    → occurrences k (insert_by le x qs) ≡ occurrences k (x ∷ qs)
occurrences-insert_by le k x [] = refl
occurrences-insert_by le k x (y ∷ ys) = ground (arith, occurrences-insert_by le k x ys)

occurrences-sort_by :
    (le : ℕ × ℕ → ℕ × ℕ → Bool) (k : ℕ) (qs : Quotas)
    → occurrences k (sort_by le qs) ≡ occurrences k qs
occurrences-sort_by le k [] = refl
occurrences-sort_by le k (x ∷ qs) =
    ground (arith, occurrences-insert_by le k x (sort_by le qs), occurrences-sort_by le k qs)

occurrences-take : (k n : ℕ) (qs : Quotas) → occurrences k (take n qs) ≤ occurrences k qs
occurrences-take k zero qs = omega arith
occurrences-take k (suc n) [] = omega arith
occurrences-take k (suc n) (x ∷ qs) = ground (arith, occurrences-take k n qs)

occurrences-remainders :
    (k n total : ℕ) (ws : Weights) → occurrences k (remainders n total ws) ≡ occurrences k ws
occurrences-remainders k n total [] = refl
occurrences-remainders k n total (w ∷ ws) = ground (arith, occurrences-remainders k n total ws)

get-add_one :
    (k j : ℕ) (qs : Quotas) (n : ℕ)
    → get k qs ≡ some n
    → get k (add_one j qs) ≡ some (if k == j then suc n else n)
get-add_one k j [] n h = absurd (cc)
get-add_one k j ((i, m) ∷ qs) n h = ground (arith, get-add_one k j qs n)

get-add_ones :
    (k : ℕ) (picks qs : Quotas) (n : ℕ)
    → get k qs ≡ some n
    → get k (add_ones picks qs) ≡ some (occurrences k picks + n)
get-add_ones k [] qs n h = h ∙ ap some (omega arith)
get-add_ones k ((j, r) ∷ picks) qs n h =
    get-add_ones k picks (add_one j qs) (if k == j then suc n else n) (get-add_one k j qs n h)
    ∙ ap some (ground arith)

get-floors :
    (k n total : ℕ) (ws : Weights) (w : ℤ)
    → get k ws ≡ some w
    → get k (floors n total ws) ≡ some (n * pos_part w / total)
get-floors k n total [] w h = absurd (cc)
get-floors k n total ((j, v) ∷ ws) w h = ground (arith, get-floors k n total ws w)

within_above : (c q a total : ℕ) → c ≤ 1 → total * q + a % total ≡ a → (c + q) * total ≤ a + total
within_above zero q a total h e = grind arith
within_above (suc zero) q a total h e = grind arith
within_above (suc (suc c)) q a total h e = absurd (omega arith)

within_below :
    (c q a total : ℕ) → total * q + a % total ≡ a → a % total < total → a ≤ (c + q) * total + total
within_below c q a total e l = grind arith

pub distribute-IsFair :
    (n : ℕ) (ws : Weights)
    → IsDict ws
    → 0 < weight_sum ws
    → (k : ℕ) (w : ℤ) → get k ws ≡ some w
    → (m : ℕ) × (get k (distribute n ws) ≡ some m)
      × (m * weight_sum ws ≤ n * pos_part w + weight_sum ws)
      × (n * pos_part w ≤ m * weight_sum ws + weight_sum ws)
unfolding distribute
distribute-IsFair n ws dict positive k w found =
    let total = weight_sum ws in
    let low = floors n total ws in
    let rs = remainders n total ws in
    let left = leftover n (quota_sum low) (length ws) in
    let picks = take left (sort_by goes_before rs) in
    let few : occurrences k picks ≤ 1 = omega (
      arith,
      occurrences-take k left (sort_by goes_before rs),
      occurrences-sort_by goes_before k rs,
      occurrences-remainders k n total ws,
      dict k,
    ) in
    let q = n * pos_part w / total in
    (
      occurrences k picks + q,
      get-add_ones k picks low q (get-floors k n total ws w found),
      within_above (occurrences k picks) q (n * pos_part w) total few
          (div-add-mod (n * pos_part w) total),
      within_below (occurrences k picks) q (n * pos_part w) total
          (div-add-mod (n * pos_part w) total) (mod-lt (n * pos_part w) positive),
    )
