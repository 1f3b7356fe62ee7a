-- ===== src/Ledger/Reconciliation/Grouping.antt =====
-- A sum over a list is 0 if the sum over each of its groups is.
use fund_ledger.Base.{
  ℕ, zero, suc, ◌≤◌, ◌≡◌, refl, Bool, not, List, [], ◌∷◌, ◌==◌, filter, length, arith, Bool-cases,
  inl, inr, ◌≢◌, if◌then◌else◌, ==_iff, ==_refl,
}
use fund_ledger.Base.Int.{ℤ, pos, ◌+ℤ◌, int_laws, sum_by}

module _ {A : Type 0} (key : A → ℕ) (f : A → ℤ) where
  group : ℕ → List A → List A
  group k = filter (λ a. key a == k)

  others : ℕ → List A → List A
  others k = filter (λ a. not (key a == k))

  sum-split : (k : ℕ) (xs : List A) → sum_by f xs ≡ sum_by f (group k xs) +ℤ sum_by f (others k xs)
  unfolding group others
  sum-split k [] = grind int_laws
  sum-split k (x ∷ xs) = grind (int_laws, sum-split k xs)

  length-others : (k : ℕ) (xs : List A) → length (others k xs) ≤ length xs
  unfolding others
  length-others k [] = omega arith
  length-others k (x ∷ xs) = ground (arith, length-others k xs)

  group-others : (j k : ℕ) (xs : List A) → j ≢ k → group j (others k xs) ≡ group j xs
  unfolding group others
  group-others j k [] h = refl
  group-others j k (x ∷ xs) h = ground (arith, group-others j k xs h)

  group-others_self : (k : ℕ) (xs : List A) → group k (others k xs) ≡ []
  unfolding group others
  group-others_self k [] = refl
  group-others_self k (x ∷ xs) = ground (arith, group-others_self k xs)

  others-group_sum :
      (j k : ℕ) (xs : List A)
      → sum_by f (group j xs) ≡ pos 0
      → sum_by f (group j (others k xs)) ≡ pos 0
  others-group_sum j k xs h = elim (Bool-cases (j == k)) [
    | inl same ↦ rw ((==_iff j k).0 same, group-others_self k xs) refl
    | inr differ ↦ rw (group-others j k xs (λ e. ground (arith, e, differ))) h
  ]

  others_shorter :
      (x : A) (xs : List A) (n : ℕ) → length (x ∷ xs) ≤ suc n → length (others (key x) (x ∷ xs)) ≤ n
  unfolding others
  others_shorter x xs n le = ground (arith, ==_refl (key x), length-others (key x) xs)

  zero-of_groups_below :
      (n : ℕ) (xs : List A)
      → length xs ≤ n
      → ((k : ℕ) → sum_by f (group k xs) ≡ pos 0)
      → sum_by f xs ≡ pos 0
  zero-of_groups_below n [] le h = refl
  zero-of_groups_below zero (x ∷ xs) le h = elim le [ ]
  zero-of_groups_below (suc n) (x ∷ xs) le h =
      let k = key x in
      let rest =
        zero-of_groups_below n (others k (x ∷ xs)) (others_shorter x xs n le)
          (λ j. others-group_sum j k (x ∷ xs) (h j)) in
      rw (sum-split k (x ∷ xs), h k, rest) (grind int_laws)

  -- every group sums to 0, so the whole does
  zero-of_groups : (xs : List A) → ((k : ℕ) → sum_by f (group k xs) ≡ pos 0) → sum_by f xs ≡ pos 0
  zero-of_groups xs h = zero-of_groups_below (length xs) xs (omega arith) h

  group-filter :
      (q : ℕ → Bool) (k : ℕ) (xs : List A)
      → group k (filter (λ a. q (key a)) xs) ≡ (if q k then group k xs else [])
  unfolding group
  group-filter q k [] = ground arith
  group-filter q k (x ∷ xs) = ground (arith, group-filter q k xs)

  -- so does the sum over the groups whose key passes a test
  pub zero-of_groups_where :
      (q : ℕ → Bool) (xs : List A)
      → ((k : ℕ) → sum_by f (filter (λ a. key a == k) xs) ≡ pos 0)
      → sum_by f (filter (λ a. q (key a)) xs) ≡ pos 0
  unfolding group
  zero-of_groups_where q xs h = zero-of_groups (filter (λ a. q (key a)) xs) λ k.
      elim (Bool-cases (q k)) [
        | inl passes ↦ rw (group-filter q k xs, passes) (h k)
        | inr fails ↦ rw (group-filter q k xs, fails) refl
      ]
