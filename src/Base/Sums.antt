-- ===== src/Base/Sums.antt =====
-- Laws of sums: parts, orders of summation, and sums with a test.
use Prim.Native.Nat.{ℕ}
use mathlib.Core.Path.{◌≡◌, refl, sym}
use mathlib.Core.Logic.{inl, inr}
use mathlib.Core.Bool.{Bool, true, false}
use mathlib.Core.List.{List, [], ◌∷◌}
use fund_ledger.Base.Tests.{◌==◌, ==_iff, Bool-cases}
use fund_ledger.Base.Lists.{filter, any, In}
use fund_ledger.Base.Int.{ℤ, pos, neg, ◌+ℤ◌, int_laws, sum_by}

abbrev pub when : Bool → ℤ → ℤ
when true v = v
when false v = pos 0

module _ {A : Type 0} where
  pub sum_by-filter :
      (f : A → ℤ) (p : A → Bool) (xs : List A)
      → sum_by f (filter p xs) ≡ sum_by (λ x. when (p x) (f x)) xs
  sum_by-filter f p [] = refl
  sum_by-filter f p (x ∷ xs) = elim (Bool-cases (p x)) [
    | inl kept ↦ rw (kept, sum_by-filter f p xs) refl
    | inr dropped ↦ rw (dropped, sum_by-filter f p xs) (omega int_laws)
  ]

  pub sum_by-alike :
      (f g : A → ℤ) (xs : List A) → ((x : A) → In x xs → f x ≡ g x) → sum_by f xs ≡ sum_by g xs
  sum_by-alike f g [] h = refl
  sum_by-alike f g (x ∷ xs) h =
      rw (h x (inl refl), sum_by-alike f g xs (λ y there. h y (inr there))) refl

  pub sum_by-add :
      (f g : A → ℤ) (xs : List A) → sum_by (λ x. f x +ℤ g x) xs ≡ sum_by f xs +ℤ sum_by g xs
  sum_by-add f g [] = omega int_laws
  sum_by-add f g (x ∷ xs) = rw (sum_by-add f g xs) (omega int_laws)

  pub sum_by-neg : (f : A → ℤ) (xs : List A) → sum_by (λ x. neg (f x)) xs ≡ neg (sum_by f xs)
  sum_by-neg f [] = omega int_laws
  sum_by-neg f (x ∷ xs) = rw (sum_by-neg f xs) (omega int_laws)

  pub sum_by-zero : (xs : List A) → sum_by (λ x. pos 0) xs ≡ pos 0
  sum_by-zero [] = refl
  sum_by-zero (x ∷ xs) = rw (sum_by-zero xs) (omega int_laws)

  -- no two elements have the same key
  abbrev pub Apart : (A → ℕ) → List A → Type 0
  Apart key [] = Unit
  Apart key (x ∷ xs) = (any (λ y. key y == key x) xs ≡ false) × Apart key xs

  none_with_key :
      (key : A → ℕ) (k : ℕ) (v : ℤ) (xs : List A)
      → any (λ y. key y == k) xs ≡ false
      → sum_by (λ x. when (key x == k) v) xs ≡ pos 0
  none_with_key key k v [] h = refl
  none_with_key key k v (x ∷ xs) h = grind (int_laws, none_with_key key k v xs, h)

  -- the element with a key counts once
  pub sum_by-key :
      (key : A → ℕ) (k : ℕ) (v : ℤ) (xs : List A)
      → Apart key xs
      → sum_by (λ x. when (key x == k) v) xs ≡ when (any (λ x. key x == k) xs) v
  sum_by-key key k v [] h = refl
  sum_by-key key k v (x ∷ xs) (h, hs) = elim (Bool-cases (key x == k)) [
    | inl same ↦
        rw (same, none_with_key key k v xs (rw ((==_iff (key x) k).0 same) at h)) (omega int_laws)
    | inr other ↦ rw (other, sum_by-key key k v xs hs) (omega int_laws)
  ]

module _ {A B : Type 0} where
  -- a sum of sums in the other order
  pub sum_by-swap :
      (f : A → B → ℤ) (xs : List A) (ys : List B)
      → sum_by (λ x. sum_by (λ y. f x y) ys) xs ≡ sum_by (λ y. sum_by (λ x. f x y) xs) ys
  sum_by-swap f [] ys = sym (sum_by-zero ys)
  sum_by-swap f (x ∷ xs) ys =
      rw (sum_by-swap f xs ys) (sym (sum_by-add (λ y. f x y) (λ y. sum_by (λ z. f z y) xs) ys))
