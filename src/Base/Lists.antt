-- ===== src/Base/Lists.antt =====
-- Lists counted by native numbers, Boolean filters and searches, and insertion sort by a test.
use Prim.Native.Nat.{ℕ, suc, ◌+◌}
use mathlib.Core.Path.{◌≡◌, refl, ap, sym, subst}
use mathlib.Core.Bool.{Bool, true, false, ◌&&◌, ◌||◌}
use mathlib.Core.Option.{Option, none, some}
use mathlib.Core.List.{List, [], ◌∷◌, ◌++◌}
use native.Mathlib.Omega.{arith}
use mathlib.Core.Logic.{◌⊎◌, inl, inr}
use fund_ledger.Base.Tests.{if◌then◌else◌, Bool-cases}

module _ {ℓ} {A : Type ℓ} where
  abbrev pub length : List A → ℕ
  length [] = 0
  length (x ∷ xs) = suc (length xs)

  abbrev pub filter : (A → Bool) → List A → List A
  filter p [] = []
  filter p (x ∷ xs) = let rest = filter p xs in if p x then x ∷ rest else rest

  -- the first element that passes, as `.filter(…).first()`
  abbrev pub find : (A → Bool) → List A → Option A
  find p [] = none
  find p (x ∷ xs) = if p x then some x else find p xs

  abbrev pub any : (A → Bool) → List A → Bool
  any p [] = false
  any p (x ∷ xs) = p x || any p xs

  abbrev pub all : (A → Bool) → List A → Bool
  all p [] = true
  all p (x ∷ xs) = p x && all p xs

  -- a predicate of every element
  abbrev pub All {κ} : (A → Type κ) → List A → Type κ
  All P [] = Unit
  All P (x ∷ xs) = P x × All P xs

  -- `sorted(…)` with a test "not after": stable, as Python's
  abbrev pub insert_by : (A → A → Bool) → A → List A → List A
  insert_by le x [] = x ∷ []
  insert_by le x (y ∷ ys) = if le x y then x ∷ y ∷ ys else y ∷ insert_by le x ys

  abbrev pub sort_by : (A → A → Bool) → List A → List A
  sort_by le [] = []
  sort_by le (x ∷ xs) = insert_by le x (sort_by le xs)

  abbrev pub map_or : {B : Type 0} → Option A → B → (A → B) → B
  map_or none d f = d
  map_or (some a) d f = f a

module _ {ℓ} {A : Type ℓ} where
  pub length-append : (xs ys : List A) → length (xs ++ ys) ≡ length xs + length ys
  length-append [] ys = omega arith
  length-append (x ∷ xs) ys = omega (arith, length-append xs ys)

  pub find-holds : (p : A → Bool) (xs : List A) (a : A) → find p xs ≡ some a → p a ≡ true
  find-holds p [] a h = cc
  find-holds p (x ∷ xs) a h = ground (arith, find-holds p xs a)

module _ {ℓ} {A : Type ℓ} where
  pub filter-append :
      (p : A → Bool) (xs ys : List A) → filter p (xs ++ ys) ≡ filter p xs ++ filter p ys
  filter-append p [] ys = refl
  filter-append p (x ∷ xs) ys = ground (arith, filter-append p xs ys)

  pub any-append : (p : A → Bool) (xs ys : List A) → any p (xs ++ ys) ≡ (any p xs || any p ys)
  any-append p [] ys = refl
  any-append p (x ∷ xs) ys = ground (arith, any-append p xs ys)

  pub find-append :
      (p : A → Bool) (xs ys : List A) (a : A) → find p xs ≡ some a → find p (xs ++ ys) ≡ some a
  find-append p [] ys a h = cc
  find-append p (x ∷ xs) ys a h = ground (arith, find-append p xs ys a)

  pub find-none : (p : A → Bool) (xs : List A) → any p xs ≡ false → find p xs ≡ none
  find-none p [] h = refl
  find-none p (x ∷ xs) h = ground (arith, find-none p xs)

  pub filter-none : (p : A → Bool) (xs : List A) → any p xs ≡ false → filter p xs ≡ []
  filter-none p [] h = refl
  filter-none p (x ∷ xs) h = ground (arith, filter-none p xs)

  pub find-snoc :
      (p : A → Bool) (xs : List A) (y : A)
      → find p xs ≡ none
      → p y ≡ true
      → find p (xs ++ (y ∷ [])) ≡ some y
  find-snoc p [] y h e = ground arith
  find-snoc p (x ∷ xs) y h e = ground (arith, find-snoc p xs y)

  pub append_snoc : (xs : List A) (y : A) (ys : List A) → (xs ++ (y ∷ [])) ++ ys ≡ xs ++ (y ∷ ys)
  append_snoc [] y ys = refl
  append_snoc (x ∷ xs) y ys = ap (◌∷◌ x) (append_snoc xs y ys)

module _ {A : Type 0} where
  -- membership, which computes
  abbrev pub In : A → List A → Type 0
  In a [] = ⊥
  In a (x ∷ xs) = (a ≡ x) ⊎ In a xs

  -- two tests that agree on a list filter it alike
  pub filter_alike :
      (p q : A → Bool) (xs : List A) → ((x : A) → In x xs → p x ≡ q x) → filter p xs ≡ filter q xs
  filter_alike p q [] h = refl
  filter_alike p q (x ∷ xs) h = rw (h x (inl refl), filter_alike p q xs (λ y i. h y (inr i))) refl

  pub find-In : (p : A → Bool) (xs : List A) (a : A) → find p xs ≡ some a → In a xs
  find-In p [] a h = absurd (cc)
  find-In p (x ∷ xs) a h = ground (arith, find-In p xs a)

  pub In-filter : (p : A → Bool) (a : A) (xs : List A) → In a (filter p xs) → In a xs
  In-filter p a [] h = h
  In-filter p a (x ∷ xs) h = ground (arith, In-filter p a xs)

  pub In-filter_holds : (p : A → Bool) (a : A) (xs : List A) → In a (filter p xs) → p a ≡ true
  In-filter_holds p a [] h = absurd h
  In-filter_holds p a (x ∷ xs) h = elim (Bool-cases (p x)) [
    | inl passes ↦ elim (rw passes at h) [
      | inl head ↦ rw head passes
      | inr later ↦ In-filter_holds p a xs later
    ]
    | inr fails ↦ In-filter_holds p a xs (rw fails at h)
  ]

  In-insert_by :
      (le : A → A → Bool) (a x : A) (ys : List A) → In a (insert_by le x ys) → (a ≡ x) ⊎ In a ys
  In-insert_by le a x [] h = h
  In-insert_by le a x (y ∷ ys) h = ground (arith, In-insert_by le a x ys)

  pub In-sort_by : (le : A → A → Bool) (a : A) (xs : List A) → In a (sort_by le xs) → In a xs
  In-sort_by le a [] h = h
  In-sort_by le a (x ∷ xs) h = elim (In-insert_by le a x (sort_by le xs) h) [
    | inl head ↦ inl head
    | inr rest ↦ inr (In-sort_by le a xs rest)
  ]

module _ {A : Type 0} (P : A → Type 0) where
  All-insert_by :
      (le : A → A → Bool) (x : A) (ys : List A) → P x → All P ys → All P (insert_by le x ys)
  All-insert_by le x [] h hs = (h, tt)
  All-insert_by le x (y ∷ ys) h hs = elim (Bool-cases (le x y)) [
    | inl first ↦ rw first (h, hs)
    | inr later ↦ rw later (hs.0, All-insert_by le x ys h hs.1)
  ]

  pub All-sort_by : (le : A → A → Bool) (xs : List A) → All P xs → All P (sort_by le xs)
  All-sort_by le [] hs = tt
  All-sort_by le (x ∷ xs) hs = All-insert_by le x (sort_by le xs) hs.0 (All-sort_by le xs hs.1)

  pub All-map : {Q : A → Type 0} → ((x : A) → P x → Q x) → (xs : List A) → All P xs → All Q xs
  All-map f [] hs = tt
  All-map f (x ∷ xs) hs = (f x hs.0, All-map f xs hs.1)

module _ {A : Type 0} where
  length-insert_by :
      (le : A → A → Bool) (x : A) (ys : List A) → length (insert_by le x ys) ≡ suc (length ys)
  length-insert_by le x [] = refl
  length-insert_by le x (y ∷ ys) = ground (arith, length-insert_by le x ys)

  pub length-sort_by : (le : A → A → Bool) (xs : List A) → length (sort_by le xs) ≡ length xs
  length-sort_by le [] = refl
  length-sort_by le (x ∷ xs) =
      omega (arith, length-insert_by le x (sort_by le xs), length-sort_by le xs)

module _ {A : Type 0} where
  pub In-append : (a : A) (xs ys : List A) → In a (xs ++ ys) → In a xs ⊎ In a ys
  In-append a [] ys h = inr h
  In-append a (x ∷ xs) ys h = ground (arith, In-append a xs ys)

  pub All-In : (P : A → Type 0) (xs : List A) → All P xs → (a : A) → In a xs → P a
  All-In P [] h a i = absurd i
  All-In P (x ∷ xs) h a (inl e) = subst P (sym e) h.0
  All-In P (x ∷ xs) h a (inr later) = All-In P xs h.1 a later

  -- an element that passes a test that some element passes
  pub any-found : (p : A → Bool) (xs : List A) → any p xs ≡ true → (a : A) × In a xs × (p a ≡ true)
  any-found p [] h = absurd (cc)
  any-found p (x ∷ xs) h = elim (Bool-cases (p x)) [
    | inl passes ↦ (x, inl refl, passes)
    | inr fails ↦ let (a, there, passes) = any-found p xs (rw fails at h) in (a, inr there, passes)
  ]

  pub any-insert_by :
      (p : A → Bool) (le : A → A → Bool) (x : A) (ys : List A)
      → any p (insert_by le x ys) ≡ any p (x ∷ ys)
  any-insert_by p le x [] = refl
  any-insert_by p le x (y ∷ ys) = ground (arith, any-insert_by p le x ys)

  pub any-sort_by :
      (p : A → Bool) (le : A → A → Bool) (xs : List A) → any p (sort_by le xs) ≡ any p xs
  any-sort_by p le [] = refl
  any-sort_by p le (x ∷ xs) = rw (any-insert_by p le x (sort_by le xs), any-sort_by p le xs) refl

  pub filter-In : (p : A → Bool) (a : A) (xs : List A) → In a xs → p a ≡ true → In a (filter p xs)
  filter-In p a [] h passes = h
  filter-In p a (x ∷ xs) h passes = ground (arith, filter-In p a xs, h, passes)

  -- a test that an element passes holds of the list
  pub any-In : (p : A → Bool) (xs : List A) (a : A) → In a xs → p a ≡ true → any p xs ≡ true
  any-In p [] a i h = absurd i
  any-In p (x ∷ xs) a (inl e) h = ground (arith, e)
  any-In p (x ∷ xs) a (inr later) h = ground (arith, any-In p xs a later h)
