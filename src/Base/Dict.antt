-- ===== src/Base/Dict.antt =====
-- Python's dicts with ids as keys, in insertion order.
use mathlib.Core.Path.{◌≡◌}
use mathlib.Core.Logic.{◌⊎◌}
use native.Mathlib.Omega.{arith}
use Prim.Native.Nat.{ℕ}
use mathlib.Core.Option.{Option, none, some}
use mathlib.Core.List.{List, [], ◌∷◌}
use fund_ledger.Base.Tests.{◌==◌, if◌then◌else◌}
use fund_ledger.Base.Result.{Result, ok, err, key_error}

abbrev pub Dict : Type 0 → Type 0
Dict A = List (ℕ × A)

module _ {A : Type 0} where
  -- `d.get(k)`
  abbrev pub get : ℕ → Dict A → Option A
  get k [] = none
  get k ((j, a) ∷ d) = if k == j then some a else get k d

  abbrev pub or_key_error : Option A → Result A
  or_key_error none = err key_error
  or_key_error (some a) = ok a

  -- `d[k]`
  abbrev pub at : ℕ → Dict A → Result A
  at k d = or_key_error (get k d)

  -- `d[k] = a`
  abbrev pub set : ℕ → A → Dict A → Dict A
  set k a [] = (k, a) ∷ []
  set k a ((j, b) ∷ d) = if k == j then (j, a) ∷ d else (j, b) ∷ set k a d

  -- `d.values()`
  abbrev pub values : Dict A → List A
  values [] = []
  values ((k, a) ∷ d) = a ∷ values d

  pub at-returns : (k : ℕ) (d : Dict A) (a : A) → at k d ≡ ok a → get k d ≡ some a
  at-returns k d a h = go (get k d) h
    where
      go : (o : Option A) → or_key_error o ≡ ok a → o ≡ some a
      go none e = absurd (cc)
      go (some b) e = ground arith

  pub get-set :
      (k j : ℕ) (a : A) (d : Dict A) (b : A)
      → get k (set j a d) ≡ some b
      → ((j ≡ k) × (a ≡ b)) ⊎ (get k d ≡ some b)
  get-set k j a [] b h = ground (arith, h)
  get-set k j a ((i, c) ∷ d) b h = ground (arith, get-set k j a d b)
