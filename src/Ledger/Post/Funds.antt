-- ===== src/Ledger/Post/Funds.antt =====
-- When `_check_sufficient_funds` refuses.
use fund_ledger.Base.{
  ℕ, ◌≡◌, refl, sym, ◌∙◌, subst, Bool, true, false, List, [], ◌∷◌, ◌==◌, ==_refl, ==_iff, ◌⊎◌, ◌↔◌,
  inl, inr, none, arith, if◌then◌else◌, Bool-cases,
}
use fund_ledger.Base.Int.{ℤ, pos, ◌+ℤ◌, ◌≤ℤ◌, int_laws}
use fund_ledger.Base.Result.{Result, ok, err, ledger, insufficient_funds, guard-returns}
use fund_ledger.Ledger.Model.{Db, PricedLeg, is_cash}
use fund_ledger.Ledger.Queries.{native_balance}
use fund_ledger.Ledger.Post.{
  Deltas, add_delta, add_deltas, leg_delta, is_overdrawn, check_deltas, check_sufficient_funds,
}
use fund_ledger.Ledger.Post.Solvent.{moved_cash, delta, delta-add_deltas}

-- the keys of the dict of deltas are different
abbrev has_key : ℕ → Deltas → Bool
has_key k [] = false
has_key k ((j, d) ∷ ds) = if k == j then true else has_key k ds

abbrev IsDistinct : Deltas → Type 0
IsDistinct [] = Unit
IsDistinct ((j, d) ∷ ds) = (has_key j ds ≡ false) × IsDistinct ds

has_key-add_delta :
    (k j : ℕ) (v : ℤ) (ds : Deltas)
    → (j == k) ≡ false
    → has_key j ds ≡ false
    → has_key j (add_delta k v ds) ≡ false
has_key-add_delta k j v [] other h = rw other refl
has_key-add_delta k j v ((i, d) ∷ ds) other h = ground (arith, has_key-add_delta k j v ds other)

add_delta-IsDistinct : (k : ℕ) (v : ℤ) (ds : Deltas) → IsDistinct ds → IsDistinct (add_delta k v ds)
add_delta-IsDistinct k v [] h = (refl, tt)
add_delta-IsDistinct k v ((j, d) ∷ ds) h = elim (Bool-cases (k == j)) [
  | inl same ↦ rw same h
  | inr other ↦
      rw other
        (has_key-add_delta k j v ds (ground (arith, other)) h.0, add_delta-IsDistinct k v ds h.1)
]

add_deltas-IsDistinct :
    (ps : List PricedLeg) (ds : Deltas) → IsDistinct ds → IsDistinct (add_deltas ps ds)
unfolding add_deltas
add_deltas-IsDistinct [] ds h = h
add_deltas-IsDistinct (p ∷ ps) ds h = elim (Bool-cases (is_cash p.account.account_type)) [
  | inl cash ↦ rw cash (
      add_deltas-IsDistinct ps (add_delta p.account.id (leg_delta p) ds)
        (add_delta-IsDistinct p.account.id (leg_delta p) ds h))
  | inr other ↦ rw other (add_deltas-IsDistinct ps ds h)
]

-- the account `i` is left with enough
abbrev Allows : Db → Deltas → ℕ → Type 0
Allows db ds i = is_overdrawn (native_balance i none db) (delta i ds) ≡ false

delta-has_key : (j : ℕ) (ds : Deltas) → has_key j ds ≡ false → delta j ds ≡ pos 0
delta-has_key j [] h = refl
delta-has_key j ((i, d) ∷ ds) h = ground (arith, delta-has_key j ds)

check_deltas-Allows :
    (ds : Deltas) (db : Db) → check_deltas ds db ≡ ok tt → (i : ℕ) → Allows db ds i
unfolding check_deltas
check_deltas-Allows [] db h i = refl
check_deltas-Allows ((j, d) ∷ ds) db h i =
    let (first, rest) =
      guard-returns (is_overdrawn (native_balance j none db) d) _ (check_deltas ds db) h in
    elim (Bool-cases (j == i)) [
      | inl same ↦ rw same (rw ((==_iff j i).0 same) at first)
      | inr other ↦ rw other (check_deltas-Allows ds db rest i)
    ]

Allows-check_deltas :
    (ds : Deltas) (db : Db)
    → IsDistinct ds
    → ((i : ℕ) → Allows db ds i)
    → check_deltas ds db ≡ ok tt
unfolding check_deltas
Allows-check_deltas [] db distinct h = refl
Allows-check_deltas ((j, d) ∷ ds) db (fresh, distinct) h =
    let first : is_overdrawn (native_balance j none db) d ≡ false = rw (==_refl j) at (h j) in
    let rest = Allows-check_deltas ds db distinct (λ i. elim (Bool-cases (j == i)) [
      | inl same ↦ rw (← (==_iff j i).0 same) (
          subst (λ (z : ℤ). is_overdrawn (native_balance j none db) z ≡ false)
            (sym (delta-has_key j ds fresh)) refl)
      | inr other ↦ rw other at (h i)
    ]) in
    rw first rest

-- refused in one way only
check_deltas-cases :
    (ds : Deltas) (db : Db)
    → (check_deltas ds db ≡ ok tt) ⊎ (check_deltas ds db ≡ err (ledger insufficient_funds))
unfolding check_deltas
check_deltas-cases [] db = inl refl
check_deltas-cases ((j, d) ∷ ds) db =
    elim (Bool-cases (is_overdrawn (native_balance j none db) d)) [
      | inl over ↦ inr (rw over refl)
      | inr enough ↦ rw enough (check_deltas-cases ds db)
    ]

-- Every cash account on which the legs take out more than they put in holds what that takes.
abbrev pub IsCovered : List PricedLeg → Db → Type 0
IsCovered ps db =
    (i : ℕ) → (pos 0 ≤ℤ moved_cash i ps) ⊎ (pos 0 ≤ℤ native_balance i none db +ℤ moved_cash i ps)

overdrawn_iff : (b d : ℤ) → (is_overdrawn b d ≡ false) ↔ ((pos 0 ≤ℤ d) ⊎ (pos 0 ≤ℤ b +ℤ d))
overdrawn_iff b d = ground arith

delta-moved_cash : (i : ℕ) (ps : List PricedLeg) → delta i (add_deltas ps []) ≡ moved_cash i ps
delta-moved_cash i ps = delta-add_deltas i ps [] ∙ grind int_laws

Allows-IsCovered :
    (ps : List PricedLeg) (db : Db) → ((i : ℕ) → Allows db (add_deltas ps []) i) ↔ IsCovered ps db
Allows-IsCovered ps db = (
  λ h i. (overdrawn_iff (native_balance i none db) (moved_cash i ps)).0 (
      subst (λ (z : ℤ). is_overdrawn (native_balance i none db) z ≡ false) (delta-moved_cash i ps)
        (h i)),
  λ h i.
      subst (λ (z : ℤ). is_overdrawn (native_balance i none db) z ≡ false)
        (sym (delta-moved_cash i ps))
        ((overdrawn_iff (native_balance i none db) (moved_cash i ps)).1 (h i)),
)

pub check_sufficient_funds_exact :
    (ps : List PricedLeg) (db : Db)
    → ((check_sufficient_funds ps db ≡ ok tt) × IsCovered ps db)
      ⊎ ((check_sufficient_funds ps db ≡ err (ledger insufficient_funds)) × (¬ IsCovered ps db))
unfolding check_sufficient_funds
check_sufficient_funds_exact ps db =
    let ds = add_deltas ps [] in
    elim (check_deltas-cases ds db) [
      | inl passed ↦ inl (passed, (Allows-IsCovered ps db).0 (check_deltas-Allows ds db passed))
      | inr refused ↦ inr (
        refused,
        λ covered.
            let passed =
              Allows-check_deltas ds db (add_deltas-IsDistinct ps [] tt)
                ((Allows-IsCovered ps db).1 covered) in
            let clash : ◌≡◌ {A = Result (Unit {0})} (ok tt) (err (ledger insufficient_funds)) =
              sym passed ∙ refused in
            absurd (cc),
      )
    ]
