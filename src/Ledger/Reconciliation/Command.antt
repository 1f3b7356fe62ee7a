-- ===== src/Ledger/Reconciliation/Command.antt =====
-- ledger/management/commands/reconcile.py: when the command succeeds.
use fund_ledger.Base.{
  ℕ, suc, ◌≡◌, refl, sym, ◌∙◌, Bool, true, false, not, ◌||◌, Option, none, List, [], ◌∷◌, ◌==◌,
  ==_iff, ◌⊎◌, ◌↔◌, inl, inr, filter, map, any, In, leb, insert_by, sort_by, arith, Bool-cases,
}
use fund_ledger.Base.Int.{ℤ, pos, eqb_ℤ, eqb_ℤ→eq}
use fund_ledger.Base.Result.{Result, Error, ok, command_error, raise_if}
use fund_ledger.Ledger.Model.{Db, Entry}
use fund_ledger.Ledger.Insert.{transfer_imbalance}
use fund_ledger.Ledger.Reconciliation.{
  total_imbalance, add_group, group_ids, group_sum, take, unbalanced_transfers,
}
use fund_ledger.Ledger.Reconciliation.Zero.{
  IsBalanced, sum-raw_signed, filter-true, total_imbalance-zero,
}

-- the parameter's default
abbrev pub unbalanced_limit : ℕ
unbalanced_limit = 100

abbrev pub is_empty : {A : Type 0} → List A → Bool
is_empty [] = true
is_empty (x ∷ xs) = false

-- `reconcile`, without what it prints
unfoldable pub reconcile : Option ℕ → Db → Result (Unit {0})
reconcile as_of db =
    raise_if
      (not (eqb_ℤ (total_imbalance as_of db) (pos 0))
        || not (is_empty (unbalanced_transfers none unbalanced_limit db)))
      command_error

insert_by-In : (a x : ℕ) (ys : List ℕ) → (a ≡ x) ⊎ In a ys → In a (insert_by leb x ys)
insert_by-In a x [] h = h
insert_by-In a x (y ∷ ys) h = ground (arith, insert_by-In a x ys, h)

sort_by-In : (a : ℕ) (xs : List ℕ) → In a xs → In a (sort_by leb xs)
sort_by-In a [] h = h
sort_by-In a (x ∷ xs) (inl e) = insert_by-In a x (sort_by leb xs) (inl e)
sort_by-In a (x ∷ xs) (inr later) = insert_by-In a x (sort_by leb xs) (inr (sort_by-In a xs later))

add_group-In : (t s : ℕ) (ts : List ℕ) → In t ts → In t (add_group s ts)
add_group-In t s ts h = ground (arith, h)

any-same : (t : ℕ) (ts : List ℕ) → any (λ s. s == t) ts ≡ true → In t ts
any-same t [] h = absurd (cc)
any-same t (s ∷ ts) h = elim (Bool-cases (s == t)) [
  | inl same ↦ inl (sym ((==_iff s t).0 same))
  | inr other ↦ inr (any-same t ts (rw other at h))
]

own-add_group : (t : ℕ) (ts : List ℕ) → In t (add_group t ts)
own-add_group t ts = elim (Bool-cases (any (λ s. s == t) ts)) [
  | inl there ↦ rw there (any-same t ts there)
  | inr missing ↦ rw missing (inl refl)
]

-- a transfer has a group, or no entries
group_cases :
    (t : ℕ) (es : List Entry) → In t (group_ids es) ⊎ (filter (λ e. e.transfer_id == t) es ≡ [])
group_cases t [] = inr refl
group_cases t (e ∷ es) = elim (Bool-cases (e.transfer_id == t)) [
  | inl own ↦
      inl (rw (← (==_iff e.transfer_id t).0 own) (own-add_group e.transfer_id (group_ids es)))
  | inr other ↦ elim (group_cases t es) [
    | inl there ↦ inl (add_group-In t e.transfer_id (group_ids es) there)
    | inr missing ↦ inr (rw other missing)
  ]
]

cons-nil {ℓ} : {A : Type ℓ} (x : A) (xs : List A) → ¬ (x ∷ xs ≡ [])
cons-nil x xs h = absurd (cc)

take-nil : (n : ℕ) (xs : List (ℕ × ℤ)) → take (suc n) xs ≡ [] → xs ≡ []
take-nil n [] h = refl
take-nil n (x ∷ xs) h = absurd (cons-nil x (take n xs) h)

is_empty-eq : {A : Type 0} (xs : List A) → is_empty xs ≡ true → xs ≡ []
is_empty-eq [] h = refl
is_empty-eq (x ∷ xs) h = absurd (cc)

module _ (g : ℕ → ℤ) where
  abbrev off : List ℕ → List (ℕ × ℤ)
  off ts = filter (λ (_, s). not (eqb_ℤ s (pos 0))) (map (λ t. (t, g t)) ts)

  off-none : (ts : List ℕ) (t : ℕ) → off ts ≡ [] → In t ts → g t ≡ pos 0
  off-none [] t h there = absurd there
  off-none (s ∷ ts) t h there = elim (Bool-cases (eqb_ℤ (g s) (pos 0))) [
    | inr wrong ↦ absurd (cons-nil (s, g s) (off ts) (rw wrong at h))
    | inl zero ↦ elim there [
      | inl same ↦ rw same (eqb_ℤ→eq (g s) (pos 0) zero)
      | inr later ↦ off-none ts t (rw zero at h) later
    ]
  ]

  none-off : (ts : List ℕ) → ((t : ℕ) → g t ≡ pos 0) → off ts ≡ []
  none-off [] h = refl
  none-off (s ∷ ts) h = rw (h s) (none-off ts h)

group_sum-eq : (db : Db) (t : ℕ) → group_sum db.entries t ≡ transfer_imbalance t db
unfolding transfer_imbalance
group_sum-eq db t = sum-raw_signed (filter (λ e. e.transfer_id == t) db.entries)

raise_if-returns : (b : Bool) (e : Error) → raise_if b e ≡ ok tt → b ≡ false
raise_if-returns true e h = absurd (cc)
raise_if-returns false e h = refl

-- the list of the transfers that are off is empty only if each sums to 0
unbalanced-none : (db : Db) → unbalanced_transfers none unbalanced_limit db ≡ [] → IsBalanced db
unfolding unbalanced_transfers
unbalanced-none db h t =
    let ts = sort_by leb (group_ids db.entries) in
    let uncut = take-nil 99 _ (rw (filter-true db.entries) at h) in
    sym (group_sum-eq db t) ∙ elim (group_cases t db.entries) [
      | inl there ↦
          off-none (group_sum db.entries) ts t uncut (sort_by-In t (group_ids db.entries) there)
      | inr missing ↦ rw missing refl
    ]

none-unbalanced : (db : Db) → IsBalanced db → unbalanced_transfers none unbalanced_limit db ≡ []
unfolding unbalanced_transfers
none-unbalanced db h =
    let ts = sort_by leb (group_ids db.entries) in
    rw (filter-true db.entries, none-off (group_sum db.entries) ts (λ t. group_sum-eq db t ∙ h t))
      refl

-- The command, run for the present, succeeds exactly if every transfer balances: its sum of all
-- entries and its list of the transfers that are off, which is cut at a hundred, miss none.
pub reconcile_iff : (db : Db) → (reconcile none db ≡ ok tt) ↔ IsBalanced db
unfolding reconcile
reconcile_iff db = (
  λ passed.
      let quiet = raise_if-returns _ command_error passed in
      unbalanced-none db
        (is_empty-eq (unbalanced_transfers none unbalanced_limit db) (ground (arith, quiet))),
  λ balanced. rw (total_imbalance-zero db balanced, none-unbalanced db balanced) refl,
)
