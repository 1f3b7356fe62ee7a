-- ===== src/Operations/Contributions/Growth.antt =====
-- What a new capital call adds to the contributions of an account.
use fund_ledger.Base.{
  ℕ, ◌≡◌, refl, true, none, some, List, [], ◌∷◌, ◌++◌, ◌==◌, filter, filter-append, filter_alike,
  find-append, In, All, Option-cases, inl, inr,
}
use fund_ledger.Base.Int.{neg, ◌+ℤ◌, sum_by, sum_by-append, int_laws}
use fund_ledger.Ledger.Model.{Db, Entry, Transfer, signed_base_amount}
use fund_ledger.Ledger.Queries.{transfer_by_id, effective_type}
use fund_ledger.Ledger.Reverse.Cancels.{on_account}
use fund_ledger.Operations.Contributions.{is_capital_call, counts_as_call, contributed}

-- The foreign keys: the transfer of an entry is there, and so is what it reverses.
abbrev pub IsReferenced : Db → Type 0
IsReferenced db =
    (e : Entry)
    → In e db.entries
    → (t : Transfer) × (transfer_by_id e.transfer_id db ≡ some t)
      × ((r : ℕ) → t.reverses ≡ some r → (o : Transfer) × (transfer_by_id r db ≡ some o))

module _ (db db' : Db) (new : Transfer) (grown : db'.transfers ≡ db.transfers ++ (new ∷ [])) where
  transfer_kept :
      (i : ℕ) (t : Transfer) → transfer_by_id i db ≡ some t → transfer_by_id i db' ≡ some t
  transfer_kept i t h =
      rw grown (find-append (λ (s : Transfer). s.id == i) db.transfers (new ∷ []) t h)

  -- an entry counts as it did before
  counts_as_call_kept :
      IsReferenced db
      → (i : ℕ) (e : Entry) → In e db.entries
      → counts_as_call db' i e ≡ counts_as_call db i e
  unfolding effective_type
  counts_as_call_kept referenced i e here =
      let (t, found, target) = referenced e here in
      elim (Option-cases t.reverses) [
        | inl plain ↦ rw (transfer_kept e.transfer_id t found, found, plain) refl
        | inr (r, reverses) ↦
            let (o, original) = target r reverses in
            rw
              (
                transfer_kept e.transfer_id t found,
                found,
                reverses,
                transfer_kept r o original,
                original,
              )
              refl
      ]

  -- every entry of a new call counts
  counted_new :
      (i : ℕ) (es : List Entry)
      → transfer_by_id new.id db' ≡ some new
      → new.reverses ≡ none
      → is_capital_call new.transfer_type ≡ true
      → All (λ e. e.transfer_id ≡ new.id) es
      → sum_by signed_base_amount (filter (counts_as_call db' i) es)
        ≡ on_account signed_base_amount i es
  unfolding effective_type
  counted_new i [] found plain kind own = refl
  counted_new i (e ∷ es) found plain kind (first, rest) =
      rw (first, found, plain, kind) (grind (int_laws, counted_new i es found plain kind rest))

  pub contributed-append :
      (i : ℕ) (es : List Entry)
      → db'.entries ≡ db.entries ++ es
      → IsReferenced db
      → transfer_by_id new.id db' ≡ some new
      → new.reverses ≡ none
      → is_capital_call new.transfer_type ≡ true
      → All (λ e. e.transfer_id ≡ new.id) es
      → contributed i db' ≡ contributed i db +ℤ neg (on_account signed_base_amount i es)
  unfolding contributed
  contributed-append i es entries referenced found plain kind own =
      rw
        (
          entries,
          filter-append (counts_as_call db' i) db.entries es,
          sum_by-append signed_base_amount (filter (counts_as_call db' i) db.entries) _,
          counted_new i es found plain kind own,
          filter_alike (counts_as_call db' i) (counts_as_call db i) db.entries
              (counts_as_call_kept referenced i),
        )
        (grind int_laws)
