-- ===== src/Operations/Reference/Adds.antt =====
-- Loops of calls that make what is missing only add rows, and have nothing left to do a second time.
use mathlib.Core.List.{append-nil}
use fund_ledger.Base.{
  ◌≡◌, refl, sym, ap, ◌∙◌, subst, Bool, true, List, [], ◌∷◌, ◌++◌, arith, any, any-append, All,
}
use fund_ledger.Base.Result.{Result, ok, >>=-returns}
use fund_ledger.Ledger.Model.{Db, Account, Commitment, Fund, Period}
use fund_ledger.Operations.Reference.{ensure_all}

-- rows are only added to the tables of reference data
pub record Adds (db db' : Db) : Type 0 where
  pub funds : (fs : List Fund) × (db'.funds ≡ db.funds ++ fs)
  pub commitments : (cs : List Commitment) × (db'.commitments ≡ db.commitments ++ cs)
  pub periods : (ps : List Period) × (db'.periods ≡ db.periods ++ ps)
  pub accounts : (rows : List Account) × (db'.accounts ≡ db.accounts ++ rows)

module _ {A : Type 0} where
  append_twice : (xs ys zs : List A) → xs ++ (ys ++ zs) ≡ (xs ++ ys) ++ zs
  append_twice [] ys zs = refl
  append_twice (x ∷ xs) ys zs = ap (◌∷◌ x) (append_twice xs ys zs)

  added_twice :
      (xs : List A) {ys zs : List A}
      → ((us : List A) × (ys ≡ xs ++ us))
      → ((vs : List A) × (zs ≡ ys ++ vs))
      → (ws : List A) × (zs ≡ xs ++ ws)
  added_twice xs (us, e) (vs, f) =
      (us ++ vs, f ∙ (ap (λ (l : List A). l ++ vs) e ∙ sym (append_twice xs us vs)))

  pub none_added : (xs : List A) → (us : List A) × (xs ≡ xs ++ us)
  none_added xs = ([], sym (append-nil xs))

  pub any-added : (p : A → Bool) (xs us : List A) → any p xs ≡ true → any p (xs ++ us) ≡ true
  any-added p xs us h = rw (any-append p xs us, h) refl

pub Adds-refl : (db : Db) → Adds db db
Adds-refl db = record {
  funds = none_added db.funds;
  commitments = none_added db.commitments;
  periods = none_added db.periods;
  accounts = none_added db.accounts;
}

pub Adds-trans : {db mid db' : Db} → Adds db mid → Adds mid db' → Adds db db'
Adds-trans {db} a b = record {
  funds = added_twice db.funds a.funds b.funds;
  commitments = added_twice db.commitments a.commitments b.commitments;
  periods = added_twice db.periods a.periods b.periods;
  accounts = added_twice db.accounts a.accounts b.accounts;
}

-- calls that make what is missing: what they add stays, and is not made again
pub record Maker {K : Type 0} (ensure : K → Db → Result Db) (Has : K → Db → Type 0) : Type 0 where
  pub adds : (k : K) (db db' : Db) → ensure k db ≡ ok db' → Adds db db' × Has k db'
  pub stays : (k : K) (db db' : Db) → Adds db db' → Has k db → Has k db'
  pub idle : (k : K) (db : Db) → Has k db → ensure k db ≡ ok db

module _ {K : Type 0} {ensure : K → Db → Result Db} {Has : K → Db → Type 0}
    (maker : Maker ensure Has) where
  pub ensure_all-Adds : (ks : List K) (db db' : Db) → ensure_all ensure ks db ≡ ok db' → Adds db db'
  unfolding ensure_all
  ensure_all-Adds [] db db' h =
      let same : db ≡ db' = ground (arith, h) in subst (Adds db) same (Adds-refl db)
  ensure_all-Adds (k ∷ ks) db db' h =
      let (mid, first, rest) = >>=-returns (ensure k db) (ensure_all ensure ks) h in
      Adds-trans (maker.adds k db mid first).0 (ensure_all-Adds ks mid db' rest)

  ensure_all-gives :
      (ks : List K) (db db' : Db) → ensure_all ensure ks db ≡ ok db' → All (λ k. Has k db') ks
  unfolding ensure_all
  ensure_all-gives [] db db' h = tt
  ensure_all-gives (k ∷ ks) db db' h =
      let (mid, first, rest) = >>=-returns (ensure k db) (ensure_all ensure ks) h in
      (
        maker.stays k mid db' (ensure_all-Adds ks mid db' rest) (maker.adds k db mid first).1,
        ensure_all-gives ks mid db' rest,
      )

  ensure_all-idle :
      (ks : List K) (db later : Db)
      → Adds db later
      → All (λ k. Has k db) ks
      → ensure_all ensure ks later ≡ ok later
  unfolding ensure_all
  ensure_all-idle [] db later a h = refl
  ensure_all-idle (k ∷ ks) db later a h =
      rw (maker.idle k later (maker.stays k db later a h.0)) (ensure_all-idle ks db later a h.1)

  -- where the loop has run once, it has nothing left to do
  pub ensure_all_again :
      (ks : List K) (db db' later : Db)
      → ensure_all ensure ks db ≡ ok db'
      → Adds db' later
      → ensure_all ensure ks later ≡ ok later
  ensure_all_again ks db db' later h a =
      ensure_all-idle ks db' later a (ensure_all-gives ks db db' h)
