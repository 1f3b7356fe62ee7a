-- ===== src/Ledger/Guards/Calendar.antt =====
-- What the statements on funds_period do to the three tables.
use mathlib.Core.List.{append-nil}
use fund_ledger.Base.{
  ℕ, ◌≡◌, sym, ap, subst, Bool, true, false, not, ◌&&◌, some, List, [], ◌∷◌, ◌++◌, ◌==◌, arith,
  find, find-append, any, Bool-cases, inl, inr,
}
use fund_ledger.Base.Result.{ok, >>=-returns, guard-returns}
use fund_ledger.Ledger.Model.{Db, Period, is_open}
use fund_ledger.Ledger.Guards.{
  updated, remaining, keeping_id, check_periods, update_periods, insert_period, delete_periods,
}
use fund_ledger.Ledger.Guards.Grows.{Grows, not-true}

-- a row that is not touched is found where it was
find-updated :
    (touched : Period → Bool) (set : Period → Period) (i : ℕ) (p : Period) (ps : List Period)
    → any (λ p. touched p && not (is_open p.status)) ps ≡ false
    → is_open p.status ≡ false
    → find (λ q. q.id == i) ps ≡ some p
    → find (λ q. q.id == i) (updated touched (keeping_id set) ps) ≡ some p
find-updated touched set i p [] clear shut h = cc
find-updated touched set i p (q ∷ ps) clear shut h = elim (Bool-cases (touched q)) [
  | inl hit ↦ rw hit (ground (arith, find-updated touched set i p ps))
  | inr miss ↦ rw miss (ground (arith, find-updated touched set i p ps))
]

pub update_periods-Grows :
    {K : Period → Type 0} (touched : Period → Bool) (set : Period → Period) (db db' : Db)
    → update_periods touched set db ≡ ok db'
    → Grows K db db' []
unfolding update_periods
update_periods-Grows {K} touched set db db' h =
    let rows = updated touched (keeping_id set) db.periods in
    let (clear, h₁) =
      guard-returns (any (λ p. touched p && not (is_open p.status)) db.periods) _ _ h in
    let (_, checked, h₂) = >>=-returns (check_periods rows) _ h₁ in
    let done : record db { periods = rows } ≡ db' = ground (arith, h₂) in
    subst (λ (x : Db). Grows K db x []) done
      (record {
        entries = sym (append-nil db.entries);
        transfers = ([], sym (append-nil db.transfers));
        closed = λ i p k c. (find-updated touched set i p db.periods clear c.1 c.0, c.1);
        landed = tt;
      })

pub insert_period-Grows :
    {K : Period → Type 0} (q : Period) (db db' : Db)
    → insert_period q db ≡ ok db'
    → Grows K db db' []
unfolding insert_period
insert_period-Grows {K} q db db' h =
    let rows = db.periods ++ (q ∷ []) in
    let (fresh, h₁) = guard-returns (any (λ p. p.id == q.id) db.periods) _ _ h in
    let (_, checked, h₂) = >>=-returns (check_periods rows) _ h₁ in
    let done : record db { periods = rows } ≡ db' = ground (arith, h₂) in
    subst (λ (x : Db). Grows K db x []) done
      (record {
        entries = sym (append-nil db.entries);
        transfers = ([], sym (append-nil db.transfers));
        closed =
            λ i p k c. (find-append (λ (r : Period). r.id == i) db.periods (q ∷ []) p c.0, c.1);
        landed = tt;
      })

-- a row that is not deleted is found where it was, if it was the first of its key
find-remaining :
    (touched : Period → Bool) (i : ℕ) (p : Period) (ps : List Period)
    → touched p ≡ false
    → find (λ q. q.id == i) ps ≡ some p
    → find (λ q. q.id == i) (remaining touched ps) ≡ some p
find-remaining touched i p [] spared h = cc
find-remaining touched i p (q ∷ ps) spared h = elim (Bool-cases (q.id == i)) [
  | inl this ↦
      let same : q ≡ p = ground (arith) in
      let kept : touched q ≡ false = rw same spared in rw (kept, this) (ap some same)
  | inr other ↦ elim (Bool-cases (touched q)) [
    | inl hit ↦ rw hit (find-remaining touched i p ps spared (rw other at h))
    | inr miss ↦ rw (miss, other) (find-remaining touched i p ps spared (rw other at h))
  ]
]

pub delete_periods-Grows :
    {K : Period → Type 0} (touched : Period → Bool) (db db' : Db)
    → ((p : Period) → K p → not (touched p) ≡ true)
    → delete_periods touched db ≡ ok db'
    → Grows K db db' []
unfolding delete_periods
delete_periods-Grows {K} touched db db' spared h =
    let done : record db { periods = remaining touched db.periods } ≡ db' = ground (arith, h) in
    subst (λ (x : Db). Grows K db x []) done
      (record {
        entries = sym (append-nil db.entries);
        transfers = ([], sym (append-nil db.transfers));
        closed = λ i p k c.
            (find-remaining touched i p db.periods (not-true (touched p) (spared p k)) c.0, c.1);
        landed = tt;
      })
