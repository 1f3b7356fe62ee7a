-- ===== src/Operations/Statements/Snapshots.antt =====
-- `snapshot_nav` of operations/statements.py, and the table of NavSnapshot.
use mathlib.Core.List.{append-nil}
use fund_ledger.Base.{
  ℕ, ◌≤◌, ◌≡◌, refl, sym, ap, subst, Bool, true, false, not, ◌&&◌, List, [], ◌∷◌, ◌++◌, ◌==◌,
  ==_refl, some, filter, filter-append, filter-none, length, map, any, ltb, arith, Bool-cases, inl,
  inr, if◌then◌else◌,
}
use fund_ledger.Base.Int.{ℤ, abs}
use fund_ledger.Base.Result.{Result, ok, data_error, raise_if, ◌>>◌, guard-returns}
use fund_ledger.Ledger.Model.{Db, Fund, Period}
use fund_ledger.Ledger.Insert.{column_limit}
use fund_ledger.Operations.Statements.{nav}

pub record NavSnapshot : Type 0 where
  pub fund_id : ℕ
  pub as_of_date : ℕ
  pub total_nav : ℤ
  pub computed_at : ℕ

-- the row of a fund and a day
abbrev pub is_snapshot : ℕ → ℕ → NavSnapshot → Bool
is_snapshot fund day s = (s.fund_id == fund) && (s.as_of_date == day)

abbrev pub snapshot_of : Fund → Period → Db → NavSnapshot
snapshot_of fund p db = record {
  fund_id = fund.id;
  as_of_date = p.end_date;
  total_nav = nav fund (some p) db;
  computed_at = db.now;
}

-- `snapshot_nav`: `update_or_create`, by fund and day
unfoldable pub snapshot_nav :
    Fund → Period → Db → List NavSnapshot → Result (NavSnapshot × List NavSnapshot)
snapshot_nav fund p db rows =
    let s = snapshot_of fund p db in
    let mine = is_snapshot fund.id p.end_date in
    do
      raise_if (not (ltb (abs s.total_nav) column_limit)) data_error
      ok (s, if any mine rows then map (λ r. if mine r then s else r) rows else rows ++ (s ∷ []))

-- nav_one_per_fund_per_day
abbrev pub IsDaily : List NavSnapshot → Type 0
IsDaily rows = (fund day : ℕ) → length (filter (is_snapshot fund day) rows) ≤ 1

module _ (fund day : ℕ) (s : NavSnapshot) (own : is_snapshot fund day s ≡ true) where
  -- the row is replaced by one with its fund and day
  abbrev replaced : List NavSnapshot → List NavSnapshot
  replaced rows = map (λ r. if is_snapshot fund day r then s else r) rows

  length-replaced :
      (f d : ℕ) (rows : List NavSnapshot)
      → length (filter (is_snapshot f d) (replaced rows)) ≡ length (filter (is_snapshot f d) rows)
  length-replaced f d [] = refl
  length-replaced f d (r ∷ rows) = elim (Bool-cases (is_snapshot fund day r)) [
    | inl hit ↦ ground (arith, hit, own, length-replaced f d rows)
    | inr miss ↦ ground (arith, miss, length-replaced f d rows)
  ]

  length-added :
      (f d : ℕ) (rows : List NavSnapshot)
      → any (is_snapshot fund day) rows ≡ false
      → length (filter (is_snapshot f d) rows) ≤ 1
      → length (filter (is_snapshot f d) (rows ++ (s ∷ []))) ≤ 1
  length-added f d rows fresh few = elim (Bool-cases (is_snapshot f d s)) [
    | inr other ↦
        rw (filter-append (is_snapshot f d) rows (s ∷ []), other)
          (subst (λ (l : List NavSnapshot). length l ≤ 1)
            (sym (append-nil (filter (is_snapshot f d) rows))) few)
    | inl same ↦
        let of_fund : f ≡ fund = ground (arith, same, own) in
        let of_day : d ≡ day = ground (arith, same, own) in
        let nobody = filter-none (is_snapshot f d) rows (rw (of_fund, of_day) fresh) in
        rw (filter-append (is_snapshot f d) rows (s ∷ []), same, nobody) (omega arith)
  ]

-- A snapshot leaves one row for each fund and day, and one of the day holds the net asset value.
pub snapshot_nav-IsDaily :
    (fund : Fund) (p : Period) (db : Db) (rows : List NavSnapshot) {s : NavSnapshot}
    {rows' : List NavSnapshot}
    → IsDaily rows
    → snapshot_nav fund p db rows ≡ ok (s, rows')
    → IsDaily rows' × (s.total_nav ≡ nav fund (some p) db)
unfolding snapshot_nav
snapshot_nav-IsDaily fund p db rows {s} {rows'} daily h =
    let new = snapshot_of fund p db in
    let mine = is_snapshot fund.id p.end_date in
    let own : mine new ≡ true = rw (==_refl fund.id, ==_refl p.end_date) refl in
    let (_, h₁) = guard-returns (not (ltb (abs new.total_nav) column_limit)) data_error _ h in
    let row : new ≡ s = ground (arith, h₁) in
    (
      λ f d. elim (Bool-cases (any mine rows)) [
        | inl there ↦
            let same : replaced fund.id p.end_date new own rows ≡ rows' =
              ground (arith, rw there at h₁) in
            rw (← same, length-replaced fund.id p.end_date new own f d rows) (daily f d)
        | inr fresh ↦
            let same : rows ++ (new ∷ []) ≡ rows' = ground (arith, rw fresh at h₁) in
            rw (← same) (length-added fund.id p.end_date new own f d rows fresh (daily f d))
      ],
      ap (λ (x : NavSnapshot). x.total_nav) (sym row),
    )
