-- ===== src/Operations/Periods/Closing.antt =====
-- Closed periods of a fund come before its open ones, and closing keeps it so.
use fund_ledger.Base.{
  ◌⊎◌, ℕ, ◌≡◌, refl, subst, sym, ap, ◌∙◌, ==_iff, Bool, true, false, not, ◌&&◌, Option, none, some,
  List, [], ◌∷◌, ◌==◌, find, any, map, In, find-In, find-holds, arith, Bool-cases, inl, inr,
  if◌then◌else◌, ◌<◌,
}
use fund_ledger.Base.Result.{ok, err, ledger, period_not_closable, >>=-returns}
use fund_ledger.Ledger.Model.{Db, Period, is_open}
use fund_ledger.Ledger.Reconciliation.Zero.{IsBalanced, period_imbalance-zero}
use fund_ledger.Operations.Periods.{open_before, closed_row, save_closed, period_or, close_period}

-- no period of the same fund that starts before a closed one is open
abbrev pub IsPrefix : List Period → Type 0
IsPrefix ps =
    (p q : Period)
    → In p ps
    → In q ps
    → p.fund_id ≡ q.fund_id
    → p.start_date < q.start_date
    → is_open q.status ≡ false
    → is_open p.status ≡ false

-- ids are unique
abbrev pub IsKeyedPeriods : List Period → Type 0
IsKeyedPeriods ps = (p q : Period) → In p ps → In q ps → p.id ≡ q.id → p ≡ q

none_open :
    (fund start : ℕ) (ps : List Period) (p : Period)
    → any (open_before fund start) ps ≡ false
    → In p ps
    → p.fund_id ≡ fund
    → p.start_date < start
    → is_open p.status ≡ false
none_open fund start [] p h i e l = absurd i
none_open fund start (q ∷ qs) p h (inl same) e l = ground (arith, same)
none_open fund start (q ∷ qs) p h (inr later) e l =
    none_open fund start qs p (ground (arith, h)) later e l

In-map :
    (f : Period → Period) (p : Period) (ps : List Period)
    → In p (map f ps)
    → (q : Period) × In q ps × (p ≡ f q)
In-map f p [] i = absurd i
In-map f p (q ∷ qs) (inl e) = (q, inl refl, e)
In-map f p (q ∷ qs) (inr later) = let (r, i, e) = In-map f p qs later in (r, inr i, e)

-- what a call that returned has found and done
pub record Closed (fund i who : ℕ) (db db' : Db) : Type 0 where
  pub row : Period
  pub found : find (λ p. (p.id == i) && (p.fund_id == fund)) db.periods ≡ some row
  pub done :
      ((is_open row.status ≡ false) × (db' ≡ db))
      ⊎ ((any (open_before fund row.start_date) db.periods ≡ false)
          × (db' ≡ record db { periods = map (save_closed row.id db.now who) db.periods }))

period_or-returns : (o : Option Period) (p : Period) → period_or o ≡ ok p → o ≡ some p
period_or-returns none p h = absurd (cc)
period_or-returns (some q) p h = ground arith

pub close_period-Closed :
    (fund i who : ℕ) (db : Db) (p : Period) (changed : Bool) (db' : Db)
    → close_period fund i who db ≡ ok ((p, changed), db')
    → Closed fund i who db db'
unfolding close_period
close_period-Closed fund i who db p changed db' h =
    let (row, got, h₁) =
      >>=-returns (period_or (find (λ p. (p.id == i) && (p.fund_id == fund)) db.periods)) _ h in
    record {
      row = row;
      found = period_or-returns _ row got;
      done = elim (Bool-cases (is_open row.status)) [
        | inl live ↦ inr (ground (arith, live, h₁), ground (arith, live, h₁))
        | inr shut ↦ inl (shut, ground (arith, h₁))
      ];
    }

save_closed-keeps :
    (i now who : ℕ) (p : Period)
    → ((save_closed i now who p).fund_id ≡ p.fund_id)
      × ((save_closed i now who p).start_date ≡ p.start_date)
save_closed-keeps i now who p = elim (Bool-cases (p.id == i)) [
  | inl same ↦ rw same (refl, refl)
  | inr other ↦ rw other (refl, refl)
]

module _ (now who : ℕ) (ps : List Period) (r : Period) (keyed : IsKeyedPeriods ps)
    (ordered : IsPrefix ps) (there : In r ps)
    (prior : any (open_before r.fund_id r.start_date) ps ≡ false) where
  save_closed-closes :
      (p q : Period)
      → In p ps
      → In q ps
      → p.fund_id ≡ q.fund_id
      → p.start_date < q.start_date
      → is_open (save_closed r.id now who q).status ≡ false
      → is_open (save_closed r.id now who p).status ≡ false
  save_closed-closes p q was_p was_q same before shut = elim (Bool-cases (p.id == r.id)) [
    | inl it ↦ rw it refl
    | inr other ↦ elim (Bool-cases (q.id == r.id)) [
      | inl it ↦
          let row : q ≡ r = keyed q r was_q there ((==_iff q.id r.id).0 it) in
          rw other (
            none_open r.fund_id r.start_date ps p prior was_p
              (same ∙ ap (λ (x : Period). x.fund_id) row)
              (rw (ap (λ (x : Period). x.start_date) row) at before))
      | inr another ↦ rw other (ordered p q was_p was_q same before (rw another at shut))
    ]
  ]

  -- the row is saved as closed, and everything before it is
  save_closed-IsPrefix : IsPrefix (map (save_closed r.id now who) ps)
  save_closed-IsPrefix p' q' in_p in_q same before shut =
      let save = save_closed r.id now who in
      let (p, was_p, is_p) = In-map save p' ps in_p in
      let (q, was_q, is_q) = In-map save q' ps in_q in
      let (p_fund, p_start) = save_closed-keeps r.id now who p in
      let (q_fund, q_start) = save_closed-keeps r.id now who q in
      let fund = λ (x : Period). x.fund_id in
      let start = λ (x : Period). x.start_date in
      subst (λ (x : Period). is_open x.status ≡ false) (sym is_p)
        (save_closed-closes p q was_p was_q
          (sym p_fund ∙ (sym (ap fund is_p) ∙ (same ∙ (ap fund is_q ∙ q_fund))))
          (omega (arith, p_start, q_start, ap start is_p, ap start is_q, before))
          (subst (λ (x : Period). is_open x.status ≡ false) is_q shut))

-- Closing a period keeps every closed period of a fund before its open ones.
pub close_period-IsPrefix :
    (fund i who : ℕ) (db : Db) {p : Period} {changed : Bool} {db' : Db}
    → IsKeyedPeriods db.periods
    → IsPrefix db.periods
    → close_period fund i who db ≡ ok ((p, changed), db')
    → IsPrefix db'.periods
close_period-IsPrefix fund i who db {p} {changed} {db'} keyed ordered h =
    let c = close_period-Closed fund i who db p changed db' h in
    let own =
      find-holds (λ (p : Period). (p.id == i) && (p.fund_id == fund)) db.periods c.row c.found in
    let there =
      find-In (λ (p : Period). (p.id == i) && (p.fund_id == fund)) db.periods c.row c.found in
    let fund_of : c.row.fund_id ≡ fund = ground (arith, own) in
    elim c.done [
      | inl (_, same) ↦ rw same ordered
      | inr (prior, written) ↦
          rw written (
            save_closed-IsPrefix db.now who db.periods c.row keyed ordered there (rw fund_of prior))
    ]

-- In a ledger whose transfers balance, closing a period of the fund changes nothing if it is closed,
-- is refused if an earlier period of the fund is open, and closes it otherwise: never is it
-- refused for an imbalance.
pub close_period-of_balanced :
    (fund i who : ℕ) (db : Db) (p : Period)
    → IsBalanced db
    → find (λ p. (p.id == i) && (p.fund_id == fund)) db.periods ≡ some p
    → close_period fund i who db ≡ (
        if not (is_open p.status)
        then ok ((p, false), db)
        else if any (open_before fund p.start_date) db.periods
        then err (ledger period_not_closable)
        else ok (
          (closed_row db.now who p, true),
          record db { periods = map (save_closed p.id db.now who) db.periods },
        ))
unfolding close_period
close_period-of_balanced fund i who db p balanced found =
    rw (found, period_imbalance-zero db balanced p.id) (ground arith)
