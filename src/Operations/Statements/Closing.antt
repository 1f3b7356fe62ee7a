-- ===== src/Operations/Statements/Closing.antt =====
-- A closing balance as the sum of what the periods have moved.
use fund_ledger.Base.{
  ℕ, ◌≡◌, refl, sym, ap, ◌∙◌, subst, List, [], ◌∷◌, ◌++◌, In, In-append, arith, inl, inr,
}
use fund_ledger.Base.Int.{ℤ, pos, neg, ◌+ℤ◌, ◌-ℤ◌, int_laws, sum_by, sum_by-append}
use fund_ledger.Base.Dict.{at}
use fund_ledger.Base.Result.{Result, ok, err, ◌>>=◌, >>=-returns}
use fund_ledger.Ledger.Model.{Db, Fund, Period, Account, AccountType, Entry, signed_base_amount}
use fund_ledger.Operations.Allocation.{Weights}
use fund_ledger.Operations.Chart.{commitments_of, lp_capital_accounts}
use fund_ledger.Operations.ProRata.{weights_of}
use fund_ledger.Operations.Statements.{
  Movement, net, no_movement, column_of, add_entry, add_entries, entries_in, lp_ledger_movement,
  fund_total, allocated, movement_of, roll, periods_until, Statement, lp_statement, start,
  as_contribution, as_distribution, as_other, Column,
}
use fund_ledger.Operations.Statements.Forward.{IsAbsent, sums, roll_last, lp_statement-rolled}

abbrev pub net_of : Result Movement → ℤ
net_of (err e) = pos 0
net_of (ok m) = net m

abbrev booked : Movement → ℤ
booked m = (m.contributions -ℤ m.distributions) +ℤ m.other

add_entry-booked :
    (c : Column) (e : Entry) (m : Movement)
    → booked (add_entry c e m) ≡ booked m +ℤ neg (signed_base_amount e)
add_entry-booked as_contribution e m = omega int_laws
add_entry-booked as_distribution e m = omega int_laws
add_entry-booked as_other e m = omega int_laws

add_entries-booked :
    (db : Db) (es : List Entry) (m : Movement)
    → booked (add_entries db es m) ≡ booked m +ℤ neg (sum_by signed_base_amount es)
add_entries-booked db [] m = omega int_laws
add_entries-booked db (e ∷ es) m =
    rw
      (
        add_entries-booked db es (add_entry (column_of db e) e m),
        add_entry-booked (column_of db e) e m,
      )
      (omega int_laws)

-- what a period moves: the entries on the account, the gains less the fees
pub movement_of-net :
    (fund : Fund) (lp : ℕ) (a : Account) (ws : Weights) (db : Db) (q : Period) (m : Movement)
    → movement_of fund lp a ws db q ≡ ok m
    → (g : ℤ) × (f : ℤ) × (allocated lp ws (neg (fund_total fund q AccountType.gain_loss db))
        ≡ ok g)
      × (allocated lp ws (fund_total fund q AccountType.fee_expense db) ≡ ok f)
      × (net m ≡ (neg (sum_by signed_base_amount (entries_in a.id q.id db)) +ℤ g) -ℤ f)
unfolding movement_of lp_ledger_movement
movement_of-net fund lp a ws db q m h =
    let (g, gained, h₁) = >>=-returns (allocated lp ws _) _ h in
    let (f, charged, h₂) = >>=-returns (allocated lp ws _) _ h₁ in
    let moved = lp_ledger_movement a q db in
    let same : record moved { allocated_gains = g; allocated_fees = f } ≡ m = ground (arith, h₂) in
    let total = add_entries-booked db (entries_in a.id q.id db) no_movement in
    (g, f, gained, charged, rw (← same) (ap (λ (z : ℤ). (z +ℤ g) -ℤ f) (total ∙ omega int_laws)))

module _ (movement : Period → Result Movement) where
  sums-nets :
      (ps : List Period) (t : ℤ × ℤ)
      → sums movement ps ≡ ok t
      → (t.0 ≡ sum_by (λ q. net_of (movement q)) ps)
        × ((q : Period) → In q ps → (m : Movement) × (movement q ≡ ok m))
  unfolding sums
  sums-nets [] t h =
      let same : (pos 0, pos 0) ≡ t = ground (arith, h) in
      (rw (← same) refl, λ q never. absurd never)
  sums-nets (p ∷ ps) t h =
      let (m, moved, h₁) = >>=-returns (movement p) _ h in
      let (u, rest, h₂) = >>=-returns (sums movement ps) _ h₁ in
      let whole : (net m +ℤ u.0, m.contributions +ℤ u.1) ≡ t = ground (arith, h₂) in
      let (nets, each) = sums-nets ps u rest in
      (
        rw (← whole, moved, nets) refl,
        λ q there. elim there [
          | inl same ↦ (m, ap movement same ∙ moved)
          | inr later ↦ each q later
        ],
      )

-- what a partner's account has moved in a period, by the dict of accounts
abbrev pub moves : Fund → Db → ℕ → Period → Result Movement
moves fund db lp q = at lp (lp_capital_accounts fund db) >>= λ a.
    movement_of fund lp a (weights_of (commitments_of fund db)) db q

pub closing-nets :
    (fund : Fund) (lp : ℕ) (p : Period) (ps : List Period) (db : Db) {s : Statement}
    → periods_until fund.id p db ≡ ps ++ (p ∷ [])
    → IsAbsent p.id ps
    → lp_statement fund lp p db ≡ ok s
    → (s.closing_balance ≡ sum_by (λ q. net_of (moves fund db lp q)) (ps ++ (p ∷ [])))
      × ((q : Period) → In q (ps ++ (p ∷ [])) → (m : Movement) × (moves fund db lp q ≡ ok m))
closing-nets fund lp p ps db {s} until absent h =
    let (c, a, r, found, rolled, shape) = lp_statement-rolled fund lp p db s h in
    let movement = movement_of fund lp a (weights_of (commitments_of fund db)) db in
    let to_p : roll movement p.id (ps ++ (p ∷ [])) start ≡ ok r =
      subst (λ (l : List Period). roll movement p.id l start ≡ ok r) until rolled in
    let (t, summed, moved, opening, _) = roll_last movement p ps absent to_p in
    let (nets, each) = sums-nets movement ps t summed in
    (
      ap (λ (x : Statement). x.closing_balance) shape
          ∙ (rw (found, opening, nets)
              (sym (
                sum_by-append (λ q. net_of (movement q)) ps (p ∷ []) ∙ rw moved (omega int_laws)))),
      λ q there. rw found (elim (In-append q ps (p ∷ []) there) [
        | inl before ↦ each q before
        | inr last ↦ elim last [
          | inl same ↦ (r.current, ap movement same ∙ moved)
          | inr never ↦ absurd never
        ]
      ]),
    )
