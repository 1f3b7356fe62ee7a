-- ===== src/Operations/Statements/Forward.antt =====
-- Statements roll forward: a period closes where the next one opens.
use fund_ledger.Base.{
  ℕ, ◌≡◌, refl, sym, ap, ◌∙◌, subst, false, List, [], ◌∷◌, ◌++◌, ◌==◌, ==_refl, any, arith,
}
use fund_ledger.Base.Int.{ℤ, pos, ◌+ℤ◌, +ℤ_assoc, +ℤ_comm, int_laws}
use fund_ledger.Base.Dict.{get, at}
use fund_ledger.Base.Result.{Result, ok, ◌>>=◌, >>=-returns}
use fund_ledger.Ledger.Model.{Db, Fund, Period, Account}
use fund_ledger.Operations.Chart.{commitments_of, lp_capital_accounts}
use fund_ledger.Operations.ProRata.{weights_of}
use fund_ledger.Operations.Statements.{
  Movement, net, Progress, start, advance, roll, movement_of, periods_until, Statement,
  statement_of, commitment_or, lp_statement,
}

-- no period of the list has the id
abbrev pub IsAbsent : ℕ → List Period → Type 0
IsAbsent i ps = any (λ p. p.id == i) ps ≡ false

advance_other :
    (target : ℕ) (p : Period) (m : Movement) (s : Progress)
    → (p.id == target) ≡ false
    → let s' = advance target p m s in
      (s'.opening ≡ s.opening +ℤ net m)
      × (s'.contributed_to_date ≡ s.contributed_to_date +ℤ m.contributions)
      × (s'.current ≡ s.current)
advance_other target p m s other = rw other (refl, refl, refl)

advance_own :
    (p : Period) (m : Movement) (s : Progress)
    → advance p.id p m s
      ≡ record s { contributed_to_date = s.contributed_to_date +ℤ m.contributions; current = m }
advance_own p m s = rw (==_refl p.id) refl

zero_left : (a : ℤ) → pos 0 +ℤ a ≡ a
zero_left a = omega int_laws

module _ (movement : Period → Result Movement) where
  roll-append :
      (target : ℕ) (ps qs : List Period) (s : Progress) {r : Progress}
      → roll movement target (ps ++ qs) s ≡ ok r
      → (mid : Progress) × (roll movement target ps s ≡ ok mid)
        × (roll movement target qs mid ≡ ok r)
  unfolding roll
  roll-append target [] qs s h = (s, refl, h)
  roll-append target (p ∷ ps) qs s h =
      let (m, moved, h₁) = >>=-returns (movement p) _ h in
      let (mid, first, last) = roll-append target ps qs (advance target p m s) h₁ in
      (mid, rw moved first, last)

  -- the sums of the net movements and of the contributions
  unfoldable pub sums : List Period → Result (ℤ × ℤ)
  sums [] = ok (pos 0, pos 0)
  sums (p ∷ ps) = movement p >>= λ m. sums ps >>= λ t. ok (net m +ℤ t.0, m.contributions +ℤ t.1)

  roll_before :
      (target : ℕ) (ps : List Period) (s : Progress) {r : Progress}
      → IsAbsent target ps
      → roll movement target ps s ≡ ok r
      → (t : ℤ × ℤ) × (sums ps ≡ ok t)
        × (r.opening ≡ s.opening +ℤ t.0)
        × (r.contributed_to_date ≡ s.contributed_to_date +ℤ t.1)
        × (r.current ≡ s.current)
  unfolding roll sums
  roll_before target [] s {r} absent h =
      let same : s ≡ r = ground (arith, h) in
      (
        (pos 0, pos 0),
        refl,
        rw (← same) (omega int_laws),
        rw (← same) (omega int_laws),
        ap (λ (x : Progress). x.current) (sym same),
      )
  roll_before target (p ∷ ps) s {r} absent h =
      let (m, moved, h₁) = >>=-returns (movement p) _ h in
      let other : (p.id == target) ≡ false = ground (arith, absent) in
      let later : IsAbsent target ps = ground (arith, absent) in
      let (opening, contributed, current) = advance_other target p m s other in
      let (t, summed, opening', contributed', current') =
        roll_before target ps (advance target p m s) later h₁ in
      (
        (net m +ℤ t.0, m.contributions +ℤ t.1),
        rw (moved, summed) refl,
        opening' ∙ (ap (λ (z : ℤ). z +ℤ t.0) opening ∙ +ℤ_assoc s.opening (net m) t.0),
        contributed'
            ∙ (ap (λ (z : ℤ). z +ℤ t.1) contributed
                ∙ +ℤ_assoc s.contributed_to_date m.contributions t.1),
        current' ∙ current,
      )

  -- the last pass is that of the statement's own period
  pub roll_last :
      (p : Period) (ps : List Period) {r : Progress}
      → IsAbsent p.id ps
      → roll movement p.id (ps ++ (p ∷ [])) start ≡ ok r
      → (t : ℤ × ℤ) × (sums ps ≡ ok t)
        × (movement p ≡ ok r.current)
        × (r.opening ≡ t.0)
        × (r.contributed_to_date ≡ t.1 +ℤ r.current.contributions)
  unfolding roll
  roll_last p ps {r} absent h =
      let (mid, before, last) = roll-append p.id ps (p ∷ []) start h in
      let (t, summed, opening, contributed, _) = roll_before p.id ps start absent before in
      let (m, moved, h₁) = >>=-returns (movement p) _ last in
      let end : advance p.id p m mid ≡ r = ground (arith, h₁) in
      let reached = sym (advance_own p m mid) ∙ end in
      let current : r.current ≡ m = ap (λ (x : Progress). x.current) (sym reached) in
      (
        t,
        summed,
        moved ∙ ap ok (sym current),
        ap (λ (x : Progress). x.opening) (sym reached) ∙ (opening ∙ zero_left t.0),
        ap (λ (x : Progress). x.contributed_to_date) (sym reached)
            ∙ (ap (λ (z : ℤ). z +ℤ m.contributions) (contributed ∙ zero_left t.1)
                ∙ ap (λ (x : Movement). t.1 +ℤ x.contributions) (sym current)),
      )

  sums-snoc :
      (ps : List Period) (p : Period) (m : Movement) (t t' : ℤ × ℤ)
      → movement p ≡ ok m
      → sums ps ≡ ok t
      → sums (ps ++ (p ∷ [])) ≡ ok t'
      → (t'.0 ≡ t.0 +ℤ net m) × (t'.1 ≡ t.1 +ℤ m.contributions)
  unfolding sums
  sums-snoc [] p m t t' moved h h' =
      let zero : (pos 0, pos 0) ≡ t = ground (arith, h) in
      let one : (net m +ℤ pos 0, m.contributions +ℤ pos 0) ≡ t' = ground (arith, rw moved at h') in
      rw (← zero, ← one) (+ℤ_comm (net m) (pos 0), +ℤ_comm m.contributions (pos 0))
  sums-snoc (r ∷ ps) p m t t' moved h h' =
      let (n, first, h₁) = >>=-returns (movement r) _ h in
      let (u, rest, h₂) = >>=-returns (sums ps) _ h₁ in
      let (n', first', h₁') = >>=-returns (movement r) _ h' in
      let (u', rest', h₂') = >>=-returns (sums (ps ++ (p ∷ []))) _ h₁' in
      let same : n ≡ n' = cc in
      let whole : (net n +ℤ u.0, n.contributions +ℤ u.1) ≡ t = ground (arith, h₂) in
      let whole' : (net n' +ℤ u'.0, n'.contributions +ℤ u'.1) ≡ t' = ground (arith, h₂') in
      let (nets, contributions) = sums-snoc ps p m u u' moved rest rest' in
      rw (← whole, ← whole', ← same, nets, contributions)
        (sym (+ℤ_assoc (net n) u.0 (net m)), sym (+ℤ_assoc n.contributions u.1 m.contributions))

pub lp_statement-rolled :
    (fund : Fund) (lp : ℕ) (p : Period) (db : Db) (s : Statement)
    → lp_statement fund lp p db ≡ ok s
    → (commitment : ℤ) × (account : Account) × (r : Progress) × (at lp (lp_capital_accounts fund db)
        ≡ ok account)
      × (roll
            (movement_of fund lp account (weights_of (commitments_of fund db)) db)
            p.id
            (periods_until fund.id p db)
            start
          ≡ ok r)
      × (s ≡ statement_of fund lp p commitment r)
unfolding lp_statement
lp_statement-rolled fund lp p db s h =
    let commitments = weights_of (commitments_of fund db) in
    let (commitment, _, h₁) = >>=-returns (commitment_or (get lp commitments)) _ h in
    let (account, found, h₂) = >>=-returns (at lp (lp_capital_accounts fund db)) _ h₁ in
    let (r, rolled, h₃) =
      >>=-returns
        (roll (movement_of fund lp account commitments db) p.id (periods_until fund.id p db) start)
        _ h₂ in
    (commitment, account, r, found, rolled, ground (arith, h₃))

-- Where the period `q` is the next after `p`, and the ids of the fund's periods until then are
-- unique, a partner's statement for `q` opens with the balance that the one for `p` closes with,
-- and its contributions to date grow by the contributions of `q`.
pub lp_statement-rolls_forward :
    (fund : Fund) (lp : ℕ) (p q : Period) (ps : List Period) (db : Db) {s s' : Statement}
    → periods_until fund.id p db ≡ ps ++ (p ∷ [])
    → periods_until fund.id q db ≡ (ps ++ (p ∷ [])) ++ (q ∷ [])
    → IsAbsent p.id ps
    → IsAbsent q.id (ps ++ (p ∷ []))
    → lp_statement fund lp p db ≡ ok s
    → lp_statement fund lp q db ≡ ok s'
    → (s'.opening_balance ≡ s.closing_balance)
      × (s'.contributed_to_date ≡ s.contributed_to_date +ℤ s'.contributions)
lp_statement-rolls_forward fund lp p q ps db {s} {s'} until_p until_q once_p once_q h h' =
    let (c, a, r, found, rolled, shape) = lp_statement-rolled fund lp p db s h in
    let (c', a', r', found', rolled', shape') = lp_statement-rolled fund lp q db s' h' in
    let same : a ≡ a' = cc in
    let commitments = weights_of (commitments_of fund db) in
    let movement = movement_of fund lp a commitments db in
    let to_p : roll movement p.id (ps ++ (p ∷ [])) start ≡ ok r =
      subst (λ (l : List Period). roll movement p.id l start ≡ ok r) until_p rolled in
    let to_q : roll movement q.id ((ps ++ (p ∷ [])) ++ (q ∷ [])) start ≡ ok r' =
      subst (λ (l : List Period). roll movement q.id l start ≡ ok r') until_q
        (subst
          (λ (x : Account).
            roll (movement_of fund lp x commitments db) q.id (periods_until fund.id q db) start
            ≡ ok r')
          (sym same) rolled') in
    let (t, summed, moved, opening, contributed) = roll_last movement p ps once_p to_p in
    let (t', summed', _, opening', contributed') =
      roll_last movement q (ps ++ (p ∷ [])) once_q to_q in
    let (nets, contributions) = sums-snoc movement ps p r.current t t' moved summed summed' in
    (
      ap (λ (x : Statement). x.opening_balance) shape'
          ∙ (opening'
              ∙ (nets
                  ∙ sym (
                      ap (λ (x : Statement). x.closing_balance) shape
                      ∙ ap (λ (z : ℤ). z +ℤ net r.current) opening))),
      rw (shape, shape')
          (contributed'
            ∙ ap (λ (z : ℤ). z +ℤ r'.current.contributions) (contributions ∙ sym contributed)),
    )
