-- ===== src/Access/Permissions/Scope.antt =====
-- What a request may reach.
use fund_ledger.Base.{
  ℕ, ◌≤◌, ◌≡◌, subst, sym, ap, ◌∙◌, true, ◌&&◌, Option, none, some, List, ◌==◌, find, find-In,
  find-holds, In, arith,
}
use fund_ledger.Base.Result.{Result, ok, >>=-returns, guard-returns}
use fund_ledger.Ledger.Model.{Db, Fund, Period}
use fund_ledger.Operations.Statements.{
  Statement, lp_statement, commitment_or, roll, movement_of, periods_until, start,
}
use fund_ledger.Operations.Chart.{commitments_of, lp_capital_accounts}
use fund_ledger.Operations.ProRata.{weights_of}
use fund_ledger.Base.Dict.{get, at}
use fund_ledger.Access.Permissions.{
  Role, role_rank, is_lp, FundMembership, membership_in, or_404, has_permission, is_other_lp,
  statement_view,
}

or_404-returns {ℓ} : {A : Type ℓ} (o : Option A) (a : A) → or_404 o ≡ ok a → o ≡ some a
or_404-returns none a h = absurd (cc)
or_404-returns (some b) a h = ground arith

-- A request that is permitted comes from a user with a membership in the fund that the view names,
-- in a role of at least the rank that the view requires.
pub has_permission_sound :
    (user : ℕ) (fund : Result ℕ) (required : Role) (ms : List FundMembership) {m : FundMembership}
    → has_permission (some user) fund required ms ≡ ok (some m)
    → In m ms × (fund ≡ ok m.fund_id) × (m.user_id ≡ user) × (role_rank required ≤ role_rank m.role)
unfolding has_permission
has_permission_sound user fund required ms {m} h =
    let (i, of_fund, h₁) = >>=-returns fund _ h in
    let (n, got, h₂) = >>=-returns (or_404 (membership_in user i ms)) _ h₁ in
    let found = or_404-returns (membership_in user i ms) n got in
    let test = λ (m : FundMembership). (m.user_id == user) && (m.fund_id == i) in
    let own = find-holds test ms n found in
    let user_of : n.user_id ≡ user = ground (arith, own) in
    let fund_of : n.fund_id ≡ i = ground (arith, own) in
    let rank : role_rank required ≤ role_rank n.role = ground (arith, h₂) in
    let same : n ≡ m = ground (arith, h₂) in
    subst
      (λ (x : FundMembership).
        In x ms
        × (fund ≡ ok x.fund_id)
        × (x.user_id ≡ user)
        × (role_rank required ≤ role_rank x.role))
      same (find-In test ms n found, rw fund_of of_fund, user_of, rank)

lp_statement-lp :
    (fund : Fund) (lp : ℕ) (p : Period) (db : Db) (s : Statement)
    → lp_statement fund lp p db ≡ ok s
    → s.lp_id ≡ lp
unfolding lp_statement
lp_statement-lp fund lp p db s h =
    let commitments = weights_of (commitments_of fund db) in
    let (_, _, h₁) = >>=-returns (commitment_or (get lp commitments)) _ h in
    let (account, _, h₂) = >>=-returns (at lp (lp_capital_accounts fund db)) _ h₁ in
    let (_, _, h₃) =
      >>=-returns
        (roll (movement_of fund lp account commitments db) p.id (periods_until fund.id p db) start)
        _ h₂ in
    ground (arith, h₃)

-- The statement that a member in the role of a limited partner is given is that partner's own.
pub statement_view-own :
    (m : FundMembership) (fund_id lp_id period_id : ℕ) (db : Db) {s : Statement}
    → statement_view m fund_id lp_id period_id db ≡ ok s
    → is_lp m.role ≡ true
    → m.lp_id ≡ some s.lp_id
unfolding statement_view
statement_view-own m fund_id lp_id period_id db {s} h lp =
    let (own, h₁) = guard-returns (is_other_lp m lp_id) _ _ h in
    let (fund, _, h₂) = >>=-returns (or_404 (find (λ f. f.id == fund_id) db.funds)) _ h₁ in
    let (period, _, h₃) =
      >>=-returns (or_404 (find (λ p. (p.id == period_id) && (p.fund_id == fund.id)) db.periods)) _
        h₂ in
    let its = lp_statement-lp fund lp_id period db s h₃ in
    let named : m.lp_id ≡ some lp_id = ground (arith, own) in named ∙ ap some (sym its)
