-- ===== src/Operations/Statements/Capital.antt =====
-- The partners' capital is the net asset value.
use fund_ledger.Base.{
  ℕ, ◌^◌, ◌<◌, ◌≡◌, refl, sym, ap, ◌∙◌, subst, ◌&&◌, ◌||◌, some, List, [], ◌∷◌, ◌++◌, ◌==◌, leb, In,
  any-append, arith, inl, inr,
}
use fund_ledger.Base.Int.{ℤ, pos_part, neg_part, pos, neg, ◌+ℤ◌, int_laws, sum_by}
use fund_ledger.Base.Sums.{Apart, sum_by-filter, sum_by-alike, sum_by-swap}
use fund_ledger.Base.Dict.{get}
use fund_ledger.Base.Result.{ok}
use fund_ledger.Ledger.Model.{
  AccountType, Db, Fund, Period, Account, cash, investment, fee_expense, gain_loss, lp_capital,
  gp_capital, Entry, signed_base_amount,
}
use fund_ledger.Ledger.Post.Solvent.{IsKeyed}
use fund_ledger.Ledger.Reconciliation.Zero.{IsBalanced}
use fund_ledger.Operations.Allocation.{weight_sum}
use fund_ledger.Operations.ProRata.{weights_of}
use fund_ledger.Operations.Chart.{commitments_of, lp_capital_accounts}
use fund_ledger.Ledger.Post.Filed.{IsFiled}
use fund_ledger.Operations.Statements.{
  on_type, periods_until, Statement, lp_statement, in_or_before, nav,
}
use fund_ledger.Operations.Periods.Closing.{IsKeyedPeriods}
use fund_ledger.Operations.Statements.Forward.{IsAbsent}
use fund_ledger.Operations.Statements.Closing.{net_of, moves, closing-nets}
use fund_ledger.Operations.Statements.Tally.{
  in_any, account_of-Apart, in_any-is_until, IsOwned, account_of-on_type,
}
use fund_ledger.Operations.Statements.Totals.{
  Fits, partners, on_account, of_type, moves-parts, period-total,
}
use fund_ledger.Operations.Statements.Entries.{
  of_type-tally, accounts-tally, all-zero, gp_total, asset, of_gp, tally,
}

last-IsAbsent :
    (p : Period) (ps : List Period) → Apart (λ q. q.id) (ps ++ (p ∷ [])) → IsAbsent p.id ps
last-IsAbsent p [] apart = refl
last-IsAbsent p (q ∷ ps) (fresh, apart) =
    let apart_from = sym (any-append (λ (x : Period). x.id == q.id) ps (p ∷ [])) ∙ fresh in
    ground (arith, apart_from, last-IsAbsent p ps apart)

In-last : (p : Period) (ps : List Period) → In p (ps ++ (p ∷ []))
In-last p [] = inl refl
In-last p (q ∷ ps) = inr (In-last p ps)

nets_apart :
    (a g f : Period → ℤ) (qs : List Period)
    → sum_by (λ q. (neg (a q) +ℤ neg (g q)) +ℤ neg (f q)) qs
      ≡ (neg (sum_by a qs) +ℤ neg (sum_by g qs)) +ℤ neg (sum_by f qs)
nets_apart a g f [] = omega int_laws
nets_apart a g f (q ∷ qs) = rw (nets_apart a g f qs) (omega int_laws)

settle :
    (assets gp l g f : ℤ) {closings net_assets gp_capital : ℤ}
    → closings ≡ (neg l +ℤ neg g) +ℤ neg f
    → (assets +ℤ gp) +ℤ ((l +ℤ g) +ℤ f) ≡ pos 0
    → net_assets ≡ assets
    → gp_capital ≡ gp
    → closings +ℤ neg gp_capital ≡ net_assets
settle assets gp l g f hc hz hn hg =
    rw (hc, hn, hg) (omega (int_laws, ap pos_part hz, ap neg_part hz))

module _ (fund : Fund) (p : Period) (ps : List Period) (db : Db)
    (until : periods_until fund.id p db ≡ ps ++ (p ∷ []))
    (apart_ids : Apart (λ q. q.id) (ps ++ (p ∷ []))) (keyed : IsKeyed db)
    (filed : (e : Entry) → In e db.entries → IsFiled db e) where
  -- the closing balances by the entries of the periods
  closing_balances-tally :
      (st : ℕ → Statement) (lp : ℕ)
      → In lp (partners fund db)
      → Apart (λ k. k) (partners fund db)
      → IsOwned fund db (partners fund db)
      → weight_sum (weights_of (commitments_of fund db)) < 10 ^ 28
      → ((q : Period) → In q (ps ++ (p ∷ [])) → Fits fund db q)
      → ((i : ℕ) → In i (partners fund db) → lp_statement fund i p db ≡ ok (st i))
      → let sum_of = λ (kind : AccountType).
        sum_by (tally fund db (ps ++ (p ∷ [])) apart_ids kind) db.entries in
        sum_by (λ i. (st i).closing_balance) (partners fund db)
        ≡ (neg (sum_of lp_capital) +ℤ neg (sum_of gain_loss)) +ℤ neg (sum_of fee_expense)
  closing_balances-tally st lp here apart owned light fits stated =
      let qs = ps ++ (p ∷ []) in
      let lps = partners fund db in
      let net_at = λ (i : ℕ) (q : Period). net_of (moves fund db i q) in
      let parts = λ (i : ℕ) (there : In i lps).
        closing-nets fund i p ps db until (last-IsAbsent p ps apart_ids) (stated i there) in
      let has : (i : ℕ)
          → In i lps
          → (a : Account) × (get i (lp_capital_accounts fund db) ≡ some a) =
        λ i there.
          let (m, moved) = (parts i there).1 p (In-last p ps) in
          (moves-parts fund db i p m moved).1 in
      sum_by-alike (λ i. (st i).closing_balance) (λ i. sum_by (net_at i) qs) lps
        (λ i there. (parts i there).0)
      ∙ (sum_by-swap net_at lps qs
          ∙ (sum_by-alike (λ q. sum_by (λ i. net_at i q) lps)
                (λ q.
                  (neg (sum_by (on_account fund db q) lps) +ℤ neg (of_type fund db gain_loss q))
                  +ℤ neg (of_type fund db fee_expense q))
                qs
                (λ q within.
                  period-total fund db q lp apart here light (fits q within)
                    (λ i there. (parts i there).1 q within))
              ∙ (nets_apart (λ q. sum_by (on_account fund db q) lps) (of_type fund db gain_loss)
                    (of_type fund db fee_expense) qs
                  ∙ rw
                      (
                        accounts-tally fund db qs apart_ids lps
                            (account_of-Apart fund db keyed lps has apart)
                            (λ e there.
                              account_of-on_type fund db lps e (filed e there) keyed has owned),
                        of_type-tally fund db qs apart_ids gain_loss,
                        of_type-tally fund db qs apart_ids fee_expense,
                      )
                      refl)))

  -- the entries of the fund's accounts until the period, by those of the periods
  entries-zero :
      IsKeyedPeriods db.periods
      → IsBalanced db
      → let sum_of = λ (kind : AccountType).
        sum_by (tally fund db (ps ++ (p ∷ [])) apart_ids kind) db.entries in
        (sum_by (asset fund p db) db.entries +ℤ sum_by (of_gp fund p db) db.entries)
          +ℤ ((sum_of lp_capital +ℤ sum_of gain_loss) +ℤ sum_of fee_expense)
        ≡ pos 0
  entries-zero once balanced = all-zero fund p db (ps ++ (p ∷ [])) balanced (λ e there.
      let f = filed e there in
      (
        f,
        subst
            (λ (l : List Period).
              in_any db l e.transfer_id
              ≡ ((f.account.fund_id == fund.id) && leb f.period.start_date p.start_date))
            until (in_any-is_until fund db p e f once),
      ))

-- The closing balances of the partners, with the general partner's capital, sum to the net asset
-- value through the period: in a ledger whose transfers balance and whose entries each have a
-- transfer, a period and an account of one fund, where ids are unique, every partners' account of the
-- fund is the account of a partner with a commitment, and every such partner has a statement. The
-- commitments together, and the gains and the fees of each period, take at most 28 digits, the
-- precision of the decimal context.
pub closing_balances-nav :
    (fund : Fund) (p : Period) (ps : List Period) (db : Db) (st : ℕ → Statement) (lp : ℕ)
    → In lp (partners fund db)
    → Apart (λ k. k) (partners fund db)
    → periods_until fund.id p db ≡ ps ++ (p ∷ [])
    → Apart (λ q. q.id) (ps ++ (p ∷ []))
    → IsKeyedPeriods db.periods
    → IsKeyed db
    → IsBalanced db
    → ((e : Entry) → In e db.entries → IsFiled db e)
    → IsOwned fund db (partners fund db)
    → weight_sum (weights_of (commitments_of fund db)) < 10 ^ 28
    → ((q : Period) → In q (ps ++ (p ∷ [])) → Fits fund db q)
    → ((i : ℕ) → In i (partners fund db) → lp_statement fund i p db ≡ ok (st i))
    → sum_by (λ i. (st i).closing_balance) (partners fund db) +ℤ neg (gp_total fund p db)
      ≡ nav fund (some p) db
unfolding nav
closing_balances-nav fund p ps db st lp here apart until apart_ids once keyed balanced filed owned
      light fits stated =
    let sum_of =
      λ (kind : AccountType). sum_by (tally fund db (ps ++ (p ∷ [])) apart_ids kind) db.entries in
    settle (sum_by (asset fund p db) db.entries) (sum_by (of_gp fund p db) db.entries)
      (sum_of lp_capital) (sum_of gain_loss) (sum_of fee_expense)
      (closing_balances-tally fund p ps db until apart_ids keyed filed st lp here apart owned light
        fits stated)
      (entries-zero fund p ps db until apart_ids keyed filed once balanced)
      (sum_by-filter signed_base_amount
        (λ e.
          (on_type db fund.id cash e || on_type db fund.id investment e)
          && in_or_before db (some p) e)
        db.entries)
      (sum_by-filter signed_base_amount
        (λ e. on_type db fund.id gp_capital e && in_or_before db (some p) e) db.entries)
