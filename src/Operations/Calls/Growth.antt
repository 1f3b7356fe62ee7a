-- ===== src/Operations/Calls/Growth.antt =====
-- What a capital call adds to the contributions of an account.
use fund_ledger.Base.{
  ℕ, ◌≡◌, sym, ap, ◌∙◌, subst, some, List, [], ◌∷◌, ◌++◌, ◌==◌, ==_iff, In, All, arith, find,
  find-holds, find-In, filter, leb, In-sort_by, In-filter_holds, Option-cases, inl, inr, ◌&&◌,
  if◌then◌else◌,
}
use fund_ledger.Base.Int.{ℤ, pos, ◌+ℤ◌, ◌≤ℤ◌, sum_by-sort_by, int_laws}
use fund_ledger.Base.Dict.{get}
use fund_ledger.Base.Result.{
  Result, ok, err, Error, value_error, ledger, invalid_transfer, >>=-returns, guard-returns,
}
use fund_ledger.Ledger.Model.{
  Db, Fund, Commitment, Account, Period, Entry, Leg, Transfer, CapitalCall,
}
use fund_ledger.Ledger.Queries.{transfer_by_id}
use fund_ledger.Ledger.Validate.Exact.{validate_legs_iff}
use fund_ledger.Ledger.Post.{fund_by_id}
use fund_ledger.Ledger.Post.Effect.{post_transfer-Posted}
use fund_ledger.Ledger.Post.Rows.{BookedAs, post_transfer-appends, post_transfer-found}
use fund_ledger.Ledger.Post.Settled.{InBase, post_transfer-InBase}
use fund_ledger.Ledger.Post.Solvent.{IsKeyed}
use fund_ledger.Operations.Allocation.{Shares, allocate}
use fund_ledger.Operations.Allocation.Fair.{occurrences}
use fund_ledger.Operations.Chart.{commitments_of, lp_capital_accounts}
use fund_ledger.Operations.Contributions.{contributed, is_capital_call}
use fund_ledger.Operations.Contributions.Growth.{IsReferenced, contributed-append}
use fund_ledger.Operations.Periods.{period_for, periods_of}
use fund_ledger.Operations.ProRata.{
  pro_rata, weights_of, value_error_to, no_commitments, penny, sorted_shares,
}
use fund_ledger.Operations.Calls.{CallRequest, call_posting, next_call_number}
use fund_ledger.Operations.Calls.Once.{Made}
use fund_ledger.Operations.Calls.Legs.{
  share_sum, credit_units, on_account-credit_units, credit_units-share_sum, share_legs-NoneGiven,
}
use fund_ledger.Operations.Calls.Lookups.{occurrences-allocate}

-- two ends of the same list are the same
append_cancel : (xs : List Entry) (ys zs : List Entry) → xs ++ ys ≡ xs ++ zs → ys ≡ zs
append_cancel [] ys zs h = h
append_cancel (x ∷ xs) ys zs h = append_cancel xs ys zs (cc)

BookedAs-own :
    (t : Transfer) (legs : List Leg) (es : List Entry)
    → BookedAs t legs es
    → All (λ e. e.transfer_id ≡ t.id) es
BookedAs-own t [] [] b = tt
BookedAs-own t [] (e ∷ es) b = absurd b
BookedAs-own t (l ∷ legs) [] b = absurd b
BookedAs-own t (l ∷ legs) (e ∷ es) b = (b.0.of_transfer, BookedAs-own t legs es b.1)

fund_by_id-id : (i : ℕ) (db : Db) (fund : Fund) → fund_by_id i db ≡ ok fund → fund.id ≡ i
fund_by_id-id i db fund h = elim (Option-cases (find (λ (f : Fund). f.id == i) db.funds)) [
  | inl missing ↦ absurd (cc (rw (missing, fund_by_id) at h))
  | inr (f, found) ↦
      let same : f ≡ fund = ground (arith, rw (found, fund_by_id) at h) in
      subst (λ (x : Fund). x.id ≡ i) same
        ((==_iff f.id i).0 (find-holds (λ (f : Fund). f.id == i) db.funds f found))
]

period_for-fund : (i on : ℕ) (db : Db) (p : Period) → period_for i on db ≡ ok p → p.fund_id ≡ i
unfolding period_for
period_for-fund i on db p h =
    let covers = λ (p : Period). leb p.start_date on && leb on p.end_date in
    elim (Option-cases (find covers (periods_of i db))) [
      | inl missing ↦ absurd (cc (rw missing at h))
      | inr (r, found) ↦
          let same : r ≡ p = ground (arith, rw found at h) in
          let own = λ (p : Period). p.fund_id == i in
          let by_start = λ (p : Period) (q : Period). leb p.start_date q.start_date in
          let here =
            In-sort_by by_start r (filter own db.periods)
              (find-In covers (periods_of i db) r found) in
          subst (λ (x : Period). x.fund_id ≡ i) same
            ((==_iff r.fund_id i).0 (In-filter_holds own r db.periods here))
    ]

value_error_to-returns :
    (e : Error) (r : Result Shares) (v : Shares) → value_error_to e r ≡ ok v → r ≡ ok v
value_error_to-returns e (ok w) v h = h
value_error_to-returns e (err value_error) v h = absurd (cc)
value_error_to-returns e (err _) v h = absurd (cc)

pub pro_rata-split :
    (fund : Fund) (c : ℤ) (k : ℕ) (db : Db) (cs : List Commitment) (shares : Shares)
    → pro_rata fund c k db ≡ ok (cs, shares)
    → (cs ≡ commitments_of fund db)
      × ((i : ℕ) → occurrences i shares ≡ occurrences i (weights_of (commitments_of fund db)))
unfolding pro_rata
pro_rata-split fund c k db cs shares h =
    let own = commitments_of fund db in
    let (_, h₁) = guard-returns (no_commitments own) _ _ h in
    let (ss, split, h₂) =
      >>=-returns (value_error_to (ledger invalid_transfer) (allocate c k (weights_of own) penny)) _
        h₁ in
    let whole : ss ≡ shares = ground (arith, h₂) in
    let all : own ≡ cs = ground (arith, h₂) in
    (
      sym all,
      λ i. rw (← whole) (
          occurrences-allocate i c k (weights_of own) penny ss
            (value_error_to-returns _ (allocate c k (weights_of own) penny) ss split)),
    )

pub same_fund :
    (i j : ℕ) (db : Db) (f g : Fund)
    → i ≡ j
    → fund_by_id i db ≡ ok f
    → fund_by_id j db ≡ ok g
    → f ≡ g
same_fund i j db f g e h k =
    let both : ◌≡◌ {A = Result Fund} (ok f) (ok g) =
      sym (subst (λ (n : ℕ). fund_by_id n db ≡ ok f) e h) ∙ k in
    cc

-- what the entries of a call add to the contributions of an account is at most its owner's share
pub call_growth :
    (q : CallRequest) (hash : ℕ) (amount : ℤ) (db : Db) (d : CapitalCall) (db' : Db)
    (m : Made q hash amount db d db')
    → IsKeyed db
    → IsReferenced db
    → (own : ℕ) (a : Account) → In a db.accounts
    → a.currency ≡ m.fund.base_currency
    → ((lp : ℕ) (b : Account)
        → get lp (lp_capital_accounts m.fund db) ≡ some b
        → b.id ≡ a.id
        → lp ≡ own)
    → contributed a.id db' ≤ℤ contributed a.id db +ℤ share_sum own m.shares
call_growth q hash amount db d db' m keyed referenced own a here base only =
    let w = m.written in
    let t = w.transfer in
    let posting = call_posting q hash m.legs m.period (next_call_number q.fund_id db) in
    let (es, appended, row, booked) = post_transfer-appends posting db w.posted in
    let (fund, es', fund_found, entries', in_base) =
      post_transfer-InBase posting db keyed w.posted in
    let entries = ap (λ (x : Db). x.entries) appended in
    let same_es : es' ≡ es = append_cancel db.entries es' es (sym entries' ∙ entries) in
    let funds : fund ≡ m.fund =
      same_fund m.period.fund_id q.fund_id db fund m.fund
        (period_for-fund m.fund.id q.notice_date db m.period m.period_found
          ∙ fund_by_id-id q.fund_id db m.fund m.fund_found)
        fund_found m.fund_found in
    let own_base : a.currency ≡ fund.base_currency =
      base ∙ ap (λ (f : Fund). f.base_currency) (sym funds) in
    let credited =
      on_account-credit_units db fund.base_currency t a m.legs es here own_base booked
        (subst (InBase db fund.base_currency m.legs) same_es in_base)
        (share_legs-NoneGiven m.cash.id (lp_capital_accounts m.fund db) (sorted_shares m.shares)
          m.legs m.booked) in
    let p = post_transfer-Posted posting db t w.posted_db w.posted in
    let shared =
      credit_units-share_sum m.cash.id a.id own (lp_capital_accounts m.fund db)
        (sorted_shares m.shares) m.legs m.booked ((validate_legs_iff m.legs).0 p.validated).money
        only in
    let sorted : share_sum own (sorted_shares m.shares) ≡ share_sum own m.shares =
      sum_by-sort_by (λ (s : ℕ × ℤ). if s.0 == own then s.1 else pos 0)
        (λ (s : ℕ × ℤ) (u : ℕ × ℤ). leb s.0 u.0) m.shares in
    let grown =
      contributed-append db db' t
        (ap (λ (x : Db). x.transfers) w.effect ∙ ap (λ (x : Db). x.transfers) appended) a.id es
        (ap (λ (x : Db). x.entries) w.effect ∙ entries) referenced
        (ap (λ (x : Db). transfer_by_id t.id x) w.effect ∙ post_transfer-found posting db w.posted)
        (ap (λ (s : Transfer). s.reverses) row)
        (ap (λ (s : Transfer). is_capital_call s.transfer_type) row)
        (BookedAs-own t m.legs es booked) in
    let shared' : pos (credit_units a.id m.legs) ≤ℤ share_sum own m.shares =
      subst (λ (z : ℤ). pos (credit_units a.id m.legs) ≤ℤ z) sorted shared in
    rw grown (omega (int_laws, credited, shared'))
