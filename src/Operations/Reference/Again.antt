-- ===== src/Operations/Reference/Again.antt =====
-- Opening the sandbox of a day again changes nothing.
use fund_ledger.Base.{
  ℕ, ◌+◌, ◌≡◌, refl, subst, some, [], ◌∷◌, ◌==◌, ==_refl, arith, find, find-append, find-snoc,
  Option-cases, inl, inr,
}
use fund_ledger.Base.Result.{ok, >>=-returns}
use fund_ledger.Ledger.Model.{Db, Fund}
use fund_ledger.Operations.Chart.{open_fund_accounts}
use fund_ledger.Operations.Reference.{
  DemoName, sandbox_fund, sandbox_lps, quarters, ensure_fund, ensure_commitment, ensure_period,
  ensure_all, open_sandbox_fund, gbp,
}
use fund_ledger.Operations.Reference.Adds.{
  Adds, none_added, Adds-refl, Adds-trans, ensure_all-Adds, ensure_all_again,
}
use fund_ledger.Operations.Reference.Rows.{commitment_maker, period_maker}
use fund_ledger.Operations.Reference.Accounts.{open_fund_accounts_again}

ensure_fund-Adds :
    (i : ℕ) (db : Db)
    → Adds db (ensure_fund i db).1
      × (find (λ f. f.id == i) (ensure_fund i db).1.funds ≡ some (ensure_fund i db).0)
unfolding ensure_fund
ensure_fund-Adds i db =
    let test = λ (f : Fund). f.id == i in
    elim (Option-cases (find test db.funds)) [
      | inr (f, found) ↦ rw (found, ensure_fund) (Adds-refl db, found)
      | inl missing ↦
          let new : Fund = record { id = i; base_currency = gbp } in
          rw (missing, ensure_fund)
            (
              record {
                funds = (new ∷ [], refl);
                commitments = none_added db.commitments;
                periods = none_added db.periods;
                accounts = none_added db.accounts;
              },
              find-snoc test db.funds new missing (==_refl i),
            )
    ]

ensure_fund-idle :
    (i : ℕ) (f : Fund) (db : Db)
    → find (λ f. f.id == i) db.funds ≡ some f
    → ensure_fund i db ≡ (f, db)
unfolding ensure_fund
ensure_fund-idle i f db h = rw (h, ensure_fund) refl

-- Opening the sandbox of a day that is open already returns the same fund and changes nothing.
pub open_sandbox_fund_again :
    (demo_id : DemoName → ℕ) (day year : ℕ) (db : Db) {fund : Fund} {db' : Db}
    → open_sandbox_fund demo_id day year db ≡ ok (fund, db')
    → open_sandbox_fund demo_id day year db' ≡ ok (fund, db')
unfolding open_sandbox_fund
open_sandbox_fund_again demo_id day year db {fund} {db'} h =
    let i = demo_id (sandbox_fund day) in
    let f = (ensure_fund i db).0 in
    let db₁ = (ensure_fund i db).1 in
    let lps = sandbox_lps demo_id in
    let qs = quarters (year ∷ (year + 1) ∷ []) in
    let (db₂, called, h₁) = >>=-returns (ensure_all (ensure_commitment f.id) lps db₁) _ h in
    let (db₃, timed, h₂) = >>=-returns (ensure_all (ensure_period f.id) qs db₂) _ h₁ in
    let (db₄, opened, h₃) = >>=-returns (open_fund_accounts f db₃) _ h₂ in
    let same : f ≡ fund = ground (arith, h₃) in
    let last : db₄ ≡ db' = ground (arith, h₃) in
    let (a₄, accounts_idle) = open_fund_accounts_again f db₃ db₄ opened in
    let a₃ = Adds-trans (ensure_all-Adds (period_maker f.id) qs db₂ db₃ timed) a₄ in
    let a₂ = Adds-trans (ensure_all-Adds (commitment_maker f.id) lps db₁ db₂ called) a₃ in
    let (fs, grown) = a₂.funds in
    let found : find (λ (g : Fund). g.id == i) db₄.funds ≡ some f =
      rw grown (find-append (λ (g : Fund). g.id == i) db₁.funds fs f (ensure_fund-Adds i db).1) in
    subst (λ (r : Fund × Db). open_sandbox_fund demo_id day year r.1 ≡ ok r)
      (the_pair f fund db₄ db' same last)
      (rw
        (
          ensure_fund-idle i f db₄ found,
          ensure_all_again (commitment_maker f.id) lps db₁ db₂ db₄ called a₃,
          ensure_all_again (period_maker f.id) qs db₂ db₃ db₄ timed a₄,
          accounts_idle,
        )
        refl)
  where
    the_pair : (f g : Fund) (d e : Db) → f ≡ g → d ≡ e → ◌≡◌ {A = Fund × Db} (f, d) (g, e)
    the_pair f g d e p q = cc
