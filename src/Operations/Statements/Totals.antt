-- ===== src/Operations/Statements/Totals.antt =====
-- What a period moves, over all partners.
use fund_ledger.Base.{ℕ, arith, zero, suc, ◌^◌, ◌<◌, ◌≡◌, refl, ap, ◌∙◌, some, List, In}
use fund_ledger.Base.Int.{ℤ, pos, negsuc, abs, neg, ◌+ℤ◌, int_laws, sum_by}
use fund_ledger.Base.Sums.{Apart, sum_by-alike, sum_by-add, sum_by-neg}
use fund_ledger.Base.Dict.{get, at, at-returns}
use fund_ledger.Base.Result.{ok, >>=-returns}
use fund_ledger.Ledger.Model.{
  Db, Fund, Period, Account, AccountType, fee_expense, gain_loss, signed_base_amount,
}
use fund_ledger.Operations.Chart.{commitments_of, lp_capital_accounts}
use fund_ledger.Operations.Allocation.{weight_sum}
use fund_ledger.Operations.ProRata.{weights_of}
use fund_ledger.Operations.Statements.{Movement, entries_in, fund_total, allocated}
use fund_ledger.Operations.Statements.Shares.{keys, value_or_zero, allocated-sum}
use fund_ledger.Operations.Statements.Closing.{net_of, moves, movement_of-net}
use fund_ledger.Operations.Statements.Tally.{account_of}

abs-neg : (z : ℤ) → abs (neg z) ≡ abs z
unfolding neg
abs-neg (pos zero) = refl
abs-neg (pos (suc n)) = ground arith
abs-neg (negsuc n) = ground arith

-- the partners with a commitment
abbrev pub partners : Fund → Db → List ℕ
partners fund db = keys (weights_of (commitments_of fund db))

module _ (fund : Fund) (db : Db) where
  -- what the entries of a period on a partner's account sum to
  abbrev pub on_account : Period → ℕ → ℤ
  on_account q lp = sum_by signed_base_amount (entries_in (account_of fund db lp) q.id db)

  abbrev pub of_type : AccountType → Period → ℤ
  of_type kind q = fund_total fund q kind db

  abbrev gains : Period → ℕ → ℤ
  gains q lp =
      value_or_zero (allocated lp (weights_of (commitments_of fund db)) (neg (of_type gain_loss q)))

  abbrev fees : Period → ℕ → ℤ
  fees q lp =
      value_or_zero (allocated lp (weights_of (commitments_of fund db)) (of_type fee_expense q))

  pub moves-parts :
      (lp : ℕ) (q : Period) (m : Movement)
      → moves fund db lp q ≡ ok m
      → (net_of (moves fund db lp q) ≡ (neg (on_account q lp) +ℤ gains q lp) +ℤ neg (fees q lp))
        × ((a : Account) × (get lp (lp_capital_accounts fund db) ≡ some a))
        × ((g : ℤ) × (allocated lp (weights_of (commitments_of fund db)) (neg (of_type gain_loss q))
              ≡ ok g))
        × ((f : ℤ) × (allocated lp (weights_of (commitments_of fund db)) (of_type fee_expense q)
              ≡ ok f))
  moves-parts lp q m h =
      let (a, found, h₁) = >>=-returns (at lp (lp_capital_accounts fund db)) _ h in
      let (g, f, gained, charged, total) =
        movement_of-net fund lp a (weights_of (commitments_of fund db)) db q m h₁ in
      let held = at-returns lp (lp_capital_accounts fund db) a found in
      (
        ap net_of h ∙ (total ∙ rw (held, gained, charged) (omega int_laws)),
        (a, held),
        (g, gained),
        (f, charged),
      )

  -- what a period's gains and fees come to takes at most 28 digits
  abbrev pub Fits : Period → Type 0
  Fits q = (abs (of_type gain_loss q) < 10 ^ 28) × (abs (of_type fee_expense q) < 10 ^ 28)

  -- what the partners' accounts move in a period, over all of them
  pub period-total :
      (q : Period) (lp : ℕ)
      → Apart (λ k. k) (partners fund db)
      → In lp (partners fund db)
      → weight_sum (weights_of (commitments_of fund db)) < 10 ^ 28
      → Fits q
      → ((i : ℕ) → In i (partners fund db) → (m : Movement) × (moves fund db i q ≡ ok m))
      → sum_by (λ i. net_of (moves fund db i q)) (partners fund db)
        ≡ (neg (sum_by (on_account q) (partners fund db)) +ℤ neg (of_type gain_loss q))
          +ℤ neg (of_type fee_expense q)
  period-total q lp apart here light fits each =
      let ws = weights_of (commitments_of fund db) in
      let lps = partners fund db in
      let parts = λ (i : ℕ) (there : In i lps). moves-parts i q (each i there).0 (each i there).1 in
      let (_, _, (g, gained), (f, charged)) = parts lp here in
      sum_by-alike (λ i. net_of (moves fund db i q))
        (λ i. (neg (on_account q i) +ℤ gains q i) +ℤ neg (fees q i)) lps
        (λ i there. (parts i there).0)
      ∙ (sum_by-add (λ i. neg (on_account q i) +ℤ gains q i) (λ i. neg (fees q i)) lps
          ∙ rw
              (
                sum_by-add (λ i. neg (on_account q i)) (gains q) lps,
                sum_by-neg (on_account q) lps,
                sum_by-neg (fees q) lps,
                allocated-sum ws (neg (of_type gain_loss q)) lp apart
                    (rw (abs-neg (of_type gain_loss q)) fits.0) light gained,
                allocated-sum ws (of_type fee_expense q) lp apart fits.1 light charged,
              )
              refl)
