-- ===== src/Operations/Statements/Entries.antt =====
-- The entries of a fund's periods, by the type of their account.
use fund_ledger.Base.{
  ℕ, ◌≡◌, sym, ap, ◌∙◌, Bool, true, false, ◌&&◌, ◌||◌, some, List, ◌==◌, leb, In, any, filter,
}
use fund_ledger.Base.Int.{ℤ, pos, ◌+ℤ◌, int_laws, sum_by}
use fund_ledger.Base.Sums.{
  when, Apart, sum_by-filter, sum_by-alike, sum_by-add, sum_by-key, sum_by-swap,
}
use fund_ledger.Ledger.Model.{
  Db, Fund, Period, AccountType, cash, investment, fee_expense, gain_loss, lp_capital, gp_capital,
  Entry, signed_base_amount,
}
use fund_ledger.Ledger.Reconciliation.Grouping.{zero-of_groups_where}
use fund_ledger.Ledger.Reconciliation.Zero.{IsBalanced}
use fund_ledger.Ledger.Insert.{transfer_imbalance}
use fund_ledger.Operations.Chart.{same_type}
use fund_ledger.Ledger.Post.Filed.{IsFiled}
use fund_ledger.Operations.Statements.{falls_in, on_type, fund_total, in_or_before}
use fund_ledger.Operations.Statements.Tally.{
  when-and, sum_by-when, ==_sym, in_any, falls_in-sum, account_of,
}
use fund_ledger.Operations.Statements.Totals.{on_account, of_type}

module _ (fund : Fund) (db : Db) (qs : List Period) (apart : Apart (λ q. q.id) qs) where
  -- the entries of the periods on accounts of a type
  abbrev pub tally : AccountType → Entry → ℤ
  tally kind e =
      when (on_type db fund.id kind e) (when (in_any db qs e.transfer_id) (signed_base_amount e))

  tally-periods :
      (e : Entry) (b : Bool)
      → sum_by (λ q. when b (when (falls_in db q.id e) (signed_base_amount e))) qs
        ≡ when b (when (in_any db qs e.transfer_id) (signed_base_amount e))
  tally-periods e b =
      sum_by-when b (λ q. when (falls_in db q.id e) (signed_base_amount e)) qs
      ∙ ap (when b) (falls_in-sum db qs e (signed_base_amount e) apart)

  pub of_type-tally :
      (kind : AccountType) → sum_by (of_type fund db kind) qs ≡ sum_by (tally kind) db.entries
  unfolding fund_total
  of_type-tally kind =
      let v = λ (q : Period) (e : Entry).
        when (on_type db fund.id kind e) (when (falls_in db q.id e) (signed_base_amount e)) in
      sum_by-alike (of_type fund db kind) (λ q. sum_by (v q) db.entries) qs
        (λ q there.
          sum_by-filter signed_base_amount (λ e. on_type db fund.id kind e && falls_in db q.id e)
            db.entries
          ∙ sum_by-alike _ (v q) db.entries (λ e here.
            when-and (on_type db fund.id kind e) (falls_in db q.id e) (signed_base_amount e)))
      ∙ (sum_by-swap v qs db.entries
          ∙ sum_by-alike _ (tally kind) db.entries
              (λ e here. tally-periods e (on_type db fund.id kind e)))

  -- the entries of the periods on the partners' accounts
  pub accounts-tally :
      (lps : List ℕ)
      → Apart (account_of fund db) lps
      → ((e : Entry)
          → In e db.entries
          → any (λ lp. account_of fund db lp == e.account_id) lps ≡ on_type db fund.id lp_capital e)
      → sum_by (λ q. sum_by (on_account fund db q) lps) qs ≡ sum_by (tally lp_capital) db.entries
  accounts-tally lps differ typed =
      let w = λ (q : Period) (e : Entry). when (falls_in db q.id e) (signed_base_amount e) in
      let v =
        λ (q : Period) (lp : ℕ) (e : Entry). when (account_of fund db lp == e.account_id) (w q e) in
      let u = λ (q : Period) (e : Entry). when (on_type db fund.id lp_capital e) (w q e) in
      sum_by-alike (λ q. sum_by (on_account fund db q) lps) (λ q. sum_by (u q) db.entries) qs
        (λ q there.
          sum_by-alike (on_account fund db q) (λ lp. sum_by (v q lp) db.entries) lps
            (λ lp one.
              sum_by-filter signed_base_amount
                (λ e. (e.account_id == account_of fund db lp) && falls_in db q.id e) db.entries
              ∙ sum_by-alike _ (v q lp) db.entries (λ e here.
                when-and (e.account_id == account_of fund db lp) (falls_in db q.id e)
                  (signed_base_amount e)
                ∙ ap (λ (b : Bool). when b (w q e)) (==_sym e.account_id (account_of fund db lp))))
          ∙ (sum_by-swap (v q) lps db.entries
              ∙ sum_by-alike _ (u q) db.entries (λ e here.
                sum_by-key (account_of fund db) e.account_id (w q e) lps differ
                ∙ ap (λ (b : Bool). when b (w q e)) (typed e here))))
      ∙ (sum_by-swap u qs db.entries
          ∙ sum_by-alike _ (tally lp_capital) db.entries
              (λ e here. tally-periods e (on_type db fund.id lp_capital e)))

-- whole transfers sum to 0
in_any-zero :
    (db : Db) (qs : List Period)
    → IsBalanced db
    → sum_by (λ e. when (in_any db qs e.transfer_id) (signed_base_amount e)) db.entries ≡ pos 0
unfolding transfer_imbalance
in_any-zero db qs balanced =
    sym (sum_by-filter signed_base_amount (λ e. in_any db qs e.transfer_id) db.entries)
    ∙ zero-of_groups_where (λ (e : Entry). e.transfer_id) signed_base_amount (in_any db qs)
        db.entries balanced

-- what the general partner's accounts hold
abbrev pub gp_total : Fund → Period → Db → ℤ
gp_total fund p db =
    sum_by signed_base_amount
      (filter (λ e. on_type db fund.id gp_capital e && in_or_before db (some p) e) db.entries)

-- an entry counts once: as an asset, or as capital, gains or fees
typed_once :
    (k : AccountType) (b s : Bool) (v : ℤ)
    → (when ((b && same_type k cash || b && same_type k investment) && s) v
          +ℤ when ((b && same_type k gp_capital) && s) v)
        +ℤ ((when (b && same_type k lp_capital) (when (b && s) v)
              +ℤ when (b && same_type k gain_loss) (when (b && s) v))
            +ℤ when (b && same_type k fee_expense) (when (b && s) v))
      ≡ when (b && s) v
typed_once k false s v = omega int_laws
typed_once cash true false v = omega int_laws
typed_once investment true false v = omega int_laws
typed_once fee_expense true false v = omega int_laws
typed_once gain_loss true false v = omega int_laws
typed_once lp_capital true false v = omega int_laws
typed_once gp_capital true false v = omega int_laws
typed_once cash true true v = omega int_laws
typed_once investment true true v = omega int_laws
typed_once fee_expense true true v = omega int_laws
typed_once gain_loss true true v = omega int_laws
typed_once lp_capital true true v = omega int_laws
typed_once gp_capital true true v = omega int_laws

module _ (fund : Fund) (p : Period) (db : Db) where
  abbrev pub asset : Entry → ℤ
  asset e =
      when
        ((on_type db fund.id cash e || on_type db fund.id investment e)
          && in_or_before db (some p) e)
        (signed_base_amount e)

  abbrev pub of_gp : Entry → ℤ
  of_gp e =
      when (on_type db fund.id gp_capital e && in_or_before db (some p) e) (signed_base_amount e)

  module _ (qs : List Period) where
    abbrev pub in_periods : AccountType → Entry → ℤ
    in_periods kind e =
        when (on_type db fund.id kind e) (when (in_any db qs e.transfer_id) (signed_base_amount e))

    entry-once :
        (e : Entry) (filed : IsFiled db e)
        → in_any db qs e.transfer_id
          ≡ ((filed.account.fund_id == fund.id) && leb filed.period.start_date p.start_date)
        → (asset e +ℤ of_gp e)
            +ℤ ((in_periods lp_capital e +ℤ in_periods gain_loss e) +ℤ in_periods fee_expense e)
          ≡ when (in_any db qs e.transfer_id) (signed_base_amount e)
    entry-once e filed within =
        rw (within, filed.has_account, filed.has_transfer, filed.has_period)
          (typed_once filed.account.account_type (filed.account.fund_id == fund.id)
            (leb filed.period.start_date p.start_date) (signed_base_amount e))

    -- assets, capital, gains and fees of the fund sum to 0
    pub all-zero :
        IsBalanced db
        → ((e : Entry)
            → In e db.entries
            → (filed : IsFiled db e) × (in_any db qs e.transfer_id
                ≡ ((filed.account.fund_id == fund.id) && leb filed.period.start_date p.start_date)))
        → (sum_by asset db.entries +ℤ sum_by of_gp db.entries)
            +ℤ ((sum_by (in_periods lp_capital) db.entries
                  +ℤ sum_by (in_periods gain_loss) db.entries)
                +ℤ sum_by (in_periods fee_expense) db.entries)
          ≡ pos 0
    all-zero balanced within =
        let es = db.entries in
        let rest = λ (e : Entry).
          (in_periods lp_capital e +ℤ in_periods gain_loss e) +ℤ in_periods fee_expense e in
        rw
          (
            ← sum_by-add asset of_gp es,
            ← sum_by-add (in_periods lp_capital) (in_periods gain_loss) es,
            ← sum_by-add (λ e. in_periods lp_capital e +ℤ in_periods gain_loss e)
                (in_periods fee_expense) es,
            ← sum_by-add (λ e. asset e +ℤ of_gp e) rest es,
          )
          (sum_by-alike (λ e. (asset e +ℤ of_gp e) +ℤ rest e)
              (λ e. when (in_any db qs e.transfer_id) (signed_base_amount e)) es
              (λ e here. entry-once e (within e here).0 (within e here).1)
            ∙ in_any-zero db qs balanced)
