-- ===== src/Operations/History/Sound.antt =====
-- Every history keeps a ledger sound.
use fund_ledger.Base.{
  ℕ, ◌≡◌, refl, ap, subst, Bool, true, false, ◌==◌, arith, inl, inr, not, map_or,
}
use fund_ledger.Base.Int.{ℤ, pos, eqb_ℤ}
use fund_ledger.Base.Result.{Result, ok, err, >>=-returns, guard-returns, Result-cases}
use fund_ledger.Ledger.Decimal.{Number, quantize}
use fund_ledger.Ledger.Model.{
  Db, Account, AccountType, Fund, Period, Transfer, CapitalCall, Distribution, is_reversal,
}
use fund_ledger.Ledger.Queries.{transfer_by_id}
use fund_ledger.Ledger.Validate.{validate_legs}
use fund_ledger.Ledger.Post.{post_transfer, fund_by_id}
use fund_ledger.Ledger.Idempotency.{Hashing, Others, run_once, for_reversal}
use fund_ledger.Ledger.Idempotency.Once.{run_once_created, run_once-replays}
use fund_ledger.Ledger.Submit.{Submission, posting_of, transfer_hash, post_transfer_idempotent}
use fund_ledger.Ledger.Reverse.{
  reverse_transfer, reversal_posting, reversal_of_transfer, found_or, lost_race,
}
use fund_ledger.Operations.Calls.{
  CallRequest, create_call, call_of, call_hash, call_posting, create_capital_call, next_call_number,
}
use fund_ledger.Operations.Calls.Once.{create_call-Made}
use fund_ledger.Operations.Chart.{get_account, ensure_account}
use fund_ledger.Operations.Distributions.{
  DistributionRequest, pay_out, distribution_of, distribution_hash, distribution_posting,
  create_distribution, next_distribution_number,
}
use fund_ledger.Operations.Distributions.Once.{pay_out-Paid}
use fund_ledger.Operations.Portfolio.{
  investment_legs, buy, open_holding, record_investment, charge_fee, record_valuation,
}
use fund_ledger.Operations.Periods.{close_period, period_for}
use fund_ledger.Operations.Periods.Closing.{close_period-Closed}
use fund_ledger.Operations.History.{
  Runs, rests, follows, posts, reverses, calls, pays_out, invests, charges, values_at, closes,
  opens, administers, left_by,
}
use fund_ledger.Operations.History.Postings.{IsSound, post_transfer-IsSound, same_rows-IsSound}
use fund_ledger.Operations.History.Accounts.{ensure_account-IsSound, open_fund_accounts-IsSound}

-- a creation under a key keeps what the creation and the other sessions keep
run_once-keeps :
    {T : Type 0} (P : Db → Type 0) (others : Others) (key hash : ℕ) (create : Db → Result (T × Db))
    (replay : Transfer → Db → Result T)
    → ((db : Db) → P db → P (others.before db))
    → ((db : Db) → P db → P (others.after db))
    → ((db : Db) (value : T) (db' : Db) → P db → create db ≡ ok (value, db') → P db')
    → (db : Db) (value : T) (c : Bool) (db' : Db) → P db
    → run_once others key hash create replay db ≡ ok ((value, c), db')
    → P db'
run_once-keeps P others key hash create replay before after made db value true db' p h =
    made (others.before db) value db' (before db p)
      (run_once_created replay others key hash create db value db' h)
run_once-keeps P others key hash create replay before after made db value false db' p h =
    elim (run_once-replays replay others key hash create db h) [
      | inl same ↦ rw same p
      | inr later ↦ rw later (after (others.before db) (before db p))
    ]

-- the other sessions of a call
abbrev KeepSound : Others → Type 0
KeepSound others =
    ((db : Db) → IsSound db → IsSound (others.before db))
    × ((db : Db) → IsSound db → IsSound (others.after db))

module _ (x : Hashing) (others : Others) (kept : KeepSound others) where
  post_transfer_idempotent-IsSound :
      (s : Submission) (db : Db) (t : Transfer) (c : Bool) (db' : Db)
      → IsSound db
      → post_transfer_idempotent x others s db ≡ ok ((t, c), db')
      → IsSound db'
  unfolding post_transfer_idempotent
  post_transfer_idempotent-IsSound s db t c db' sound h =
      let hash = transfer_hash x s in
      let (_, _, ran) = >>=-returns (validate_legs s.legs) _ h in
      run_once-keeps IsSound others s.idempotency_key hash (post_transfer (posting_of s hash))
        (λ t _. ok t) kept.0 kept.1
        (λ d v d' p e. post_transfer-IsSound (posting_of s hash) d v d' p e) db t c db' sound ran

  lost_race-returns :
      (r : Result ((Transfer × Bool) × Db)) (v : (Transfer × Bool) × Db)
      → lost_race r ≡ ok v
      → r ≡ ok v
  lost_race-returns (ok w) v h = h
  lost_race-returns (err e) v h = ground arith

  reverse_transfer-IsSound :
      (i key : ℕ) (period : Period) (who : ℕ) (db : Db) (t : Transfer) (c : Bool) (db' : Db)
      → IsSound db
      → reverse_transfer x others i key period who db ≡ ok ((t, c), db')
      → IsSound db'
  unfolding reverse_transfer
  reverse_transfer-IsSound i key period who db t c db' sound h =
      let (original, _, h₁) = >>=-returns (found_or (transfer_by_id i db)) _ h in
      let (_, h₂) = guard-returns (is_reversal original.transfer_type) _ _ h₁ in
      let (_, h₃) =
        guard-returns
          (map_or (reversal_of_transfer original.id db) false (λ s. not (s.idempotency_key == key)))
          _ _ h₂ in
      let posting = reversal_posting x original.id key period who db in
      let hash = x.fingerprint (for_reversal original.id period.id) in
      run_once-keeps IsSound others key hash (post_transfer posting) (λ s _. ok s) kept.0 kept.1
        (λ d v d' p e. post_transfer-IsSound posting d v d' p e) db t c db' sound
        (lost_race-returns _ _ h₃)

  create_capital_call-IsSound :
      (q : CallRequest) (db : Db) (d : CapitalCall) (c : Bool) (db' : Db)
      → IsSound db
      → create_capital_call x others q db ≡ ok ((d, c), db')
      → IsSound db'
  unfolding create_capital_call
  create_capital_call-IsSound q db d c db' sound h =
      let (amount, _, ran) = >>=-returns (quantize q.total q.places) _ h in
      let hash = call_hash x q amount in
      run_once-keeps IsSound others q.idempotency_key hash (create_call q hash amount) call_of
        kept.0 kept.1
        (λ mid v mid' p e.
          let m = create_call-Made q hash amount mid v mid' e in
          let w = m.written in
          same_rows-IsSound w.posted_db mid' (ap (λ (y : Db). y.accounts) w.effect)
            (ap (λ (y : Db). y.entries) w.effect)
            (post_transfer-IsSound
              (call_posting q hash m.legs m.period (next_call_number q.fund_id mid)) mid w.transfer
              w.posted_db p w.posted))
        db d c db' sound ran

  create_distribution-IsSound :
      (q : DistributionRequest) (db : Db) (d : Distribution) (c : Bool) (db' : Db)
      → IsSound db
      → create_distribution x others q db ≡ ok ((d, c), db')
      → IsSound db'
  unfolding create_distribution
  create_distribution-IsSound q db d c db' sound h =
      let (amount, _, ran) = >>=-returns (quantize q.total q.places) _ h in
      let hash = distribution_hash x q amount in
      run_once-keeps IsSound others q.idempotency_key hash (pay_out q hash amount) distribution_of
        kept.0 kept.1
        (λ mid v mid' p e.
          let w = pay_out-Paid q hash amount mid v mid' e in
          let number = next_distribution_number q.fund_id mid in
          same_rows-IsSound w.posted_db mid' (ap (λ (y : Db). y.accounts) w.effect)
            (ap (λ (y : Db). y.entries) w.effect)
            (post_transfer-IsSound (distribution_posting q hash w.legs w.period number) mid
              w.transfer w.posted_db p w.posted))
        db d c db' sound ran

  charge_fee-IsSound :
      (i key : ℕ) (amount : Number) (on : ℕ) (db : Db) (t : Transfer) (c : Bool) (db' : Db)
      → IsSound db
      → charge_fee x others i key amount on db ≡ ok ((t, c), db')
      → IsSound db'
  unfolding charge_fee
  charge_fee-IsSound i key amount on db t c db' sound h =
      let (fund, _, h₁) = >>=-returns (fund_by_id i db) _ h in
      let (expense, _, h₂) = >>=-returns (get_account fund AccountType.fee_expense 0 db) _ h₁ in
      let (cash, _, h₃) = >>=-returns (get_account fund AccountType.cash 0 db) _ h₂ in
      let (period, _, h₄) = >>=-returns (period_for fund.id on db) _ h₃ in
      post_transfer_idempotent-IsSound _ db t c db' sound h₄

  record_valuation-IsSound :
      (i key : ℕ) (v : ℤ) (k on : ℕ) (db : Db) (t : Transfer) (c : Bool) (db' : Db)
      → IsSound db
      → record_valuation x others i key v k on db ≡ ok ((t, c), db')
      → IsSound db'
  unfolding record_valuation
  record_valuation-IsSound i key v k on db t c db' sound h =
      let (_, h₀) = guard-returns (eqb_ℤ v (pos 0)) _ _ h in
      let (fund, _, h₁) = >>=-returns (fund_by_id i db) _ h₀ in
      let (holding, _, h₂) = >>=-returns (get_account fund AccountType.investment 0 db) _ h₁ in
      let (gains, _, h₃) = >>=-returns (get_account fund AccountType.gain_loss 0 db) _ h₂ in
      let (period, _, h₄) = >>=-returns (period_for fund.id on db) _ h₃ in
      post_transfer_idempotent-IsSound _ db t c db' sound h₄

  buy-IsSound :
      (fund : Fund) (period : Period) (holding : Account) (key : ℕ) (v : ℤ) (k currency on : ℕ)
      (db : Db) (t : Transfer) (c : Bool) (db' : Db)
      → IsSound db
      → buy x others fund period holding key v k currency on db ≡ ok ((t, c), db')
      → IsSound db'
  unfolding buy
  buy-IsSound fund period holding key v k currency on db t c db' sound h =
      let (cash, _, h₁) = >>=-returns (get_account fund AccountType.cash 0 db) _ h in
      let (legs, _, h₂) =
        >>=-returns (investment_legs fund holding.id cash.id v k currency on db) _ h₁ in
      post_transfer_idempotent-IsSound _ db t c db' sound h₂

  open_holding-IsSound :
      (i currency on : ℕ) (db : Db) (v : Fund × Period × Account) (db' : Db)
      → IsSound db
      → open_holding i currency on db ≡ ok (v, db')
      → IsSound db'
  unfolding open_holding
  open_holding-IsSound i currency on db v db' sound h =
      let (fund, _, h₁) = >>=-returns (fund_by_id i db) _ h in
      let (period, _, h₂) = >>=-returns (period_for fund.id on db) _ h₁ in
      let ((holding, db₁), made, h₃) =
        >>=-returns (ensure_account fund AccountType.investment currency db) _ h₂ in
      let same : db₁ ≡ db' = ground (arith, h₃) in
      subst IsSound same
        (ensure_account-IsSound fund AccountType.investment currency db holding db₁ sound made)

  left_by-IsSound :
      (db : Db) (r : Result ((Transfer × Bool) × Db))
      → IsSound db
      → ((t : Transfer) (c : Bool) (db' : Db) → r ≡ ok ((t, c), db') → IsSound db')
      → IsSound (left_by (db, r))
  left_by-IsSound db (err e) sound done = sound
  left_by-IsSound db (ok ((t, c), db')) sound done = done t c db' refl

  record_investment-IsSound :
      (i key : ℕ) (v : ℤ) (k currency on : ℕ) (db : Db)
      → IsSound db
      → IsSound (left_by (record_investment x others i key v k currency on db))
  unfolding record_investment
  record_investment-IsSound i key v k currency on db sound =
      elim (Result-cases (open_holding i currency on db)) [
        | inl (e, failed) ↦ rw (failed, record_investment) sound
        | inr (((fund, period, holding), db₁), opened) ↦
            rw (opened, record_investment)
              (left_by-IsSound db₁ (buy x others fund period holding key v k currency on db₁)
                (open_holding-IsSound i currency on db (fund, period, holding) db₁ sound opened)
                (λ t c db' bought.
                  buy-IsSound fund period holding key v k currency on db₁ t c db'
                    (open_holding-IsSound i currency on db (fund, period, holding) db₁ sound opened)
                    bought))
      ]

close_period-IsSound :
    (fund i who : ℕ) (db : Db) (p : Period) (c : Bool) (db' : Db)
    → IsSound db
    → close_period fund i who db ≡ ok ((p, c), db')
    → IsSound db'
close_period-IsSound fund i who db p c db' sound h =
    elim (close_period-Closed fund i who db p c db' h).done [
      | inl (_, same) ↦ rw same sound
      | inr (_, written) ↦
          same_rows-IsSound db db' (ap (λ (y : Db). y.accounts) written)
            (ap (λ (y : Db). y.entries) written) sound
    ]

-- Whatever the code does to a ledger, in whatever order and with whatever other sessions in between:
-- if every transfer balances, no cash account is below zero, account ids are unique and every entry
-- is on an account that is there, then so it is afterwards.
pub Runs-IsSound : (x : Hashing) {db db' : Db} → Runs x db db' → IsSound db → IsSound db'
Runs-IsSound x rests s = s
Runs-IsSound x (follows first rest) s = Runs-IsSound x rest (Runs-IsSound x first s)
Runs-IsSound x (posts others before after q h) s =
    post_transfer_idempotent-IsSound x others
      ((λ d p. Runs-IsSound x (before d) p), (λ d p. Runs-IsSound x (after d) p)) q _ _ _ _ s h
Runs-IsSound x (reverses others before after i key period who h) s =
    reverse_transfer-IsSound x others
      ((λ d p. Runs-IsSound x (before d) p), (λ d p. Runs-IsSound x (after d) p)) i key period who _
      _ _ _ s h
Runs-IsSound x (calls others before after q h) s =
    create_capital_call-IsSound x others
      ((λ d p. Runs-IsSound x (before d) p), (λ d p. Runs-IsSound x (after d) p)) q _ _ _ _ s h
Runs-IsSound x (pays_out others before after q h) s =
    create_distribution-IsSound x others
      ((λ d p. Runs-IsSound x (before d) p), (λ d p. Runs-IsSound x (after d) p)) q _ _ _ _ s h
Runs-IsSound x (invests others before after fund key v k currency on) s =
    record_investment-IsSound x others
      ((λ d p. Runs-IsSound x (before d) p), (λ d p. Runs-IsSound x (after d) p)) fund key v k
      currency on _ s
Runs-IsSound x (charges others before after fund key amount on h) s =
    charge_fee-IsSound x others
      ((λ d p. Runs-IsSound x (before d) p), (λ d p. Runs-IsSound x (after d) p)) fund key amount on
      _ _ _ _ s h
Runs-IsSound x (values_at others before after fund key v k on h) s =
    record_valuation-IsSound x others
      ((λ d p. Runs-IsSound x (before d) p), (λ d p. Runs-IsSound x (after d) p)) fund key v k on _
      _ _ _ s h
Runs-IsSound x (closes fund i who h) s = close_period-IsSound fund i who _ _ _ _ s h
Runs-IsSound x (opens fund h) s = open_fund_accounts-IsSound fund _ _ s h
Runs-IsSound x (administers funds commitments periods rates now today) s =
    same_rows-IsSound _ _ refl refl s
