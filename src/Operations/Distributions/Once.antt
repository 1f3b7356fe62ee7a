-- ===== src/Operations/Distributions/Once.antt =====
-- A distribution is made once for each key, with the transfer that books it.
use fund_ledger.Base.{
  ℕ, suc, ◌≡◌, sym, ap, ◌∙◌, subst, Bool, false, some, List, [], ◌∷◌, ◌++◌, ◌==◌, ==_refl, any,
  find, find-none, find-snoc, arith, if◌then◌else◌,
}
use fund_ledger.Base.Int.{ℤ}
use fund_ledger.Base.Result.{Result, ok, err, ledger, idempotency_conflict, >>=-returns}
use fund_ledger.Ledger.Decimal.{quantize}
use fund_ledger.Ledger.Model.{Db, AccountType, Distribution, Leg, Period, Transfer}
use fund_ledger.Ledger.Post.{post_transfer, fund_by_id}
use fund_ledger.Ledger.Post.Rows.{post_transfer-appends, post_transfer-key_fresh}
use fund_ledger.Ledger.Idempotency.{Hashing, Others, run_once, by_key, as_replay}
use fund_ledger.Ledger.Idempotency.Once.{CreatesOne, run_once_again}
use fund_ledger.Operations.Chart.{get_account, lp_capital_accounts}
use fund_ledger.Operations.Periods.{period_for}
use fund_ledger.Operations.ProRata.{pro_rata, share_legs, sorted_shares}
use fund_ledger.Operations.Distributions.{
  DistributionRequest, distribution_pair, distribution_posting, new_distribution,
  insert_distribution, write_distribution, pay_out, distribution_or, distribution_of,
  distribution_hash, create_distribution, next_distribution_number,
}

insert_distribution-effect :
    (d : Distribution) (db db' : Db)
    → insert_distribution d db ≡ ok db'
    → (any (λ (e : Distribution). e.transfer_id == d.transfer_id) db.distributions ≡ false)
      × (db' ≡ record db { distributions = db.distributions ++ (d ∷ []); drawn = suc db.drawn })
unfolding insert_distribution
insert_distribution-effect d db db' h = (ground arith, ground arith)

-- what a payment that returned has done
pub record Paid (q : DistributionRequest) (hash : ℕ) (amount : ℤ) (db : Db) (d : Distribution)
    (db' : Db) : Type 0 where
  pub legs : List Leg
  pub period : Period
  pub transfer : Transfer
  pub posted_db : Db
  pub posted :
      post_transfer
        (distribution_posting q hash legs period (next_distribution_number q.fund_id db))
        db
      ≡ ok (transfer, posted_db)
  pub document : d ≡ new_distribution q amount transfer (next_distribution_number q.fund_id db)
  pub fresh :
      any (λ (e : Distribution). e.transfer_id == transfer.id) posted_db.distributions ≡ false
  pub effect : db' ≡ record posted_db {
    distributions =
        posted_db.distributions
        ++ (new_distribution q amount transfer (next_distribution_number q.fund_id db) ∷ []);
    drawn = suc posted_db.drawn;
  }

module _ (q : DistributionRequest) (hash : ℕ) (amount : ℤ) where
  write_distribution-Paid :
      (legs : List Leg) (period : Period) (db : Db) (d : Distribution) (db' : Db)
      → write_distribution q hash amount legs period db ≡ ok (d, db')
      → Paid q hash amount db d db'
  unfolding write_distribution
  write_distribution-Paid legs period db d db' h =
      let number = next_distribution_number q.fund_id db in
      let posting = distribution_posting q hash legs period number in
      let ((t, db₁), posted, h₁) = >>=-returns (post_transfer posting db) _ h in
      let document = new_distribution q amount t number in
      let (db₂, inserted, h₂) = >>=-returns (insert_distribution document db₁) _ h₁ in
      let (fresh, written) = insert_distribution-effect document db₁ db₂ inserted in
      let result : d ≡ document = ground (arith, h₂) in
      let last : db₂ ≡ db' = ground (arith, h₂) in
      record {
        legs = legs;
        period = period;
        transfer = t;
        posted_db = db₁;
        posted = posted;
        document = result;
        fresh = fresh;
        effect = sym last ∙ written;
      }

  pub pay_out-Paid :
      (db : Db) (d : Distribution) (db' : Db)
      → pay_out q hash amount db ≡ ok (d, db')
      → Paid q hash amount db d db'
  unfolding pay_out
  pay_out-Paid db d db' h =
      let (fund, _, h₁) = >>=-returns (fund_by_id q.fund_id db) _ h in
      let (period, _, h₂) = >>=-returns (period_for fund.id q.payment_date db) _ h₁ in
      let (split, _, h₃) = >>=-returns (pro_rata fund q.total q.places db) _ h₂ in
      let (cash, _, h₄) = >>=-returns (get_account fund AccountType.cash 0 db) _ h₃ in
      let (legs, _, h₅) =
        >>=-returns
          (share_legs (distribution_pair cash.id) (lp_capital_accounts fund db)
            (sorted_shares split.1))
          _ h₄ in
      write_distribution-Paid legs period db d db' h₅

  -- A payment leaves one transfer with the key, from which a replay reads the distribution.
  pay_out-CreatesOne : CreatesOne distribution_of q.idempotency_key hash (pay_out q hash amount)
  pay_out-CreatesOne db d db' h =
      let w = pay_out-Paid db d db' h in
      let number = next_distribution_number q.fund_id db in
      let t = w.transfer in
      let posting = distribution_posting q hash w.legs w.period number in
      let (_, appended, row, _) = post_transfer-appends posting db w.posted in
      let of_transfer = λ (e : Distribution). e.transfer_id == t.id in
      let document = new_distribution q amount t number in
      let found : find of_transfer (w.posted_db.distributions ++ (document ∷ [])) ≡ some document =
        find-snoc of_transfer w.posted_db.distributions document
          (find-none of_transfer w.posted_db.distributions w.fresh) (==_refl t.id) in
      (
        t,
        ap (λ (s : Transfer). s.idempotency_key) row,
        ap (λ (s : Transfer). s.request_hash) row,
        ap (λ (x : Db). x.transfers) w.effect ∙ ap (λ (x : Db). x.transfers) appended,
        post_transfer-key_fresh posting db w.posted,
        ap (λ (x : Db). distribution_of t x) w.effect
            ∙ (ap distribution_or found ∙ ap ok (sym w.document)),
      )

-- After a distribution that returned `d`, one under the same key returns the distribution of the
-- transfer that holds the key and writes nothing if its fingerprint is the same, and is a conflict
-- if not: nothing is paid out again, however the two meet other sessions, as long as no transfer
-- is lost.
pub create_distribution_again :
    (x : Hashing) (others : Others) (q : DistributionRequest) (db : Db) {d : Distribution}
    {c : Bool} {db' : Db}
    → create_distribution x others q db ≡ ok ((d, c), db')
    → (others' : Others) (q' : DistributionRequest) (amount' : ℤ) (later : Db) (ts : List Transfer)
    → q'.idempotency_key ≡ q.idempotency_key
    → quantize q'.total q'.places ≡ ok amount'
    → later.transfers ≡ db'.transfers ++ ts
    → (amount : ℤ) × (t : Transfer) × (quantize q.total q.places ≡ ok amount)
      × (by_key q.idempotency_key db' ≡ some t)
      × (distribution_of t db' ≡ ok d)
      × (create_distribution x others' q' later ≡ (
          if distribution_hash x q amount == distribution_hash x q' amount'
          then as_replay (distribution_of t later) later
          else err (ledger idempotency_conflict)))
unfolding create_distribution
create_distribution_again x others q db {d} {c} {db'} h others' q' amount' later ts key valid
      grown =
    let (amount, size, ran) = >>=-returns (quantize q.total q.places) _ h in
    let hash = distribution_hash x q amount in
    let hash' = distribution_hash x q' amount' in
    let (t, bound, same, again) =
      run_once_again distribution_of others q.idempotency_key hash (pay_out q hash amount)
        (pay_out-CreatesOne q hash amount) db ran others' hash' (pay_out q' hash' amount') later ts
        grown in
    let whole : Result ((Distribution × Bool) × Db) =
      if hash == hash'
      then as_replay (distribution_of t later) later
      else err (ledger idempotency_conflict) in
    (
      amount,
      t,
      size,
      bound,
      same,
      rw valid (
          subst
            (λ (k : ℕ).
              run_once others' k hash' (pay_out q' hash' amount') distribution_of later ≡ whole)
            (sym key) again),
    )
