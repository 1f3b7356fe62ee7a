-- ===== src/Operations/Calls/Once.antt =====
-- A capital call is made once for each key, with the transfer that books it.
use fund_ledger.Base.{
  ℕ, ◌≡◌, subst, sym, ap, ◌∙◌, Bool, false, some, List, [], ◌∷◌, ◌++◌, ◌==◌, suc, any, find,
  find-none, find-snoc, arith, if◌then◌else◌, ==_refl,
}
use fund_ledger.Base.Int.{ℤ}
use fund_ledger.Base.Result.{Result, ok, err, ledger, idempotency_conflict, >>=-returns}
use fund_ledger.Ledger.Decimal.{quantize}
use fund_ledger.Ledger.Model.{
  Db, Transfer, Period, CapitalCall, Leg, AccountType, Fund, Commitment, Account,
}
use fund_ledger.Base.Dict.{values}
use fund_ledger.Ledger.Post.{post_transfer, fund_by_id}
use fund_ledger.Ledger.Post.Rows.{post_transfer-appends, post_transfer-key_fresh}
use fund_ledger.Ledger.Idempotency.{Hashing, Others, run_once, by_key, as_replay}
use fund_ledger.Ledger.Idempotency.Once.{CreatesOne, run_once_again}
use fund_ledger.Operations.Calls.{
  CallRequest, call_posting, new_call, insert_capital_call, write_call, create_call, call_of,
  call_hash, create_capital_call, next_call_number, call_or, check_unfunded, call_pair,
}
use fund_ledger.Operations.Allocation.{Shares}
use fund_ledger.Operations.Chart.{get_account, lp_capital_accounts}
use fund_ledger.Operations.Contributions.{contributed_by_account}
use fund_ledger.Operations.Periods.{period_for}
use fund_ledger.Operations.ProRata.{pro_rata, share_legs, sorted_shares}

insert_capital_call-effect :
    (d : CapitalCall) (db : Db) (db' : Db)
    → insert_capital_call d db ≡ ok db'
    → (any (λ (e : CapitalCall). e.transfer_id == d.transfer_id) db.capital_calls ≡ false)
      × (db' ≡ record db { capital_calls = db.capital_calls ++ (d ∷ []); drawn = suc db.drawn })
unfolding insert_capital_call
insert_capital_call-effect d db db' h = (ground arith, ground arith)

-- what a call of `create` that returned has done
pub record Called (q : CallRequest) (hash : ℕ) (amount : ℤ) (legs : List Leg) (period : Period)
    (db : Db) (d : CapitalCall) (db' : Db) : Type 0 where
  pub transfer : Transfer
  pub posted_db : Db
  pub posted :
      post_transfer (call_posting q hash legs period (next_call_number q.fund_id db)) db
      ≡ ok (transfer, posted_db)
  pub document : d ≡ new_call q amount transfer (next_call_number q.fund_id db)
  pub fresh :
      any (λ (e : CapitalCall). e.transfer_id == transfer.id) posted_db.capital_calls ≡ false
  pub effect : db' ≡ record posted_db {
    capital_calls =
        posted_db.capital_calls
        ++ (new_call q amount transfer (next_call_number q.fund_id db) ∷ []);
    drawn = suc posted_db.drawn;
  }

write_call-Called :
    (q : CallRequest) (hash : ℕ) (amount : ℤ) (legs : List Leg) (period : Period) (db : Db)
    (d : CapitalCall) (db' : Db)
    → write_call q hash amount legs period db ≡ ok (d, db')
    → Called q hash amount legs period db d db'
unfolding write_call
write_call-Called q hash amount legs period db d db' h =
    let number = next_call_number q.fund_id db in
    let ((t, db₁), posted, h₁) =
      >>=-returns (post_transfer (call_posting q hash legs period number) db) _ h in
    let (db₂, inserted, h₂) =
      >>=-returns (insert_capital_call (new_call q amount t number) db₁) _ h₁ in
    let (fresh, effect) =
      insert_capital_call-effect (new_call q amount t number) db₁ db₂ inserted in
    let document : d ≡ new_call q amount t number = ground (arith, h₂) in
    let last : db₂ ≡ db' = ground (arith, h₂) in
    record {
      transfer = t;
      posted_db = db₁;
      posted = posted;
      document = document;
      fresh = fresh;
      effect = sym last ∙ effect;
    }

-- the steps of a call of `create` that returned
pub record Made (q : CallRequest) (hash : ℕ) (amount : ℤ) (db : Db) (d : CapitalCall) (db' : Db)
    : Type 0 where
  pub fund : Fund
  pub period : Period
  pub commitments : List Commitment
  pub shares : Shares
  pub cash : Account
  pub legs : List Leg
  pub fund_found : fund_by_id q.fund_id db ≡ ok fund
  pub period_found : period_for fund.id q.notice_date db ≡ ok period
  pub split : pro_rata fund q.total q.places db ≡ ok (commitments, shares)
  pub unfunded :
      check_unfunded shares
        (lp_capital_accounts fund db)
        (contributed_by_account (values (lp_capital_accounts fund db)) db)
        commitments
      ≡ ok tt
  pub booked :
      share_legs (call_pair cash.id) (lp_capital_accounts fund db) (sorted_shares shares) ≡ ok legs
  pub written : Called q hash amount legs period db d db'

pub create_call-Made :
    (q : CallRequest) (hash : ℕ) (amount : ℤ) (db : Db) (d : CapitalCall) (db' : Db)
    → create_call q hash amount db ≡ ok (d, db')
    → Made q hash amount db d db'
unfolding create_call
create_call-Made q hash amount db d db' h =
    let (fund, fund_found, h₁) = >>=-returns (fund_by_id q.fund_id db) _ h in
    let (period, period_found, h₂) = >>=-returns (period_for fund.id q.notice_date db) _ h₁ in
    let ((commitments, shares), split, h₃) = >>=-returns (pro_rata fund q.total q.places db) _ h₂ in
    let accounts = lp_capital_accounts fund db in
    let (_, unfunded, h₄) =
      >>=-returns
        (check_unfunded shares accounts (contributed_by_account (values accounts) db) commitments) _
        h₃ in
    let (cash, _, h₅) = >>=-returns (get_account fund AccountType.cash 0 db) _ h₄ in
    let (legs, booked, h₆) =
      >>=-returns (share_legs (call_pair cash.id) accounts (sorted_shares shares)) _ h₅ in
    record {
      fund = fund;
      period = period;
      commitments = commitments;
      shares = shares;
      cash = cash;
      legs = legs;
      fund_found = fund_found;
      period_found = period_found;
      split = split;
      unfunded = unfunded;
      booked = booked;
      written = write_call-Called q hash amount legs period db d db' h₆;
    }

-- A call that is made leaves one transfer with the key, from which a replay reads the call.
pub create_call-CreatesOne :
    (q : CallRequest) (hash : ℕ) (amount : ℤ)
    → CreatesOne call_of q.idempotency_key hash (create_call q hash amount)
create_call-CreatesOne q hash amount db d db' h =
    let m = create_call-Made q hash amount db d db' h in
    let c = m.written in
    let number = next_call_number q.fund_id db in
    let t = c.transfer in
    let posting = call_posting q hash m.legs m.period number in
    let (_, written, row, _) = post_transfer-appends posting db c.posted in
    let of_transfer = λ (e : CapitalCall). e.transfer_id == t.id in
    let document = new_call q amount t number in
    let found : find of_transfer (c.posted_db.capital_calls ++ (document ∷ [])) ≡ some document =
      find-snoc of_transfer c.posted_db.capital_calls document
        (find-none of_transfer c.posted_db.capital_calls c.fresh) (==_refl t.id) in
    (
      t,
      ap (λ (s : Transfer). s.idempotency_key) row,
      ap (λ (s : Transfer). s.request_hash) row,
      ap (λ (d : Db). d.transfers) c.effect ∙ ap (λ (d : Db). d.transfers) written,
      post_transfer-key_fresh posting db c.posted,
      ap (λ (d : Db). call_of t d) c.effect ∙ (ap call_or found ∙ ap ok (sym c.document)),
    )

-- After a capital call that returned `d`, one under the same key returns the call of the transfer
-- that holds the key and writes nothing if its fingerprint is the same, and is a conflict if not:
-- no second call is made, however the two meet other sessions, as long as no transfer is lost.
pub create_capital_call_again :
    (x : Hashing) (others : Others) (q : CallRequest) (db : Db) {d : CapitalCall} {c : Bool}
    {db' : Db}
    → create_capital_call x others q db ≡ ok ((d, c), db')
    → (others' : Others) (q' : CallRequest) (amount' : ℤ) (later : Db) (ts : List Transfer)
    → q'.idempotency_key ≡ q.idempotency_key
    → quantize q'.total q'.places ≡ ok amount'
    → later.transfers ≡ db'.transfers ++ ts
    → (amount : ℤ) × (t : Transfer) × (quantize q.total q.places ≡ ok amount)
      × (by_key q.idempotency_key db' ≡ some t)
      × (call_of t db' ≡ ok d)
      × (create_capital_call x others' q' later ≡ (
          if call_hash x q amount == call_hash x q' amount'
          then as_replay (call_of t later) later
          else err (ledger idempotency_conflict)))
unfolding create_capital_call
create_capital_call_again x others q db {d} {c} {db'} h others' q' amount' later ts key valid
      grown =
    let (amount, size, ran) = >>=-returns (quantize q.total q.places) _ h in
    let hash = call_hash x q amount in
    let hash' = call_hash x q' amount' in
    let (t, bound, same, again) =
      run_once_again call_of others q.idempotency_key hash (create_call q hash amount)
        (create_call-CreatesOne q hash amount) db ran others' hash' (create_call q' hash' amount')
        later ts grown in
    let whole : Result ((CapitalCall × Bool) × Db) =
      if hash == hash'
      then as_replay (call_of t later) later
      else err (ledger idempotency_conflict) in
    (
      amount,
      t,
      size,
      bound,
      same,
      rw valid (
          subst
            (λ (k : ℕ).
              run_once others' k hash' (create_call q' hash' amount') call_of later ≡ whole)
            (sym key) again),
    )
