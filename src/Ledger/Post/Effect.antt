-- ===== src/Ledger/Post/Effect.antt =====
-- What a successful `post_transfer` has checked and written.
use fund_ledger.Base.{suc, ◌+◌, ◌≡◌, List, [], ◌∷◌, ◌++◌, arith, length, map_or}
use fund_ledger.Base.Result.{ok, >>=-returns}
use fund_ledger.Ledger.Model.{Db, Account, Transfer, Entry, PricedLeg, Fund}
use fund_ledger.Ledger.Validate.{validate_legs}
use fund_ledger.Ledger.Pricing.{price_legs}
use fund_ledger.Ledger.Insert.{insert_transfer, insert_entries, check_balances}
use fund_ledger.Ledger.Insert.Effect.{
  insert_transfer-TransferInserted, insert_entries-effect, TransferInserted,
}
use fund_ledger.Ledger.Post.{
  Posting, post_transfer, write_transfer, lock_accounts, validate_context, check_balanced,
  check_sufficient_funds, new_transfer, new_entries, fund_by_id,
}

-- the entries of a posting
abbrev pub entries_for : Posting → List PricedLeg → Db → List Entry
entries_for q priced db = new_entries db.uuid (suc db.drawn) (new_transfer q db).id db.now priced

-- The intermediate results of a successful call, each with the step that gave it.
pub record Posted (q : Posting) (db : Db) (t : Transfer) (db' : Db) : Type 0 where
  pub accounts : List Account
  pub fund : Fund
  pub priced : List PricedLeg
  pub validated : validate_legs q.legs ≡ ok tt
  pub locked : lock_accounts q.legs db ≡ ok accounts
  pub in_context : validate_context q.period accounts ≡ ok tt
  pub fund_found : fund_by_id q.period.fund_id db ≡ ok fund
  pub pricing :
      price_legs q.legs accounts fund.base_currency (map_or q.fx_date db.today (λ d. d)) db
      ≡ ok priced
  pub balanced : check_balanced priced ≡ ok tt
  pub funded : check_sufficient_funds priced db ≡ ok tt
  pub written : write_transfer q priced db ≡ ok (t, db')

pub post_transfer-Posted :
    (q : Posting) (db : Db) (t : Transfer) (db' : Db)
    → post_transfer q db ≡ ok (t, db')
    → Posted q db t db'
unfolding post_transfer
post_transfer-Posted q db t db' h =
    let (_, validated, h₁) = >>=-returns (validate_legs q.legs) _ h in
    let (accounts, locked, h₂) = >>=-returns (lock_accounts q.legs db) _ h₁ in
    let (_, in_context, h₃) = >>=-returns (validate_context q.period accounts) _ h₂ in
    let (fund, fund_found, h₄) = >>=-returns (fund_by_id q.period.fund_id db) _ h₃ in
    let (priced, pricing, h₅) =
      >>=-returns (price_legs q.legs accounts fund.base_currency _ db) _ h₄ in
    let (_, balanced, h₆) = >>=-returns (check_balanced priced) _ h₅ in
    let (_, funded, written) = >>=-returns (check_sufficient_funds priced db) _ h₆ in
    record {
      accounts = accounts;
      fund = fund;
      priced = priced;
      validated = validated;
      locked = locked;
      in_context = in_context;
      fund_found = fund_found;
      pricing = pricing;
      balanced = balanced;
      funded = funded;
      written = written;
    }

-- The writes of a successful call, with the state between the two inserts.
pub record Written (q : Posting) (priced : List PricedLeg) (db : Db) (t : Transfer) (db' : Db)
    : Type 0 where
  pub middle : Db
  pub row : t ≡ new_transfer q db
  pub inserted : TransferInserted t (record db { drawn = suc db.drawn + length priced }) middle
  pub entries_in : insert_entries (entries_for q priced db) middle ≡ ok db'
  pub checked : check_balances (entries_for q priced db) db' ≡ ok tt

pub write_transfer-Written :
    (q : Posting) (priced : List PricedLeg) (db : Db) (t : Transfer) (db' : Db)
    → write_transfer q priced db ≡ ok (t, db')
    → Written q priced db t db'
unfolding write_transfer
write_transfer-Written q priced db t db' h =
    let t₀ = new_transfer q db in
    let es = entries_for q priced db in
    let start : Db = record db { drawn = suc db.drawn + length priced } in
    let (db₁, in₁, h₁) = >>=-returns (insert_transfer t₀ start) _ h in
    let (db₂, in₂, h₂) = >>=-returns (insert_entries es db₁) _ h₁ in
    let (_, done, h₃) = >>=-returns (check_balances es db₂) _ h₂ in
    let row : t ≡ t₀ = ground (arith, h₃) in
    let last : db₂ ≡ db' = ground (arith, h₃) in
    record {
      middle = db₁;
      row = row;
      inserted = rw row (insert_transfer-TransferInserted t₀ start db₁ in₁);
      entries_in = rw (← last) in₂;
      checked = rw (← last) done;
    }

-- the whole change of the database
pub write_transfer-effect :
    (q : Posting) (priced : List PricedLeg) (db : Db) (t : Transfer) (db' : Db)
    → write_transfer q priced db ≡ ok (t, db')
    → db' ≡ record db {
      transfers = db.transfers ++ (t ∷ []);
      entries = db.entries ++ entries_for q priced db;
      drawn = suc db.drawn + length priced;
    }
write_transfer-effect q priced db t db' h =
    let w = write_transfer-Written q priced db t db' h in
    ground (
      arith,
      w.inserted.effect,
      insert_entries-effect (entries_for q priced db) w.middle db' w.entries_in,
    )
