-- ===== src/Operations/Calls/Funded.antt =====
-- No partner is called above its commitment.
use fund_ledger.Base.{ℕ, ◌≤◌, ◌≡◌, refl, sym, ap, ◌∙◌, subst, true, false, some, List, In, arith}
use fund_ledger.Base.Int.{ℤ, pos, ◌+ℤ◌, ◌-ℤ◌, ◌≤ℤ◌, ltb_ℤ, int_laws}
use fund_ledger.Base.Dict.{get, values}
use fund_ledger.Base.Result.{ok, >>=-returns}
use fund_ledger.Ledger.Decimal.{quantize}
use fund_ledger.Ledger.Model.{Db, Fund, Commitment, Account, CapitalCall}
use fund_ledger.Ledger.Idempotency.{Hashing, Others}
use fund_ledger.Ledger.Idempotency.Once.{run_once-creates}
use fund_ledger.Ledger.Post.{fund_by_id}
use fund_ledger.Ledger.Post.Solvent.{IsKeyed}
use fund_ledger.Operations.Allocation.Fair.{IsDict}
use fund_ledger.Operations.Chart.{commitments_of, lp_capital_accounts}
use fund_ledger.Operations.Contributions.{contributed, contributed_by_account}
use fund_ledger.Operations.Contributions.Growth.{IsReferenced}
use fund_ledger.Operations.ProRata.{weights_of}
use fund_ledger.Operations.Calls.{CallRequest, create_call, call_of, call_hash, create_capital_call}
use fund_ledger.Operations.Calls.Once.{Made, create_call-Made, create_call-CreatesOne}
use fund_ledger.Operations.Calls.Growth.{call_growth, pro_rata-split, same_fund}
use fund_ledger.Operations.Calls.Legs.{share_sum}
use fund_ledger.Operations.Calls.Lookups.{
  share_sum-get, lp_capital_accounts-get, contributed_by_account-get, check_unfunded-holds,
}

-- the partner has an account, and has paid in no more than its commitment
abbrev pub IsFunded : Fund → Db → Db → Commitment → Type 0
IsFunded fund db db' c =
    (a : Account) × (get c.lp_id (lp_capital_accounts fund db) ≡ some a)
    × (contributed a.id db' ≤ℤ pos c.committed_amount)

not_above : (a b : ℤ) → ltb_ℤ a b ≡ false → b ≤ℤ a
not_above a b h = ground arith

within_commitment :
    (paid share after : ℤ) (n : ℕ)
    → after ≤ℤ paid +ℤ share
    → share ≤ℤ pos n -ℤ paid
    → after ≤ℤ pos n
within_commitment paid share after n grown left = omega (int_laws, grown, left)

Made-IsFunded :
    (q : CallRequest) (hash : ℕ) (amount : ℤ) (db : Db) (d : CapitalCall) (db' : Db)
    (m : Made q hash amount db d db')
    → IsKeyed db
    → IsReferenced db
    → IsDict (weights_of (commitments_of m.fund db))
    → (c : Commitment) → In c (commitments_of m.fund db)
    → IsFunded m.fund db db' c
Made-IsFunded q hash amount db d db' m keyed referenced dict c here =
    let accounts = lp_capital_accounts m.fund db in
    let (all, keys) = pro_rata-split m.fund q.total q.places db m.commitments m.shares m.split in
    let (a, paid, share, held, payment, given, enough) =
      check_unfunded-holds m.shares accounts (contributed_by_account (values accounts) db)
        m.commitments c m.unfunded (subst (λ (cs : List Commitment). In c cs) (sym all) here) in
    let (known, owner, base) = lp_capital_accounts-get m.fund db c.lp_id a held in
    let only : (lp : ℕ) (b : Account) → get lp accounts ≡ some b → b.id ≡ a.id → lp ≡ c.lp_id =
      λ lp b its same.
        let (b_known, b_owner, _) = lp_capital_accounts-get m.fund db lp b its in
        let it : b ≡ a = keyed b a b_known known same in
        let owners : some lp ≡ some c.lp_id =
          sym b_owner ∙ (ap (λ (x : Account). x.owner_lp) it ∙ owner) in
        cc in
    let growth = call_growth q hash amount db d db' m keyed referenced c.lp_id a known base only in
    let sum : share_sum c.lp_id m.shares ≡ share =
      share_sum-get c.lp_id m.shares share
        (subst (λ (n : ℕ). n ≤ 1) (sym (keys c.lp_id)) (dict c.lp_id)) given in
    let before : paid ≡ contributed a.id db =
      contributed_by_account-get (values accounts) db a.id paid payment in
    (
      a,
      held,
      within_commitment paid share (contributed a.id db') c.committed_amount
          (subst (λ (z : ℤ). contributed a.id db' ≤ℤ z +ℤ share) (sym before)
            (subst (λ (z : ℤ). contributed a.id db' ≤ℤ contributed a.id db +ℤ z) sum growth))
          (not_above (pos c.committed_amount -ℤ paid) share enough),
    )

create_call-IsFunded :
    (q : CallRequest) (hash : ℕ) (amount : ℤ) (db : Db) (d : CapitalCall) (db' : Db) (fund : Fund)
    → IsKeyed db
    → IsReferenced db
    → IsDict (weights_of (commitments_of fund db))
    → fund_by_id q.fund_id db ≡ ok fund
    → create_call q hash amount db ≡ ok (d, db')
    → (c : Commitment) → In c (commitments_of fund db)
    → (a : Account) × (get c.lp_id (lp_capital_accounts fund db) ≡ some a)
      × (contributed a.id db' ≤ℤ pos c.committed_amount)
create_call-IsFunded q hash amount db d db' fund keyed referenced dict found h c here =
    let m = create_call-Made q hash amount db d db' h in
    let same : m.fund ≡ fund =
      same_fund q.fund_id q.fund_id db m.fund fund refl m.fund_found found in
    subst
      (λ (f : Fund).
        IsDict (weights_of (commitments_of f db))
        → In c (commitments_of f db)
        → IsFunded f db db' c)
      same (λ dict' here'. Made-IsFunded q hash amount db d db' m keyed referenced dict' c here')
      dict here

-- After a capital call is made, what each partner with a commitment to the fund has paid in is at
-- most its commitment. `mid` is the database that the call found: its accounts have unique ids, its
-- foreign keys hold, and a partner has one commitment to the fund.
pub create_capital_call-IsFunded :
    (x : Hashing) (others : Others) (q : CallRequest) (db mid : Db) (fund : Fund) {d : CapitalCall}
    {db' : Db}
    → others.before db ≡ mid
    → IsKeyed mid
    → IsReferenced mid
    → IsDict (weights_of (commitments_of fund mid))
    → fund_by_id q.fund_id mid ≡ ok fund
    → create_capital_call x others q db ≡ ok ((d, true), db')
    → (c : Commitment) → In c (commitments_of fund mid)
    → IsFunded fund mid db' c
unfolding create_capital_call
create_capital_call-IsFunded x others q db mid fund {d} {db'} found keyed referenced dict fund_found
      h c here =
    let (amount, _, ran) = >>=-returns (quantize q.total q.places) _ h in
    let hash = call_hash x q amount in
    let made =
      (run_once-creates call_of others q.idempotency_key hash (create_call q hash amount)
        (create_call-CreatesOne q hash amount) db ran).0 in
    create_call-IsFunded q hash amount mid d db' fund keyed referenced dict fund_found
      (subst (λ (m : Db). create_call q hash amount m ≡ ok (d, db')) found made) c here
