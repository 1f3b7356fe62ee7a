-- ===== src/Operations/History/Accounts.antt =====
-- New accounts keep a ledger sound: nothing is booked on them yet.
use fund_ledger.Base.{
  ℕ, ◌≡◌, refl, sym, ap, ◌∙◌, subst, true, false, Option, none, some, List, [], ◌∷◌, ◌++◌, ◌==◌,
  ==_iff, suc, arith, any, any-In, any-append, In, In-append, inl, inr, Bool-cases, Option-cases,
  filter, ◌&&◌,
}
use fund_ledger.Base.Int.{int_laws}
use fund_ledger.Base.Result.{ok, >>=-returns}
use fund_ledger.Ledger.Model.{
  Db, Account, AccountCode, AccountType, Commitment, Entry, Fund, cash, investment, fee_expense,
  gain_loss, gp_capital, lp_capital, lp_code,
}
use fund_ledger.Ledger.Queries.{native_balance}
use fund_ledger.Ledger.Insert.{transfer_imbalance}
use fund_ledger.Operations.Chart.{
  insert_account, get_or_create, account_with, account_code, or_base, ensure_account,
  ensure_accounts, ensure_capital, commitments_of, open_fund_accounts,
}
use fund_ledger.Operations.History.Postings.{IsSound, same_rows-IsSound}

pub insert_account-effect :
    (a : Account) (db db' : Db)
    → insert_account a db ≡ ok db'
    → (any (λ b. b.id == a.id) db.accounts ≡ false)
      × (db' ≡ record db { accounts = db.accounts ++ (a ∷ []) })
unfolding insert_account
insert_account-effect a db db' h = (ground arith, ground arith)

-- an account that no entry is booked on holds nothing
unbooked :
    (i : ℕ) (accounts : List Account) (es : List Entry)
    → any (λ b. b.id == i) accounts ≡ false
    → ((e : Entry) → In e es → any (λ a. a.id == e.account_id) accounts ≡ true)
    → filter (λ e. (e.account_id == i) && true) es ≡ []
unbooked i accounts [] fresh booked = refl
unbooked i accounts (e ∷ es) fresh booked = elim (Bool-cases (e.account_id == i)) [
  | inl same ↦
      let there : any (λ a. a.id == i) accounts ≡ true =
        subst (λ (j : ℕ). any (λ a. a.id == j) accounts ≡ true) ((==_iff e.account_id i).0 same)
          (booked e (inl refl)) in
      absurd (cc)
  | inr other ↦ rw other (unbooked i accounts es fresh (λ f here. booked f (inr here)))
]

keyed-snoc :
    (xs : List Account) (a : Account)
    → any (λ b. b.id == a.id) xs ≡ false
    → ((b c : Account) → In b xs → In c xs → b.id ≡ c.id → b ≡ c)
    → (b c : Account) → In b (xs ++ (a ∷ []))
    → In c (xs ++ (a ∷ []))
    → b.id ≡ c.id
    → b ≡ c
keyed-snoc xs a fresh keyed b c here there same =
    let clash = λ (d : Account) (old : In d xs) (e : d.id ≡ a.id).
      any-In (λ (b : Account). b.id == a.id) xs d old ((==_iff d.id a.id).1 e) in
    elim (In-append b xs (a ∷ []) here) [
      | inl old_b ↦ elim (In-append c xs (a ∷ []) there) [
        | inl old_c ↦ keyed b c old_b old_c same
        | inr (inl new_c) ↦ absurd (cc (clash b old_b (same ∙ ap (λ (d : Account). d.id) new_c)))
        | inr (inr none_left) ↦ absurd none_left
      ]
      | inr (inl new_b) ↦ elim (In-append c xs (a ∷ []) there) [
        | inl old_c ↦ absurd (cc (clash c old_c (sym same ∙ ap (λ (d : Account). d.id) new_b)))
        | inr (inl new_c) ↦ new_b ∙ sym new_c
        | inr (inr none_left) ↦ absurd none_left
      ]
      | inr (inr none_left) ↦ absurd none_left
    ]

insert_account-IsSound :
    (a : Account) (db db' : Db) → IsSound db → insert_account a db ≡ ok db' → IsSound db'
unfolding transfer_imbalance native_balance
insert_account-IsSound a db db' s h =
    let (fresh, written) = insert_account-effect a db db' h in
    rw written record {
      balanced = s.balanced;
      solvent = λ b here cash. elim (In-append b db.accounts (a ∷ []) here) [
        | inl old ↦ s.solvent b old cash
        | inr (inl new) ↦
            rw (new, unbooked a.id db.accounts db.entries fresh s.booked) (grind int_laws)
        | inr (inr none_left) ↦ absurd none_left
      ];
      keyed = keyed-snoc db.accounts a fresh s.keyed;
      booked = λ e here.
          rw
            (
              any-append (λ (b : Account). b.id == e.account_id) db.accounts (a ∷ []),
              s.booked e here,
            )
            refl;
    }

pub get_or_create-IsSound :
    (fund : ℕ) (code : AccountCode) (kind : AccountType) (currency : ℕ) (lp : Option ℕ) (db : Db)
    (a : Account) (db' : Db)
    → IsSound db
    → get_or_create fund code kind currency lp db ≡ ok (a, db')
    → IsSound db'
unfolding get_or_create
get_or_create-IsSound fund code kind currency lp db a db' s h =
    elim (Option-cases (account_with fund code db)) [
      | inr (found, e) ↦
          let same : db ≡ db' = ground (arith, rw (e, get_or_create) at h) in subst IsSound same s
      | inl missing ↦
          let new : Account = record {
            id = db.uuid db.drawn;
            fund_id = fund;
            code = code;
            account_type = kind;
            owner_lp = lp;
            currency = currency;
          } in
          let drawn : Db = record db { drawn = suc db.drawn } in
          let (db₁, written, h₁) =
            >>=-returns (insert_account new drawn) (λ d. ok (new, d))
              (rw (missing, get_or_create) at h) in
          let same : db₁ ≡ db' = ground (arith, h₁) in
          subst IsSound same
            (insert_account-IsSound new drawn db₁ (same_rows-IsSound db drawn refl refl s) written)
    ]

pub ensure_account-IsSound :
    (fund : Fund) (kind : AccountType) (currency : ℕ) (db : Db) (a : Account) (db' : Db)
    → IsSound db
    → ensure_account fund kind currency db ≡ ok (a, db')
    → IsSound db'
unfolding ensure_account
ensure_account-IsSound fund kind currency db a db' s h =
    let (code, _, h₁) = >>=-returns (account_code kind (or_base currency fund) none) _ h in
    get_or_create-IsSound fund.id code kind (or_base currency fund) none db a db' s h₁

ensure_accounts-IsSound :
    (fund : Fund) (kinds : List AccountType) (db db' : Db)
    → IsSound db
    → ensure_accounts fund kinds db ≡ ok db'
    → IsSound db'
ensure_accounts-IsSound fund [] db db' s h =
    let same : db ≡ db' = ground (arith, h) in subst IsSound same s
ensure_accounts-IsSound fund (k ∷ ks) db db' s h =
    let ((a, mid), first, rest) = >>=-returns (ensure_account fund k 0 db) _ h in
    ensure_accounts-IsSound fund ks mid db' (ensure_account-IsSound fund k 0 db a mid s first) rest

ensure_capital-IsSound :
    (fund : Fund) (cs : List Commitment) (db db' : Db)
    → IsSound db
    → ensure_capital fund cs db ≡ ok db'
    → IsSound db'
ensure_capital-IsSound fund [] db db' s h =
    let same : db ≡ db' = ground (arith, h) in subst IsSound same s
ensure_capital-IsSound fund (c ∷ cs) db db' s h =
    let base = fund.base_currency in
    let code = lp_code c.lp_id in
    let ((a, mid), first, rest) =
      >>=-returns (get_or_create fund.id code lp_capital base (some c.lp_id) db)
        (λ made. ensure_capital fund cs made.1) h in
    ensure_capital-IsSound fund cs mid db'
      (get_or_create-IsSound fund.id code lp_capital base (some c.lp_id) db a mid s first) rest

pub open_fund_accounts-IsSound :
    (fund : Fund) (db db' : Db) → IsSound db → open_fund_accounts fund db ≡ ok db' → IsSound db'
unfolding open_fund_accounts
open_fund_accounts-IsSound fund db db' s h =
    let kinds = cash ∷ investment ∷ fee_expense ∷ gain_loss ∷ gp_capital ∷ [] in
    let (mid, first, rest) = >>=-returns (ensure_accounts fund kinds db) _ h in
    ensure_capital-IsSound fund (commitments_of fund mid) mid db'
      (ensure_accounts-IsSound fund kinds db mid s first) rest
