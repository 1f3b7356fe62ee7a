-- ===== src/Operations/Reference/Accounts.antt =====
-- The accounts that are made where they are missing.
use fund_ledger.Base.{
  ℕ, suc, ◌≡◌, refl, sym, ap, ◌∙◌, subst, true, Option, none, some, List, [], ◌∷◌, ◌++◌, ◌==◌,
  ==_refl, arith, find-append, find-snoc, Option-cases, inl, inr, filter, ◌&&◌,
}
use fund_ledger.Base.Result.{Result, ok, >>=-returns, Result-cases, ◌>>=◌}
use fund_ledger.Ledger.Model.{
  Db, Account, AccountCode, AccountType, Commitment, Fund, cash, investment, fee_expense, gain_loss,
  gp_capital, lp_capital, lp_code, in_currency, plain,
}
use fund_ledger.Operations.Chart.{
  insert_account, get_or_create, account_with, account_code, or_base, same_code, same_type,
  ensure_account, ensure_accounts, ensure_capital, commitments_of, open_fund_accounts,
}
use fund_ledger.Operations.History.Accounts.{insert_account-effect}
use fund_ledger.Operations.Reference.{ensure_all}
use fund_ledger.Operations.Reference.Adds.{
  Adds, Maker, none_added, Adds-refl, Adds-trans, ensure_all-Adds, ensure_all_again,
}

same_type_refl : (k : AccountType) → same_type k k ≡ true
same_type_refl k = ground arith

same_code_refl : (c : AccountCode) → same_code c c ≡ true
same_code_refl (lp_code i) = ==_refl i
same_code_refl (in_currency k c) = rw (same_type_refl k, ==_refl c) refl
same_code_refl (plain k) = same_type_refl k

abbrev pub HasAccount : ℕ → AccountCode → Db → Type 0
HasAccount fund code db = (a : Account) × (account_with fund code db ≡ some a)

HasAccount-stays :
    (fund : ℕ) (code : AccountCode) (db db' : Db)
    → Adds db db'
    → HasAccount fund code db
    → HasAccount fund code db'
HasAccount-stays fund code db db' g (a, h) =
    let (rows, grown) = g.accounts in
    (
      a,
      rw grown (
          find-append (λ (a : Account). (a.fund_id == fund) && same_code a.code code) db.accounts
            rows a h),
    )

-- a call of `get_or_create` adds at most an account
get_or_create-Adds :
    (fund : ℕ) (code : AccountCode) (kind : AccountType) (currency : ℕ) (lp : Option ℕ) (db : Db)
    (a : Account) (db' : Db)
    → get_or_create fund code kind currency lp db ≡ ok (a, db')
    → Adds db db' × HasAccount fund code db' × (db'.commitments ≡ db.commitments)
unfolding get_or_create
get_or_create-Adds fund code kind currency lp db a db' h =
    let test = λ (a : Account). (a.fund_id == fund) && same_code a.code code in
    elim (Option-cases (account_with fund code db)) [
      | inr (found, e) ↦
          let same : db ≡ db' = ground (arith, rw (e, get_or_create) at h) in
          subst (λ (x : Db). Adds db x × HasAccount fund code x × (x.commitments ≡ db.commitments))
            same (Adds-refl db, (found, e), refl)
      | inl missing ↦
          let new : Account = record {
            id = db.uuid db.drawn;
            fund_id = fund;
            code = code;
            account_type = kind;
            owner_lp = lp;
            currency = currency;
          } in
          let drawn : Db = record db { drawn = suc db.drawn } in
          let (db₁, inserted, h₁) =
            >>=-returns (insert_account new drawn) (λ d. ok (new, d))
              (rw (missing, get_or_create) at h) in
          let (_, written) = insert_account-effect new drawn db₁ inserted in
          let last : db₁ ≡ db' = ground (arith, h₁) in
          let same : record drawn { accounts = db.accounts ++ (new ∷ []) } ≡ db' =
            sym written ∙ last in
          subst (λ (x : Db). Adds db x × HasAccount fund code x × (x.commitments ≡ db.commitments))
            same
            (
              record {
                funds = none_added db.funds;
                commitments = none_added db.commitments;
                periods = none_added db.periods;
                accounts = (new ∷ [], refl);
              },
              (
                new,
                find-snoc test db.accounts new missing
                    (rw (==_refl fund, same_code_refl code) refl),
              ),
              refl,
            )
    ]

get_or_create-idle :
    (fund : ℕ) (code : AccountCode) (kind : AccountType) (currency : ℕ) (lp : Option ℕ) (db : Db)
    (a : Account)
    → account_with fund code db ≡ some a
    → get_or_create fund code kind currency lp db ≡ ok (a, db)
unfolding get_or_create
get_or_create-idle fund code kind currency lp db a h = rw (h, get_or_create) refl

-- the bodies of the two loops
abbrev pub ensure_kind : Fund → AccountType → Db → Result Db
ensure_kind fund k db = ensure_account fund k 0 db >>= λ made. ok made.1

abbrev pub ensure_partner : Fund → Commitment → Db → Result Db
ensure_partner fund c db =
    get_or_create fund.id (lp_code c.lp_id) lp_capital fund.base_currency (some c.lp_id) db
    >>= λ made. ok made.1

abbrev HasKind : Fund → AccountType → Db → Type 0
HasKind fund k db =
    (code : AccountCode) × (account_code k (or_base 0 fund) none ≡ ok code)
    × HasAccount fund.id code db

abbrev HasPartner : Fund → Commitment → Db → Type 0
HasPartner fund c db = HasAccount fund.id (lp_code c.lp_id) db

module _ (fund : Fund) where
  kind-Adds :
      (k : AccountType) (db db' : Db)
      → ensure_kind fund k db ≡ ok db'
      → Adds db db' × HasKind fund k db' × (db'.commitments ≡ db.commitments)
  unfolding ensure_account
  kind-Adds k db db' h =
      let base = or_base 0 fund in
      let ((a, mid), made, last) = >>=-returns (ensure_account fund k 0 db) (λ m. ok m.1) h in
      let (code, of_kind, got) = >>=-returns (account_code k base none) _ made in
      let same : mid ≡ db' = ground (arith, last) in
      let (added, has, kept) = get_or_create-Adds fund.id code k base none db a mid got in
      subst (λ (x : Db). Adds db x × HasKind fund k x × (x.commitments ≡ db.commitments)) same
        (added, (code, of_kind, has), kept)

  kind-stays :
      (k : AccountType) (db db' : Db) → Adds db db' → HasKind fund k db → HasKind fund k db'
  kind-stays k db db' g (code, of_kind, has) =
      (code, of_kind, HasAccount-stays fund.id code db db' g has)

  kind-idle : (k : AccountType) (db : Db) → HasKind fund k db → ensure_kind fund k db ≡ ok db
  unfolding ensure_account
  kind-idle k db (code, of_kind, (a, h)) =
      rw (of_kind, get_or_create-idle fund.id code k (or_base 0 fund) none db a h) refl

  partner-Adds :
      (c : Commitment) (db db' : Db)
      → ensure_partner fund c db ≡ ok db'
      → Adds db db' × HasPartner fund c db' × (db'.commitments ≡ db.commitments)
  partner-Adds c db db' h =
      let code = lp_code c.lp_id in
      let base = fund.base_currency in
      let ((a, mid), made, last) =
        >>=-returns (get_or_create fund.id code lp_capital base (some c.lp_id) db) (λ m. ok m.1)
          h in
      let same : mid ≡ db' = ground (arith, last) in
      subst (λ (x : Db). Adds db x × HasPartner fund c x × (x.commitments ≡ db.commitments)) same
        (get_or_create-Adds fund.id code lp_capital base (some c.lp_id) db a mid made)

  partner-stays :
      (c : Commitment) (db db' : Db) → Adds db db' → HasPartner fund c db → HasPartner fund c db'
  partner-stays c db db' g h = HasAccount-stays fund.id (lp_code c.lp_id) db db' g h

  partner-idle :
      (c : Commitment) (db : Db) → HasPartner fund c db → ensure_partner fund c db ≡ ok db
  partner-idle c db (a, h) =
      rw
        (get_or_create-idle fund.id (lp_code c.lp_id) lp_capital fund.base_currency (some c.lp_id)
          db a h)
        refl

  kind_maker : Maker (ensure_kind fund) (HasKind fund)
  kind_maker = record {
    adds = λ k db db' h. ((kind-Adds k db db' h).0, (kind-Adds k db db' h).1);
    stays = kind-stays;
    idle = kind-idle;
  }

  partner_maker : Maker (ensure_partner fund) (HasPartner fund)
  partner_maker = record {
    adds = λ c db db' h. ((partner-Adds c db db' h).0, (partner-Adds c db db' h).1);
    stays = partner-stays;
    idle = partner-idle;
  }

  -- the loops of chart.py are loops of such calls
  ensure_accounts-ensure_all :
      (ks : List AccountType) (db : Db)
      → ensure_accounts fund ks db ≡ ensure_all (ensure_kind fund) ks db
  unfolding ensure_all
  ensure_accounts-ensure_all [] db = refl
  ensure_accounts-ensure_all (k ∷ ks) db = elim (Result-cases (ensure_account fund k 0 db)) [
    | inl (e, failed) ↦ rw failed refl
    | inr ((a, mid), made) ↦ rw made (ensure_accounts-ensure_all ks mid)
  ]

  ensure_capital-ensure_all :
      (cs : List Commitment) (db : Db)
      → ensure_capital fund cs db ≡ ensure_all (ensure_partner fund) cs db
  unfolding ensure_all
  ensure_capital-ensure_all [] db = refl
  ensure_capital-ensure_all (c ∷ cs) db =
      elim (Result-cases
        (get_or_create fund.id (lp_code c.lp_id) lp_capital fund.base_currency (some c.lp_id) db)) [
          | inl (e, failed) ↦ rw failed refl
          | inr ((a, mid), made) ↦ rw made (ensure_capital-ensure_all cs mid)
        ]

  -- a loop that keeps the commitments in each pass keeps them
  ensure_all-commitments :
      {K : Type 0} (ensure : K → Db → Result Db)
      → ((k : K) (db db' : Db) → ensure k db ≡ ok db' → db'.commitments ≡ db.commitments)
      → (ks : List K) (db db' : Db) → ensure_all ensure ks db ≡ ok db'
      → db'.commitments ≡ db.commitments
  unfolding ensure_all
  ensure_all-commitments ensure keeps [] db db' h =
      let same : db ≡ db' = ground (arith, h) in ap (λ (x : Db). x.commitments) (sym same)
  ensure_all-commitments ensure keeps (k ∷ ks) db db' h =
      let (mid, first, rest) = >>=-returns (ensure k db) (ensure_all ensure ks) h in
      ensure_all-commitments ensure keeps ks mid db' rest ∙ keeps k db mid first

  -- The accounts of a fund are made once: opening them again changes nothing.
  pub open_fund_accounts_again :
      (db db' : Db)
      → open_fund_accounts fund db ≡ ok db'
      → Adds db db' × (open_fund_accounts fund db' ≡ ok db')
  unfolding open_fund_accounts
  open_fund_accounts_again db db' h =
      let kinds = cash ∷ investment ∷ fee_expense ∷ gain_loss ∷ gp_capital ∷ [] in
      let (mid, first, rest) = >>=-returns (ensure_accounts fund kinds db) _ h in
      let cs = commitments_of fund mid in
      let kinds_made = sym (ensure_accounts-ensure_all kinds db) ∙ first in
      let partners_made = sym (ensure_capital-ensure_all cs mid) ∙ rest in
      let late = ensure_all-Adds partner_maker cs mid db' partners_made in
      let same : commitments_of fund db' ≡ cs = ap (filter (λ c. c.fund_id == fund.id)) (
        ensure_all-commitments (ensure_partner fund) (λ c d d' e. (partner-Adds c d d' e).2) cs mid
          db' partners_made) in
      (
        Adds-trans (ensure_all-Adds kind_maker kinds db mid kinds_made) late,
        rw
            (
              ensure_accounts-ensure_all kinds db',
              ensure_all_again kind_maker kinds db mid db' kinds_made late,
              same,
            )
            (ensure_capital-ensure_all cs db'
              ∙ ensure_all_again partner_maker cs mid db' db' partners_made (Adds-refl db')),
      )
