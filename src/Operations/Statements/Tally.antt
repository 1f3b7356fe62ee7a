-- ===== src/Operations/Statements/Tally.antt =====
-- Which entries a fund's periods and accounts take in, and how often.
use fund_ledger.Base.{
  ℕ, ◌≡◌, refl, sym, ap, ◌∙◌, subst, Bool, true, false, ◌&&◌, some, List, [], ◌∷◌, ◌==◌, ==_refl,
  ==_iff, leb, In, In-filter, In-filter_holds, map_or, any, any-In, any-found, any-sort_by,
  filter-In, find-In, find-holds, filter, arith, inl, inr, Bool-cases, Option-cases,
}
use fund_ledger.Base.Int.{ℤ, sum_by}
use fund_ledger.Base.Sums.{when, Apart, sum_by-alike, sum_by-key, sum_by-zero}
use fund_ledger.Base.Dict.{get}
use fund_ledger.Ledger.Model.{Db, Fund, Period, Account, AccountType, Entry, is_lp_capital}
use fund_ledger.Ledger.Queries.{transfer_by_id}
use fund_ledger.Ledger.Post.Filed.{IsFiled}
use fund_ledger.Ledger.Post.Solvent.{IsKeyed}
use fund_ledger.Operations.Chart.{lp_capital_accounts, same_type}
use fund_ledger.Operations.Periods.Closing.{IsKeyedPeriods}
use fund_ledger.Operations.Calls.Lookups.{lp_capital_accounts-row}
use fund_ledger.Operations.Statements.{falls_in, on_type, periods_until}

pub when-and : (a b : Bool) (v : ℤ) → when (a && b) v ≡ when a (when b v)
when-and true b v = refl
when-and false b v = refl

pub sum_by-when :
    {A : Type 0} (b : Bool) (f : A → ℤ) (xs : List A)
    → sum_by (λ x. when b (f x)) xs ≡ when b (sum_by f xs)
sum_by-when true f xs = refl
sum_by-when false f xs = sum_by-zero xs

pub ==_sym : (a b : ℕ) → (a == b) ≡ (b == a)
==_sym a b = ground arith

-- the transfer is of one of the periods
abbrev pub in_any : Db → List Period → ℕ → Bool
in_any db qs t = map_or (transfer_by_id t db) false (λ s. any (λ q. q.id == s.period_id) qs)

-- an entry falls in one of different periods at most
pub falls_in-sum :
    (db : Db) (qs : List Period) (e : Entry) (v : ℤ)
    → Apart (λ q. q.id) qs
    → sum_by (λ q. when (falls_in db q.id e) v) qs ≡ when (in_any db qs e.transfer_id) v
falls_in-sum db qs e v apart = elim (Option-cases (transfer_by_id e.transfer_id db)) [
  | inl missing ↦ rw missing (sum_by-zero qs)
  | inr (t, found) ↦ rw found (
      sum_by-alike (λ q. when (t.period_id == q.id) v) (λ q. when (q.id == t.period_id) v) qs
        (λ q there. ap (λ (b : Bool). when b v) (==_sym t.period_id q.id))
      ∙ sum_by-key (λ (q : Period). q.id) t.period_id v qs apart)
]

-- the id of the account that the dict holds for a partner
abbrev pub account_of : Fund → Db → ℕ → ℕ
account_of fund db lp = map_or (get lp (lp_capital_accounts fund db)) 0 (λ a. a.id)

module _ (fund : Fund) (db : Db) (keyed : IsKeyed db) where
  -- two partners have two accounts
  pub account_of-Apart :
      (lps : List ℕ)
      → ((lp : ℕ) → In lp lps → (a : Account) × (get lp (lp_capital_accounts fund db) ≡ some a))
      → Apart (λ lp. lp) lps
      → Apart (account_of fund db) lps
  account_of-Apart [] has apart = tt
  account_of-Apart (lp ∷ lps) has (fresh, apart) =
      let (a, held) = has lp (inl refl) in
      (
        elim (Bool-cases (any (λ i. account_of fund db i == account_of fund db lp) lps)) [
          | inr differs ↦ differs
          | inl shared ↦
              let (i, there, equal) =
                any-found (λ i. account_of fund db i == account_of fund db lp) lps shared in
              let (b, held') = has i (inr there) in
              let (here, own, _) = lp_capital_accounts-row fund db lp a held in
              let (here', own', _) = lp_capital_accounts-row fund db i b held' in
              let ids : b.id ≡ a.id = (==_iff b.id a.id).0 (rw (held, held') at equal) in
              let same : b ≡ a = keyed b a here' here ids in
              let one : i ≡ lp =
                ground (arith, sym own' ∙ (ap (λ (x : Account). x.owner_lp) same ∙ own)) in
              absurd (cc (any-In (λ j. j == lp) lps i there (rw one (==_refl lp)), fresh))
        ],
        account_of-Apart lps (λ i there. has i (inr there)) apart,
      )

-- the test of the periods until `p`
abbrev is_until : Fund → Period → Period → Bool
is_until fund p q = (q.fund_id == fund.id) && leb q.start_date p.start_date

module _ (fund : Fund) (db : Db) (p : Period) where
  -- the transfer of an entry is of one of the periods if its period is, by fund and start
  pub in_any-is_until :
      (e : Entry) (filed : IsFiled db e)
      → IsKeyedPeriods db.periods
      → in_any db (periods_until fund.id p db) e.transfer_id
        ≡ ((filed.account.fund_id == fund.id) && leb filed.period.start_date p.start_date)
  in_any-is_until e filed once =
      let q = filed.period in
      let i = filed.transfer.period_id in
      let test = λ (r : Period). r.id == i in
      let here = find-In test db.periods q filed.has_period in
      let own : q.id ≡ i = (==_iff q.id i).0 (find-holds test db.periods q filed.has_period) in
      let sorted =
        any-sort_by test (λ q r. leb q.start_date r.start_date)
          (filter (is_until fund p) db.periods) in
      let there : any test (filter (is_until fund p) db.periods) ≡ is_until fund p q =
        elim (Bool-cases (any test (filter (is_until fund p) db.periods))) [
          | inl some_one ↦
              let (r, kept, equal) =
                any-found test (filter (is_until fund p) db.periods) some_one in
              let same : r ≡ q =
                once r q (In-filter (is_until fund p) r db.periods kept) here
                  ((==_iff r.id i).0 equal ∙ sym own) in
              some_one
              ∙ sym (
                  subst (λ (x : Period). is_until fund p x ≡ true) same
                    (In-filter_holds (is_until fund p) r db.periods kept))
          | inr nobody ↦ elim (Bool-cases (is_until fund p q)) [
            | inr late ↦ nobody ∙ sym late
            | inl early ↦ absurd (
                cc (
                  any-In test (filter (is_until fund p) db.periods) q
                      (filter-In (is_until fund p) q db.periods here early) (rw own (==_refl i)),
                  nobody,
                ))
          ]
        ] in
      rw (filed.has_transfer, filed.of_one) (sorted ∙ there)

-- every partners' account of the fund is the one that the dict holds for one of the partners
abbrev pub IsOwned : Fund → Db → List ℕ → Type 0
IsOwned fund db lps =
    (a : Account)
    → In a db.accounts
    → ((a.fund_id == fund.id) && is_lp_capital a.account_type) ≡ true
    → (lp : ℕ) × In lp lps × (get lp (lp_capital_accounts fund db) ≡ some a)

-- an entry is on a partner's account if its account is of that type
pub account_of-on_type :
    (fund : Fund) (db : Db) (lps : List ℕ) (e : Entry)
    → IsFiled db e
    → IsKeyed db
    → ((lp : ℕ) → In lp lps → (a : Account) × (get lp (lp_capital_accounts fund db) ≡ some a))
    → IsOwned fund db lps
    → any (λ lp. account_of fund db lp == e.account_id) lps
      ≡ on_type db fund.id AccountType.lp_capital e
account_of-on_type fund db lps e filed keyed has owned =
    let b = filed.account in
    let test = λ (a : Account). a.id == e.account_id in
    let here = find-In test db.accounts b filed.has_account in
    let id_ : b.id ≡ e.account_id =
      (==_iff b.id e.account_id).0 (find-holds test db.accounts b filed.has_account) in
    let mine = λ (lp : ℕ). account_of fund db lp == e.account_id in
    let capital = (b.fund_id == fund.id) && is_lp_capital b.account_type in
    let typed : on_type db fund.id AccountType.lp_capital e ≡ capital =
      rw filed.has_account
        (ap (λ (x : Bool). (b.fund_id == fund.id) && x) (same_type-lp b.account_type)) in
    elim (Bool-cases (any mine lps)) [
      | inl held ↦
          let (lp, there, equal) = any-found mine lps held in
          let (a, has_a) = has lp there in
          let (row, _, passes) = lp_capital_accounts-row fund db lp a has_a in
          let same : a ≡ b =
            keyed a b row here ((==_iff a.id e.account_id).0 (rw has_a at equal) ∙ sym id_) in
          held
          ∙ sym (
              typed
              ∙ subst
                  (λ (x : Account). ((x.fund_id == fund.id) && is_lp_capital x.account_type) ≡ true)
                  same (ground (arith, passes)))
      | inr nobody ↦ elim (Bool-cases capital) [
        | inr other ↦ nobody ∙ sym (typed ∙ other)
        | inl own ↦
            let (lp, there, has_b) = owned b here own in
            absurd (cc (any-In mine lps lp there (rw (has_b, id_) (==_refl e.account_id)), nobody))
      ]
    ]
  where
    same_type-lp : (k : AccountType) → same_type k AccountType.lp_capital ≡ is_lp_capital k
    same_type-lp k = ground arith
