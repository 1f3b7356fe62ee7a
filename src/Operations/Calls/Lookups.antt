-- ===== src/Operations/Calls/Lookups.antt =====
-- The share of a partner, the account of a partner, and what it has paid, as the dicts hold them.
use fund_ledger.Base.{
  ℕ, ◌≤◌, ◌≡◌, ◌*◌, ◌^◌, ◌/◌, ◌%◌, refl, subst, ◌∙◌, Bool, true, false, not, ◌&&◌, ◌⊎◌, inl, inr,
  Option, some, List, [], ◌∷◌, ◌==◌, In, In-filter, In-filter_holds, filter, map_or, any, arith,
  sort_by, length, Option-cases,
}
use fund_ledger.Base.Int.{ℤ, pos, ◌-ℤ◌, abs, ltb_ℤ, int_laws}
use fund_ledger.Base.Dict.{Dict, get, set, at, at-returns, get-set}
use fund_ledger.Base.Result.{ok, >>=-returns, guard-returns}
use fund_ledger.Ledger.Model.{Db, Fund, Commitment, Account, is_lp_capital}
use fund_ledger.Ledger.Decimal.{in_context}
use fund_ledger.Operations.Allocation.{
  Weights, Quotas, Shares, floors, add_one, add_ones, is_empty, take, quota_sum, goes_before,
  leftover, remainders, context_sum, distribute_by, to_shares, allocate,
}
use fund_ledger.Operations.Allocation.Fair.{occurrences}
use fund_ledger.Operations.Chart.{by_owner, lp_capital_accounts}
use fund_ledger.Operations.Contributions.{contributed, contributed_by_account}
use fund_ledger.Operations.Calls.{check_unfunded}
use fund_ledger.Operations.Calls.Legs.{share_sum}

share_sum-absent : (lp : ℕ) (ss : Shares) → occurrences lp ss ≡ 0 → share_sum lp ss ≡ pos 0
share_sum-absent lp [] h = refl
share_sum-absent lp ((k, s) ∷ ss) h = grind (int_laws, share_sum-absent lp ss, h)

-- a partner that stands in the dict once gets its share
pub share_sum-get :
    (lp : ℕ) (ss : Shares) (s : ℤ)
    → occurrences lp ss ≤ 1
    → get lp ss ≡ some s
    → share_sum lp ss ≡ s
share_sum-get lp [] s few h = absurd (cc)
share_sum-get lp ((k, t) ∷ ss) s few h =
    grind (int_laws, share_sum-get lp ss s, share_sum-absent lp ss, few, h)

occurrences-add_one : (k j : ℕ) (qs : Quotas) → occurrences k (add_one j qs) ≡ occurrences k qs
occurrences-add_one k j [] = refl
occurrences-add_one k j ((i, n) ∷ qs) = ground (arith, occurrences-add_one k j qs)

occurrences-add_ones :
    (k : ℕ) (picks qs : Quotas) → occurrences k (add_ones picks qs) ≡ occurrences k qs
occurrences-add_ones k [] qs = refl
occurrences-add_ones k ((j, r) ∷ picks) qs =
    occurrences-add_ones k picks (add_one j qs) ∙ occurrences-add_one k j qs

occurrences-floors :
    (k n total : ℕ) (ws : Weights) → occurrences k (floors n total ws) ≡ occurrences k ws
occurrences-floors k n total [] = refl
occurrences-floors k n total (w ∷ ws) = ground (arith, occurrences-floors k n total ws)

occurrences-to_shares :
    (k : ℕ) (c : ℤ) (quantum : ℕ) (qs : Quotas)
    → occurrences k (to_shares c quantum qs) ≡ occurrences k qs
unfolding to_shares
occurrences-to_shares k c quantum [] = refl
occurrences-to_shares k c quantum (q ∷ qs) = ground (arith, occurrences-to_shares k c quantum qs)

occurrences-distribute_by :
    (k total n : ℕ) (ws : Weights) → occurrences k (distribute_by total n ws) ≡ occurrences k ws
unfolding distribute_by
occurrences-distribute_by k total n ws =
    occurrences-add_ones k
      (take (leftover n (quota_sum (floors n total ws)) (length ws))
        (sort_by goes_before (remainders n total ws)))
      (floors n total ws)
    ∙ occurrences-floors k n total ws

-- `allocate` gives a share to the keys of the weights, in their order
pub occurrences-allocate :
    (k : ℕ) (c : ℤ) (places : ℕ) (ws : Weights) (quantum : ℕ) (ss : Shares)
    → allocate c places ws quantum ≡ ok ss
    → occurrences k ss ≡ occurrences k ws
unfolding allocate
occurrences-allocate k c places ws quantum ss h =
    let a = in_context (abs c) * 10 ^ 4 in
    let q = quantum * 10 ^ places in
    let n = a / q in
    let (_, h₁) = guard-returns (is_empty ws) _ _ h in
    let (_, h₂) = guard-returns (any (λ (_, w). ltb_ℤ w (pos 0)) ws) _ _ h₁ in
    let (_, h₃) = guard-returns (context_sum ws == 0) _ _ h₂ in
    let (_, h₄) = guard-returns (not (a % q == 0)) _ _ h₃ in
    let total = context_sum ws in
    let same : to_shares c quantum (distribute_by total n ws) ≡ ss = ground (arith, h₄) in
    rw (← same) (
      occurrences-to_shares k c quantum (distribute_by total n ws)
      ∙ (occurrences-distribute_by k total n ws))

-- the account that the dict holds for a partner is one of the list, and the partner's
get-by_owner :
    (lp : ℕ) (accounts : List Account) (d : Dict Account) (a : Account)
    → get lp (by_owner accounts d) ≡ some a
    → (In a accounts × (a.owner_lp ≡ some lp)) ⊎ (get lp d ≡ some a)
get-by_owner lp [] d a h = inr h
get-by_owner lp (b ∷ rest) d a h =
    elim (get-by_owner lp rest (map_or b.owner_lp d (λ i. set i b d)) a h) [
      | inl (here, own) ↦ inl (inr here, own)
      | inr kept ↦ elim (Option-cases b.owner_lp) [
        | inl nobody ↦
            inr
              (subst (λ (o : Option ℕ). get lp (map_or o d (λ i. set i b d)) ≡ some a) nobody kept)
        | inr (i, somebody) ↦
            elim (get-set lp i b d a (
              subst (λ (o : Option ℕ). get lp (map_or o d (λ i. set i b d)) ≡ some a) somebody
                kept)) [
                  | inl (it, same) ↦
                      inl (inl (ground (arith, same)), ground (arith, it, same, somebody))
                  | inr before ↦ inr before
                ]
      ]
    ]

-- the test of the query
abbrev pub in_capital : Fund → Account → Bool
in_capital fund a =
    (a.fund_id == fund.id) && (is_lp_capital a.account_type && (a.currency == fund.base_currency))

pub lp_capital_accounts-row :
    (fund : Fund) (db : Db) (lp : ℕ) (a : Account)
    → get lp (lp_capital_accounts fund db) ≡ some a
    → In a db.accounts × (a.owner_lp ≡ some lp) × (in_capital fund a ≡ true)
unfolding lp_capital_accounts
lp_capital_accounts-row fund db lp a h =
    elim (get-by_owner lp (filter (in_capital fund) db.accounts) [] a h) [
      | inl (here, own) ↦ (
        In-filter (in_capital fund) a db.accounts here,
        own,
        In-filter_holds (in_capital fund) a db.accounts here,
      )
      | inr nothing ↦ absurd (cc)
    ]

pub lp_capital_accounts-get :
    (fund : Fund) (db : Db) (lp : ℕ) (a : Account)
    → get lp (lp_capital_accounts fund db) ≡ some a
    → In a db.accounts × (a.owner_lp ≡ some lp) × (a.currency ≡ fund.base_currency)
lp_capital_accounts-get fund db lp a h =
    let (here, own, passes) = lp_capital_accounts-row fund db lp a h in
    (here, own, ground (arith, passes))

pub contributed_by_account-get :
    (accounts : List Account) (db : Db) (i : ℕ) (v : ℤ)
    → get i (contributed_by_account accounts db) ≡ some v
    → v ≡ contributed i db
unfolding contributed_by_account
contributed_by_account-get [] db i v h = absurd (cc)
contributed_by_account-get (a ∷ rest) db i v h =
    ground (arith, contributed_by_account-get rest db i v)

-- what `check_unfunded` has found of a commitment
pub check_unfunded-holds :
    (shares : Shares) (accounts : Dict Account) (paid_in : Dict ℤ) (cs : List Commitment)
    (c : Commitment)
    → check_unfunded shares accounts paid_in cs ≡ ok tt
    → In c cs
    → (a : Account) × (paid : ℤ) × (share : ℤ) × (get c.lp_id accounts ≡ some a)
      × (get a.id paid_in ≡ some paid)
      × (get c.lp_id shares ≡ some share)
      × (ltb_ℤ (pos c.committed_amount -ℤ paid) share ≡ false)
check_unfunded-holds shares accounts paid_in [] c h here = absurd here
check_unfunded-holds shares accounts paid_in (b ∷ cs) c h here =
    let (a, found, h₁) = >>=-returns (at b.lp_id accounts) _ h in
    let (paid, payment, h₂) = >>=-returns (at a.id paid_in) _ h₁ in
    let (share, given, h₃) = >>=-returns (at b.lp_id shares) _ h₂ in
    let (enough, h₄) = guard-returns (ltb_ℤ (pos b.committed_amount -ℤ paid) share) _ _ h₃ in
    elim here [
      | inl it ↦ rw it (
        a,
        paid,
        share,
        at-returns b.lp_id accounts a found,
        at-returns a.id paid_in paid payment,
        at-returns b.lp_id shares share given,
        enough,
      )
      | inr later ↦ check_unfunded-holds shares accounts paid_in cs c h₄ later
    ]
