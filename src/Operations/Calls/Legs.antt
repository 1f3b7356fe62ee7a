-- ===== src/Operations/Calls/Legs.antt =====
-- What the legs of a capital call credit to a partner's account.
use fund_ledger.Base.{
  ℕ, ◌+◌, ◌≡◌, refl, sym, ◌∙◌, subst, true, none, some, List, [], ◌∷◌, ◌++◌, ◌==◌, ==_iff, ==_refl,
  All, arith, Bool-cases, ◌⊎◌, inl, inr, if◌then◌else◌,
}
use fund_ledger.Base.Int.{ℤ, pos, negsuc, neg, ◌+ℤ◌, ◌≤ℤ◌, eqb_ℤ, eqb_ℤ→eq, sum_by, int_laws}
use fund_ledger.Base.Dict.{Dict, get, at, at-returns}
use fund_ledger.Base.Result.{ok, >>=-returns}
use fund_ledger.Ledger.Decimal.{units, finite}
use fund_ledger.Ledger.Model.{
  Db, Account, Entry, Leg, Direction, debit, credit, unrecognised, Transfer, is_debit, signed,
  signed_base_amount,
}
use fund_ledger.Ledger.Validate.Exact.{IsMoney}
use fund_ledger.Ledger.Post.Rows.{BookedAs}
use fund_ledger.Ledger.Post.Settled.{InBase}
use fund_ledger.Ledger.Reverse.Cancels.{on_account, units-entry}
use fund_ledger.Base.{In}
use fund_ledger.Operations.Allocation.{Shares}
use fund_ledger.Operations.ProRata.{share_legs}
use fund_ledger.Operations.Calls.{call_pair}

-- the units that are not debited to the account `i`
abbrev pub credit_units : ℕ → List Leg → ℕ
credit_units i [] = 0
credit_units i (l ∷ legs) =
    let rest = credit_units i legs in
    if l.account_id == i then if is_debit l.direction then rest else units l.amount + rest else rest

-- no leg gives a base amount
abbrev pub NoneGiven : List Leg → Type 0
NoneGiven legs = All (λ (l : Leg). l.base_amount ≡ none) legs

signed_le :
    (d : Direction) (u : ℕ) (r : ℤ) (c : ℕ)
    → neg r ≤ℤ pos c
    → neg (signed d (pos u) +ℤ r) ≤ℤ pos (if is_debit d then c else u + c)
signed_le debit u r c h = omega (int_laws, h)
signed_le credit u r c h = omega (int_laws, h)
signed_le unrecognised u r c h = omega (int_laws, h)

-- the entries that book the legs add no more to the account's contributions
pub on_account-credit_units :
    (db : Db) (base : ℕ) (t : Transfer) (a : Account) (legs : List Leg) (es : List Entry)
    → In a db.accounts
    → a.currency ≡ base
    → BookedAs t legs es
    → InBase db base legs es
    → NoneGiven legs
    → neg (on_account signed_base_amount a.id es) ≤ℤ pos (credit_units a.id legs)
on_account-credit_units db base t a [] [] here own b n g = omega int_laws
on_account-credit_units db base t a [] (e ∷ es) here own b n g = absurd b
on_account-credit_units db base t a (l ∷ legs) [] here own b n g = absurd b
on_account-credit_units db base t a (l ∷ legs) (e ∷ es) here own b n g =
    let rest = on_account-credit_units db base t a legs es here own b.1 n.1 g.1 in
    elim (Bool-cases (l.account_id == a.id)) [
      | inl it ↦
          let same : a.id ≡ e.account_id =
            sym (b.0.same_account ∙ (==_iff l.account_id a.id).0 it) in
          rw (it, b.0.same_account, it, b.0.same_direction, n.0 a here same own g.0)
            (signed_le l.direction (units l.amount) _ (credit_units a.id legs) rest)
      | inr other ↦ rw (b.0.same_account, other) (omega (int_laws, rest))
    ]

-- what one share adds to the legs
share_legs-step :
    (cash : ℕ) (accounts : Dict Account) (lp : ℕ) (share : ℤ) (rest : Shares) (legs : List Leg)
    → share_legs (call_pair cash) accounts ((lp, share) ∷ rest) ≡ ok legs
    → ((eqb_ℤ share (pos 0) ≡ true) × (share_legs (call_pair cash) accounts rest ≡ ok legs))
      ⊎ ((a : Account) × (others : List Leg) × (get lp accounts ≡ some a)
          × (share_legs (call_pair cash) accounts rest ≡ ok others)
          × (legs ≡ call_pair cash a.id share ++ others))
share_legs-step cash accounts lp share rest legs h = elim (Bool-cases (eqb_ℤ share (pos 0))) [
  | inl nothing ↦ inl (nothing, rw nothing at h)
  | inr something ↦
      let (a, found, h₁) = >>=-returns (at lp accounts) _ (rw something at h) in
      let (others, later, h₂) = >>=-returns (share_legs (call_pair cash) accounts rest) _ h₁ in
      inr (a, others, at-returns lp accounts a found, later, ground (arith, h₂))
]

-- what a list of shares gives to a partner
abbrev pub share_sum : ℕ → Shares → ℤ
share_sum lp = sum_by (λ (s : ℕ × ℤ). if s.0 == lp then s.1 else pos 0)

pub share_legs-NoneGiven :
    (cash : ℕ) (accounts : Dict Account) (ss : Shares) (legs : List Leg)
    → share_legs (call_pair cash) accounts ss ≡ ok legs
    → NoneGiven legs
share_legs-NoneGiven cash accounts [] legs h =
    let none_left : [] ≡ legs = ground (arith, h) in subst NoneGiven none_left tt
share_legs-NoneGiven cash accounts ((lp, share) ∷ rest) legs h =
    elim (share_legs-step cash accounts lp share rest legs h) [
      | inl (_, later) ↦ share_legs-NoneGiven cash accounts rest legs later
      | inr (a, others, _, later, shape) ↦
          rw shape (refl, (refl, share_legs-NoneGiven cash accounts rest others later))
    ]

-- one share that is booked
credit_units-pair :
    (cash i a : ℕ) (share : ℤ) (others : List Leg) (r : ℤ) (lp own : ℕ)
    → IsMoney (finite share 4)
    → ((a ≡ i) → lp ≡ own)
    → pos (credit_units i others) ≤ℤ r
    → pos (credit_units i (call_pair cash a share ++ others))
      ≤ℤ (if lp == own then share else pos 0) +ℤ r
credit_units-pair cash i a (negsuc n) others r lp own money only h = absurd money
credit_units-pair cash i a (pos n) others r lp own money only h = elim (Bool-cases (a == i)) [
  | inl it ↦
      let mine = only ((==_iff a i).0 it) in
      rw (it, mine, ==_refl own, units-entry n) (grind (int_laws, h))
  | inr other ↦ rw other (grind (int_laws, h))
]

-- the legs credit no more to an account than the shares give to its owner
pub credit_units-share_sum :
    (cash i own : ℕ) (accounts : Dict Account) (ss : Shares) (legs : List Leg)
    → share_legs (call_pair cash) accounts ss ≡ ok legs
    → All (λ l. IsMoney l.amount) legs
    → ((lp : ℕ) (a : Account) → get lp accounts ≡ some a → a.id ≡ i → lp ≡ own)
    → pos (credit_units i legs) ≤ℤ share_sum own ss
credit_units-share_sum cash i own accounts [] legs h money only =
    let none_left : [] ≡ legs = ground (arith, h) in rw (← none_left) (omega arith)
credit_units-share_sum cash i own accounts ((lp, share) ∷ rest) legs h money only =
    elim (share_legs-step cash accounts lp share rest legs h) [
      | inl (nothing, later) ↦
          let ih = credit_units-share_sum cash i own accounts rest legs later money only in
          rw (eqb_ℤ→eq share (pos 0) nothing) (grind (int_laws, ih))
      | inr (a, others, found, later, shape) ↦
          let money' = subst (λ (ls : List Leg). All (λ l. IsMoney l.amount) ls) shape money in
          let ih = credit_units-share_sum cash i own accounts rest others later money'.1.1 only in
          rw shape (
            credit_units-pair cash i a.id share others (share_sum own rest) lp own money'.0
              (only lp a found) ih)
    ]
