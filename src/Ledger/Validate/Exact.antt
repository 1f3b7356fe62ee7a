-- ===== src/Ledger/Validate/Exact.antt =====
-- `validate_legs` accepts exactly the requests that its rules describe.
use fund_ledger.Base.{
  ◌*◌, ◌^◌, ◌≤◌, ◌<◌, ◌≡◌, refl, ◌↔◌, Bool, true, false, not, ◌&&◌, List, [], ◌∷◌, length, any, All,
  In, arith, Bool-cases, inl, inr, ltb,
}
use fund_ledger.Base.Int.{pos, negsuc}
use fund_ledger.Base.Result.{ok, guard-returns, >>=-returns}
use fund_ledger.Ledger.Decimal.{Number, finite, not_finite, not_decimal, quantize, units}
use fund_ledger.Ledger.Model.{Leg, is_debit, is_credit}
use fund_ledger.Ledger.Validate.{check_amount, check_amounts, validate_legs, is_unrecognised}

-- A positive amount of whole units that the decimal context can hold: c / 10^k is units / 10^4.
abbrev pub IsMoney : Number → Type 0
IsMoney (finite (pos c) k) =
    (0 < c)
    × (c * 10 ^ 4 ≡ units (finite (pos c) k) * 10 ^ k)
    × (units (finite (pos c) k) < 10 ^ 28)
IsMoney (finite (negsuc c) k) = ⊥
IsMoney not_finite = ⊥
IsMoney not_decimal = ⊥

pub check_amount_iff : (n : Number) → (check_amount n ≡ ok tt) ↔ IsMoney n
unfolding check_amount quantize units
check_amount_iff (finite (pos c) k) = (λ h. ground arith, λ h. ground arith)
check_amount_iff (finite (negsuc c) k) = (λ h. ground arith, λ h. absurd h)
check_amount_iff not_finite = (λ h. absurd (cc), λ h. absurd h)
check_amount_iff not_decimal = (λ h. absurd (cc), λ h. absurd h)

check_amounts_iff :
    (legs : List Leg) → (check_amounts legs ≡ ok tt) ↔ All (λ l. IsMoney l.amount) legs
unfolding check_amounts
check_amounts_iff [] = (λ h. tt, λ h. refl)
check_amounts_iff (l ∷ legs) = (
  λ h.
      let (_, first, rest) = >>=-returns (check_amount l.amount) _ h in
      ((check_amount_iff l.amount).0 first, (check_amounts_iff legs).0 rest),
  λ h. rw ((check_amount_iff l.amount).1 h.0, (check_amounts_iff legs).1 h.1) refl,
)

-- What a request must be: two legs or more, in recognised directions, a debit and a credit among
-- them, and every amount positive, finite and of at most four decimal places.
pub record IsRequest (legs : List Leg) : Type 0 where
  pub two_legs : 2 ≤ length legs
  pub directed : All (λ l. is_unrecognised l.direction ≡ false) legs
  pub debited : (l : Leg) × In l legs × (is_debit l.direction ≡ true)
  pub credited : (l : Leg) × In l legs × (is_credit l.direction ≡ true)
  pub money : All (λ l. IsMoney l.amount) legs

any-some :
    (p : Leg → Bool) (legs : List Leg) → any p legs ≡ true → (l : Leg) × In l legs × (p l ≡ true)
any-some p [] h = absurd (cc)
any-some p (l ∷ legs) h = elim (Bool-cases (p l)) [
  | inl passes ↦ (l, inl refl, passes)
  | inr fails ↦ let (m, here, passes) = any-some p legs (rw fails at h) in (m, inr here, passes)
]

some-any : (p : Leg → Bool) (l : Leg) (legs : List Leg) → In l legs → p l ≡ true → any p legs ≡ true
some-any p l [] here h = absurd here
some-any p l (m ∷ legs) here h = ground (arith, some-any p l legs)

any-none : (p : Leg → Bool) (legs : List Leg) → (any p legs ≡ false) ↔ All (λ l. p l ≡ false) legs
any-none p [] = (λ h. tt, λ h. refl)
any-none p (l ∷ legs) = (
  λ h. (ground arith, (any-none p legs).0 (ground arith)),
  λ h. rw (h.0, (any-none p legs).1 h.1) refl,
)

-- `validate_legs` returns exactly for such requests.
pub validate_legs_iff : (legs : List Leg) → (validate_legs legs ≡ ok tt) ↔ IsRequest legs
unfolding validate_legs
validate_legs_iff legs = (accepted, accepts)
  where
    short : Bool
    short = ltb (length legs) 2

    odd : Bool
    odd = any (λ l. is_unrecognised l.direction) legs

    debits : Bool
    debits = any (λ l. is_debit l.direction) legs

    credits : Bool
    credits = any (λ l. is_credit l.direction) legs

    accepted : validate_legs legs ≡ ok tt → IsRequest legs
    accepted h =
        let (long, h₁) = guard-returns short _ _ h in
        let (even, h₂) = guard-returns odd _ _ h₁ in
        let (both, h₃) = guard-returns (not (debits && credits)) _ _ h₂ in
        record {
          two_legs = ground arith;
          directed = (any-none _ legs).0 even;
          debited = any-some _ legs (ground arith);
          credited = any-some _ legs (ground arith);
          money = (check_amounts_iff legs).0 h₃;
        }

    accepts : IsRequest legs → validate_legs legs ≡ ok tt
    accepts r =
        let long : short ≡ false = ground (arith, r.two_legs) in
        let even : odd ≡ false = (any-none _ legs).1 r.directed in
        let (d, d_here, d_debit) = r.debited in
        let (c, c_here, c_credit) = r.credited in
        let some_debit : debits ≡ true = some-any _ d legs d_here d_debit in
        let some_credit : credits ≡ true = some-any _ c legs c_here c_credit in
        rw (long, even, some_debit, some_credit) ((check_amounts_iff legs).1 r.money)
