-- ===== src/Api/Views/Writes/Answers.antt =====
-- What an answer to a write says.
use fund_ledger.Base.{
  ℕ, ◌*◌, ◌^◌, ◌-◌, ◌≤◌, ◌<◌, ◌≡◌, refl, sym, ap, ◌∙◌, subst, Bool, true, false, Option, none, some,
  List, arith, In, ltb, ltb→le, Option-cases, inl, inr, ◌⊎◌,
}
use fund_ledger.Base.Int.{pos, abs}
use fund_ledger.Base.Result.{Result, ok, err, Result-cases}
use fund_ledger.Ledger.Model.{Db, CapitalCall}
use fund_ledger.Ledger.Idempotency.{Others}
use fund_ledger.Ledger.Retry.{deadlock_detected, is_retryable}
use fund_ledger.Ledger.Retry.First.{with_deadlock_retry-IsFirst}
use fund_ledger.Operations.Calls.{create_capital_call}
use fund_ledger.Access.Keys.{Text}
use fund_ledger.Access.Permissions.{Role, role_rank, operator, FundMembership, has_permission}
use fund_ledger.Access.Permissions.Scope.{has_permission_sound}
use fund_ledger.Api.Errors.{handled, >>=-handled, refuse_if-handled, of_attempt, of_result}
use fund_ledger.Api.Requests.{
  is_key, idempotency_key, Fields, IsChecked, money_in, required, CallForm, CallBody, validate_call,
}
use fund_ledger.Api.Views.{Service, Request, Turn, or_denied, permit, outcome_of, attempt, retrying}
use fund_ledger.Api.Views.Writes.{call_request, capital_calls_post}

lt_cases : (a b : ℕ) → (a < b) ⊎ ((b < a) ⊎ (a ≡ b))
lt_cases a b = ground arith

or_denied-handled :
    (user : Option ℕ) (r : Result (Option FundMembership)) (m : FundMembership)
    → or_denied user r ≡ handled m
    → r ≡ ok (some m)
or_denied-handled user (ok (some n)) m h = ground arith
or_denied-handled user (err e) m h = absurd (ground arith)
or_denied-handled none (ok none) m h = absurd (cc)
or_denied-handled (some user) (ok none) m h = absurd (cc)

-- a request that is let through
pub permit-handled :
    (r : Request) (fund : Result ℕ) (required : Role) (ms : List FundMembership)
    (m : FundMembership)
    → permit r fund required ms ≡ handled m
    → (user : ℕ) × (r.user ≡ some user)
      × In m ms
      × (fund ≡ ok m.fund_id)
      × (m.user_id ≡ user)
      × (role_rank required ≤ role_rank m.role)
unfolding permit has_permission
permit-handled r fund required ms m h =
    let allowed = or_denied-handled r.user (has_permission r.user fund required ms) m h in
    elim (Option-cases r.user) [
      | inl nobody ↦ absurd (cc (rw nobody at allowed))
      | inr (user, is) ↦
          let (there, of_fund, of_user, rank) =
            has_permission_sound user fund required ms (rw is at allowed) in
          (user, is, there, of_fund, of_user, rank)
    ]

attempt-handled :
    {A : Type 0} (operation : Others → Db → Result A) (turn : Turn) (value : A)
    → of_attempt (attempt operation turn) ≡ handled value
    → operation turn.others turn.found ≡ ok value
attempt-handled operation turn value h = elim (Option-cases turn.interruption) [
  | inr (s, stopped) ↦ absurd (cc (rw stopped at h))
  | inl free ↦ elim (Result-cases (operation turn.others turn.found)) [
    | inl (e, wrong) ↦ absurd (cc (rw (free, wrong) at h))
    | inr (a, right) ↦
        let same : a ≡ value = ground (arith, rw (free, right) at h) in rw right (ap ok same)
  ]
]

-- the attempt that a request is answered by
pub retrying-handled :
    {A : Type 0} (operation : Others → Db → Result A) (turns : ℕ → Turn) (value : A)
    → retrying operation turns ≡ handled value
    → (k : ℕ) × (1 ≤ k) × (k ≤ 3) × (operation (turns k).others (turns k).found ≡ ok value)
unfolding retrying
retrying-handled operation turns value h =
    let fn = λ (n : ℕ). attempt operation (turns n) in
    let first = with_deadlock_retry-IsFirst fn false 3 (omega arith) in
    let k = first.k in
    let done : of_attempt (fn k) ≡ handled value = rw first.same at h in
    (
      k,
      first.from_start,
      omega (arith, first.allowed),
      attempt-handled operation (turns k) value done,
    )

idempotency_key-handled :
    (header : Option Text) (key : Text) → idempotency_key header ≡ handled key → is_key key ≡ true
unfolding idempotency_key
idempotency_key-handled header key h = ground arith

required-handled :
    {A : Type 0} (field : ℕ → Option A) (raw : Option ℕ) (a : A)
    → required field raw ≡ handled a
    → (n : ℕ) × (field n ≡ some a)
required-handled field none a h = absurd (cc)
required-handled field (some n) a h = elim (Option-cases (field n)) [
  | inl missing ↦ absurd (cc (rw missing at h))
  | inr (b, found) ↦
      let same : b ≡ a = ground (arith, rw found at h) in (n, rw found (ap some same))
]

-- a body that is accepted: at least a penny, in whole pennies, due no earlier than its notice
pub validate_call-handled :
    (f : Fields) (form : CallForm) (body : CallBody)
    → IsChecked f
    → validate_call f form ≡ handled body
    → (body.places ≤ 2)
      × (body.total ≡ pos (abs body.total))
      × (1 ≤ abs body.total * 10 ^ (2 - body.places))
      × (body.notice_date ≤ body.due_date)
unfolding validate_call
validate_call-handled f form body checked h =
    let ((total, places), money, h₁) = >>=-handled (required (money_in f) form.total_amount) _ h in
    let (notice, _, h₂) = >>=-handled (required f.date_field form.notice_date) _ h₁ in
    let (due, _, h₃) = >>=-handled (required f.date_field form.due_date) _ h₂ in
    let (order, h₄) = refuse_if-handled (ltb due notice) _ _ h₃ in
    let (raw, field) = required-handled (money_in f) form.total_amount (total, places) money in
    let (few, positive, least) = checked 18 2 1 raw total places field in
    let same : record { total = total; places = places; notice_date = notice; due_date = due }
        ≡ body =
      ground (arith, h₄) in
    subst
      (λ (b : CallBody).
        (b.places ≤ 2)
        × (b.total ≡ pos (abs b.total))
        × (1 ≤ abs b.total * 10 ^ (2 - b.places))
        × (b.notice_date ≤ b.due_date))
      same (few, positive, least, ltb→le due notice order)

-- What has been found in a request for a capital call that is answered with a call.
pub record Accepted (v : Service) (ms : List FundMembership) (turns : ℕ → Turn) (r : Request)
    (fund : ℕ) (form : CallForm) (d : CapitalCall) (c : Bool) (db' : Db) : Type 0 where
  pub member : FundMembership
  pub is_member : In member ms
  pub of_fund : member.fund_id ≡ fund
  pub of_user : r.user ≡ some member.user_id
  pub rank : role_rank operator ≤ role_rank member.role
  pub key : Text
  pub keyed : idempotency_key r.idempotency_header ≡ handled key
  pub key_form : is_key key ≡ true
  pub body : CallBody
  pub valid : validate_call v.fields form ≡ handled body
  pub a_penny : 1 ≤ abs body.total * 10 ^ (2 - body.places)
  pub in_order : body.notice_date ≤ body.due_date
  pub turn : ℕ
  pub from_first : 1 ≤ turn
  pub at_most : turn ≤ 3
  pub called :
      create_capital_call v.hashing
        (turns turn).others
        (call_request v r fund key body)
        (turns turn).found
      ≡ ok ((d, c), db')

-- A request for a capital call is answered with one only if the caller is a member of the fund in a
-- role of operator or above, the key has the form that is asked for, and the body asks for a penny
-- or more and is due no earlier than its notice; and what is answered is what the operation
-- returned at one of three attempts. It relies on what the framework promises of decimal fields.
pub capital_calls_post_sound :
    (v : Service) (ms : List FundMembership) (turns : ℕ → Turn) (r : Request) (fund : ℕ)
    (form : CallForm) {d : CapitalCall} {c : Bool} {db' : Db}
    → IsChecked v.fields
    → capital_calls_post v ms turns r fund form ≡ handled ((d, c), db')
    → Accepted v ms turns r fund form d c db'
unfolding capital_calls_post
capital_calls_post_sound v ms turns r fund form {d} {c} {db'} checked h =
    let (m, allowed, h₁) = >>=-handled (permit r (ok fund) operator ms) _ h in
    let (key, keyed, h₂) = >>=-handled (idempotency_key r.idempotency_header) _ h₁ in
    let (body, valid, h₃) = >>=-handled (validate_call v.fields form) _ h₂ in
    let (user, is, there, of_fund, of_user, rank) =
      permit-handled r (ok fund) operator ms m allowed in
    let (_, _, least, order) = validate_call-handled v.fields form body checked valid in
    let (k, first, last, called) =
      retrying-handled
        (λ others. create_capital_call v.hashing others (call_request v r fund key body)) turns
        ((d, c), db') h₃ in
    record {
      member = m;
      is_member = there;
      of_fund = ground (arith, of_fund);
      of_user = is ∙ ap some (sym of_user);
      rank = rank;
      key = key;
      keyed = keyed;
      key_form = idempotency_key-handled r.idempotency_header key keyed;
      body = body;
      valid = valid;
      a_penny = least;
      in_order = order;
      turn = k;
      from_first = first;
      at_most = last;
      called = called;
    }

outcome_of-final : {A : Type 0} (r : Result A) → is_retryable false (outcome_of r) ≡ false
outcome_of-final (ok value) = refl
outcome_of-final (err e) = refl

of_attempt-outcome_of : {A : Type 0} (r : Result A) → of_attempt (outcome_of r) ≡ of_result r
of_attempt-outcome_of (ok value) = refl
of_attempt-outcome_of (err e) = refl

-- A request is answered by the first attempt that is not interrupted by a deadlock, if it is among
-- three: with what the operation returned or raised there.
pub retrying_answers :
    {A : Type 0} (operation : Others → Db → Result A) (turns : ℕ → Turn) (k : ℕ)
    → 1 ≤ k
    → k ≤ 3
    → ((j : ℕ) → 1 ≤ j → j < k → (turns j).interruption ≡ some deadlock_detected)
    → (turns k).interruption ≡ none
    → retrying operation turns ≡ of_result (operation (turns k).others (turns k).found)
unfolding retrying
retrying_answers operation turns k low high stopped free =
    let fn = λ (n : ℕ). attempt operation (turns n) in
    let first = with_deadlock_retry-IsFirst fn false 3 (omega arith) in
    let result = operation (turns k).others (turns k).found in
    let final : is_retryable false (fn k) ≡ false = rw free (outcome_of-final result) in
    elim (lt_cases first.k k) [
      | inl early ↦
          let retried : is_retryable false (fn first.k) ≡ true =
            rw (stopped first.k first.from_start early) refl in
          absurd
            (elim first.stopped [ inl ended ↦ cc | inr last ↦ omega (arith, last, early, high) ])
      | inr (inl late) ↦ absurd (cc (first.before k low late))
      | inr (inr same) ↦ rw first.same (
          subst (λ (n : ℕ). of_attempt (fn n) ≡ of_result result) (sym same)
            (rw free (of_attempt-outcome_of result)))
    ]
