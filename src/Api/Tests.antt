-- ===== src/Api/Tests.antt =====
-- Requests to the small fund, with their headers and their answers.
use fund_ledger.Base.{
  ℕ, ◌-◌, ◌^◌, ◌≤◌, ◌<◌, ◌≡◌, refl, ap, subst, true, false, Option, none, some, List, [], ◌∷◌, ◌==◌,
  arith, leb, inr, if◌then◌else◌,
}
use fund_ledger.Base.Int.{ℤ, pos, ◌+ℤ◌, ◌-ℤ◌, neg}
use fund_ledger.Base.Result.{ok, integrity, period_open, entry_pkey}
use fund_ledger.Ledger.Decimal.{units, quantize}
use fund_ledger.Ledger.Model.{Db, income}
use fund_ledger.Ledger.Queries.{native_balance, effective_type}
use fund_ledger.Ledger.Validate.{validate_legs}
use fund_ledger.Ledger.Pricing.{price_legs}
use fund_ledger.Ledger.Insert.{insert_transfer, insert_entries, check_balances, transfer_imbalance}
use fund_ledger.Ledger.Post.{post_transfer}
use fund_ledger.Ledger.Idempotency.{alone, run_once}
use fund_ledger.Ledger.Retry.{deadlock_detected, lock_not_available, with_deadlock_retry}
use fund_ledger.Operations.Allocation.{allocate}
use fund_ledger.Operations.Chart.{get_account, lp_capital_accounts}
use fund_ledger.Operations.Contributions.{contributed_by_account}
use fund_ledger.Operations.Periods.{period_for}
use fund_ledger.Operations.ProRata.{pro_rata}
use fund_ledger.Operations.Calls.{create_capital_call, create_call, insert_capital_call}
use fund_ledger.Operations.Tests.{world, called, call, hashing}
use fund_ledger.Access.Permissions.{operator, viewer, FundMembership, has_permission}
use fund_ledger.Api.Errors.{
  application, operational_error, framework, ApiException, authentication_failed, parse_error,
  not_authenticated, validation_error, permission_denied, no_such_resource, throttled, handled,
  failed, exception_handler, respond,
}
use fund_ledger.Api.Requests.{IsChecked, CallForm, idempotency_key, validate_call}
use fund_ledger.Api.Views.{Service, Request, Turn, permit, retrying}
use fund_ledger.Api.Views.Writes.{capital_calls_post}
use fund_ledger.Api.Views.Writes.Answers.{Accepted, capital_calls_post_sound, retrying_answers}
use fund_ledger.Api.Views.Writes.Again.{capital_calls_post_again}

abbrev status : ApiException → ℕ
status validation_error = 400
status parse_error = 400
status authentication_failed = 401
status not_authenticated = 401
status permission_denied = 403
status no_such_resource = 404
status throttled = 429

-- a raw amount counts the last place that is declared
abbrev pennies : ℕ → ℕ → ℕ → ℕ → Option (ℤ × ℕ)
pennies digits places least raw = if leb least raw then some (pos raw, places) else none

abbrev service : Service
service = record {
  hashing = hashing;
  framework = record { status_code = status; wait = λ e. none };
  fields = record {
    decimal_field = pennies;
    date_field = λ raw. some raw;
    choice_field = λ raw. some income;
  };
  number_of = λ cs. 21;
  parse_datetime = λ cs. none;
}

-- " k-1 " is stripped
abbrev caller : Request
caller = record {
  user = some 8;
  username = 3;
  idempotency_header = some (32 ∷ 107 ∷ 45 ∷ 49 ∷ 32 ∷ []);
}

abbrev members : List FundMembership
members =
    record { user_id = 8; fund_id = 1; role = operator; lp_id = none }
    ∷ record { user_id = 9; fund_id = 1; role = viewer; lp_id = none }
    ∷ []

abbrev form : CallForm
form = record { total_amount = some 10000; notice_date = some 150; due_date = some 160 }

abbrev turn_at : Db → Turn
turn_at db = record { interruption = none; found = db; others = alone }

-- the first attempt meets a deadlock
abbrev turns : Db → ℕ → Turn
turns db n =
    if n == 1
    then record { interruption = some deadlock_detected; found = db; others = alone }
    else turn_at db

keys :
    (idempotency_key none ≡ failed (framework validation_error))
    × (idempotency_key (some (107 ∷ 32 ∷ 49 ∷ [])) ≡ failed (framework validation_error))
    × (idempotency_key (some (32 ∷ 107 ∷ 45 ∷ 49 ∷ 32 ∷ [])) ≡ handled (107 ∷ 45 ∷ 49 ∷ []))
unfolding idempotency_key
keys = (refl, refl, refl)

posting :
    capital_calls_post service members (turns world) caller 1 form ≡ handled ((call, true), called)
unfolding capital_calls_post permit has_permission idempotency_key validate_call retrying
    with_deadlock_retry create_capital_call run_once create_call insert_capital_call pro_rata
    allocate period_for get_account lp_capital_accounts contributed_by_account effective_type
    post_transfer validate_legs quantize price_legs insert_transfer insert_entries check_balances
    transfer_imbalance native_balance units ◌+ℤ◌ ◌-ℤ◌ neg
posting = refl

-- a viewer may not, and a stranger does not learn that the fund is there
refusals :
    (capital_calls_post service members (turns world) (record caller { user = some 9 }) 1 form
      ≡ failed (framework permission_denied))
    × (capital_calls_post service members (turns world) (record caller { user = some 7 }) 1 form
        ≡ failed (framework no_such_resource))
    × (capital_calls_post service members (turns world) (record caller { user = none }) 1 form
        ≡ failed (framework not_authenticated))
    × (capital_calls_post service members
          (turns world)
          caller
          1
          (record form { due_date = some 140 })
        ≡ failed (framework validation_error))
unfolding capital_calls_post permit has_permission idempotency_key validate_call
refusals = (refl, refl, refl, refl)

-- the closed list of expected exceptions; the rest says nothing to the client
statuses :
    ((exception_handler {T = ℕ} service.framework (application (integrity period_open))).status
      ≡ 409)
    × ((exception_handler {T = ℕ} service.framework (application (integrity entry_pkey))).status
        ≡ 500)
    × ((exception_handler {T = ℕ} service.framework
          (operational_error lock_not_available)).retry_after
        ≡ some 1)
unfolding exception_handler
statuses = (refl, refl, refl)

no_rest : (n : ℕ) → n - n ≡ 0
no_rest n = omega arith

no_shift : (n : ℕ) → 10 ^ (n - n) ≡ 1
no_shift n = ap (λ (z : ℕ). 10 ^ z) (no_rest n)

pennies-IsChecked : IsChecked service.fields
pennies-IsChecked digits places least raw c k h =
    let enough : leb least raw ≡ true = ground (arith, h) in
    let amount : pos raw ≡ c = ground (arith, h) in
    let same : places ≡ k = ground (arith, h) in
    rw (← amount, ← same) (omega arith, refl, rw (no_shift places) (ground (arith, enough)))

first_turn : (db : Db) (j : ℕ) → 1 ≤ j → j < 2 → (turns db j).interruption ≡ some deadlock_detected
first_turn db j low high =
    let same : 1 ≡ j = omega (arith, low, high) in
    subst (λ (n : ℕ). (turns db n).interruption ≡ some deadlock_detected) same refl

capital_calls_post_sound_example :
    Accepted service members (turns world) caller 1 form call true called
capital_calls_post_sound_example =
    capital_calls_post_sound service members (turns world) caller 1 form pennies-IsChecked posting

permitted :
    permit caller (ok 1) operator members
    ≡ handled (record { user_id = 8; fund_id = 1; role = operator; lp_id = none })
unfolding permit has_permission
permitted = refl

capital_calls_post_again_example :
    (capital_calls_post service members (turns called) caller 1 form
      ≡ handled ((call, false), called))
    × (respond service.framework (capital_calls_post service members (turns called) caller 1 form)
        ≡ record { status = 200; body = inr call; retry_after = none })
capital_calls_post_again_example =
    capital_calls_post_again service members (turns world) caller 1 form posting members
      (record { user_id = 8; fund_id = 1; role = operator; lp_id = none }) (turns called) 2 []
      permitted (omega arith) (omega arith) (first_turn called) refl refl (λ t h. h)

retrying_answers_example : retrying (λ others db. ok db.drawn) (turns called) ≡ handled 6
retrying_answers_example =
    retrying_answers (λ others db. ok db.drawn) (turns called) 2 (omega arith) (omega arith)
      (first_turn called) refl
