-- ===== src/Api/Errors.antt =====
-- api/exceptions.py: what a client is told of an exception, with the statuses of ledger/errors.py and
-- operations/errors.py.
use fund_ledger.Base.{
  ℕ, ◌≡◌, refl, Bool, true, false, Option, none, some, ◌⊎◌, inl, inr, if◌then◌else◌,
}
use fund_ledger.Base.Result.{
  Result, ok, err, Error, ledger, integrity, not_found, LedgerError, insufficient_funds,
  period_closed, idempotency_conflict, already_reversed, missing_fx_rate, commitment_exceeded,
  no_period, period_not_closable, Constraint, period_open, transfer_reverses_unique,
}
use fund_ledger.Ledger.Retry.{Sqlstate, lock_not_available, query_canceled, Attempt, returned}

-- the exceptions of Django REST framework that a request can end with
pub data ApiException : Type 0 where
  validation_error parse_error authentication_failed not_authenticated : ApiException
  permission_denied no_such_resource throttled : ApiException

-- an exception of the application, an OperationalError, or one of the framework
pub data Failure : Type 0 where
  application : Error → Failure
  operational_error : Sqlstate → Failure
  framework : ApiException → Failure

-- how the handling of a request ends
pub data Handled (T : Type 0) : Type 0 where
  failed : Failure → Handled T
  handled : T → Handled T

infixl 5 ◌>>=◌ ◌>>◌
abbrev pub ◌>>=◌ : {A B : Type 0} → Handled A → (A → Handled B) → Handled B
◌>>=◌ call next = elim call [ failed f ↦ failed f | handled value ↦ next value ]

abbrev pub ◌>>◌ : {B : Type 0} → Handled (Unit {0}) → Handled B → Handled B
check >> next = check >>= λ _. next

-- `if b: raise e`
abbrev pub refuse_if : Bool → ApiException → Handled (Unit {0})
refuse_if b e = elim b [ true ↦ failed (framework e) | false ↦ handled tt ]

-- a call of the application
abbrev pub of_result : {A : Type 0} → Result A → Handled A
of_result (err e) = failed (application e)
of_result (ok value) = handled value

abbrev pub of_attempt : {A : Type 0} → Attempt A → Handled A
of_attempt (returned value) = handled value
of_attempt (Attempt.operational s) = failed (operational_error s)
of_attempt (Attempt.raised e) = failed (application e)

-- a request that goes through has passed each step
pub >>=-handled :
    {A B : Type 0} (call : Handled A) (next : A → Handled B) {result : B}
    → (call >>= next) ≡ handled result
    → (value : A) × (call ≡ handled value) × (next value ≡ handled result)
>>=-handled (failed f) next h = absurd (cc)
>>=-handled (handled value) next h = (value, refl, h)

pub refuse_if-handled :
    {B : Type 0} (b : Bool) (e : ApiException) (next : Handled B) {result : B}
    → (refuse_if b e >> next) ≡ handled result
    → (b ≡ false) × (next ≡ handled result)
refuse_if-handled true e next h = absurd (cc)
refuse_if-handled false e next h = (refl, h)

-- the texts under "error"; a LedgerError has its own
pub data ErrorCode : Type 0 where
  code_of : LedgerError → ErrorCode
  not_found_code busy internal_error : ErrorCode
  framework_detail : ApiException → ErrorCode

-- `retry_after` is the header
pub record Response (T : Type 0) : Type 0 where
  pub status : ℕ
  pub body : ErrorCode ⊎ T
  pub retry_after : Option ℕ

-- What the framework makes of its own exceptions.
pub record Framework : Type 0 where
  pub status_code : ApiException → ℕ
  pub wait : ApiException → Option ℕ

-- `http_status`
abbrev pub http_status : LedgerError → ℕ
http_status insufficient_funds = 409
http_status period_closed = 409
http_status already_reversed = 409
http_status commitment_exceeded = 409
http_status no_period = 409
http_status period_not_closable = 409
http_status idempotency_conflict = 422
http_status missing_fx_rate = 422
http_status _ = 400

-- CONSTRAINT_ERRORS
abbrev pub constraint_errors : Constraint → Option (LedgerError × ℕ)
constraint_errors period_open = some (period_closed, 409)
constraint_errors transfer_reverses_unique = some (already_reversed, 409)
constraint_errors _ = none

-- BUSY_SQLSTATES
abbrev pub is_busy : Sqlstate → Bool
is_busy lock_not_available = true
is_busy query_canceled = true
is_busy _ = false

module _ {T : Type 0} where
  -- `_error`
  abbrev pub error_response : ErrorCode → ℕ → Option ℕ → Response T
  error_response code status retry_after = record {
    status = status;
    body = inl code;
    retry_after = retry_after;
  }

  abbrev pub internal : Response T
  internal = error_response internal_error 500 none

  abbrev pub of_constraint : Option (LedgerError × ℕ) → Response T
  of_constraint none = internal
  of_constraint (some (code, status)) = error_response (code_of code) status none

  -- `exception_handler`
  unfoldable pub exception_handler : Framework → Failure → Response T
  exception_handler fw (application (ledger e)) = error_response (code_of e) (http_status e) none
  exception_handler fw (application not_found) = error_response not_found_code 404 none
  exception_handler fw (application (integrity c)) = of_constraint (constraint_errors c)
  exception_handler fw (application e) = internal
  exception_handler fw (operational_error s) =
      if is_busy s then error_response busy 503 (some 1) else internal
  exception_handler fw (framework e) =
      error_response (framework_detail e) (fw.status_code e) (fw.wait e)

  -- `created_or_replayed`
  abbrev pub created_or_replayed : T → Bool → Response T
  created_or_replayed data_ created = record {
    status = if created then 201 else 200;
    body = inr data_;
    retry_after = none;
  }

  -- the response to a request that creates or replays
  unfoldable pub respond : {S : Type 0} → Framework → Handled ((T × Bool) × S) → Response T
  unfolding exception_handler
  respond fw (failed f) = exception_handler fw f
  respond fw (handled ((value, created), _)) = created_or_replayed value created
