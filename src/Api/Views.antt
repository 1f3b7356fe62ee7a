-- ===== src/Api/Views.antt =====
-- api/views.py: each view checks the permission, reads the request, calls the operation and renders.
-- The permission is checked before the view runs, as the framework does; what it does besides
-- (negotiation, throttling) is left out.
pub mod Writes
pub mod Reads
use fund_ledger.Base.{
  ℕ, Bool, true, false, not, ◌&&◌, Option, none, some, List, ◌==◌, map_or, if◌then◌else◌,
}
use fund_ledger.Base.Result.{Result, ok, err, Error, not_found}
use fund_ledger.Ledger.Model.{Db}
use fund_ledger.Ledger.Idempotency.{Hashing, Others}
use fund_ledger.Ledger.Retry.{Sqlstate, Attempt, returned, with_deadlock_retry}
use fund_ledger.Access.Keys.{Text}
use fund_ledger.Access.Permissions.{Role, FundMembership, has_permission}
use fund_ledger.Api.Errors.{
  Framework, Handled, failed, handled, framework, application, not_authenticated, permission_denied,
  no_such_resource, ◌>>=◌, of_result, of_attempt,
}
use fund_ledger.Api.Requests.{Fields, Stamp}

-- What the views are given: the fingerprints, the framework, and the number of a text.
pub record Service : Type 0 where
  pub hashing : Hashing
  pub framework : Framework
  pub fields : Fields
  pub number_of : Text → ℕ
  pub parse_datetime : Text → Option Stamp

-- the caller, if authenticated, and the headers; `username` is what `actor` returns
pub record Request : Type 0 where
  pub user : Option ℕ
  pub username : ℕ
  pub idempotency_header : Option Text

-- What an attempt meets: an error of the database, or none; the tables at the time, and what other
-- sessions commit meanwhile.
pub record Turn : Type 0 where
  pub interruption : Option Sqlstate
  pub found : Db
  pub others : Others

-- not a member is a 404; a member with too low a role a 403, and nobody at all a 401
abbrev pub denied : Option ℕ → Handled FundMembership
denied none = failed (framework not_authenticated)
denied (some user) = failed (framework permission_denied)

abbrev pub or_denied : Option ℕ → Result (Option FundMembership) → Handled FundMembership
or_denied user (err not_found) = failed (framework no_such_resource)
or_denied user (err e) = failed (application e)
or_denied user (ok none) = denied user
or_denied user (ok (some m)) = handled m

-- `check_permissions`, with FundRolePermission
unfoldable pub permit : Request → Result ℕ → Role → List FundMembership → Handled FundMembership
permit r fund required ms = or_denied r.user (has_permission r.user fund required ms)

-- one attempt of an operation
abbrev pub outcome_of : {A : Type 0} → Result A → Attempt A
outcome_of (ok value) = returned value
outcome_of (err e) = Attempt.raised e

abbrev pub attempt : {A : Type 0} → (Others → Db → Result A) → Turn → Attempt A
attempt operation turn =
    map_or turn.interruption (outcome_of (operation turn.others turn.found)) Attempt.operational

-- `with_deadlock_retry(lambda: …)`: three attempts, outside a transaction
unfoldable pub retrying : {A : Type 0} → (Others → Db → Result A) → (ℕ → Turn) → Handled A
retrying operation turns =
    of_attempt (with_deadlock_retry (λ n. attempt operation (turns n)) false 3)
