-- ===== src/Base/Result.antt =====
-- ledger/errors.py, operations/errors.py and the other exceptions that a request can end with.
-- A transaction that raises is rolled back, so an error carries no state.
use mathlib.Core.Path.{◌≡◌, refl}
use mathlib.Core.Logic.{◌⊎◌, inl, inr}
use mathlib.Core.Bool.{Bool, true, false}

-- the subclasses of `LedgerError`
pub data LedgerError : Type 0 where
  invalid_transfer unbalanced_transfer unknown_account insufficient_funds : LedgerError
  period_closed idempotency_conflict already_reversed missing_fx_rate : LedgerError
  commitment_exceeded no_period period_not_closable : LedgerError

-- the database constraints that a write can meet, by their names
pub data Constraint : Type 0 where
  transfer_pkey transfer_idempotency_key_unique transfer_reverses_unique : Constraint
  transfer_idempotency_key_present transfer_only_reversals_reverse : Constraint
  transfer_reversal_has_target : Constraint
  entry_pkey entry_amount_positive entry_base_amount_positive entry_direction_valid : Constraint
  entry_fx_rate_positive entry_currency_matches_account period_open transfer_balanced : Constraint
  append_only period_closed_is_final period_closed_at_matches_status : Constraint
  period_unique_start period_end_not_before_start period_pkey period_fund_fkey : Constraint
  transfer_period_fkey : Constraint
  capital_call_number_unique capital_call_positive capital_call_due_after_notice : Constraint
  capital_call_transfer_unique distribution_transfer_unique : Constraint
  distribution_number_unique distribution_positive : Constraint
  account_pkey account_owner_lp_iff_lp_capital account_code_unique_per_fund : Constraint
  account_one_lp_capital_per_lp_currency membership_lp_iff_lp_role : Constraint
  apikey_prefix_unique : Constraint

-- `integrity` is Django's IntegrityError and `not_found` its ObjectDoesNotExist; `key_error`,
-- `value_error` and `assertion_error` are Python's exceptions of these names; `data_error` is a
-- number that no column can hold, `invalid_operation` that of the decimal module, `command_error`
-- Django's CommandError and `programming_error` a statement that names no such table.
pub data Error : Type 0 where
  ledger : LedgerError → Error
  integrity : Constraint → Error
  not_found key_error value_error assertion_error data_error invalid_operation : Error
  command_error programming_error : Error

-- how a call ends: by an exception, or with a value
pub data Result {κ} (A : Type κ) : Type κ where
  err : Error → Result A
  ok : A → Result A

-- what follows a call runs on its value, if there is one
infixl 5 ◌>>=◌ ◌>>◌
abbrev pub ◌>>=◌ {κ ℓ} : {A : Type κ} {B : Type ℓ} → Result A → (A → Result B) → Result B
◌>>=◌ call next = elim call [ err e ↦ err e | ok value ↦ next value ]

abbrev pub ◌>>◌ {κ} : {B : Type κ} → Result (Unit {0}) → Result B → Result B
check >> next = check >>= λ _. next

-- `if b: raise e`
abbrev pub raise_if : Bool → Error → Result (Unit {0})
raise_if b e = elim b [ true ↦ err e | false ↦ ok tt ]

-- a sequence that returns: its first call returned, and what follows returned on that value
pub >>=-returns {κ ℓ} :
    {A : Type κ} {B : Type ℓ} (call : Result A) (next : A → Result B) {result : B}
    → (call >>= next) ≡ ok result
    → (value : A) × (call ≡ ok value) × (next value ≡ ok result)
>>=-returns (err e) next h = absurd (cc)
>>=-returns (ok value) next h = (value, refl, h)

-- a sequence that returns has passed its first guard
pub guard-returns {κ} :
    {B : Type κ} (b : Bool) (e : Error) (next : Result B) {result : B}
    → (raise_if b e >> next) ≡ ok result
    → (b ≡ false) × (next ≡ ok result)
guard-returns true e next h = absurd (cc)
guard-returns false e next h = (refl, h)

pub Result-cases {κ} :
    {A : Type κ} (r : Result A) → ((e : Error) × (r ≡ err e)) ⊎ ((a : A) × (r ≡ ok a))
Result-cases (err e) = inl (e, refl)
Result-cases (ok a) = inr (a, refl)
