-- ===== src/Ledger/Retry.antt =====
-- ledger/retry.py: a call that the database has rolled back is made again. The waiting between the
-- attempts and the metric are left out.
pub mod First
use fund_ledger.Base.{ℕ, zero, suc, Bool, true, false, not, ◌&&◌, ◌||◌, ◌==◌, if◌then◌else◌}
use fund_ledger.Base.Result.{Error, assertion_error}

-- the SQLSTATE of an OperationalError: 40P01, 40001, 55P03, 57014; `unknown` is any other, or none
pub data Sqlstate : Type 0 where
  deadlock_detected serialization_failure lock_not_available query_canceled unknown : Sqlstate

-- how one call ends: with a value, with an OperationalError, or with another exception
pub data Attempt (T : Type 0) : Type 0 where
  returned : T → Attempt T
  operational : Sqlstate → Attempt T
  raised : Error → Attempt T

-- RETRYABLE_SQLSTATES
abbrev pub is_retryable_state : Sqlstate → Bool
is_retryable_state deadlock_detected = true
is_retryable_state serialization_failure = true
is_retryable_state _ = false

module _ {T : Type 0} where
  -- `retryable`; inside a transaction nothing is
  abbrev pub is_retryable : Bool → Attempt T → Bool
  is_retryable in_atomic_block (operational s) = is_retryable_state s && not in_atomic_block
  is_retryable in_atomic_block _ = false

  -- the loop, at attempt number `attempt` with `left` to go; `fn` is the call, by its number
  unfoldable pub attempts_from : (ℕ → Attempt T) → Bool → ℕ → ℕ → Attempt T
  attempts_from fn in_atomic_block attempt zero = raised assertion_error
  attempts_from fn in_atomic_block attempt (suc left) =
      elim (not (is_retryable in_atomic_block (fn attempt)) || (left == 0)) [
        | true ↦ fn attempt
        | false ↦ attempts_from fn in_atomic_block (suc attempt) left
      ]

  unfoldable pub with_deadlock_retry : (ℕ → Attempt T) → Bool → ℕ → Attempt T
  unfolding attempts_from
  with_deadlock_retry fn in_atomic_block attempts = attempts_from fn in_atomic_block 1 attempts
