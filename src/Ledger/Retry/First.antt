-- ===== src/Ledger/Retry/First.antt =====
-- Which attempt ends the loop.
use fund_ledger.Base.{
  ℕ, zero, suc, ◌+◌, ◌≤◌, ◌<◌, ◌≡◌, refl, subst, ==_iff, Bool, true, false, not, ◌||◌, ◌==◌, ◌⊎◌,
  inl, inr, arith, Bool-cases,
}
use fund_ledger.Ledger.Retry.{Attempt, is_retryable, attempts_from, with_deadlock_retry}

module _ {T : Type 0} (fn : ℕ → Attempt T) (in_atomic_block : Bool) where
  -- The outcome is that of the attempt `k`: the first one, of those from `from` on, that cannot be
  -- retried, or the last of all.
  pub record IsFirst (from attempts : ℕ) (outcome : Attempt T) : Type 0 where
    pub k : ℕ
    pub from_start : from ≤ k
    pub allowed : k < from + attempts
    pub same : outcome ≡ fn k
    pub before : (j : ℕ) → from ≤ j → j < k → is_retryable in_atomic_block (fn j) ≡ true
    pub stopped : (is_retryable in_atomic_block (fn k) ≡ false) ⊎ (suc k ≡ from + attempts)

  retried : (b : Bool) (left : ℕ) → (not b || (left == 0)) ≡ false → (b ≡ true) × (0 < left)
  retried true left h = (refl, ground (arith, h))
  retried false left h = absurd (cc)

  attempts_from-IsFirst :
      (from left : ℕ) → 0 < left → IsFirst from left (attempts_from fn in_atomic_block from left)
  unfolding attempts_from
  attempts_from-IsFirst from zero h = absurd (omega (arith, h))
  attempts_from-IsFirst from (suc left) h =
      elim (Bool-cases (not (is_retryable in_atomic_block (fn from)) || (left == 0))) [
        | inl ends ↦ record {
          k = from;
          from_start = omega arith;
          allowed = omega arith;
          same = rw (ends, attempts_from) refl;
          before = λ j a b. absurd (omega (arith, a, b));
          stopped = ground (arith, ends);
        }
        | inr again ↦
            let (retryable, some_left) =
              retried (is_retryable in_atomic_block (fn from)) left again in
            let rest = attempts_from-IsFirst (suc from) left some_left in
            record {
              k = rest.k;
              from_start = omega (arith, rest.from_start);
              allowed = omega (arith, rest.allowed);
              same = rw (again, attempts_from) rest.same;
              before = λ j a b. elim (Bool-cases (from == j)) [
                | inl it ↦
                    subst (λ (i : ℕ). is_retryable in_atomic_block (fn i) ≡ true)
                      ((==_iff from j).0 it) retryable
                | inr later ↦ rest.before j (ground (arith, a, later)) b
              ];
              stopped = elim rest.stopped [
                | inl final ↦ inl final
                | inr last ↦ inr (omega (arith, last))
              ];
            }
      ]

  -- With one attempt or more, `with_deadlock_retry` ends as the first attempt does that is no
  -- deadlock or serialization failure outside a transaction, or as the last one allowed.
  pub with_deadlock_retry-IsFirst :
      (attempts : ℕ)
      → 0 < attempts
      → IsFirst 1 attempts (with_deadlock_retry fn in_atomic_block attempts)
  unfolding with_deadlock_retry
  with_deadlock_retry-IsFirst attempts h = attempts_from-IsFirst 1 attempts h
