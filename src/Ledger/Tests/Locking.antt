-- ===== src/Ledger/Tests/Locking.antt =====
-- Two transactions that name the same accounts in opposite orders.
use fund_ledger.Base.{ℕ, ◌+◌, ◌≡◌, refl, false, none, some, List, [], ◌∷◌, ◌⊎◌, map}
use fund_ledger.Ledger.Model.{Leg}
use fund_ledger.Ledger.Locks.{
  Session, begin, lock_requests, move, step_at, none_yet, and_then, work,
}
use fund_ledger.Ledger.Locks.Progress.{Steps-progress}
use fund_ledger.Ledger.Tests.{world, paying_in, buying}

abbrev there : List Leg
there = paying_in.legs

abbrev both : List (List Leg)
both = there ∷ (buying 22 100 7900).legs ∷ []

abbrev started : List Session
started =
    record { held = []; waiting = 10 ∷ 11 ∷ []; finished = false }
    ∷ record { held = []; waiting = 10 ∷ 12 ∷ []; finished = false }
    ∷ []

in_order : map (begin world) both ≡ started
unfolding lock_requests
in_order = refl

-- the second takes the account that both need
abbrev taken : List Session
taken =
    record { held = []; waiting = 10 ∷ 11 ∷ []; finished = false }
    ∷ record { held = 10 ∷ []; waiting = 12 ∷ []; finished = false }
    ∷ []

second_first : step_at (map (begin world) both) 1 (map (begin world) both) ≡ some taken
unfolding step_at move lock_requests
second_first = refl

-- the first waits
first_waits : step_at taken 0 taken ≡ none
unfolding step_at move
first_waits = refl

Steps-progress_example :
    (1 + work taken ≡ work (map (begin world) both))
    × ((work taken ≡ 0) ⊎ ((n : ℕ) × (ts : List Session) × (step_at taken n taken ≡ some ts)))
Steps-progress_example =
    Steps-progress world both ((refl, (refl, tt)), ((refl, tt), (tt, tt)))
      (and_then 1 none_yet second_first)
