-- ===== src/Ledger/Locks.antt =====
-- The row locks of `_lock_accounts` in ledger/services.py, with several transactions at once. A
-- transaction takes its locks one by one, in the order of the query, and gives all of them back when
-- it ends; a lock that is held is waited for. The fund row that
-- create_capital_call and create_distribution lock before is left out.
pub mod Order
pub mod Progress
use fund_ledger.Base.{
  ℕ, zero, suc, ◌+◌, ◌≡◌, Bool, true, false, Option, none, some, List, [], ◌∷◌, ◌==◌, any, map,
  length, if◌then◌else◌,
}
use fund_ledger.Ledger.Model.{Db, Leg}
use fund_ledger.Ledger.Post.{rows_for}

-- the rows that the query locks, in its order
unfoldable pub lock_requests : List Leg → Db → List ℕ
lock_requests legs db = map (λ a. a.id) (rows_for legs db)

-- a transaction: the locks that it holds, and those that it will take, the next one first
pub record Session : Type 0 where
  pub held : List ℕ
  pub waiting : List ℕ
  pub finished : Bool

abbrev pub begin : Db → List Leg → Session
begin db legs = record { held = []; waiting = lock_requests legs db; finished = false }

abbrev pub holds : ℕ → Session → Bool
holds r s = any (λ h. h == r) s.held

-- what a transaction does next, among all of them: it takes a lock that is free, or it ends; none
-- where it waits, or has ended
unfoldable pub move : List Session → Session → Option Session
move all s = if s.finished then none else elim s.waiting [
  | [] ↦ some (record { held = []; waiting = []; finished = true })
  | r ∷ rs ↦
      if any (holds r) all
      then none
      else some (record { held = r ∷ s.held; waiting = rs; finished = false })
]

abbrev pub onto : Session → Option (List Session) → Option (List Session)
onto s none = none
onto s (some ss) = some (s ∷ ss)

abbrev pub first_of : List Session → Option Session → Option (List Session)
first_of ss none = none
first_of ss (some s) = some (s ∷ ss)

-- the move of the transaction at a place of the list
unfoldable pub step_at : List Session → ℕ → List Session → Option (List Session)
step_at all n [] = none
step_at all zero (s ∷ ss) = first_of ss (move all s)
step_at all (suc n) (s ∷ ss) = onto s (step_at all n ss)

-- an interleaving, with its number of moves
pub data Steps : List Session → ℕ → List Session → Type 0 where
  none_yet : {ss : List Session} → Steps ss 0 ss
  and_then :
      {ss ts us : List Session} {k : ℕ} (n : ℕ)
      → Steps ss k ts
      → step_at ts n ts ≡ some us
      → Steps ss (suc k) us

-- the moves that are left
abbrev pub work_of : Session → ℕ
work_of s = if s.finished then 0 else suc (length s.waiting)

abbrev pub work : List Session → ℕ
work [] = 0
work (s ∷ ss) = work_of s + work ss
