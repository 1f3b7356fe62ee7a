-- ===== src/Ledger/Locks/Order.antt =====
-- The order in which a transaction takes its locks: every lock comes after those that it holds.
use fund_ledger.Base.{
  ℕ, ◌<◌, ◌≡◌, refl, Bool, true, false, List, [], ◌∷◌, ◌==◌, All, All-sort_by, filter, map, any,
  leb, insert_by, sort_by, arith, Bool-cases, inl, inr,
}
use fund_ledger.Ledger.Model.{Db, Leg, Account}
use fund_ledger.Ledger.Post.{account_ids}
use fund_ledger.Ledger.Locks.{lock_requests, Session, begin}

-- the primary key: every row has an id of its own
abbrev pub IsUnique : List Account → Type 0
IsUnique [] = Unit
IsUnique (a ∷ rows) = All (λ b. (a.id == b.id) ≡ false) rows × IsUnique rows

abbrev pub IsRising : List ℕ → Type 0
IsRising [] = Unit
IsRising (x ∷ xs) = All (λ y. x < y) xs × IsRising xs

abbrev ids : List Account → List ℕ
ids rows = map (λ a. a.id) rows

abbrev by_id : Account → Account → Bool
by_id a b = leb a.id b.id

All-filter :
    (P : Account → Type 0) (p : Account → Bool) (rows : List Account)
    → All P rows
    → All P (filter p rows)
All-filter P p [] h = tt
All-filter P p (a ∷ rows) (h, hs) = elim (Bool-cases (p a)) [
  | inl kept ↦ rw kept (h, All-filter P p rows hs)
  | inr dropped ↦ rw dropped (All-filter P p rows hs)
]

filter-IsUnique :
    (p : Account → Bool) (rows : List Account) → IsUnique rows → IsUnique (filter p rows)
filter-IsUnique p [] h = tt
filter-IsUnique p (a ∷ rows) (h, hs) = elim (Bool-cases (p a)) [
  | inl kept ↦ rw kept (All-filter _ p rows h, filter-IsUnique p rows hs)
  | inr dropped ↦ rw dropped (filter-IsUnique p rows hs)
]

-- a number below the first of a rising list is below all
below-All : (x y : ℕ) (ys : List ℕ) → x < y → All (λ z. y < z) ys → All (λ z. x < z) ys
below-All x y [] h hs = tt
below-All x y (z ∷ zs) h (l, hs) = (omega (arith, h, l), below-All x y zs h hs)

All-insert_ids :
    (x : ℕ) (a : Account) (bs : List Account)
    → x < a.id
    → All (λ y. x < y) (ids bs)
    → All (λ y. x < y) (ids (insert_by by_id a bs))
All-insert_ids x a [] h hs = (h, tt)
All-insert_ids x a (b ∷ bs) h (l, hs) = elim (Bool-cases (by_id a b)) [
  | inl first ↦ rw first (h, (l, hs))
  | inr later ↦ rw later (l, All-insert_ids x a bs h hs)
]

insert_by-IsRising :
    (a : Account) (bs : List Account)
    → All (λ b. (a.id == b.id) ≡ false) bs
    → IsRising (ids bs)
    → IsRising (ids (insert_by by_id a bs))
insert_by-IsRising a [] h rising = (tt, tt)
insert_by-IsRising a (b ∷ bs) (other, h) (l, rising) = elim (Bool-cases (by_id a b)) [
  | inl first ↦
      let lt : a.id < b.id = ground (arith, first, other) in
      rw first ((lt, below-All a.id b.id (ids bs) lt l), (l, rising))
  | inr later ↦
      rw later
        (All-insert_ids b.id a bs (ground (arith, later)) l, insert_by-IsRising a bs h rising)
]

sort_by-IsRising : (rows : List Account) → IsUnique rows → IsRising (ids (sort_by by_id rows))
sort_by-IsRising [] h = tt
sort_by-IsRising (a ∷ rows) (h, hs) =
    insert_by-IsRising a (sort_by by_id rows) (All-sort_by _ by_id rows h)
      (sort_by-IsRising rows hs)

-- the query takes the locks in rising order
lock_requests-IsRising :
    (legs : List Leg) (db : Db) → IsUnique db.accounts → IsRising (lock_requests legs db)
unfolding lock_requests
lock_requests-IsRising legs db h =
    sort_by-IsRising (filter (λ a. any (λ i. i == a.id) (account_ids legs)) db.accounts)
      (filter-IsUnique _ db.accounts h)

-- a transaction that keeps to the order
pub record IsOrdered (s : Session) : Type 0 where
  pub rising : IsRising s.waiting
  pub ahead : All (λ h. All (λ r. h < r) s.waiting) s.held
  pub released : s.finished ≡ true → s.held ≡ []

pub begin-IsOrdered :
    (db : Db) → IsUnique db.accounts → (lss : List (List Leg)) → All IsOrdered (map (begin db) lss)
begin-IsOrdered db h [] = tt
begin-IsOrdered db h (legs ∷ lss) = (
  record { rising = lock_requests-IsRising legs db h; ahead = tt; released = λ over. refl },
  begin-IsOrdered db h lss,
)
