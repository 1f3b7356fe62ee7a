-- ===== src/Ledger/Locks/Progress.antt =====
-- No deadlock among the transactions that lock accounts.
use fund_ledger.Base.{
  ℕ, zero, suc, ◌+◌, ◌<◌, ◌≤◌, ◌≡◌, refl, ap, subst, Bool, true, false, some, List, [], ◌∷◌, ◌==◌,
  ==_iff, All, All-In, All-map, In, any, any-found, map, length, arith, Bool-cases, Option-cases,
  inl, inr, ◌⊎◌,
}
use fund_ledger.Ledger.Model.{Db, Leg}
use fund_ledger.Ledger.Locks.{
  Session, begin, holds, move, step_at, Steps, none_yet, and_then, work_of, work,
}
use fund_ledger.Ledger.Locks.Order.{IsUnique, IsOrdered, begin-IsOrdered}

-- a transaction with its fields named
abbrev session : List ℕ → List ℕ → Bool → Session
session hs ws f = record { held = hs; waiting = ws; finished = f }

module _ (all : List Session) where
  -- a move keeps to the order, and is one less to make
  moves :
      (hs ws : List ℕ) (f : Bool) (t : Session)
      → move all (session hs ws f) ≡ some t
      → IsOrdered (session hs ws f)
      → IsOrdered t × (work_of (session hs ws f) ≡ suc (work_of t))
  unfolding move
  moves hs ws true t h o = absurd (cc)
  moves hs [] false t h o =
      let same : session [] [] true ≡ t = ground (arith, h) in
      subst (λ (u : Session). IsOrdered u × (1 ≡ suc (work_of u))) same
        (record { rising = tt; ahead = tt; released = λ over. refl }, refl)
  moves hs (r ∷ rs) false t h o = elim (Bool-cases (any (holds r) all)) [
    | inl busy ↦ absurd (cc (rw busy at h))
    | inr free ↦
        let same : session (r ∷ hs) rs false ≡ t = ground (arith, rw free at h) in
        subst (λ (u : Session). IsOrdered u × (suc (suc (length rs)) ≡ suc (work_of u))) same
          (
            record {
              rising = o.rising.1;
              ahead = (o.rising.0, All-map _ (λ j later. later.1) hs o.ahead);
              released = λ over. absurd (cc);
            },
            refl,
          )
  ]

  step_moves :
      (n : ℕ) (ss ts : List Session)
      → step_at all n ss ≡ some ts
      → All IsOrdered ss
      → All IsOrdered ts × (work ss ≡ suc (work ts))
  unfolding step_at
  step_moves n [] ts h os = absurd (cc)
  step_moves zero (s ∷ ss) ts h (o, os) = elim (Option-cases (move all s)) [
    | inl waits ↦ absurd (cc (rw waits at h))
    | inr (t, goes) ↦
        let same : t ∷ ss ≡ ts = ground (arith, rw goes at h) in
        let (o', less) = moves s.held s.waiting s.finished t goes o in
        subst (λ (us : List Session). All IsOrdered us × (work_of s + work ss ≡ suc (work us))) same
          ((o', os), omega (arith, less))
  ]
  step_moves (suc n) (s ∷ ss) ts h (o, os) = elim (Option-cases (step_at all n ss)) [
    | inl waits ↦ absurd (cc (rw waits at h))
    | inr (us, goes) ↦
        let same : s ∷ us ≡ ts = ground (arith, rw goes at h) in
        let (os', less) = step_moves n ss us goes os in
        subst (λ (vs : List Session). All IsOrdered vs × (work_of s + work ss ≡ suc (work vs))) same
          ((o, os'), omega (arith, less))
  ]

-- a number above every lock that is waited for
abbrev above : List ℕ → ℕ
above [] = 0
above (x ∷ xs) = suc (x + above xs)

abbrev ceiling : List Session → ℕ
ceiling [] = 0
ceiling (s ∷ ss) = above s.waiting + ceiling ss

above-head : (s : Session) (r : ℕ) (rs : List ℕ) → s.waiting ≡ r ∷ rs → r < above s.waiting
above-head s r rs h = rw h (omega arith)

below_ceiling :
    (ss : List Session) (s : Session) (r : ℕ) (rs : List ℕ)
    → In s ss
    → s.waiting ≡ r ∷ rs
    → r < ceiling ss
below_ceiling [] s r rs here h = absurd here
below_ceiling (t ∷ ss) s r rs (inl e) h =
    let low = above-head t r rs (subst (λ (u : Session). u.waiting ≡ r ∷ rs) e h) in
    omega (arith, low)
below_ceiling (t ∷ ss) s r rs (inr there) h =
    let low = below_ceiling ss s r rs there h in omega (arith, low)

module _ (all : List Session) (ordered : All IsOrdered all) where
  abbrev Movable : Type 0
  Movable = (s : Session) × In s all × (t : Session) × (move all s ≡ some t)

  -- the one that holds a lock has not ended, and what it waits for comes later
  holder :
      (r : ℕ)
      → any (holds r) all ≡ true
      → (s : Session) × In s all
        × (s.finished ≡ false)
        × ((q : ℕ) (qs : List ℕ) → s.waiting ≡ q ∷ qs → r < q)
  holder r busy =
      let (s, here, holding) = any-found (holds r) all busy in
      let (h, kept, equal) = any-found (λ h. h == r) s.held holding in
      let o = All-In IsOrdered all ordered s here in
      let ahead = All-In (λ h. All (λ q. h < q) s.waiting) s.held o.ahead h kept in
      (
        s,
        here,
        elim (Bool-cases s.finished) [
          | inl over ↦ absurd (subst (λ (hs : List ℕ). In h hs) (o.released over) kept)
          | inr going ↦ going
        ],
        λ q qs e.
            rw (← (==_iff h r).0 equal) (subst (λ (ws : List ℕ). All (λ q. h < q) ws) e ahead).0,
      )

  -- from a transaction that waits to the one that holds its lock, which waits for a later lock
  chase :
      (fuel : ℕ) (hs ws : List ℕ)
      → In (session hs ws false) all
      → ((r : ℕ) (rs : List ℕ) → ws ≡ r ∷ rs → ceiling all ≤ r + fuel)
      → Movable
  unfolding move
  chase fuel hs [] here far = (session hs [] false, here, session [] [] true, refl)
  chase zero hs (r ∷ rs) here far =
      absurd
        (omega (arith, below_ceiling all (session hs (r ∷ rs) false) r rs here refl, far r rs refl))
  chase (suc fuel) hs (r ∷ rs) here far = elim (Bool-cases (any (holds r) all)) [
    | inr free ↦ (session hs (r ∷ rs) false, here, session (r ∷ hs) rs false, rw free refl)
    | inl busy ↦
        let (s, there, going, later) = holder r busy in
        let whole = ap (λ (f : Bool). session s.held s.waiting f) going in
        chase fuel s.held s.waiting (subst (λ (u : Session). In u all) whole there)
          (λ q qs e. omega (arith, later q qs e, far r rs refl))
  ]

  -- a move at its place
  placed :
      (ss : List Session) (s t : Session)
      → In s ss
      → move all s ≡ some t
      → (n : ℕ) × (ts : List Session) × (step_at all n ss ≡ some ts)
  unfolding step_at
  placed [] s t here goes = absurd here
  placed (u ∷ ss) s t (inl e) goes =
      let goes' = subst (λ (v : Session). move all v ≡ some t) e goes in (0, t ∷ ss, rw goes' refl)
  placed (u ∷ ss) s t (inr there) goes =
      let (n, ts, goes') = placed ss s t there goes in (suc n, u ∷ ts, rw goes' refl)

-- all have ended, or one has not
unfinished : (ss : List Session) → (work ss ≡ 0) ⊎ ((s : Session) × In s ss × (s.finished ≡ false))
unfinished [] = inl refl
unfinished (s ∷ ss) = elim (Bool-cases s.finished) [
  | inr going ↦ inr (s, inl refl, going)
  | inl over ↦ elim (unfinished ss) [
    | inl none_left ↦ inl (rw (over, none_left) refl)
    | inr (t, there, going) ↦ inr (t, inr there, going)
  ]
]

Steps-IsOrdered :
    (ss ts : List Session) (k : ℕ)
    → All IsOrdered ss
    → Steps ss k ts
    → All IsOrdered ts × (k + work ts ≡ work ss)
Steps-IsOrdered ss ts zero os none_yet = (os, omega arith)
Steps-IsOrdered ss ts (suc k) os (and_then {ts = us} n steps h) =
    let (os', sum) = Steps-IsOrdered ss us k os steps in
    let (os'', less) = step_moves us n us ts h os' in (os'', omega (arith, sum, less))

-- Transactions that each lock the accounts of their legs, however they are interleaved, never wait
-- for each other in a circle: until all have ended, one of them can go on; and each move is one of
-- the number that they make in all, one for each lock and one for each end. The accounts have their
-- primary key.
pub Steps-progress :
    (db : Db) (lss : List (List Leg)) {k : ℕ} {ss : List Session}
    → IsUnique db.accounts
    → Steps (map (begin db) lss) k ss
    → (k + work ss ≡ work (map (begin db) lss))
      × ((work ss ≡ 0) ⊎ ((n : ℕ) × (ts : List Session) × (step_at ss n ss ≡ some ts)))
Steps-progress db lss {k} {ss} unique steps =
    let (os, sum) =
      Steps-IsOrdered (map (begin db) lss) ss k (begin-IsOrdered db unique lss) steps in
    (
      sum,
      elim (unfinished ss) [
        | inl over ↦ inl over
        | inr (s, here, going) ↦
            let whole = ap (λ (f : Bool). session s.held s.waiting f) going in
            let (u, there, t, goes) =
              chase ss os (ceiling ss) s.held s.waiting
                (subst (λ (v : Session). In v ss) whole here) (λ r rs e. omega arith) in
            inr (placed ss os ss u t there goes)
      ],
    )
