-- ===== src/Ledger/Guards/Frozen.antt =====
-- The ledger under any statements that a session can send, in transactions of any length: the
-- promises that the triggers make by themselves.
use mathlib.Core.List.{append-nil}
use fund_ledger.Base.{
  ℕ, ◌≡◌, refl, ap, ◌∙◌, Bool, true, false, some, List, [], ◌∷◌, ◌++◌, ◌==◌, ==_iff, filter,
  filter-append, filter-none, filter_alike, any, all, All, In, map_or, Bool-cases, inl, inr,
}
use fund_ledger.Base.Int.{pos, sum_by}
use fund_ledger.Ledger.Model.{Db, Transfer, Entry, Period, signed_base_amount}
use fund_ledger.Ledger.Queries.{transfer_by_id}
use fund_ledger.Ledger.Insert.{transfer_imbalance}
use fund_ledger.Ledger.Insert.Effect.{check_balances-balanced}
use fund_ledger.Ledger.Reconciliation.Zero.{IsBalanced}
use fund_ledger.Ledger.Guards.{Statement, inserted, transact, or_rollback, history}
use fund_ledger.Ledger.Guards.Grows.{
  IsClosed, spares, and-true, Lands, Grows, Grows-refl, Grows-trans, transfer_found,
}
use fund_ledger.Ledger.Guards.Runs.{execute_all-Grows, transact_cases}

-- the foreign key of ledger_entry: the transfer of an entry is there
abbrev pub IsOwned : Db → Type 0
IsOwned db =
    (e : Entry) → In e db.entries → (t : Transfer) × (transfer_by_id e.transfer_id db ≡ some t)

-- the entries of a period, by the join with ledger_transfer
abbrev pub in_period : ℕ → Db → Entry → Bool
in_period i db e = map_or (transfer_by_id e.transfer_id db) false (λ t. t.period_id == i)

abbrev pub entries_of_period : ℕ → Db → List Entry
entries_of_period i db = filter (in_period i db) db.entries

none_landed :
    (K : Period → Type 0) (i : ℕ) (p : Period) (db db' : Db) (es : List Entry)
    → K p
    → IsClosed i p db
    → All (Lands K db db') es
    → filter (in_period i db') es ≡ []
none_landed K i p db db' [] k c h = refl
none_landed K i p db db' (e ∷ es) k c ((t, found, apart), rest) =
    rw (found, apart i p k c) (none_landed K i p db db' es k c rest)

Grows-entries_of_period :
    {K : Period → Type 0} (i : ℕ) (p : Period) (db db' : Db) (es : List Entry)
    → IsOwned db
    → K p
    → IsClosed i p db
    → Grows K db db' es
    → entries_of_period i db' ≡ entries_of_period i db
Grows-entries_of_period {K} i p db db' es owned k c g =
    let (ts, grown) = g.transfers in
    let alike : filter (in_period i db') db.entries ≡ filter (in_period i db) db.entries =
      filter_alike (in_period i db') (in_period i db) db.entries (λ e here.
        let (t, found) = owned e here in
        rw (transfer_found db db' ts grown e.transfer_id t found, found) refl) in
    rw
      (
        g.entries,
        filter-append (in_period i db') db.entries es,
        none_landed K i p db db' es k c g.landed,
        alike,
      )
      (append-nil (entries_of_period i db))

-- a transaction adds rows, or leaves the database as it was
transact-Grows :
    {K : Period → Type 0} (ss : List Statement) (db : Db)
    → ((p : Period) → K p → all (spares p) ss ≡ true)
    → (es : List Entry) × Grows K db (or_rollback db (transact ss db)) es
transact-Grows ss db spared = elim (transact_cases ss db) [
  | inl same ↦ ([], rw same (Grows-refl db))
  | inr (db', done, written, checked) ↦
      (inserted ss, rw done (execute_all-Grows ss db db' spared written))
]

history-Grows :
    {K : Period → Type 0} (txs : List (List Statement)) (db : Db)
    → ((p : Period) → K p → all (all (spares p)) txs ≡ true)
    → (es : List Entry) × Grows K db (history txs db) es
unfolding history
history-Grows [] db spared = ([], Grows-refl db)
history-Grows {K} (ss ∷ rest) db spared =
    let split = λ (p : Period) (k : K p).
      and-true (all (spares p) ss) (all (all (spares p)) rest) (spared p k) in
    let (es, first) = transact-Grows ss db (λ p k. (split p k).0) in
    let (fs, later) = history-Grows rest (or_rollback db (transact ss db)) (λ p k. (split p k).1) in
    (es ++ fs, Grows-trans first later)

-- Whatever statements are sent, in whatever transactions, the transfers and the entries that the
-- ledger held stay what they were, where they were: rows are only added after them.
pub history-appends :
    (txs : List (List Statement)) (db : Db)
    → ((ts : List Transfer) × ((history txs db).transfers ≡ db.transfers ++ ts))
      × ((es : List Entry) × ((history txs db).entries ≡ db.entries ++ es))
history-appends txs db =
    let (es, g) = history-Grows {K = λ _. ⊥} txs db (λ p none_such. absurd none_such) in
    (g.transfers, (es, g.entries))

-- Once a period is closed, statements of which none deletes its row neither change it nor the entries
-- of its transfers, nor add one to them, where the transfer of every entry is there at first.
pub history-closed :
    (txs : List (List Statement)) (db : Db) (i : ℕ) (p : Period)
    → IsOwned db
    → IsClosed i p db
    → all (all (spares p)) txs ≡ true
    → IsClosed i p (history txs db)
      × (entries_of_period i (history txs db) ≡ entries_of_period i db)
history-closed txs db i p owned c spared =
    let (es, g) =
      history-Grows {K = λ (q : Period). q ≡ p} txs db
        (λ q same. rw (ap (λ r. all (all (spares r)) txs) same) spared) in
    (g.closed i p refl c, Grows-entries_of_period i p db (history txs db) es owned refl c g)

balanced_at :
    (s : ℕ) (es : List Entry) (db : Db)
    → any (λ e. e.transfer_id == s) es ≡ true
    → All (λ e. transfer_imbalance e.transfer_id db ≡ pos 0) es
    → transfer_imbalance s db ≡ pos 0
balanced_at s [] db h hs = absurd (cc)
balanced_at s (e ∷ es) db h hs = elim (Bool-cases (e.transfer_id == s)) [
  | inl same ↦ rw (← (==_iff e.transfer_id s).0 same) hs.0
  | inr other ↦ balanced_at s es db (rw other at h) hs.1
]

-- a transfer without a new entry has the sum that it had
imbalance_kept :
    (s : ℕ) (es : List Entry) (db db' : Db)
    → any (λ e. e.transfer_id == s) es ≡ false
    → db'.entries ≡ db.entries ++ es
    → transfer_imbalance s db' ≡ transfer_imbalance s db
unfolding transfer_imbalance
imbalance_kept s es db db' clear grown =
    let own = λ (e : Entry). e.transfer_id == s in
    rw (grown, filter-append own db.entries es, filter-none own es clear)
      (ap (sum_by signed_base_amount) (append-nil (filter own db.entries)))

transact-IsBalanced :
    (ss : List Statement) (db : Db) → IsBalanced db → IsBalanced (or_rollback db (transact ss db))
transact-IsBalanced ss db before = elim (transact_cases ss db) [
  | inl same ↦ rw same before
  | inr (db', done, written, checked) ↦ rw done (λ s.
      elim (Bool-cases (any (λ e. e.transfer_id == s) (inserted ss))) [
        | inl touched ↦
            balanced_at s (inserted ss) db' touched
              (check_balances-balanced (inserted ss) db' checked)
        | inr clear ↦
            imbalance_kept s (inserted ss) db db' clear
              (execute_all-Grows {K = λ _. ⊥} ss db db' (λ p none_such. absurd none_such)
                written).entries
            ∙ before s
      ])
]

-- The deferred trigger and the append-only ones together keep every transfer balanced, whatever
-- statements are sent.
pub history-IsBalanced :
    (txs : List (List Statement)) (db : Db) → IsBalanced db → IsBalanced (history txs db)
unfolding history
history-IsBalanced [] db before = before
history-IsBalanced (ss ∷ rest) db before =
    history-IsBalanced rest (or_rollback db (transact ss db)) (transact-IsBalanced ss db before)
