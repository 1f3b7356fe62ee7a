-- ===== src/Ledger/Guards/Inserts.antt =====
-- What the inserts of transfers and entries do to the three tables.
use mathlib.Core.List.{append-nil}
use fund_ledger.Base.{
  ℕ, ◌≡◌, refl, sym, subst, true, false, some, List, [], ◌∷◌, ◌==◌, ==_iff, arith, map_or,
  Bool-cases, Option-cases, inl, inr,
}
use fund_ledger.Base.Result.{ok, >>=-returns}
use fund_ledger.Ledger.Model.{Db, Transfer, Entry, Period, is_open}
use fund_ledger.Ledger.Queries.{transfer_by_id}
use fund_ledger.Ledger.Insert.{
  insert_transfer, insert_entry, insert_entries, in_open_period, period_by_id,
}
use fund_ledger.Ledger.Insert.Effect.{insert_transfer-TransferInserted, insert_entry-EntryInserted}
use fund_ledger.Ledger.Guards.Grows.{IsClosed, Grows, Grows-refl, Grows-trans}

-- an open period is none that is closed
open_apart :
    (e : Entry) (db : Db)
    → in_open_period e db ≡ true
    → (t : Transfer) × (transfer_by_id e.transfer_id db ≡ some t)
      × ((i : ℕ) (p : Period) → IsClosed i p db → (t.period_id == i) ≡ false)
open_apart e db h = elim (Option-cases (transfer_by_id e.transfer_id db)) [
  | inl missing ↦ absurd (cc (rw missing at h))
  | inr (t, found) ↦
      let live : map_or (period_by_id t.period_id db) false (λ p. is_open p.status) ≡ true =
        rw found at h in
      (
        t,
        found,
        λ i p c. elim (Bool-cases (t.period_id == i)) [
          | inr other ↦ other
          | inl same ↦
              let shut : map_or (period_by_id i db) false (λ p. is_open p.status) ≡ false =
                rw c.0 c.1 in
              absurd (cc (rw ((==_iff t.period_id i).0 same, shut) at live))
        ],
      )
]

insert_entry-Grows :
    {K : Period → Type 0} (e : Entry) (db db' : Db)
    → insert_entry e db ≡ ok db'
    → Grows K db db' (e ∷ [])
insert_entry-Grows {K} e db db' h =
    let w = insert_entry-EntryInserted e db db' h in
    subst (λ (x : Db). Grows K db x (e ∷ [])) (sym w.effect)
      (record {
        entries = refl;
        transfers = ([], sym (append-nil db.transfers));
        closed = λ i p k c. c;
        landed = (
          let (t, found, apart) = open_apart e db w.in_open in (t, found, λ i p k c. apart i p c),
          tt,
        );
      })

pub insert_entries-Grows :
    {K : Period → Type 0} (es : List Entry) (db db' : Db)
    → insert_entries es db ≡ ok db'
    → Grows K db db' es
unfolding insert_entries
insert_entries-Grows {K} [] db db' h =
    let same : db ≡ db' = ground (arith, h) in
    subst (λ (x : Db). Grows K db x []) same (Grows-refl db)
insert_entries-Grows {K} (e ∷ es) db db' h =
    let (mid, first, rest) = >>=-returns (insert_entry e db) (insert_entries es) h in
    Grows-trans (insert_entry-Grows e db mid first) (insert_entries-Grows es mid db' rest)

pub insert_transfer-Grows :
    {K : Period → Type 0} (t : Transfer) (db db' : Db)
    → insert_transfer t db ≡ ok db'
    → Grows K db db' []
insert_transfer-Grows {K} t db db' h =
    subst (λ (x : Db). Grows K db x []) (sym (insert_transfer-TransferInserted t db db' h).effect)
      (record {
        entries = sym (append-nil db.entries);
        transfers = (t ∷ [], refl);
        closed = λ i p k c. c;
        landed = tt;
      })
