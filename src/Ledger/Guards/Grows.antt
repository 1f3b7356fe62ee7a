-- ===== src/Ledger/Guards/Grows.antt =====
-- What the statements that the triggers let through can do to the three tables.
use mathlib.Core.List.{append-nil}
use fund_ledger.Base.{
  ℕ, ◌≡◌, refl, sym, ap, Bool, true, false, not, ◌&&◌, some, List, [], ◌∷◌, ◌++◌, ◌==◌, arith,
  find-append, any, All, All-map,
}
use fund_ledger.Ledger.Model.{Db, Transfer, Entry, Period, is_open}
use fund_ledger.Ledger.Queries.{transfer_by_id}
use fund_ledger.Ledger.Insert.{period_by_id}
use fund_ledger.Ledger.Guards.{updated, remaining, Statement, delete_period_rows}

-- the row of a period that is closed
abbrev pub IsClosed : ℕ → Period → Db → Type 0
IsClosed i p db = (period_by_id i db ≡ some p) × (is_open p.status ≡ false)

-- a statement that deletes no row that is this one
abbrev pub spares : Period → Statement → Bool
spares p (delete_period_rows touched) = not (touched p)
spares p _ = true

-- an entry of a transfer of `db'`, in no period of a kind that was closed in `db`
abbrev pub Lands : (Period → Type 0) → Db → Db → Entry → Type 0
Lands K db db' e =
    (t : Transfer) × (transfer_by_id e.transfer_id db' ≡ some t)
    × ((i : ℕ) (p : Period) → K p → IsClosed i p db → (t.period_id == i) ≡ false)

-- transfers and entries are only added, and of the periods of a kind what is closed stays as it is
pub record Grows (K : Period → Type 0) (db db' : Db) (es : List Entry) : Type 0 where
  pub entries : db'.entries ≡ db.entries ++ es
  pub transfers : (ts : List Transfer) × (db'.transfers ≡ db.transfers ++ ts)
  pub closed : (i : ℕ) (p : Period) → K p → IsClosed i p db → IsClosed i p db'
  pub landed : All (Lands K db db') es

module _ {A : Type 0} where
  append_assoc : (xs ys zs : List A) → (xs ++ ys) ++ zs ≡ xs ++ (ys ++ zs)
  append_assoc [] ys zs = refl
  append_assoc (x ∷ xs) ys zs = ap (◌∷◌ x) (append_assoc xs ys zs)

  All-append : (P : A → Type 0) (xs ys : List A) → All P xs → All P ys → All P (xs ++ ys)
  All-append P [] ys hx hy = hy
  All-append P (x ∷ xs) ys hx hy = (hx.0, All-append P xs ys hx.1 hy)

  -- a statement that touches no row changes none
  pub updated_none :
      (touched : A → Bool) (set : A → A) (xs : List A)
      → any touched xs ≡ false
      → updated touched set xs ≡ xs
  updated_none touched set [] h = refl
  updated_none touched set (x ∷ xs) h = ground (arith, updated_none touched set xs)

  pub remaining_none :
      (touched : A → Bool) (xs : List A) → any touched xs ≡ false → remaining touched xs ≡ xs
  remaining_none touched [] h = refl
  remaining_none touched (x ∷ xs) h = ground (arith, remaining_none touched xs)

pub not-true : (b : Bool) → not b ≡ true → b ≡ false
not-true b h = ground (arith)

pub and-true : (a b : Bool) → (a && b) ≡ true → (a ≡ true) × (b ≡ true)
and-true a b h = (ground (arith), ground (arith))

pub Grows-refl : {K : Period → Type 0} (db : Db) → Grows K db db []
Grows-refl db = record {
  entries = sym (append-nil db.entries);
  transfers = ([], sym (append-nil db.transfers));
  closed = λ i p k h. h;
  landed = tt;
}

pub transfer_found :
    (db db' : Db) (ts : List Transfer)
    → db'.transfers ≡ db.transfers ++ ts
    → (i : ℕ) (t : Transfer) → transfer_by_id i db ≡ some t
    → transfer_by_id i db' ≡ some t
transfer_found db db' ts grown i t h =
    rw grown (find-append (λ (s : Transfer). s.id == i) db.transfers ts t h)

pub Grows-trans :
    {K : Period → Type 0} {db₀ db₁ db₂ : Db} {es fs : List Entry}
    → Grows K db₀ db₁ es
    → Grows K db₁ db₂ fs
    → Grows K db₀ db₂ (es ++ fs)
Grows-trans {K} {db₀} {db₁} {db₂} {es} {fs} g h =
    let (ts, first) = g.transfers in
    let (us, second) = h.transfers in
    record {
      entries = rw (h.entries, g.entries) (append_assoc db₀.entries es fs);
      transfers = (ts ++ us, rw (second, first) (append_assoc db₀.transfers ts us));
      closed = λ i p k c. h.closed i p k (g.closed i p k c);
      landed =
          All-append (Lands K db₀ db₂) es fs
            (All-map (Lands K db₀ db₁)
              (λ e (t, found, apart).
                (t, transfer_found db₁ db₂ us second e.transfer_id t found, apart))
              es g.landed)
            (All-map (Lands K db₁ db₂)
              (λ e (t, found, apart). (t, found, λ i p k c. apart i p k (g.closed i p k c))) fs
              h.landed);
    }
