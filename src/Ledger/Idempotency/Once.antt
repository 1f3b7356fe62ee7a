-- ===== src/Ledger/Idempotency/Once.antt =====
-- Exactly once: what holds of a key after a call that returned, and of every later call with it,
-- whatever other sessions commit in between.
use fund_ledger.Base.{
  ◌⊎◌, ℕ, ◌≡◌, refl, Bool, true, false, Option, none, some, List, [], ◌∷◌, ◌++◌, ◌==◌, find-append,
  find-snoc, find-none, filter-none, any, filter, filter-append, length, arith, Option-cases, inl,
  inr, if◌then◌else◌,
}
use fund_ledger.Base.Result.{
  Result, ok, err, Error, ledger, integrity, not_found, idempotency_conflict,
  transfer_idempotency_key_unique,
}
use fund_ledger.Ledger.Model.{Db, Transfer}
use fund_ledger.Ledger.Idempotency.{
  Others, by_key, replay_or_conflict, replay_if_known, after_create, run_once, as_replay,
}

-- the number of transfers that have a key
abbrev pub holders : ℕ → Db → ℕ
holders key db = length (filter (λ t. t.idempotency_key == key) db.transfers)

-- What `create` must do where it returns: find the key unused, and append one transfer that has
-- it and the fingerprint of the request, and from which a replay reads the same value.
abbrev pub CreatesOne :
    {T : Type 0} → (Transfer → Db → Result T) → ℕ → ℕ → (Db → Result (T × Db)) → Type 0
CreatesOne {T} replay key hash create =
    (db : Db) (value : T) (db' : Db)
    → create db ≡ ok (value, db')
    → (t : Transfer) × (t.idempotency_key ≡ key)
      × (t.request_hash ≡ hash)
      × (db'.transfers ≡ db.transfers ++ (t ∷ []))
      × (any (λ s. s.idempotency_key == key) db.transfers ≡ false)
      × (replay t db' ≡ ok value)

-- the key is bound to a transfer with the fingerprint, from which a replay reads the value
abbrev pub IsBound : {T : Type 0} → (Transfer → Db → Result T) → ℕ → ℕ → T → Db → Type 0
IsBound replay key hash value db =
    (t : Transfer) × (by_key key db ≡ some t) × (t.request_hash ≡ hash) × (replay t db ≡ ok value)

one_holder :
    (key : ℕ) (ts : List Transfer) (t : Transfer)
    → any (λ s. s.idempotency_key == key) ts ≡ false
    → t.idempotency_key ≡ key
    → length (filter (λ t. t.idempotency_key == key) (ts ++ (t ∷ []))) ≡ 1
one_holder key ts t unused own =
    rw
      (
        filter-append (λ (t : Transfer). t.idempotency_key == key) ts (t ∷ []),
        filter-none (λ (t : Transfer). t.idempotency_key == key) ts unused,
      )
      (ground (arith, own))

module _ {T : Type 0} (replay : Transfer → Db → Result T) where
  replay_or_conflict-hash :
      (hash : ℕ) (t : Transfer) (db : Db) (value : T) (c : Bool) (db' : Db)
      → replay_or_conflict hash replay t db ≡ ok ((value, c), db')
      → (t.request_hash ≡ hash) × (db' ≡ db) × (replay t db ≡ ok value)
  unfolding replay_or_conflict
  replay_or_conflict-hash hash t db value c db' h = ground arith

  replay_if_known-IsBound :
      (e : Error) (key hash : ℕ) (db : Db) (value : T) (c : Bool) (db' : Db)
      → replay_if_known e hash replay (by_key key db) db ≡ ok ((value, c), db')
      → IsBound replay key hash value db'
  replay_if_known-IsBound e key hash db value c db' h = elim (Option-cases (by_key key db)) [
    | inl missing ↦ absurd (cc (rw missing at h))
    | inr (t, found) ↦
        let (same, still, again) = replay_or_conflict-hash hash t db value c db' (rw found at h) in
        rw still (t, found, same, again)
  ]

  -- a creation that returns binds the key
  create-IsBound :
      (key hash : ℕ) (create : Db → Result (T × Db))
      → CreatesOne replay key hash create
      → (db : Db) (value : T) (db' : Db) → create db ≡ ok (value, db')
      → IsBound replay key hash value db'
  create-IsBound key hash create one db value db' h =
      let (t, of_key, of_hash, appended, unused, again) = one db value db' h in
      (
        t,
        rw appended (
            find-snoc (λ (t : Transfer). t.idempotency_key == key) db.transfers t
              (find-none (λ (t : Transfer). t.idempotency_key == key) db.transfers unused)
              (ground (arith, of_key))),
        of_hash,
        again,
      )

  after_create-IsBound :
      (key hash : ℕ) (create : Db → Result (T × Db))
      → CreatesOne replay key hash create
      → (db₀ db : Db) (r : Result (T × Db)) → create db₀ ≡ r
      → (value : T) (c : Bool) (db' : Db) → after_create key hash replay db r ≡ ok ((value, c), db')
      → IsBound replay key hash value db'
  unfolding after_create
  after_create-IsBound key hash create one db₀ db (ok (v, d)) e value c db' h =
      let same : d ≡ db' = ground arith in
      let result : v ≡ value = ground arith in
      rw (← same, ← result) (create-IsBound key hash create one db₀ v d e)
  after_create-IsBound key hash create one db₀ db (err (integrity transfer_idempotency_key_unique))
        e value c db' h =
      replay_if_known-IsBound not_found key hash db value c db' h
  after_create-IsBound key hash create one db₀ db (err (ledger l)) e value c db' h =
      replay_if_known-IsBound (ledger l) key hash db value c db' h
  after_create-IsBound key hash create one db₀ db (err _) e value c db' h = absurd (cc)

  -- a call that returned has bound its key, whether it created or replayed
  pub run_once-IsBound :
      (others : Others) (key hash : ℕ) (create : Db → Result (T × Db))
      → CreatesOne replay key hash create
      → (db : Db) (value : T) (c : Bool) (db' : Db)
      → run_once others key hash create replay db ≡ ok ((value, c), db')
      → IsBound replay key hash value db'
  unfolding run_once
  run_once-IsBound others key hash create one db value c db' h =
      elim (Option-cases (by_key key db)) [
        | inl new ↦
            let db₁ = others.before db in
            after_create-IsBound key hash create one db₁ (others.after db₁) (create db₁) refl value
              c db' (rw (new, run_once) at h)
        | inr (t, found) ↦
            let (same, still, again) =
              replay_or_conflict-hash hash t db value c db' (rw (found, run_once) at h) in
            rw still (t, found, same, again)
      ]

  after_create_created :
      (key hash : ℕ) (db : Db) (r : Result (T × Db)) (value : T) (db' : Db)
      → after_create key hash replay db r ≡ ok ((value, true), db')
      → r ≡ ok (value, db')
  unfolding after_create
  after_create_created key hash db (ok (v, d)) value db' h = ground arith
  after_create_created key hash db (err (integrity transfer_idempotency_key_unique)) value db' h =
      absurd (ground arith)
  after_create_created key hash db (err (ledger l)) value db' h = absurd (ground arith)
  after_create_created key hash db (err _) value db' h = absurd (cc)

  pub run_once_created :
      (others : Others) (key hash : ℕ) (create : Db → Result (T × Db)) (db : Db) (value : T)
      (db' : Db)
      → run_once others key hash create replay db ≡ ok ((value, true), db')
      → create (others.before db) ≡ ok (value, db')
  unfolding run_once replay_or_conflict
  run_once_created others key hash create db value db' h = elim (Option-cases (by_key key db)) [
    | inl new ↦
        let db₁ = others.before db in
        after_create_created key hash (others.after db₁) (create db₁) value db'
          (rw (new, run_once) at h)
    | inr (t, found) ↦ absurd (ground (arith, found))
  ]

  -- A call that created has appended one transfer to what it found at the time, and the key has
  -- one holder since.
  pub run_once-creates :
      (others : Others) (key hash : ℕ) (create : Db → Result (T × Db))
      → CreatesOne replay key hash create
      → (db : Db) {value : T} {db' : Db}
      → run_once others key hash create replay db ≡ ok ((value, true), db')
      → (create (others.before db) ≡ ok (value, db')) × (holders key db' ≡ 1)
  unfolding run_once after_create
  run_once-creates others key hash create one db {value} {db'} h =
      let made = run_once_created others key hash create db value db' h in
      let (t, of_key, of_hash, appended, unused, again) = one (others.before db) value db' made in
      (made, rw appended (one_holder key (others.before db).transfers t unused of_key))

  replay_if_known-unchanged :
      (e : Error) (hash : ℕ) (o : Option Transfer) (db : Db) (value : T) (c : Bool) (db' : Db)
      → replay_if_known e hash replay o db ≡ ok ((value, c), db')
      → db' ≡ db
  replay_if_known-unchanged e hash none db value c db' h = absurd (cc)
  replay_if_known-unchanged e hash (some t) db value c db' h =
      (replay_or_conflict-hash hash t db value c db' h).1

  after_create-unchanged :
      (key hash : ℕ) (db : Db) (r : Result (T × Db)) (value : T) (db' : Db)
      → after_create key hash replay db r ≡ ok ((value, false), db')
      → db' ≡ db
  unfolding after_create
  after_create-unchanged key hash db (ok (v, d)) value db' h = absurd (ground arith)
  after_create-unchanged key hash db (err (integrity transfer_idempotency_key_unique)) value db' h =
      replay_if_known-unchanged not_found hash (by_key key db) db value false db' h
  after_create-unchanged key hash db (err (ledger l)) value db' h =
      replay_if_known-unchanged (ledger l) hash (by_key key db) db value false db' h
  after_create-unchanged key hash db (err _) value db' h = absurd (cc)

  -- A call that replayed has written nothing: the database is the one that it was given, or the
  -- one that the other sessions had left.
  pub run_once-replays :
      (others : Others) (key hash : ℕ) (create : Db → Result (T × Db)) (db : Db) {value : T}
      {db' : Db}
      → run_once others key hash create replay db ≡ ok ((value, false), db')
      → (db' ≡ db) ⊎ (db' ≡ others.after (others.before db))
  unfolding run_once after_create
  run_once-replays others key hash create db {value} {db'} h = elim (Option-cases (by_key key db)) [
    | inl new ↦
        let db₁ = others.before db in
        inr (
          after_create-unchanged key hash (others.after db₁) (create db₁) value db'
            (rw (new, run_once) at h))
    | inr (t, found) ↦
        inl (replay_or_conflict-hash hash t db value false db' (rw (found, run_once) at h)).1
  ]

  -- After a call that returned, every later call with the key and the same request replays the
  -- transfer that holds the key, and one with another request is a conflict: neither creates.
  pub run_once_again :
      (others : Others) (key hash : ℕ) (create : Db → Result (T × Db))
      → CreatesOne replay key hash create
      → (db : Db) {value : T} {c : Bool} {db' : Db}
      → run_once others key hash create replay db ≡ ok ((value, c), db')
      → (others' : Others) (hash' : ℕ) (create' : Db → Result (T × Db)) (later : Db)
        (ts : List Transfer)
      → later.transfers ≡ db'.transfers ++ ts
      → (t : Transfer) × (by_key key db' ≡ some t)
        × (replay t db' ≡ ok value)
        × (run_once others' key hash' create' replay later ≡ (
            if hash == hash'
            then as_replay (replay t later) later
            else err (ledger idempotency_conflict)))
  unfolding run_once replay_or_conflict
  run_once_again others key hash create one db {value} {c} {db'} h others' hash' create' later ts
        grown =
      let (t, bound, same, again) = run_once-IsBound others key hash create one db value c db' h in
      let kept : by_key key later ≡ some t =
        rw grown
          (find-append (λ (t : Transfer). t.idempotency_key == key) db'.transfers ts t bound) in
      (t, bound, again, rw (kept, run_once, same) refl)
