-- ===== src/Ledger/Idempotency.antt =====
-- ledger/idempotency.py: anything that creates a transfer runs at most once for each key.
pub mod Once
use fund_ledger.Base.{ℕ, Bool, true, false, Option, none, some, List, ◌==◌, if◌then◌else◌, find}
use fund_ledger.Base.Int.{ℤ}
use fund_ledger.Base.Result.{
  Result, ok, err, Error, LedgerError, Constraint, ledger, integrity, not_found,
  idempotency_conflict, transfer_idempotency_key_unique,
}
use fund_ledger.Ledger.Model.{Db, Transfer, TransferType, Direction, Classification}

-- `money_str`, for an amount that is counted in units: the text with four decimals. The model keeps
-- the units, and an order of their texts.
pub record LegText : Type 0 where
  pub account_id : ℕ
  pub direction : Direction
  pub money : ℕ

-- What is fingerprinted: the keyword arguments of `request_fingerprint`.
pub data Payload : Type 0 where
  for_transfer : TransferType → ℕ → List LegText → Payload
  for_reversal : ℕ → ℕ → Payload
  for_capital_call : ℕ → ℤ → ℕ → ℕ → Payload
  for_distribution : ℕ → ℤ → ℕ → Classification → Payload

-- SHA-256 of the canonical JSON, and the order of the texts of amounts.
pub record Hashing : Type 0 where
  pub fingerprint : Payload → ℕ
  pub money_le : ℕ → ℕ → Bool

-- What other sessions commit while a request runs: between the look-up of the key and the creation,
-- and between a failed creation and the next look-up.
pub record Others : Type 0 where
  pub before : Db → Db
  pub after : Db → Db

-- a request that meets no other
abbrev pub alone : Others
alone = record { before = λ db. db; after = λ db. db }

abbrev pub by_key : ℕ → Db → Option Transfer
by_key key db = find (λ t. t.idempotency_key == key) db.transfers

-- the label of the metric and of the log line
pub data Outcome : Type 0 where
  created replayed rejected error : Outcome

module _ {T : Type 0} where
  -- what a replay returns
  abbrev pub as_replay : Result T → Db → Result ((T × Bool) × Db)
  as_replay (err e) db = err e
  as_replay (ok value) db = ok ((value, false), db)

  -- a known key: the stored request must be the same one
  unfoldable pub replay_or_conflict :
      ℕ → (Transfer → Db → Result T) → Transfer → Db → Result ((T × Bool) × Db)
  replay_or_conflict hash replay t db =
      if t.request_hash == hash
      then as_replay (replay t db) db
      else err (ledger idempotency_conflict)

  -- `existing` is None again, and the error `e` is raised
  abbrev pub replay_if_known :
      Error → ℕ → (Transfer → Db → Result T) → Option Transfer → Db → Result ((T × Bool) × Db)
  replay_if_known e hash replay none db = err e
  replay_if_known e hash replay (some t) db = replay_or_conflict hash replay t db

  -- the handlers of `_run_once`, on what the creation returned or raised
  unfoldable pub after_create :
      ℕ → ℕ → (Transfer → Db → Result T) → Db → Result (T × Db) → Result ((T × Bool) × Db)
  unfolding replay_or_conflict
  after_create key hash replay db (ok (value, db')) = ok ((value, true), db')
  after_create key hash replay db (err (integrity transfer_idempotency_key_unique)) =
      replay_if_known not_found hash replay (by_key key db) db
  after_create key hash replay db (err (ledger e)) =
      replay_if_known (ledger e) hash replay (by_key key db) db
  after_create key hash replay db (err e) = err e

  -- `_run_once`
  unfoldable pub run_once :
      Others
      → ℕ
      → ℕ
      → (Db → Result (T × Db))
      → (Transfer → Db → Result T)
      → Db
      → Result ((T × Bool) × Db)
  unfolding after_create
  run_once others key hash create replay db = elim (by_key key db) [
    | some t ↦ replay_or_conflict hash replay t db
    | none ↦
        let db₁ = others.before db in after_create key hash replay (others.after db₁) (create db₁)
  ]

  abbrev pub outcome : Result ((T × Bool) × Db) → Outcome
  outcome (ok ((value, true), db)) = created
  outcome (ok ((value, false), db)) = replayed
  outcome (err (ledger e)) = rejected
  outcome (err e) = error
