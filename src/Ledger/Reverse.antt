-- ===== src/Ledger/Reverse.antt =====
-- `reverse_transfer` of ledger/services.py: a new transfer that cancels an old one.
pub mod Cancels
pub mod Single
use fund_ledger.Base.{
  ℕ, Bool, true, false, not, Option, none, some, List, map, sort_by, leb, ◌==◌, ◌&&◌, if◌then◌else◌,
  filter, find, map_or,
}
use fund_ledger.Base.Int.{pos}
use fund_ledger.Base.Result.{
  Result, ok, err, ledger, integrity, not_found, invalid_transfer, already_reversed,
  transfer_reverses_unique, ◌>>=◌, ◌>>◌, raise_if,
}
use fund_ledger.Ledger.Decimal.{finite}
use fund_ledger.Ledger.Model.{
  Db, Direction, debit, credit, unrecognised, Entry, Leg, Period, Transfer, TransferType,
  Description, is_debit, is_reversal,
}
use fund_ledger.Ledger.Queries.{transfer_by_id}
use fund_ledger.Ledger.Insert.{refers}
use fund_ledger.Ledger.Post.{Posting, post_transfer}
use fund_ledger.Ledger.Idempotency.{Hashing, for_reversal, Others, run_once}

-- `_flip`
abbrev pub flip : Direction → Direction
flip d = if is_debit d then credit else debit

-- the leg that cancels an entry, at the rate and the base amount of that entry
abbrev pub flipped : Entry → Leg
flipped e = record {
  account_id = e.account_id;
  direction = flip e.direction;
  amount = finite (pos e.amount) 4;
  fx_rate = e.fx_rate;
  base_amount = some e.base_amount;
}

-- `original.entries.order_by("id")`
abbrev pub entries_by_id : ℕ → Db → List Entry
entries_by_id t db = sort_by (λ e f. leb e.id f.id) (filter (λ e. e.transfer_id == t) db.entries)

-- `original.reversals.first()`
abbrev pub reversal_of_transfer : ℕ → Db → Option Transfer
reversal_of_transfer t db = find (λ s. refers t s.reverses) db.transfers

abbrev pub reversal_posting : Hashing → ℕ → ℕ → Period → ℕ → Db → Posting
reversal_posting x t key period created_by db = record {
  idempotency_key = key;
  legs = map flipped (entries_by_id t db);
  period = period;
  transfer_type = TransferType.reversal;
  description = Description.reversal_of t;
  reverses = some t;
  request_hash = x.fingerprint (for_reversal t period.id);
  created_by = created_by;
  fx_date = none;
}

-- the handler of IntegrityError: a reversal under another key won the race
abbrev pub lost_race : Result ((Transfer × Bool) × Db) → Result ((Transfer × Bool) × Db)
lost_race (err (integrity transfer_reverses_unique)) = err (ledger already_reversed)
lost_race r = r

abbrev pub found_or : Option Transfer → Result Transfer
found_or none = err not_found
found_or (some t) = ok t

unfoldable pub reverse_transfer :
    Hashing → Others → ℕ → ℕ → Period → ℕ → Db → Result ((Transfer × Bool) × Db)
reverse_transfer x others t key period created_by db = do
  original ← found_or (transfer_by_id t db)
  raise_if (is_reversal original.transfer_type) (ledger invalid_transfer)
  raise_if
      (map_or (reversal_of_transfer original.id db) false (λ s. not (s.idempotency_key == key)))
      (ledger already_reversed)
  lost_race (
      run_once others key (x.fingerprint (for_reversal original.id period.id))
        (post_transfer (reversal_posting x original.id key period created_by db)) (λ s _. ok s) db)
