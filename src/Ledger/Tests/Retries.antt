-- ===== src/Ledger/Tests/Retries.antt =====
-- Retries and reversals at the small database.
use fund_ledger.Base.{
  ◌≢◌, ℕ, ◌≡◌, refl, true, false, none, some, [], ◌∷◌, ◌++◌, ◌+◌, ◌*◌, ◌==◌, filter, arith,
  if◌then◌else◌, leb,
}
use fund_ledger.Base.Int.{◌+ℤ◌, ◌-ℤ◌, neg}
use fund_ledger.Base.Result.{ok, err, ledger, idempotency_conflict, already_reversed}
use fund_ledger.Ledger.Decimal.{units, quantize}
use fund_ledger.Ledger.Model.{
  Db, Transfer, TransferType, Description, Entry, credit, signed_amount, signed_base_amount,
}
use fund_ledger.Ledger.Queries.{native_balance, base_balance}
use fund_ledger.Ledger.Validate.{validate_legs}
use fund_ledger.Ledger.Pricing.{price_legs}
use fund_ledger.Ledger.Insert.{insert_transfer, insert_entries, check_balances, transfer_imbalance}
use fund_ledger.Ledger.Post.{post_transfer}
use fund_ledger.Ledger.Idempotency.{
  Hashing, Payload, for_transfer, for_reversal, alone, by_key, run_once, as_replay,
}
use fund_ledger.Ledger.Idempotency.Once.{run_once_again}
use fund_ledger.Ledger.Submit.{Submission, post_transfer_idempotent, transfer_hash}
use fund_ledger.Ledger.Submit.Retry.{
  itself, post_transfer-CreatesOne, post_transfer_idempotent_again,
}
use fund_ledger.Ledger.Reverse.{reverse_transfer}
use fund_ledger.Ledger.Reverse.Cancels.{on_account, reverse_transfer-cancels}
use fund_ledger.Ledger.Reverse.Single.{reverse_transfer_once}
use fund_ledger.Ledger.Retry.{
  Attempt, returned, operational, deadlock_detected, with_deadlock_retry,
}
use fund_ledger.Ledger.Retry.First.{IsFirst, with_deadlock_retry-IsFirst}
use fund_ledger.Ledger.Tests.{year, world, paid, paying_in, row_in, cash, equity, line}

-- a fingerprint that tells the period and the kind of payload
abbrev mark : Payload → ℕ
mark (for_transfer kind period legs) = 77
mark (for_reversal t period) = 2 * t + period
mark _ = 0

abbrev hashing : Hashing
hashing = record { fingerprint = mark; money_le = leb }

abbrev submitted : Submission
submitted = record {
  idempotency_key = 21;
  legs = paying_in.legs;
  period = year;
  transfer_type = TransferType.adjustment;
  description = Description.text 0;
  created_by = 3;
  fx_date = none;
}

once : run_once alone 21 77 (post_transfer paying_in) itself world ≡ ok ((row_in, true), paid)
unfolding run_once post_transfer validate_legs quantize price_legs insert_transfer insert_entries
    check_balances transfer_imbalance native_balance units ◌+ℤ◌ ◌-ℤ◌ neg
once = refl

twice : run_once alone 21 77 (post_transfer paying_in) itself paid ≡ ok ((row_in, false), paid)
unfolding run_once
twice = refl

run_once_again_example :
    (t : Transfer) × (by_key 21 paid ≡ some t)
    × (itself t paid ≡ ok row_in)
    × (run_once alone 21 78 (post_transfer paying_in) itself paid
        ≡ (if 77 == 78 then as_replay (itself t paid) paid else err (ledger idempotency_conflict)))
run_once_again_example =
    run_once_again itself alone 21 77 (post_transfer paying_in) (post_transfer-CreatesOne paying_in)
      world once alone 78 (post_transfer paying_in) paid [] refl

submitting : post_transfer_idempotent hashing alone submitted world ≡ ok ((row_in, true), paid)
unfolding post_transfer_idempotent run_once post_transfer validate_legs quantize price_legs
    insert_transfer insert_entries check_balances transfer_imbalance native_balance units ◌+ℤ◌ ◌-ℤ◌
    neg
submitting = refl

valid : validate_legs submitted.legs ≡ ok tt
unfolding validate_legs quantize
valid = refl

post_transfer_idempotent_again_example : post_transfer_idempotent hashing alone submitted paid ≡ (
    if transfer_hash hashing submitted == transfer_hash hashing submitted
    then ok ((row_in, false), paid)
    else err (ledger idempotency_conflict))
post_transfer_idempotent_again_example =
    post_transfer_idempotent_again hashing alone submitted world submitting alone submitted paid []
      refl valid refl

abbrev undo_row : Transfer
undo_row = record {
  id = 1003;
  idempotency_key = 31;
  request_hash = 2005;
  transfer_type = TransferType.reversal;
  reverses = some 1000;
  period_id = 5;
  description = Description.reversal_of 1000;
  created_by = 4;
  created_at = 7;
}

abbrev undone : Db
undone = record paid {
  transfers = row_in ∷ undo_row ∷ [];
  entries =
      paid.entries
      ++ (record (line 1004 1003 cash 1000000) { direction = credit }
          ∷ line 1005 1003 equity 1000000
          ∷ []);
  drawn = 6;
}

undoing : reverse_transfer hashing alone 1000 31 year 4 paid ≡ ok ((undo_row, true), undone)
unfolding reverse_transfer run_once post_transfer validate_legs quantize price_legs insert_transfer
    insert_entries check_balances transfer_imbalance native_balance units ◌+ℤ◌ ◌-ℤ◌ neg
undoing = refl

reverse_transfer-cancels_example :
    let originals = filter (λ (e : Entry). e.transfer_id == 1000) paid.entries in
    (native_balance 10 none undone +ℤ on_account signed_amount 10 originals
      ≡ native_balance 10 none paid)
    × (base_balance 10 none undone +ℤ on_account signed_base_amount 10 originals
        ≡ base_balance 10 none paid)
reverse_transfer-cancels_example =
    reverse_transfer-cancels hashing alone 1000 31 year 4 paid undoing 10

other_key : ◌≢◌ {A = ℕ} 32 31
other_key = omega arith

reverse_transfer_once_example :
    reverse_transfer hashing alone 1000 32 year 4 undone ≡ err (ledger already_reversed)
reverse_transfer_once_example =
    reverse_transfer_once hashing alone 1000 31 year 4 paid [] refl undoing alone 32 year 4 undone
      [] refl other_key

-- a deadlock, and then a value
abbrev second_time : ℕ → Attempt ℕ
second_time n = if n == 1 then operational deadlock_detected else returned n

succeeds : with_deadlock_retry second_time false 3 ≡ returned 2
unfolding with_deadlock_retry
succeeds = refl

with_deadlock_retry-IsFirst_example :
    IsFirst second_time false 1 3 (with_deadlock_retry second_time false 3)
with_deadlock_retry-IsFirst_example = with_deadlock_retry-IsFirst second_time false 3 (omega arith)
