-- ===== src/Ledger/Submit.antt =====
-- `post_transfer_idempotent` of ledger/services.py.
pub mod Retry
use fund_ledger.Base.{
  ℕ, Bool, true, false, Option, none, some, List, map, sort_by, ltb, leb, ◌==◌, ◌||◌, ◌&&◌,
  if◌then◌else◌,
}
use fund_ledger.Base.Result.{Result, ok, ◌>>◌}
use fund_ledger.Ledger.Decimal.{units}
use fund_ledger.Ledger.Model.{
  Db, Direction, debit, credit, unrecognised, Period, Transfer, TransferType, Description, Leg,
}
use fund_ledger.Ledger.Validate.{validate_legs}
use fund_ledger.Ledger.Post.{Posting, post_transfer}
use fund_ledger.Ledger.Idempotency.{Hashing, LegText, Payload, for_transfer, Others, run_once}

-- the order of the texts CREDIT and DEBIT; no other text passes validation
abbrev pub direction_rank : Direction → ℕ
direction_rank credit = 0
direction_rank debit = 1
direction_rank unrecognised = 2

-- the order of lists of three texts: id, direction, amount
abbrev pub text_le : Hashing → LegText → LegText → Bool
text_le x a b =
    if ltb a.account_id b.account_id
    then true
    else if ltb b.account_id a.account_id
    then false
    else if ltb (direction_rank a.direction) (direction_rank b.direction)
    then true
    else if ltb (direction_rank b.direction) (direction_rank a.direction)
    then false
    else x.money_le a.money b.money

abbrev pub leg_text : Leg → LegText
leg_text l = record { account_id = l.account_id; direction = l.direction; money = units l.amount }

-- the keyword arguments of `post_transfer_idempotent`
pub record Submission : Type 0 where
  pub idempotency_key : ℕ
  pub legs : List Leg
  pub period : Period
  pub transfer_type : TransferType
  pub description : Description
  pub created_by : ℕ
  pub fx_date : Option ℕ

unfoldable pub transfer_hash : Hashing → Submission → ℕ
transfer_hash x s =
    x.fingerprint
      (for_transfer s.transfer_type s.period.id (sort_by (text_le x) (map leg_text s.legs)))

abbrev pub posting_of : Submission → ℕ → Posting
posting_of s hash = record {
  idempotency_key = s.idempotency_key;
  legs = s.legs;
  period = s.period;
  transfer_type = s.transfer_type;
  description = s.description;
  reverses = none;
  request_hash = hash;
  created_by = s.created_by;
  fx_date = s.fx_date;
}

unfoldable pub post_transfer_idempotent :
    Hashing → Others → Submission → Db → Result ((Transfer × Bool) × Db)
unfolding transfer_hash
post_transfer_idempotent x others s db =
    let hash = transfer_hash x s in
    validate_legs s.legs
    >> run_once others s.idempotency_key hash (post_transfer (posting_of s hash)) (λ t _. ok t) db
