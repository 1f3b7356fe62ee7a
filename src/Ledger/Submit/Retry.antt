-- ===== src/Ledger/Submit/Retry.antt =====
-- A submitted transfer is posted once: a retry returns it, and another request under its key is
-- refused.
use fund_ledger.Base.{
  ℕ, ◌≡◌, refl, subst, sym, ap, ◌∙◌, Bool, false, List, ◌++◌, ◌==◌, arith, if◌then◌else◌,
}
use fund_ledger.Base.Result.{Result, ok, err, ledger, idempotency_conflict, >>=-returns}
use fund_ledger.Ledger.Model.{Db, Transfer}
use fund_ledger.Ledger.Validate.{validate_legs}
use fund_ledger.Ledger.Post.{Posting, post_transfer}
use fund_ledger.Ledger.Post.Rows.{post_transfer-appends, post_transfer-key_fresh}
use fund_ledger.Ledger.Idempotency.{Hashing, Others, run_once}
use fund_ledger.Ledger.Idempotency.Once.{CreatesOne, run_once_again}
use fund_ledger.Ledger.Submit.{Submission, transfer_hash, posting_of, post_transfer_idempotent}

-- a transfer is its own replay
abbrev pub itself : Transfer → Db → Result Transfer
itself t db = ok t

pub post_transfer-CreatesOne :
    (q : Posting) → CreatesOne itself q.idempotency_key q.request_hash (post_transfer q)
post_transfer-CreatesOne q db t db' h =
    let (es, effect, row, _) = post_transfer-appends q db h in
    (
      t,
      ap (λ (s : Transfer). s.idempotency_key) row,
      ap (λ (s : Transfer). s.request_hash) row,
      ap (λ (d : Db). d.transfers) effect,
      post_transfer-key_fresh q db h,
      refl,
    )

-- After a submission that returned `t`, one under the same key that passes validation returns `t`
-- and writes nothing if its fingerprint is the same, and is a conflict if not: however the two
-- calls meet other sessions, as long as no transfer is lost in between.
pub post_transfer_idempotent_again :
    (x : Hashing) (others : Others) (s : Submission) (db : Db) {t : Transfer} {c : Bool} {db' : Db}
    → post_transfer_idempotent x others s db ≡ ok ((t, c), db')
    → (others' : Others) (s' : Submission) (later : Db) (ts : List Transfer)
    → s'.idempotency_key ≡ s.idempotency_key
    → validate_legs s'.legs ≡ ok tt
    → later.transfers ≡ db'.transfers ++ ts
    → post_transfer_idempotent x others' s' later ≡ (
        if transfer_hash x s == transfer_hash x s'
        then ok ((t, false), later)
        else err (ledger idempotency_conflict))
unfolding post_transfer_idempotent
post_transfer_idempotent_again x others s db {t} {c} {db'} h others' s' later ts key valid grown =
    let hash = transfer_hash x s in
    let hash' = transfer_hash x s' in
    let (_, _, ran) = >>=-returns (validate_legs s.legs) _ h in
    let (u, bound, same, again) =
      run_once_again itself others s.idempotency_key hash (post_transfer (posting_of s hash))
        (post_transfer-CreatesOne (posting_of s hash)) db ran others' hash'
        (post_transfer (posting_of s' hash')) later ts grown in
    let whole : Result ((Transfer × Bool) × Db) =
      if hash == hash' then ok ((t, false), later) else err (ledger idempotency_conflict) in
    let settled : run_once others' s.idempotency_key hash' (post_transfer (posting_of s' hash'))
          itself later
        ≡ whole =
      again ∙ ground (arith, same) in
    rw valid (
      subst
        (λ (k : ℕ).
          run_once others' k hash' (post_transfer (posting_of s' hash')) itself later ≡ whole)
        (sym key) settled)
