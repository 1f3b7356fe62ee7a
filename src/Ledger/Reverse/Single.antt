-- ===== src/Ledger/Reverse/Single.antt =====
-- A transfer is reversed once.
use fund_ledger.Base.{
  ℕ, ◌≡◌, ◌≢◌, refl, ap, true, false, some, List, [], ◌∷◌, ◌++◌, ◌==◌, find, arith, ==_iff, ==_refl,
  find-holds, find-append, find-snoc, find-none,
}
use fund_ledger.Base.Result.{ok, err, ledger, already_reversed}
use fund_ledger.Ledger.Model.{Db, Transfer, Period, is_reversal}
use fund_ledger.Ledger.Queries.{transfer_by_id}
use fund_ledger.Ledger.Insert.{refers}
use fund_ledger.Ledger.Post.Rows.{post_transfer-appends, post_transfer-not_reversed}
use fund_ledger.Ledger.Idempotency.{Hashing, Others}
use fund_ledger.Ledger.Reverse.{reverse_transfer, reversal_posting, reversal_of_transfer}
use fund_ledger.Ledger.Reverse.Cancels.{reverse_transfer-Reversed}

-- what the later call sees: the original, and the reversal under another key
refused :
    (x : Hashing) (others : Others) (t key : ℕ) (period : Period) (who : ℕ) (later : Db)
    (original s : Transfer)
    → transfer_by_id t later ≡ some original
    → is_reversal original.transfer_type ≡ false
    → original.id ≡ t
    → reversal_of_transfer t later ≡ some s
    → (s.idempotency_key == key) ≡ false
    → reverse_transfer x others t key period who later ≡ err (ledger already_reversed)
unfolding reverse_transfer
refused x others t key period who later original s found reversible same reversed other =
    rw (found, reversible, same, reversed, other) refl

-- Once a reversal is created, a call under any other key is refused as already reversed, while the
-- transfers of the two databases are kept.
pub reverse_transfer_once :
    (x : Hashing) (others : Others) (t key : ℕ) (period : Period) (who : ℕ) (db : Db)
    (us : List Transfer)
    → (others.before db).transfers ≡ db.transfers ++ us
    → {s : Transfer} {db' : Db}
    → reverse_transfer x others t key period who db ≡ ok ((s, true), db')
    → (others' : Others) (key' : ℕ) (period' : Period) (who' : ℕ) (later : Db) (ts : List Transfer)
    → later.transfers ≡ db'.transfers ++ ts
    → key' ≢ key
    → reverse_transfer x others' t key' period' who' later ≡ err (ledger already_reversed)
reverse_transfer_once x others t key period who db us kept {s} {db'} h others' key' period' who'
      later ts grown other =
    let r = reverse_transfer-Reversed x others t key period who db s db' h in
    let q = reversal_posting x t key period who db in
    let mid = others.before db in
    let (fs, effect, row, _) = post_transfer-appends q mid r.posted in
    let fresh = post_transfer-not_reversed q mid r.posted in
    let test = λ (s : Transfer). refers t s.reverses in
    let transfers : db'.transfers ≡ mid.transfers ++ (s ∷ []) =
      ap (λ (d : Db). d.transfers) effect in
    let of_t : s.reverses ≡ some t = ap (λ (s : Transfer). s.reverses) row in
    let of_key : s.idempotency_key ≡ key = ap (λ (s : Transfer). s.idempotency_key) row in
    let first : find test (mid.transfers ++ (s ∷ [])) ≡ some s =
      find-snoc test mid.transfers s (find-none test mid.transfers fresh)
        (ground (arith, of_t, ==_refl t)) in
    let reversed : reversal_of_transfer t later ≡ some s =
      rw (grown, transfers) (find-append test (mid.transfers ++ (s ∷ [])) ts s first) in
    let named = λ (s : Transfer). s.id == t in
    let found : transfer_by_id t later ≡ some r.original =
      rw (grown, transfers, kept)
        (find-append named ((db.transfers ++ us) ++ (s ∷ [])) ts r.original (
          find-append named (db.transfers ++ us) (s ∷ []) r.original
            (find-append named db.transfers us r.original r.found))) in
    refused x others' t key' period' who' later r.original s found r.reversible
      ((==_iff r.original.id t).0 (find-holds named db.transfers r.original r.found)) reversed
      (ground (arith, of_key, other))
