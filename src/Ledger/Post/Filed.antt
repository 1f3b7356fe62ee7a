-- ===== src/Ledger/Post/Filed.antt =====
-- Every entry has a transfer, a period and an account, of one fund.
use fund_ledger.Base.{
  ℕ, suc, ◌+◌, ◌≡◌, refl, sym, ap, ◌∙◌, subst, Bool, true, false, not, Option, none, some, List, [],
  ◌∷◌, ◌++◌, ◌==◌, ==_refl, ==_iff, All, All-In, In, In-append, any-In, find, find-In, find-holds,
  find-append, find-snoc, length, arith, inl, inr, Bool-cases,
}
use fund_ledger.Base.Result.{ok, guard-returns}
use fund_ledger.Ledger.Model.{Db, Account, Entry, Leg, Period, PricedLeg, Transfer, is_open}
use fund_ledger.Ledger.Queries.{transfer_by_id}
use fund_ledger.Ledger.Insert.{period_by_id, is_some}
use fund_ledger.Ledger.Pricing.Mirror.{Mirrors, price_legs-Mirrors}
use fund_ledger.Ledger.Post.{Posting, post_transfer, new_entries, new_transfer, validate_context}
use fund_ledger.Ledger.Post.Effect.{
  entries_for, post_transfer-Posted, write_transfer-Written, write_transfer-effect,
}
use fund_ledger.Ledger.Post.Rows.{post_transfer-in_open}
use fund_ledger.Ledger.Post.Solvent.{IsKeyed, lock_accounts-In}

-- the rows that an entry refers to
pub record IsFiled (db : Db) (e : Entry) : Type 0 where
  pub transfer : Transfer
  pub period : Period
  pub account : Account
  pub has_transfer : transfer_by_id e.transfer_id db ≡ some transfer
  pub has_period : period_by_id transfer.period_id db ≡ some period
  pub has_account : find (λ a. a.id == e.account_id) db.accounts ≡ some account
  pub of_one : account.fund_id ≡ period.fund_id

-- the database after a posting
abbrev posted : Db → Transfer → List Entry → ℕ → Db
posted db t es n = record db {
  transfers = db.transfers ++ (t ∷ []);
  entries = db.entries ++ es;
  drawn = n;
}

IsFiled-posted :
    (db : Db) (t : Transfer) (es : List Entry) (n : ℕ) (e : Entry)
    → IsFiled db e
    → IsFiled (posted db t es n) e
IsFiled-posted db t es n e f = record {
  transfer = f.transfer;
  period = f.period;
  account = f.account;
  has_transfer =
      find-append (λ s. s.id == e.transfer_id) db.transfers (t ∷ []) f.transfer f.has_transfer;
  has_period = f.has_period;
  has_account = f.has_account;
  of_one = f.of_one;
}

-- a line of the transfer on one of the accounts
abbrev IsLineOf : ℕ → List Account → Entry → Type 0
IsLineOf t accounts e = (e.transfer_id ≡ t) × (a : Account) × In a accounts × (a.id ≡ e.account_id)

new_entries-IsLineOf :
    (accounts : List Account) (uuid : ℕ → ℕ) (k t now : ℕ) (legs : List Leg) (ps : List PricedLeg)
    → Mirrors accounts legs ps
    → All (IsLineOf t accounts) (new_entries uuid k t now ps)
unfolding new_entries
new_entries-IsLineOf accounts uuid k t now [] [] m = tt
new_entries-IsLineOf accounts uuid k t now [] (p ∷ ps) m = absurd m
new_entries-IsLineOf accounts uuid k t now (l ∷ legs) [] m = absurd m
new_entries-IsLineOf accounts uuid k t now (l ∷ legs) (p ∷ ps) m = (
  (refl, p.account, m.0.known, refl),
  new_entries-IsLineOf accounts uuid (suc k) t now legs ps m.1,
)

-- the accounts are of the period's fund
validate_context-fund :
    (p : Period) (accounts : List Account) (a : Account)
    → validate_context p accounts ≡ ok tt
    → In a accounts
    → a.fund_id ≡ p.fund_id
unfolding validate_context
validate_context-fund p accounts a h here =
    let foreign = λ (b : Account). not (b.fund_id == p.fund_id) in
    let (_, h₁) = guard-returns (not (is_open p.status)) _ _ h in
    elim (Bool-cases (a.fund_id == p.fund_id)) [
      | inl own ↦ (==_iff a.fund_id p.fund_id).0 own
      | inr other ↦ absurd (ground (arith, any-In foreign accounts a here (rw other refl), h₁))
    ]

find-exists :
    (p : Account → Bool) (xs : List Account) (a : Account)
    → In a xs
    → p a ≡ true
    → (b : Account) × (find p xs ≡ some b)
find-exists p [] a here h = absurd here
find-exists p (x ∷ xs) a here h = elim (Bool-cases (p x)) [
  | inl passes ↦ (x, rw passes refl)
  | inr fails ↦ elim here [
    | inl same ↦ absurd (cc (ap p same, h, fails))
    | inr later ↦ let (b, found) = find-exists p xs a later h in (b, rw fails found)
  ]
]

-- under the primary key, the row with an account's id is the account
row_of :
    (db : Db) (a : Account) (i : ℕ)
    → IsKeyed db
    → In a db.accounts
    → a.id ≡ i
    → find (λ b. b.id == i) db.accounts ≡ some a
row_of db a i keyed here own =
    let test = λ (b : Account). b.id == i in
    let (b, found) = find-exists test db.accounts a here (rw own (==_refl i)) in
    let same : b ≡ a =
      keyed b a (find-In test db.accounts b found) here
        ((==_iff b.id i).0 (find-holds test db.accounts b found) ∙ sym own) in
    found ∙ ap some same

new_transfer_found :
    (db : Db) (t : Transfer) (i : ℕ)
    → is_some (transfer_by_id t.id db) ≡ false
    → i ≡ t.id
    → find (λ s. s.id == i) (db.transfers ++ (t ∷ [])) ≡ some t
new_transfer_found db t i fresh own =
    let missing : transfer_by_id t.id db ≡ none = none_there (transfer_by_id t.id db) fresh in
    rw own (find-snoc (λ s. s.id == t.id) db.transfers t missing (==_refl t.id))
  where
    none_there : (o : Option Transfer) → is_some o ≡ false → o ≡ none
    none_there o h = ground arith

-- After a successful post_transfer every entry has a transfer, a period and an account of that
-- period's fund, if all had before: where account ids are unique, and the period has the fund that
-- the caller read.
pub post_transfer-IsFiled :
    (q : Posting) (db : Db) {t : Transfer} {db' : Db}
    → IsKeyed db
    → ((r : Period) → period_by_id q.period.id db ≡ some r → r.fund_id ≡ q.period.fund_id)
    → ((e : Entry) → In e db.entries → IsFiled db e)
    → post_transfer q db ≡ ok (t, db')
    → (e : Entry) → In e db'.entries
    → IsFiled db' e
post_transfer-IsFiled q db {t} {db'} keyed read filed h e here =
    let p = post_transfer-Posted q db t db' h in
    let w = write_transfer-Written q p.priced db t db' p.written in
    let es = entries_for q p.priced db in
    let n = suc db.drawn + length p.priced in
    let effect : db' ≡ posted db t es n = write_transfer-effect q p.priced db t db' p.written in
    let (r, has_r, _) = post_transfer-in_open q db h in
    let lines =
      new_entries-IsLineOf p.accounts db.uuid (suc db.drawn) (new_transfer q db).id db.now q.legs
        p.priced (price_legs-Mirrors q.legs p.accounts _ _ db p.priced p.pricing) in
    rw effect (elim (In-append e db.entries es (subst (λ (d : Db). In e d.entries) effect here)) [
      | inl old ↦ IsFiled-posted db t es n e (filed e old)
      | inr new ↦
          let (of_transfer, a, there, own) =
            All-In (IsLineOf (new_transfer q db).id p.accounts) es lines e new in
          record {
            transfer = t;
            period = r;
            account = a;
            has_transfer =
                new_transfer_found db t e.transfer_id w.inserted.id_fresh
                  (of_transfer ∙ ap (λ (s : Transfer). s.id) (sym w.row));
            has_period =
                subst (λ (i : ℕ). period_by_id i db ≡ some r)
                  (ap (λ (s : Transfer). s.period_id) (sym w.row)) has_r;
            has_account =
                row_of db a e.account_id keyed
                  (lock_accounts-In q.legs db p.accounts p.locked a there) own;
            of_one =
                validate_context-fund q.period p.accounts a p.in_context there ∙ sym (read r has_r);
          }
    ])
