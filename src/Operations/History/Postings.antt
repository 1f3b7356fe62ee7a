-- ===== src/Operations/History/Postings.antt =====
-- Soundness of a ledger, and that a posting keeps it.
use fund_ledger.Base.{
  ◌≡◌, ap, subst, true, List, [], ◌∷◌, ◌==◌, arith, any, All, All-In, In, In-append, inl, inr, ◌&&◌,
}
use fund_ledger.Base.Result.{ok, >>=-returns}
use fund_ledger.Ledger.Model.{Db, Account, Entry, Transfer}
use fund_ledger.Ledger.Queries.{native_balance}
use fund_ledger.Ledger.Insert.{insert_entry, insert_entries, transfer_imbalance}
use fund_ledger.Ledger.Insert.Effect.{insert_entry-EntryInserted}
use fund_ledger.Ledger.Reconciliation.Zero.{IsBalanced}
use fund_ledger.Ledger.Post.{Posting, post_transfer}
use fund_ledger.Ledger.Post.Effect.{
  entries_for, post_transfer-Posted, write_transfer-Written, write_transfer-effect,
}
use fund_ledger.Ledger.Post.Balanced.{post_transfer-IsBalanced}
use fund_ledger.Ledger.Post.Solvent.{IsKeyed, IsSolvent, post_transfer-IsSolvent}

-- the foreign key: the account of an entry is there
abbrev pub IsBooked : Db → Type 0
IsBooked db = (e : Entry) → In e db.entries → any (λ a. a.id == e.account_id) db.accounts ≡ true

-- every transfer balances, no cash account is below zero, and the keys of accounts hold
pub record IsSound (db : Db) : Type 0 where
  pub balanced : IsBalanced db
  pub solvent : IsSolvent db
  pub keyed : IsKeyed db
  pub booked : IsBooked db

account_there :
    (e : Entry) (accounts : List Account)
    → any (λ a. (a.id == e.account_id) && (a.currency == e.currency)) accounts ≡ true
    → any (λ a. a.id == e.account_id) accounts ≡ true
account_there e [] h = h
account_there e (a ∷ rest) h = ground (arith, account_there e rest)

insert_entries-IsBooked :
    (es : List Entry) (db db' : Db)
    → insert_entries es db ≡ ok db'
    → All (λ e. any (λ a. a.id == e.account_id) db.accounts ≡ true) es
unfolding insert_entries
insert_entries-IsBooked [] db db' h = tt
insert_entries-IsBooked (e ∷ es) db db' h =
    let (mid, first, rest) = >>=-returns (insert_entry e db) (insert_entries es) h in
    let w = insert_entry-EntryInserted e db mid first in
    let there = insert_entries-IsBooked es mid db' rest in
    (
      account_there e db.accounts w.account_found,
      subst (λ (x : Db). All (λ e. any (λ a. a.id == e.account_id) x.accounts ≡ true) es) w.effect
          there,
    )

post_transfer-IsBooked :
    (q : Posting) (db : Db) (t : Transfer) (db' : Db)
    → IsBooked db
    → post_transfer q db ≡ ok (t, db')
    → IsBooked db'
post_transfer-IsBooked q db t db' before h =
    let p = post_transfer-Posted q db t db' h in
    let w = write_transfer-Written q p.priced db t db' p.written in
    let es = entries_for q p.priced db in
    let there = insert_entries-IsBooked es w.middle db' w.entries_in in
    let kept : w.middle.accounts ≡ db.accounts = ap (λ (x : Db). x.accounts) w.inserted.effect in
    rw (write_transfer-effect q p.priced db t db' p.written) (λ e here.
      elim (In-append e db.entries es here) [
        | inl old ↦ before e old
        | inr new ↦
            subst (λ (rows : List Account). any (λ a. a.id == e.account_id) rows ≡ true) kept
              (All-In (λ e. any (λ a. a.id == e.account_id) w.middle.accounts ≡ true) es there e
                new)
      ])

pub post_transfer-IsSound :
    (q : Posting) (db : Db) (t : Transfer) (db' : Db)
    → IsSound db
    → post_transfer q db ≡ ok (t, db')
    → IsSound db'
post_transfer-IsSound q db t db' s h =
    let p = post_transfer-Posted q db t db' h in
    record {
      balanced = post_transfer-IsBalanced q db s.balanced h;
      solvent = post_transfer-IsSolvent q db s.keyed s.solvent h;
      keyed = rw (write_transfer-effect q p.priced db t db' p.written) s.keyed;
      booked = post_transfer-IsBooked q db t db' s.booked h;
    }

-- the tables that soundness does not look at
pub same_rows-IsSound :
    (db db' : Db) → db'.accounts ≡ db.accounts → db'.entries ≡ db.entries → IsSound db → IsSound db'
unfolding transfer_imbalance native_balance
same_rows-IsSound db db' accounts entries s = record {
  balanced = λ t. rw entries (s.balanced t);
  solvent = λ a here cash. rw entries (s.solvent a (rw accounts at here) cash);
  keyed = rw accounts s.keyed;
  booked = λ e here. rw accounts (s.booked e (rw entries at here));
}
