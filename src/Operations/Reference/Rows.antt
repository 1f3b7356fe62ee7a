-- ===== src/Operations/Reference/Rows.antt =====
-- The rows of commitments and periods that are made where they are missing.
use fund_ledger.Base.{
  ℕ, suc, ◌≡◌, refl, subst, true, none, [], ◌∷◌, ◌++◌, ==_refl, ltb, arith, any, any-append,
  Bool-cases, inl, inr,
}
use fund_ledger.Base.Result.{ok, guard-returns}
use fund_ledger.Ledger.Model.{Db, Commitment, Period, open_period}
use fund_ledger.Operations.Reference.{is_commitment, ensure_commitment, is_period, ensure_period}
use fund_ledger.Operations.Reference.Adds.{Adds, Maker, none_added, any-added, Adds-refl}

-- the rows of commitments and periods
abbrev pub HasCommitment : ℕ → ℕ × ℕ → Db → Type 0
HasCommitment fund (lp, amount) db = any (is_commitment fund lp) db.commitments ≡ true

abbrev pub HasPeriod : ℕ → ℕ × ℕ → Db → Type 0
HasPeriod fund (start, end_) db = any (is_period fund start) db.periods ≡ true

module _ (fund : ℕ) where
  commitment-Adds :
      (k : ℕ × ℕ) (db db' : Db)
      → ensure_commitment fund k db ≡ ok db'
      → Adds db db' × HasCommitment fund k db'
  unfolding ensure_commitment
  commitment-Adds (lp, amount) db db' h =
      let test = is_commitment fund lp in
      elim (Bool-cases (any test db.commitments)) [
        | inl there ↦
            let same : db ≡ db' = ground (arith, rw (there, ensure_commitment) at h) in
            subst (λ (x : Db). Adds db x × HasCommitment fund (lp, amount) x) same
              (Adds-refl db, there)
        | inr missing ↦
            let new : Commitment = record {
              fund_id = fund;
              lp_id = lp;
              committed_amount = amount;
            } in
            let same : record db { commitments = db.commitments ++ (new ∷ []) } ≡ db' =
              ground (arith, rw (missing, ensure_commitment) at h) in
            subst (λ (x : Db). Adds db x × HasCommitment fund (lp, amount) x) same
              (
                record {
                  funds = none_added db.funds;
                  commitments = (new ∷ [], refl);
                  periods = none_added db.periods;
                  accounts = none_added db.accounts;
                },
                rw (any-append test db.commitments (new ∷ []), missing, ==_refl fund, ==_refl lp)
                    refl,
              )
      ]

  commitment-idle :
      (k : ℕ × ℕ) (db : Db) → HasCommitment fund k db → ensure_commitment fund k db ≡ ok db
  unfolding ensure_commitment
  commitment-idle (lp, amount) db h = rw h refl

  commitment-stays :
      (k : ℕ × ℕ) (db db' : Db) → Adds db db' → HasCommitment fund k db → HasCommitment fund k db'
  commitment-stays (lp, amount) db db' a h =
      let (cs, grown) = a.commitments in
      rw grown (any-added (is_commitment fund lp) db.commitments cs h)

  period-Adds :
      (k : ℕ × ℕ) (db db' : Db)
      → ensure_period fund k db ≡ ok db'
      → Adds db db' × HasPeriod fund k db'
  unfolding ensure_period
  period-Adds (start, end_) db db' h =
      let test = is_period fund start in
      elim (Bool-cases (any test db.periods)) [
        | inl there ↦
            let same : db ≡ db' = ground (arith, rw (there, ensure_period) at h) in
            subst (λ (x : Db). Adds db x × HasPeriod fund (start, end_) x) same
              (Adds-refl db, there)
        | inr missing ↦
            let new : Period = record {
              id = db.uuid db.drawn;
              fund_id = fund;
              start_date = start;
              end_date = end_;
              status = open_period;
              closed_at = none;
              closed_by = 0;
            } in
            let (_, done) = guard-returns (ltb end_ start) _ _ (rw (missing, ensure_period) at h) in
            let same : record db { periods = db.periods ++ (new ∷ []); drawn = suc db.drawn }
                ≡ db' =
              ground (arith, done) in
            subst (λ (x : Db). Adds db x × HasPeriod fund (start, end_) x) same
              (
                record {
                  funds = none_added db.funds;
                  commitments = none_added db.commitments;
                  periods = (new ∷ [], refl);
                  accounts = none_added db.accounts;
                },
                rw (any-append test db.periods (new ∷ []), missing, ==_refl fund, ==_refl start)
                    refl,
              )
      ]

  period-idle : (k : ℕ × ℕ) (db : Db) → HasPeriod fund k db → ensure_period fund k db ≡ ok db
  unfolding ensure_period
  period-idle (start, end_) db h = rw h refl

  period-stays :
      (k : ℕ × ℕ) (db db' : Db) → Adds db db' → HasPeriod fund k db → HasPeriod fund k db'
  period-stays (start, end_) db db' a h =
      let (ps, grown) = a.periods in rw grown (any-added (is_period fund start) db.periods ps h)

  pub commitment_maker : Maker (ensure_commitment fund) (HasCommitment fund)
  commitment_maker = record {
    adds = commitment-Adds;
    stays = commitment-stays;
    idle = commitment-idle;
  }

  pub period_maker : Maker (ensure_period fund) (HasPeriod fund)
  period_maker = record { adds = period-Adds; stays = period-stays; idle = period-idle }
