-- ===== src/Operations/ProRata.antt =====
-- The split of a total over the commitments (`_pro_rata` of operations/services.py), and the legs
-- that book the shares.
use fund_ledger.Base.{
  ℕ, Bool, true, false, List, [], ◌∷◌, ◌++◌, leb, ltb, map, sort_by, if◌then◌else◌,
}
use fund_ledger.Base.Int.{ℤ, pos, eqb_ℤ}
use fund_ledger.Base.Dict.{Dict, at}
use fund_ledger.Base.Result.{
  Result, ok, err, Error, ledger, value_error, invalid_transfer, ◌>>=◌, ◌>>◌, raise_if,
}
use fund_ledger.Ledger.Model.{Db, Fund, Commitment, Account, Leg}
use fund_ledger.Operations.Chart.{commitments_of}
use fund_ledger.Operations.Allocation.{Weights, Shares, allocate}

-- `except ValueError`
abbrev pub value_error_to : {A : Type 0} → Error → Result A → Result A
value_error_to e (err value_error) = err e
value_error_to e r = r

-- one commitment for each limited partner (commitment_one_per_lp_per_fund)
abbrev pub weights_of : List Commitment → Weights
weights_of cs = map (λ c. (c.lp_id, pos c.committed_amount)) cs

abbrev pub no_commitments : List Commitment → Bool
no_commitments [] = true
no_commitments (c ∷ cs) = false

abbrev pub penny : ℕ
penny = 100

-- `_pro_rata`, of the total c / 10^k
unfoldable pub pro_rata : Fund → ℤ → ℕ → Db → Result (List Commitment × Shares)
pro_rata fund c k db = do
  raise_if (no_commitments (commitments_of fund db)) (ledger invalid_transfer)
  shares ←
      value_error_to (ledger invalid_transfer)
        (allocate c k (weights_of (commitments_of fund db)) penny)
  ok (commitments_of fund db, shares)

-- `sorted(shares.items(), key=…)`
abbrev pub sorted_shares : Shares → Shares
sorted_shares shares = sort_by (λ s t. leb s.0 t.0) shares

-- the two legs of each share but zero, as `pair` makes them of the partner's account
abbrev pub share_legs : (ℕ → ℤ → List Leg) → Dict Account → Shares → Result (List Leg)
share_legs pair accounts [] = ok []
share_legs pair accounts ((lp, share) ∷ rest) =
    let legs = share_legs pair accounts rest in
    if eqb_ℤ share (pos 0)
    then legs
    else do account ← at lp accounts; others ← legs; ok (pair account.id share ++ others)

-- the number of the next document
abbrev pub max : ℕ → ℕ → ℕ
max a b = if ltb a b then b else a
