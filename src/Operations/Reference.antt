-- ===== src/Operations/Reference.antt =====
-- Reference data that is made where it is missing: operations/sandbox.py, and `quarters`, the
-- reference data and the history of operations/management/commands/seed_demo.py. Partners' rows hold
-- a name and a kind only, and are left out. A date is its ordinal, as Python's: 1 is the first day of
-- year 1.
pub mod Dates
pub mod Adds
pub mod Rows
pub mod Accounts
pub mod Again
use fund_ledger.Base.{
  ℕ, zero, suc, ◌+◌, ◌-◌, ◌*◌, ◌/◌, ◌%◌, Bool, true, false, not, ◌&&◌, ◌||◌, Option, none, some,
  List, [], ◌∷◌, ◌++◌, ◌==◌, ltb, find, any, if◌then◌else◌,
}
use fund_ledger.Base.Int.{pos}
use fund_ledger.Base.Result.{
  Result, ok, err, integrity, period_unique_start, period_end_not_before_start, ◌>>=◌, ◌>>◌,
  raise_if,
}
use fund_ledger.Ledger.Decimal.{Number, finite}
use fund_ledger.Ledger.Model.{
  Db, Fund, Commitment, Period, FxRate, open_period, Classification, gain,
}
use fund_ledger.Ledger.Idempotency.{Hashing, Others}
use fund_ledger.Ledger.Reconciliation.{take}
use fund_ledger.Operations.Chart.{open_fund_accounts}
use fund_ledger.Operations.Calls.{CallRequest, create_capital_call}
use fund_ledger.Operations.Distributions.{DistributionRequest, create_distribution}
use fund_ledger.Operations.Portfolio.{record_investment, charge_fee, record_valuation}

-- `date(year, month, day)`
abbrev pub is_leap : ℕ → Bool
is_leap y = (y % 4 == 0) && (not (y % 100 == 0) || (y % 400 == 0))

abbrev pub days_before_year : ℕ → ℕ
days_before_year y = let n = y - 1 in n * 365 + n / 4 - n / 100 + n / 400

abbrev pub month_days : ℕ → List ℕ
month_days y =
    31 ∷ (if is_leap y then 29 else 28) ∷ 31 ∷ 30 ∷ 31 ∷ 30 ∷ 31 ∷ 31 ∷ 30 ∷ 31 ∷ 30 ∷ 31 ∷ []

abbrev pub total : List ℕ → ℕ
total [] = 0
total (n ∷ ns) = n + total ns

unfoldable pub date : ℕ → ℕ → ℕ → ℕ
date y m d = days_before_year y + total (take (m - 1) (month_days y)) + d

-- the first day of the next quarter
abbrev pub next_start : ℕ → ℕ → ℕ
next_start y m = if m == 10 then date (y + 1) 1 1 else date y (m + 3) 1

abbrev pub quarter : ℕ → ℕ → ℕ × ℕ
quarter y m = (date y m 1, next_start y m - 1)

-- `quarters`
abbrev pub quarters : List ℕ → List (ℕ × ℕ)
quarters [] = []
quarters (y ∷ ys) = quarter y 1 ∷ quarter y 4 ∷ quarter y 7 ∷ quarter y 10 ∷ quarters ys

-- the texts that `demo_id` is applied to; it is the namespace's uuid5 of one
pub data DemoName : Type 0 where
  demo_fund : DemoName
  demo_lp sandbox_fund sandbox_lp : ℕ → DemoName

abbrev pub gbp : ℕ
gbp = 826

-- `Fund.objects.get_or_create`, by its id
unfoldable pub ensure_fund : ℕ → Db → Fund × Db
ensure_fund i db = elim (find (λ f. f.id == i) db.funds) [
  | some f ↦ (f, db)
  | none ↦
      let f : Fund = record { id = i; base_currency = gbp } in
      (f, record db { funds = db.funds ++ (f ∷ []) })
]

abbrev pub is_commitment : ℕ → ℕ → Commitment → Bool
is_commitment fund lp c = (c.fund_id == fund) && (c.lp_id == lp)

-- `Commitment.objects.get_or_create`, by fund and partner
unfoldable pub ensure_commitment : ℕ → ℕ × ℕ → Db → Result Db
ensure_commitment fund (lp, amount) db =
    if any (is_commitment fund lp) db.commitments
    then ok db
    else ok (record db {
      commitments =
          db.commitments ++ (record { fund_id = fund; lp_id = lp; committed_amount = amount } ∷ []);
    })

abbrev pub is_period : ℕ → ℕ → Period → Bool
is_period fund start p = (p.fund_id == fund) && (p.start_date == start)

-- `Period.objects.get_or_create`, by fund and start
unfoldable pub ensure_period : ℕ → ℕ × ℕ → Db → Result Db
ensure_period fund (start, end_) db = if any (is_period fund start) db.periods then ok db else do
  raise_if (ltb end_ start) (integrity period_end_not_before_start)
  ok (record db {
    periods =
        db.periods
        ++ (record {
          id = db.uuid db.drawn;
          fund_id = fund;
          start_date = start;
          end_date = end_;
          status = open_period;
          closed_at = none;
          closed_by = 0;
        }
            ∷ []);
    drawn = suc db.drawn;
  })

-- a loop of such calls
unfoldable pub ensure_all : {K : Type 0} → (K → Db → Result Db) → List K → Db → Result Db
ensure_all ensure [] db = ok db
ensure_all ensure (k ∷ ks) db = ensure k db >>= ensure_all ensure ks

-- SANDBOX_LPS, in units of 0.0001
abbrev pub sandbox_lps : (DemoName → ℕ) → List (ℕ × ℕ)
sandbox_lps demo_id =
    (demo_id (sandbox_lp 0), 60000000000)
    ∷ (demo_id (sandbox_lp 1), 33333333300)
    ∷ (demo_id (sandbox_lp 2), 10000000000)
    ∷ []

-- `open_sandbox_fund`, on a day of the year `year`
unfoldable pub open_sandbox_fund : (DemoName → ℕ) → ℕ → ℕ → Db → Result (Fund × Db)
unfolding ensure_all
open_sandbox_fund demo_id day year db =
    let (fund, db₁) = ensure_fund (demo_id (sandbox_fund day)) db in
    do
      db₂ ← ensure_all (ensure_commitment fund.id) (sandbox_lps demo_id) db₁
      db₃ ← ensure_all (ensure_period fund.id) (quarters (year ∷ (year + 1) ∷ [])) db₂
      db₄ ← open_fund_accounts fund db₃
      ok (fund, db₄)

abbrev pub is_rate : ℕ → ℕ → FxRate → Bool
is_rate from on r = (r.from_currency == from) && ((r.to_currency == gbp) && (r.as_of_date == on))

-- `FxRate.objects.get_or_create`, into GBP
unfoldable pub ensure_rate : ℕ × ℕ → Db → Result Db
ensure_rate (from, rate) db =
    let on = date 2026 1 1 in
    if any (is_rate from on) db.fx_rates
    then ok db
    else ok (record db {
      fx_rates =
          db.fx_rates
          ++ (record { from_currency = from; to_currency = gbp; rate = rate; as_of_date = on }
              ∷ []);
    })

-- DEMO_LPS
abbrev pub demo_lps : (DemoName → ℕ) → List (ℕ × ℕ)
demo_lps demo_id =
    (demo_id (demo_lp 0), 473000000000)
    ∷ (demo_id (demo_lp 1), 121250000000)
    ∷ (demo_id (demo_lp 2), 333333333300)
    ∷ (demo_id (demo_lp 3), 50000000000)
    ∷ (demo_id (demo_lp 4), 87500000000)
    ∷ (demo_id (demo_lp 5), 210000000000)
    ∷ (demo_id (demo_lp 6), 10000000000)
    ∷ (demo_id (demo_lp 7), 155000000000)
    ∷ (demo_id (demo_lp 8), 99999999900)
    ∷ (demo_id (demo_lp 9), 27500000000)
    ∷ []

-- `reference_data`; dollars are 840 and euros 978
unfoldable pub reference_data : (DemoName → ℕ) → Db → Result (Fund × Db)
unfolding ensure_all ensure_rate
reference_data demo_id db =
    let (fund, db₁) = ensure_fund (demo_id demo_fund) db in
    do
      db₂ ← ensure_all (ensure_commitment fund.id) (demo_lps demo_id) db₁
      db₃ ← ensure_all (ensure_period fund.id) (quarters (2026 ∷ 2027 ∷ [])) db₂
      db₄ ← ensure_all ensure_rate ((840, 7900000000) ∷ (978, 8500000000) ∷ []) db₃
      ok (fund, db₄)

-- The texts of the keys in `history`, as numbers.
pub data DemoKey : Type 0 where
  call_1 invest_1 fee_q1 call_2 valuation_q2 dist_1 : DemoKey

abbrev pub demo_call : (DemoKey → ℕ) → Fund → DemoKey → ℕ → ℕ → ℕ → CallRequest
demo_call key fund k pounds notice due = record {
  fund_id = fund.id;
  idempotency_key = key k;
  total = pos (pounds * 100);
  places = 2;
  notice_date = notice;
  due_date = due;
  created_by = 0;
}

abbrev pub demo_distribution : (DemoKey → ℕ) → Fund → DistributionRequest
demo_distribution key fund = record {
  fund_id = fund.id;
  idempotency_key = key dist_1;
  total = pos 300000000;
  places = 2;
  payment_date = date 2026 7 20;
  classification = gain;
  created_by = 0;
}

-- `history`
unfoldable pub demo_history : Hashing → Others → (DemoKey → ℕ) → Fund → Db → Result Db
demo_history x others key fund db = do
  (_, db₁) ←
      create_capital_call x others
        (demo_call key fund call_1 25000000 (date 2026 1 15) (date 2026 1 29)) db
  (_, db₂) ←
      (record_investment x others fund.id (key invest_1) (pos 1500000000) 2 840 (date 2026 2 10)
        db₁).1
  (_, db₃) ← charge_fee x others fund.id (key fee_q1) (finite (pos 41250000) 2) (date 2026 3 31) db₂
  (_, db₄) ←
      create_capital_call x others
        (demo_call key fund call_2 10000000 (date 2026 4 15) (date 2026 4 29)) db₃
  (_, db₅) ←
      record_valuation x others fund.id (key valuation_q2) (pos 185000000) 2 (date 2026 6 30) db₄
  (_, db₆) ← create_distribution x others (demo_distribution key fund) db₅
  ok db₆

-- `seed_demo`. Where a step fails, the command ends; what the earlier ones have committed is left out.
unfoldable pub seed_demo :
    Hashing → Others → (DemoName → ℕ) → (DemoKey → ℕ) → Db → Result (Fund × Db)
unfolding demo_history
seed_demo x others demo_id key db = do
  (fund, db₁) ← reference_data demo_id db
  db₂ ← open_fund_accounts fund db₁
  db₃ ← demo_history x others key fund db₂
  ok (fund, db₃)
