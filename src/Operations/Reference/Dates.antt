-- ===== src/Operations/Reference/Dates.antt =====
-- The quarters that are made cover their years, each day once.
use fund_ledger.Base.{
  ℕ, ◌+◌, ◌-◌, ◌≤◌, ◌<◌, ◌≡◌, refl, Bool, ◌&&◌, List, [], ◌∷◌, leb, length, filter, arith,
  Bool-cases, inl, inr,
}
use fund_ledger.Operations.Reference.{date, days_before_year, is_leap, quarters}

-- the test of `period_for`
abbrev pub covers : ℕ → ℕ × ℕ → Bool
covers d (from, to) = leb from d && leb d to

-- intervals between one start and the next
abbrev spans : ℕ → List ℕ → List (ℕ × ℕ)
spans s [] = []
spans s (t ∷ ts) = (s, t - 1) ∷ spans t ts

abbrev IsRising : ℕ → List ℕ → Type 0
IsRising s [] = Unit
IsRising s (t ∷ ts) = (s < t) × IsRising t ts

abbrev last_of : ℕ → List ℕ → ℕ
last_of s [] = s
last_of s (t ∷ ts) = last_of t ts

spans-before :
    (d s : ℕ) (ts : List ℕ) → IsRising s ts → d < s → length (filter (covers d) (spans s ts)) ≡ 0
spans-before d s [] h l = refl
spans-before d s (t ∷ ts) (h, hs) l =
    ground (arith, spans-before d t ts hs (omega (arith, h, l)), l)

spans-once :
    (d s : ℕ) (ts : List ℕ)
    → IsRising s ts
    → s ≤ d
    → d < last_of s ts
    → length (filter (covers d) (spans s ts)) ≡ 1
spans-once d s [] h low high = absurd (omega (arith, low, high))
spans-once d s (t ∷ ts) (h, hs) low high = elim (Bool-cases (leb t d)) [
  | inl later ↦ ground (arith, later, h, spans-once d t ts hs (ground (arith, later)) high)
  | inr inside ↦ ground (arith, inside, low, h, spans-before d t ts hs (ground (arith, inside)))
]

days_before_year-grows : (y : ℕ) → 1 ≤ y → days_before_year y + 365 ≤ days_before_year (y + 1)
days_before_year-grows y h = omega (arith, h)

-- the first day of a quarter
abbrev first : ℕ → ℕ → ℕ
first y m = date y m 1

year-IsRising :
    (y : ℕ)
    → 1 ≤ y
    → (first y 1 < first y 4)
      × (first y 4 < first y 7)
      × (first y 7 < first y 10)
      × (first y 10 < first (y + 1) 1)
unfolding date
year-IsRising y h = elim (Bool-cases (is_leap y)) [
  | inl leap ↦
      rw leap (omega arith, omega arith, omega arith, omega (arith, days_before_year-grows y h))
  | inr plain ↦
      rw plain (omega arith, omega arith, omega arith, omega (arith, days_before_year-grows y h))
]

-- Every day of two years that follow each other is in one of their quarters, and in no other.
pub quarters-once :
    (y d : ℕ)
    → 1 ≤ y
    → date y 1 1 ≤ d
    → d < date (y + 1 + 1) 1 1
    → length (filter (covers d) (quarters (y ∷ (y + 1) ∷ []))) ≡ 1
quarters-once y d h low high =
    let (a, b, c, e) = year-IsRising y h in
    let (a', b', c', e') = year-IsRising (y + 1) (omega arith) in
    spans-once d (first y 1)
      (first y 4
        ∷ first y 7
        ∷ first y 10
        ∷ first (y + 1) 1
        ∷ first (y + 1) 4
        ∷ first (y + 1) 7
        ∷ first (y + 1) 10
        ∷ first (y + 1 + 1) 1
        ∷ [])
      (a, (b, (c, (e, (a', (b', (c', (e', tt)))))))) low high
