-- ===== src/Observability/Tests.antt =====
-- Request ids that are kept, and ones that are replaced.
use fund_ledger.Base.{◌≡◌, refl, [], ◌∷◌}
use fund_ledger.Access.Keys.{Text}
use fund_ledger.Observability.{request_id}

-- "0f"
abbrev fresh : Text
fresh = 48 ∷ 102 ∷ []

-- "a-1", nothing, "a b", and "a" with a line feed in the middle
ids :
    (request_id fresh (97 ∷ 45 ∷ 49 ∷ []) ≡ 97 ∷ 45 ∷ 49 ∷ [])
    × (request_id fresh [] ≡ fresh)
    × (request_id fresh (97 ∷ 32 ∷ 98 ∷ []) ≡ fresh)
    × (request_id fresh (97 ∷ 10 ∷ 98 ∷ []) ≡ fresh)
unfolding request_id
ids = (refl, refl, refl, refl)

-- a line feed at the end is kept
line_feed : request_id fresh (97 ∷ 10 ∷ []) ≡ 97 ∷ 10 ∷ []
unfolding request_id
line_feed = refl
