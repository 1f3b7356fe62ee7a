-- ===== src/Access/Tests/Moves.antt =====
-- A header, the revocation of a key, and the sandbox on a new day.
use fund_ledger.Base.{
  ℕ, ◌+◌, ◌≡◌, refl, true, false, none, some, [], ◌∷◌, ◌++◌, ◌==◌, In, filter, arith,
}
use fund_ledger.Base.Result.{Result, ok, err, command_error}
use fund_ledger.Ledger.Model.{Db, Fund}
use fund_ledger.Operations.Chart.{open_fund_accounts}
use fund_ledger.Operations.Reference.{
  DemoName, demo_fund, demo_lp, sandbox_fund, sandbox_lp, date, ensure_fund, ensure_commitment,
  ensure_period, open_sandbox_fund,
}
use fund_ledger.Operations.Reference.Again.{open_sandbox_fund_again}
use fund_ledger.Access.Keys.{Text, ApiKey, verify_key, record_use, is_live, same_text}
use fund_ledger.Access.Permissions.{controller}
use fund_ledger.Access.Authentication.{anonymous, refused, authenticated, authenticate}
use fund_ledger.Access.Authentication.Bearer.{Bears, authenticate_sound}
use fund_ledger.Access.Commands.{AccessDb, revoke_api_key, rotate_sandbox, set_membership}
use fund_ledger.Access.Commands.Revoked.{verify_key-revoke_api_key}
use fund_ledger.Access.Commands.Rotated.{IsSingle, rotate_sandbox-memberships}
use fund_ledger.Access.Tests.{digest, user, key, raw, world, partner, member}

-- "BEARER fl_a.s"
abbrev header : Text
header = 66 ∷ 69 ∷ 65 ∷ 82 ∷ 69 ∷ 82 ∷ 32 ∷ raw

abbrev used_key : ApiKey
used_key = record key { last_used_at = some 20 }

bearing : authenticate digest 20 (key ∷ []) header ≡ authenticated key (used_key ∷ [])
unfolding authenticate verify_key record_use
bearing = refl

others :
    (authenticate digest 20 (key ∷ []) [] ≡ anonymous)
    × (authenticate digest 20 (key ∷ []) (66 ∷ raw) ≡ anonymous)
    × (authenticate digest 60 (key ∷ []) header ≡ refused)
    × (authenticate digest 20 (key ∷ []) (header ++ (32 ∷ 49 ∷ [])) ≡ refused)
unfolding authenticate verify_key
others = (refl, refl, refl, refl)

authenticate_sound_example :
    Bears digest 20 (key ∷ []) header key (used_key ∷ [])
    × In key (key ∷ [])
    × (is_live 20 key ≡ true)
    × ((j : ApiKey)
        → In j (used_key ∷ [])
        → (i : ApiKey) × In i (key ∷ [])
          × (record j { last_used_at = none } ≡ record i { last_used_at = none }))
authenticate_sound_example = authenticate_sound digest 20 (key ∷ []) header bearing

abbrev second_key : ApiKey
second_key = record key { id = 2; prefix = 98 ∷ [] }

abbrev access : AccessDb
access = record {
  users = user ∷ [];
  memberships = partner ∷ member ∷ record partner { fund_id = 2 } ∷ [];
  api_keys = key ∷ second_key ∷ [];
  next_user_id = 9;
  next_key_id = 9;
}

abbrev revoked : AccessDb
revoked = record access { api_keys = record key { revoked_at = some 30 } ∷ second_key ∷ [] }

revoking :
    (revoke_api_key (97 ∷ []) 30 access ≡ ok revoked)
    × (revoke_api_key (97 ∷ []) 31 revoked ≡ err command_error)
unfolding revoke_api_key
revoking = (refl, refl)

-- fl_b.s
accepted :
    verify_key digest 40 revoked.api_keys (102 ∷ 108 ∷ 95 ∷ 98 ∷ 46 ∷ 115 ∷ []) ≡ some second_key
unfolding verify_key
accepted = refl

verify_key-revoke_api_key_example : same_text second_key.prefix (97 ∷ []) ≡ false
verify_key-revoke_api_key_example =
    verify_key-revoke_api_key digest (97 ∷ []) 30 access revoking.0 40
      (102 ∷ 108 ∷ 95 ∷ 98 ∷ 46 ∷ 115 ∷ []) second_key accepted

abbrev demo_id : DemoName → ℕ
demo_id demo_fund = 500
demo_id (demo_lp i) = 600 + i
demo_id (sandbox_fund d) = 700 + d
demo_id (sandbox_lp i) = 800 + i

abbrev database : {A : Type 0} → Result (A × Db) → Db
database (err e) = world
database (ok (value, db)) = db

abbrev fund : Fund
fund = record { id = 704; base_currency = 826 }

-- the database with the sandbox of the fourth day
abbrev opened : Db
opened = database (open_sandbox_fund demo_id 4 2026 world)

opening : open_sandbox_fund demo_id 4 2026 world ≡ ok (fund, opened)
unfolding open_sandbox_fund ensure_fund ensure_commitment ensure_period open_fund_accounts date
opening = refl

open_sandbox_fund_again_example : open_sandbox_fund demo_id 4 2026 opened ≡ ok (fund, opened)
open_sandbox_fund_again_example = open_sandbox_fund_again demo_id 4 2026 world opening

access-IsSingle : IsSingle access.memberships
access-IsSingle user fund = ground arith

abbrev rotated : AccessDb
rotated = record access {
  memberships =
      member ∷ record { user_id = 3; fund_id = 704; role = controller; lp_id = none } ∷ [];
}

rotating : rotate_sandbox demo_id 30 4 2026 world access ≡ ok ((fund, user), opened, rotated)
unfolding rotate_sandbox set_membership open_sandbox_fund ensure_fund ensure_commitment
    ensure_period open_fund_accounts date
rotating = refl

rotate_sandbox-memberships_example :
    filter (λ m. m.user_id == 3) rotated.memberships
    ≡ record { user_id = 3; fund_id = 704; role = controller; lp_id = none } ∷ []
rotate_sandbox-memberships_example =
    rotate_sandbox-memberships demo_id 30 4 2026 world access access-IsSingle rotating
