-- ===== src/Access/Commands/Rotated.antt =====
-- What the sandbox's user can reach after the sandbox was moved to a new day.
use fund_ledger.Base.{
  ℕ, ◌≤◌, ◌≡◌, refl, sym, ap, subst, Bool, true, false, not, none, List, [], ◌∷◌, ◌++◌, ◌==◌,
  ==_refl, ◌⊎◌, Option-cases, find, map, filter, filter-append, any, length, arith, inl, inr,
  Bool-cases, if◌then◌else◌,
}
use fund_ledger.Base.Result.{ok, >>=-returns}
use fund_ledger.Ledger.Model.{Db, Fund}
use fund_ledger.Operations.Reference.{DemoName, open_sandbox_fund}
use fund_ledger.Access.Keys.{User}
use fund_ledger.Access.Permissions.{controller, FundMembership}
use fund_ledger.Access.Commands.{
  AccessDb, ensure_user, is_membership, set_membership, elsewhere, rotate_sandbox,
}

-- membership_one_per_user_fund
abbrev pub IsSingle : List FundMembership → Type 0
IsSingle ms = (user fund : ℕ) → length (filter (is_membership user fund) ms) ≤ 1

abbrev of_user : ℕ → FundMembership → Bool
of_user user m = m.user_id == user

module _ (user fund : ℕ) where
  abbrev row : FundMembership
  row = record { user_id = user; fund_id = fund; role = controller; lp_id = none }

  abbrev kept : List FundMembership → List FundMembership
  kept ms = filter (λ m. not (elsewhere user fund m)) ms

  abbrev written : List FundMembership → List FundMembership
  written ms = map (λ m. if is_membership user fund m then row else m) ms

  -- of the rows that are kept, those of the user are those of the fund
  none_kept :
      (ms : List FundMembership)
      → any (is_membership user fund) (kept ms) ≡ false
      → filter (of_user user) (kept ms) ≡ []
  none_kept [] h = refl
  none_kept (m ∷ ms) h = elim (Bool-cases (elsewhere user fund m)) [
    | inl gone ↦ rw gone (none_kept ms (rw gone at h))
    | inr here ↦ rw here (ground (arith, here, none_kept ms, rw here at h))
  ]

  -- a kept row is the fund's, or another user's
  kept_cases :
      (m : FundMembership)
      → elsewhere user fund m ≡ false
      → (is_membership user fund m ≡ true)
        ⊎ ((is_membership user fund m ≡ false) × (of_user user m ≡ false))
  kept_cases m h = ground arith

  none_written :
      (ms : List FundMembership)
      → length (filter (is_membership user fund) ms) ≡ 0
      → filter (of_user user) (written (kept ms)) ≡ []
  none_written [] h = refl
  none_written (m ∷ ms) h = elim (Bool-cases (elsewhere user fund m)) [
    | inl gone ↦ rw gone (none_written ms (ground (arith, gone, h)))
    | inr here ↦ elim (kept_cases m here) [
      | inl own ↦ absurd (omega (arith, rw own at h))
      | inr (other, foreign) ↦ rw (here, other, foreign) (none_written ms (rw other at h))
    ]
  ]

  one_written :
      (ms : List FundMembership)
      → length (filter (is_membership user fund) ms) ≤ 1
      → any (is_membership user fund) (kept ms) ≡ true
      → filter (of_user user) (written (kept ms)) ≡ row ∷ []
  one_written [] h there = absurd (cc)
  one_written (m ∷ ms) h there = elim (Bool-cases (elsewhere user fund m)) [
    | inl gone ↦ rw gone (one_written ms (ground (arith, gone, h)) (rw gone at there))
    | inr here ↦ elim (kept_cases m here) [
      | inl own ↦
          rw (here, own, ==_refl user) (ap (◌∷◌ row) (none_written ms (omega (arith, rw own at h))))
      | inr (other, foreign) ↦
          rw (here, other, foreign) (one_written ms (rw other at h) (rw (here, other) at there))
    ]
  ]

  set_membership-kept :
      (ms ms' : List FundMembership)
      → length (filter (is_membership user fund) ms) ≤ 1
      → set_membership user fund controller none (kept ms) ≡ ok ms'
      → filter (of_user user) ms' ≡ row ∷ []
  unfolding set_membership
  set_membership-kept ms ms' single h =
      elim (Bool-cases (any (is_membership user fund) (kept ms))) [
        | inl there ↦
            let same : written (kept ms) ≡ ms' = ground (arith, rw (there, set_membership) at h) in
            rw (← same) (one_written ms single there)
        | inr missing ↦
            let same : kept ms ++ (row ∷ []) ≡ ms' =
              ground (arith, rw (missing, set_membership) at h) in
            rw (← same) (
              rw
                (
                  filter-append (of_user user) (kept ms) (row ∷ []),
                  none_kept ms missing,
                  ==_refl user,
                )
                refl)
      ]

ensure_user-memberships :
    (username : ℕ) (a : AccessDb) → (ensure_user username a).1.memberships ≡ a.memberships
unfolding ensure_user
ensure_user-memberships username a =
    elim (Option-cases (find (λ (u : User). u.username == username) a.users)) [
      | inl missing ↦ rw (missing, ensure_user) refl
      | inr (u, found) ↦ rw (found, ensure_user) refl
    ]

-- After the sandbox was moved to a day, the one membership of its user is CONTROLLER of that day's
-- fund: whatever the user could reach before, where a user has one membership for each fund.
pub rotate_sandbox-memberships :
    (demo_id : DemoName → ℕ) (username on year : ℕ) (db : Db) (a : AccessDb) {fund : Fund}
    {user : User} {db' : Db} {b : AccessDb}
    → IsSingle a.memberships
    → rotate_sandbox demo_id username on year db a ≡ ok ((fund, user), db', b)
    → filter (λ m. m.user_id == user.id) b.memberships
      ≡ record { user_id = user.id; fund_id = fund.id; role = controller; lp_id = none } ∷ []
unfolding rotate_sandbox
rotate_sandbox-memberships demo_id username on year db a {fund} {user} {db'} {b} single h =
    let ((f, d), _, h₁) = >>=-returns (open_sandbox_fund demo_id on year db) _ h in
    let u = (ensure_user username a).0 in
    let c = (ensure_user username a).1 in
    let (ms, set, h₂) =
      >>=-returns (set_membership u.id f.id controller none (kept u.id f.id c.memberships)) _ h₁ in
    let of_fund : f ≡ fund = ground (arith, h₂) in
    let of_user : u ≡ user = ground (arith, h₂) in
    let tables : record c { memberships = ms } ≡ b = ground (arith, h₂) in
    let before =
      subst (λ (l : List FundMembership). length (filter (is_membership u.id f.id) l) ≤ 1)
        (sym (ensure_user-memberships username a)) (single u.id f.id) in
    rw (← of_fund, ← of_user, ← tables) (set_membership-kept u.id f.id c.memberships ms before set)
