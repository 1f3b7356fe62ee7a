-- ===== src/Access/Authentication.antt =====
-- access/authentication.py: the header `Authorization: Bearer fl_<prefix>.<secret>`.
pub mod Bearer
use fund_ledger.Base.{
  ℕ, ◌+◌, Bool, true, false, not, ◌&&◌, ◌||◌, Option, none, some, List, [], ◌∷◌, ◌==◌, leb, ltb,
  all, map, if◌then◌else◌,
}
use fund_ledger.Access.Keys.{Text, ApiKey, same_text, is_blank, verify_key, record_use}

-- `bytes.split()`: the words between runs of white space
abbrev pub is_white : ℕ → Bool
is_white c = (leb 9 c && leb c 13) || (c == 32)

abbrev pub keep_word : Text → List Text → List Text
keep_word w ws = if is_blank w then ws else w ∷ ws

-- the word that the text begins with, and the words after it
abbrev pub words_from : Text → Text × List Text
words_from [] = ([], [])
words_from (c ∷ cs) =
    let (w, ws) = words_from cs in if is_white c then ([], keep_word w ws) else (c ∷ w, ws)

abbrev pub split : Text → List Text
split cs = let (w, ws) = words_from cs in keep_word w ws

-- `bytes.lower()`
abbrev pub lower : Text → Text
lower cs = map (λ c. if leb 65 c && leb c 90 then c + 32 else c) cs

abbrev pub bearer : Text
bearer = 98 ∷ 101 ∷ 97 ∷ 114 ∷ 101 ∷ 114 ∷ []

-- `decode("ascii")` succeeds
abbrev pub is_ascii : Text → Bool
is_ascii cs = all (λ c. ltb c 128) cs

-- how `authenticate` ends: with None, with AuthenticationFailed, or with the key and its user, and
-- the table of keys after the use was recorded
pub data Authentication : Type 0 where
  anonymous refused : Authentication
  authenticated : ApiKey → List ApiKey → Authentication

abbrev pub use_key : ℕ → List ApiKey → Option ApiKey → Authentication
use_key now keys none = refused
use_key now keys (some k) = authenticated k (record_use now k keys)

unfoldable pub authenticate_parts : (Text → ℕ) → ℕ → List ApiKey → List Text → Authentication
authenticate_parts digest now keys [] = anonymous
authenticate_parts digest now keys (scheme ∷ rest) =
    if not (same_text (lower scheme) bearer) then anonymous else elim rest [
      | [] ↦ refused
      | raw ∷ [] ↦
          if is_ascii raw then use_key now keys (verify_key digest now keys raw) else refused
      | raw ∷ more ∷ others ↦ refused
    ]

-- `ApiKeyAuthentication.authenticate`
unfoldable pub authenticate : (Text → ℕ) → ℕ → List ApiKey → Text → Authentication
unfolding authenticate_parts
authenticate digest now keys header = authenticate_parts digest now keys (split header)
