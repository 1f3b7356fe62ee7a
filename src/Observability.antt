-- ===== src/Observability.antt =====
-- The request id of observability/middleware.py. What is logged, and how long a request takes, is
-- left out.
mod Tests
use fund_ledger.Base.{
  ℕ, Bool, true, false, ◌&&◌, ◌||◌, List, [], ◌∷◌, ◌==◌, leb, length, all, if◌then◌else◌,
}
use fund_ledger.Access.Keys.{Text}

abbrev pub is_safe_character : ℕ → Bool
is_safe_character c =
    (leb 65 c && leb c 90)
    || ((leb 97 c && leb c 122)
        || ((leb 48 c && leb c 57) || ((c == 46) || ((c == 95) || (c == 45)))))

-- what `$` is matched against: the text, or the text before a line feed that ends it
abbrev pub without_last_feed : Text → Text
without_last_feed [] = []
without_last_feed (c ∷ []) = if c == 10 then [] else c ∷ []
without_last_feed (c ∷ d ∷ cs) = c ∷ without_last_feed (d ∷ cs)

-- _SAFE_REQUEST_ID.match
unfoldable pub is_safe_request_id : Text → Bool
is_safe_request_id incoming =
    let cs = without_last_feed incoming in
    leb 1 (length cs) && (leb (length cs) 64 && all is_safe_character cs)

-- the id of a request, where `fresh` is that of uuid4().hex; an absent header reads as empty
unfoldable pub request_id : Text → Text → Text
unfolding is_safe_request_id
request_id fresh incoming = if is_safe_request_id incoming then incoming else fresh

-- `RequestIDMiddleware.__call__`: the view runs with the id, and its response carries it
unfoldable pub with_request_id : {R : Type 0} → (Text → R) → Text → Text → R × Text
unfolding request_id
with_request_id get_response fresh incoming =
    let id_ = request_id fresh incoming in (get_response id_, id_)
