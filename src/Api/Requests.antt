-- ===== src/Api/Requests.antt =====
-- What a request carries: the helpers of api/views.py and the request serializers of
-- api/serializers.py. The fields of a body are the framework's: `Fields` says what it makes of a raw
-- value under the limits that the serializer declares.
use fund_ledger.Base.{
  ℕ, ◌-◌, ◌*◌, ◌^◌, ◌≤◌, ◌≡◌, Bool, not, ◌&&◌, ◌||◌, Option, none, some, [], ◌∷◌, ◌==◌, ltb, leb,
  length, all, map_or, if◌then◌else◌,
}
use fund_ledger.Base.Int.{ℤ, pos, abs}
use fund_ledger.Ledger.Model.{Classification}
use fund_ledger.Access.Keys.{Text, is_blank}
use fund_ledger.Api.Errors.{
  Handled, failed, handled, framework, validation_error, ◌>>=◌, ◌>>◌, refuse_if,
}

-- `str.strip()`, of the characters that a header can have
abbrev pub is_space : ℕ → Bool
is_space c = (leb 9 c && leb c 13) || ((leb 28 c && leb c 32) || ((c == 133) || (c == 160)))

abbrev pub lstrip : Text → Text
lstrip [] = []
lstrip (c ∷ cs) = let rest = lstrip cs in if is_space c then rest else c ∷ cs

abbrev pub is_space_text : Text → Bool
is_space_text cs = all is_space cs

abbrev pub rstrip : Text → Text
rstrip [] = []
rstrip (c ∷ cs) = if is_space_text (c ∷ cs) then [] else c ∷ rstrip cs

abbrev pub strip : Text → Text
strip cs = rstrip (lstrip cs)

-- [A-Za-z0-9._:-]
abbrev pub is_key_character : ℕ → Bool
is_key_character c =
    (leb 65 c && leb c 90)
    || ((leb 97 c && leb c 122)
        || ((leb 48 c && leb c 57) || ((c == 46) || ((c == 95) || ((c == 58) || (c == 45))))))

-- IDEMPOTENCY_KEY_PATTERN.fullmatch
abbrev pub is_key : Text → Bool
is_key cs = leb 1 (length cs) && (leb (length cs) 255 && all is_key_character cs)

-- `idempotency_key`, of the header if there is one
unfoldable pub idempotency_key : Option Text → Handled Text
idempotency_key header =
    let key = strip (map_or header [] (λ cs. cs)) in
    do
      refuse_if (is_blank key) validation_error
      refuse_if (not (is_key key)) validation_error
      handled key

-- what `parse_datetime` reads: an instant with an offset, or a local time
pub data Stamp : Type 0 where
  aware naive : ℕ → Stamp

abbrev pub in_utc : Stamp → ℕ
in_utc (aware t) = t
in_utc (naive t) = t

abbrev pub parsed_or : Option Stamp → Handled (Option ℕ)
parsed_or none = failed (framework validation_error)
parsed_or (some s) = handled (some (in_utc s))

-- `parse_as_of`; a local time is taken as UTC
unfoldable pub parse_as_of : (Text → Option Stamp) → Option Text → Handled (Option ℕ)
parse_as_of parse_datetime none = handled none
parse_as_of parse_datetime (some raw) = parsed_or (parse_datetime raw)

-- The fields of the framework, on raw values: a decimal is c / 10^k.
pub record Fields : Type 0 where
  pub decimal_field : (max_digits decimal_places : ℕ) → (min_value : ℕ) → ℕ → Option (ℤ × ℕ)
  pub date_field : ℕ → Option ℕ
  pub choice_field : ℕ → Option Classification

-- What the framework promises of DecimalField: no more places than are declared, and no less than
-- the least value, which is min_value / 10^decimal_places.
abbrev pub IsChecked : Fields → Type 0
IsChecked f =
    (digits places least raw : ℕ) (c : ℤ) (k : ℕ)
    → f.decimal_field digits places least raw ≡ some (c, k)
    → (k ≤ places) × (c ≡ pos (abs c)) × (least ≤ abs c * 10 ^ (places - k))

-- MONEY_IN
abbrev pub money_in : Fields → ℕ → Option (ℤ × ℕ)
money_in f raw = f.decimal_field 18 2 1 raw

abbrev pub or_invalid : {A : Type 0} → Option A → Handled A
or_invalid none = failed (framework validation_error)
or_invalid (some a) = handled a

-- the raw members of a body; a missing one is none
pub record CallForm : Type 0 where
  pub total_amount : Option ℕ
  pub notice_date : Option ℕ
  pub due_date : Option ℕ

pub record CallBody : Type 0 where
  pub total : ℤ
  pub places : ℕ
  pub notice_date : ℕ
  pub due_date : ℕ

-- a required field
abbrev pub required : {A : Type 0} → (ℕ → Option A) → Option ℕ → Handled A
required field none = failed (framework validation_error)
required field (some raw) = or_invalid (field raw)

-- CapitalCallRequestSerializer
unfoldable pub validate_call : Fields → CallForm → Handled CallBody
validate_call f form = do
  (total, places) ← required (money_in f) form.total_amount
  notice ← required f.date_field form.notice_date
  due ← required f.date_field form.due_date
  refuse_if (ltb due notice) validation_error
  handled (record { total = total; places = places; notice_date = notice; due_date = due })

pub record DistributionForm : Type 0 where
  pub total_amount : Option ℕ
  pub payment_date : Option ℕ
  pub classification : Option ℕ

pub record DistributionBody : Type 0 where
  pub total : ℤ
  pub places : ℕ
  pub payment_date : ℕ
  pub classification : Classification

-- DistributionRequestSerializer
unfoldable pub validate_distribution : Fields → DistributionForm → Handled DistributionBody
validate_distribution f form = do
  (total, places) ← required (money_in f) form.total_amount
  payment ← required f.date_field form.payment_date
  classification ← required f.choice_field form.classification
  handled (record {
    total = total;
    places = places;
    payment_date = payment;
    classification = classification;
  })

-- ReverseRequestSerializer: the date is optional
unfoldable pub validate_reverse : Fields → Option ℕ → Handled (Option ℕ)
validate_reverse f none = handled none
validate_reverse f (some raw) = or_invalid (f.date_field raw) >>= λ on. handled (some on)
