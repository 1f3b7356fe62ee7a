-- ===== src/Api/Views/Writes/Again.antt =====
-- A request for a capital call that is sent again.
use fund_ledger.Base.{
  ℕ, ◌≤◌, ◌<◌, ◌≡◌, refl, sym, ap, ◌∙◌, Bool, false, none, some, List, ◌++◌, ==_refl, arith, inr,
}
use fund_ledger.Base.Int.{ℤ}
use fund_ledger.Base.Result.{Result, ok, >>=-returns}
use fund_ledger.Ledger.Decimal.{quantize}
use fund_ledger.Ledger.Model.{Db, CapitalCall, Transfer}
use fund_ledger.Ledger.Idempotency.{Hashing, Others}
use fund_ledger.Ledger.Retry.{deadlock_detected}
use fund_ledger.Operations.Calls.{CallRequest, call_of, call_hash, create_capital_call}
use fund_ledger.Operations.Calls.Once.{create_capital_call_again}
use fund_ledger.Access.Permissions.{operator, FundMembership}
use fund_ledger.Api.Errors.{handled, of_result, >>=-handled, respond}
use fund_ledger.Api.Requests.{idempotency_key, CallForm, validate_call}
use fund_ledger.Api.Views.{Service, Request, Turn, permit}
use fund_ledger.Api.Views.Writes.{call_request, capital_calls_post}
use fund_ledger.Api.Views.Writes.Answers.{retrying-handled, retrying_answers}

-- the same call again finds the document of the first
create_capital_call-replay :
    (x : Hashing) (others : Others) (q : CallRequest) (db : Db) (d : CapitalCall) (c : Bool)
    (db' : Db)
    → create_capital_call x others q db ≡ ok ((d, c), db')
    → (others' : Others) (later : Db) (ts : List Transfer) → later.transfers ≡ db'.transfers ++ ts
    → ((t : Transfer) → call_of t db' ≡ ok d → call_of t later ≡ ok d)
    → create_capital_call x others' q later ≡ ok ((d, false), later)
unfolding create_capital_call
create_capital_call-replay x others q db d c db' h others' later ts grown kept =
    let (amount, size, _) = >>=-returns (quantize q.total q.places) _ h in
    let (amount', t, size', _, same, again) =
      create_capital_call_again x others q db h others' q amount later ts refl size grown in
    let sizes : ◌≡◌ {A = Result ℤ} (ok amount') (ok amount) = sym size' ∙ size in
    let equal : amount' ≡ amount = ground (arith, sizes) in
    again ∙ rw (equal, ==_refl (call_hash x q amount), kept t same) refl

-- Once a request for a capital call was answered with a call, the same request is answered 200 with
-- the same call, and writes nothing: as long as the caller is still let through, an attempt meets no
-- deadlock, and no transfer and no document is lost.
pub capital_calls_post_again :
    (v : Service) (ms : List FundMembership) (turns : ℕ → Turn) (r : Request) (fund : ℕ)
    (form : CallForm) {d : CapitalCall} {c : Bool} {db' : Db}
    → capital_calls_post v ms turns r fund form ≡ handled ((d, c), db')
    → (ms' : List FundMembership) (m : FundMembership) (turns' : ℕ → Turn) (k : ℕ)
      (ts : List Transfer)
    → permit r (ok fund) operator ms' ≡ handled m
    → 1 ≤ k
    → k ≤ 3
    → ((j : ℕ) → 1 ≤ j → j < k → (turns' j).interruption ≡ some deadlock_detected)
    → (turns' k).interruption ≡ none
    → (turns' k).found.transfers ≡ db'.transfers ++ ts
    → ((t : Transfer) → call_of t db' ≡ ok d → call_of t (turns' k).found ≡ ok d)
    → (capital_calls_post v ms' turns' r fund form ≡ handled ((d, false), (turns' k).found))
      × (respond v.framework (capital_calls_post v ms' turns' r fund form)
          ≡ record { status = 200; body = inr d; retry_after = none })
unfolding capital_calls_post respond
capital_calls_post_again v ms turns r fund form {d} {c} {db'} h ms' m turns' k ts allowed low high
      stopped free grown kept =
    let (_, _, h₁) = >>=-handled (permit r (ok fund) operator ms) _ h in
    let (key, keyed, h₂) = >>=-handled (idempotency_key r.idempotency_header) _ h₁ in
    let (body, valid, h₃) = >>=-handled (validate_call v.fields form) _ h₂ in
    let q = call_request v r fund key body in
    let operation = λ (others : Others). create_capital_call v.hashing others q in
    let (n, _, _, called) = retrying-handled operation turns ((d, c), db') h₃ in
    let turn = turns n in
    let replayed =
      create_capital_call-replay v.hashing turn.others q turn.found d c db' called (turns' k).others
        (turns' k).found ts grown kept in
    let answer : capital_calls_post v ms' turns' r fund form
        ≡ handled ((d, false), (turns' k).found) =
      rw (allowed, keyed, valid)
        (retrying_answers operation turns' k low high stopped free ∙ ap of_result replayed) in
    (answer, ap (respond v.framework) answer)
