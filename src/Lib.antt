-- ===== src/Lib.antt =====
-- Fund ledger: a double-entry ledger for private-equity funds, and the operations on it.
--
-- The program is a Django project. Its engine (ledger/) is the only code that writes transfers and
-- entries: a transfer is a list of legs that balance in the fund's base currency, and every balance
-- is a sum over entries. On top of it (operations/) stand capital calls, distributions, investments,
-- fees, valuations, the closing of periods and the statements of limited partners. access/ holds the
-- API keys and the roles, and api/ the views.
--
-- The parts, and the files that model them:
--   Base            shared names, Boolean tests, lists, integers, results and dicts
--   Ledger.Model    the rows of ledger/models.py, funds/models.py and operations/models.py, and the
--                   legs of ledger/legs.py; `Db` is the whole database
--   Ledger.Decimal  Python's Decimal: units of 0.0001 for money, of 0.0000000001 for rates; `quantize`
--                   and `convert` round half to even
--   Ledger.Validate, Ledger.Post
--                   ledger/services.py: validate_legs, and post_transfer with its helpers in the
--                   order of the code (_lock_accounts, _validate_context, price_legs,
--                   _check_balanced, _check_sufficient_funds, the writes, the balance check)
--   Ledger.Locks    the row locks of _lock_accounts, with several transactions at once
--   Ledger.Pricing  ledger/pricing.py: fx_rate_for, convert, price_legs, _absorb_rounding_residual
--   Ledger.Insert   the inserts, with the constraints of ledger/models.py and the triggers of
--                   ledger/migrations/0002_integrity_triggers.py and 0003_period_guards.py
--   Ledger.Queries, Ledger.Reconciliation
--                   ledger/queries.py, ledger/reconciliation.py and the command reconcile
--   Ledger.Idempotency, Ledger.Submit, Ledger.Reverse
--                   ledger/idempotency.py (_run_once and the outcomes of run_idempotent), and
--                   post_transfer_idempotent and reverse_transfer of ledger/services.py
--   Ledger.Retry    ledger/retry.py
--   Ledger.Guards   the append-only triggers and the guard of closed periods, on statements that any
--                   session may send: inserts, updates and deletes of transfers, entries and periods.
--                   `transact` is one transaction of them, with the foreign keys and the deferred
--                   trigger at its end
--   Ledger.Roles    ledger/db_roles.py and the command apply_db_grants
--   Operations.Allocation, Operations.Chart, Operations.Contributions, Operations.Periods,
--   Operations.Statements
--                   the files of operations/ with these names (Contributions is queries.py)
--   Operations.ProRata, Operations.Calls, Operations.Distributions, Operations.Portfolio
--                   operations/services.py: _pro_rata; create_capital_call; create_distribution;
--                   record_investment, charge_fee and record_valuation
--   Access.Keys, Access.Permissions
--                   access/keys.py and access/permissions.py, and the fund that a request is
--                   authorised against
--   Operations.History
--                   every operation above as one step on the database, and the sequences of them
--   Operations.Reference
--                   operations/sandbox.py and operations/management/commands/seed_demo.py
--   Access.Authentication, Access.Commands
--                   access/authentication.py, and the commands of access/management/commands
--   Api.Errors, Api.Requests, Api.Views
--                   api/exceptions.py; the request serializers of api/serializers.py and the readers
--                   of headers and queries in api/views.py; the views
--   Observability   observability/middleware.py
-- The Tests modules run the definitions at small databases and instantiate the theorems there.
--
-- How state is modelled. An operation takes the database and returns an error, or a value and the
-- database after it. A transaction that raises is rolled back, so an error carries no database;
-- only record_investment commits an account before it can fail, and returns that database as well.
-- An operation runs alone: row locks keep other writers of the same accounts out, and Ledger.Locks
-- has the order in which they are taken. Other sessions are modelled where the code is written for
-- them, in _run_once: `Others` says what they commit between the look-up of a key and the creation,
-- and between a failed creation and the next look-up. Ids, dates, instants, currencies and free
-- texts are numbers, of which the code uses the equality and the order; ids that uuid4() makes come
-- from a stream in the database, and nothing is assumed of it: where a uniqueness matters, it is
-- the primary key's.
--
-- Bounds. The decimal context of 28 digits is in `quantize`, and the 20 digits of a column in the
-- inserts; sums of columns are within 28 digits, and the product in `convert` within its 50, so both
-- are exact. The results that are computed from a caller's numbers are rounded to the 28 digits of
-- the context (`in_context`): the product in record_investment, the `abs` in record_valuation, and in
-- `allocate` the sum of the weights, the `abs` of the total and each share. The fuel of
-- `excess_digits` is the number itself, which is more than its digits. All other loops are structural
-- recursion on a list.
--
-- Not modelled: the text of messages, names of people and funds, metrics, logs and waiting times,
-- the parsing and rendering of HTTP, pages, the schema, what commands print, configuration and the
-- load test. Code that is not in the repository is a parameter: SHA-256, the canonical JSON under it
-- and the order of amounts as texts (`Hashing`, and `digest` for API keys); the framework's fields
-- and what it makes of its own exceptions (Api); the ids that uuid5 makes of the demo data's names
-- (`demo_id`), and the texts of its keys.
pub mod Base
pub mod Ledger
pub mod Operations
pub mod Access
pub mod Observability
pub mod Api
