-- ===== src/Lib.antt =====
-- Scientific Research Radar: a service that searches for papers on a topic, has a model assess and
-- summarize them in stages, and sends a briefing. A request or a schedule submits a run; a worker
-- claims it and executes its stages under a lease; each stage's output is parsed, validated and
-- stored; a quality decision ends the run; a ledger counts runs and papers against the plan of the
-- account.
--
-- Parts and files (paths from the repository's root):
--
-- Prelude/ holds numbers, lists, the result type `Outcome` of code that may raise, sets of texts,
-- and dictionaries built from lists.
--
-- Radar/ models backend/app/radar. Contracts (contracts.py, one record for each class, one data
-- type for each literal type), Validators (the `model_validator` methods, `to_output`), Validation
-- (validation.py: `validate_discovery`, `validate_summaries`, `validate_trends`,
-- `validate_briefing`), Period (`exclude_out_of_period_papers`), StageInputs (stage_inputs.py:
-- `summary_input`, `trend_input`, `briefing_input`), Sources
-- (backend/app/schemas/source_content.py), Evidence (evidence.py), Quality (quality.py:
-- `evaluate_quality`). Agreement, Selection, Traced, Constrained and Cleared hold theorems.
--
-- Runs/ models backend/app/models/digest_run.py (Model),
-- backend/app/repositories/run_state_repository.py (State, Retry; Rows has lemmas on rows), the
-- feedback statement of digest_run_repository.py (Feedback), and backend/app/radar/lease.py
-- (Lease) and lifecycle.py (Lifecycle). A statement is a function on the list of rows with its row
-- count; `claim_next` has two statements, and what other sessions commit between them is an
-- argument. Steps takes the transactions as a relation on tables, Claims and Offer have the
-- theorems on claiming, Ending those on the transactions that end a run. A failure is written by
-- primary key on a row that was read before, so as a step it is not fenced.
--
-- RateLimit models backend/app/services/rate_limit_service.py and the budget of a run in
-- backend/app/radar/submission.py.
--
-- Quota/ models backend/app/services/billing_types.py and billing_renewal_policy.py (Plans, with
-- `available` of billing_policy.py), subscription_access_service.py (Rules for `totals` and
-- `assess`, Ledger for `reserve` and `settle`, Account for `window` and `free_digest_ids`, Details
-- for `check_details`) and subscription_observation_service.py (`reasons` in Rules, its own ledger
-- in Observation). What `resolve` answers is an argument of the rules. Sums, Bounds and Upgrades
-- hold lemmas and theorems.
--
-- Schedule/ models backend/app/scheduler/recurrence.py.
--
-- Pipeline/ models backend/app/radar/runner.py with
-- backend/app/repositories/run_result_repository.py. Model has the state (the run as committed,
-- the answers of the provider, the requests made) and its monad, Accept what is done with an
-- answer before it is saved, Saves what is saved, Batches and Stages the four `_execute_*`
-- methods, Execute `execute_run`. Sets, Batched, Summarized, Evidenced, Complete, Answered,
-- Unchanged, Kept, Ends and Ownership hold the theorems. The stages run on the row as its worker
-- saves it; what other sessions commit meanwhile is seen when the row is read again, before the
-- run ends.
--
-- Client/ models `execute` of backend/app/radar/client.py (Calls) with request_accounting.py and
-- backend/app/repositories/radar_request_repository.py (Accounting), over a state with the rows of
-- requests, the calls' answers and the clock (Model). Quiet, Ends, Submissions, Recorded and
-- Accounted hold the theorems.
--
-- Billing/ models backend/app/services/billing_payment_rules.py: Json is the provider's JSON with
-- Python's truth values, equality and `get`, Types the records of billing_types.py, Rules the
-- checks (Rules/Evidence those on the parts of an invoice), Prices `expected_invoice_price`.
-- Verified, Order, Settled, Applied and InForce hold the theorems.
--
-- Conventions. A UUID, a time in microseconds and a date's ordinal are natural numbers. A clock, a
-- fresh id, a hash, a text of a date and the libraries for calendar, zones, URLs and regular
-- expressions are arguments; what a theorem needs of them is a hypothesis. A session that reads
-- what it wrote is a function on the table; several sessions are a sequence of steps. Messages are
-- kept where code compares or stores them.
--
-- Bounds and fuel. Recursion is on lists, except for the second loop of `around`, which runs on
-- fuel: a day for each index up to now and two more. The occurrences are at least a day apart on
-- the wall clock and an offset is less than a day, so the loop ends before (Schedule/Around). The
-- first loop counts down. The loop over batches has a round for each paper (Pipeline/Batches). The
-- loop that polls a response has a round for each second of its time limit and one more, which is
-- enough where the interval is not 0 (Client/Ends).
--
-- Not modelled: the HTTP interface, the table declarations of other parts, remote clients (Stripe,
-- e-mail, metadata), prompts, costs, billing commands, the front end and deployment, since they
-- are glue, remote or text; dispatch and account states, which a model of their own would need.
pub mod Prelude
pub mod Radar
pub mod Runs
pub mod RateLimit
pub mod Quota
pub mod Schedule
pub mod Client
pub mod Billing
pub mod Pipeline
