-- ===== src/Lib.antt =====
-- Verification of the backend of the multimodal generation platform: its credit ledger, its job
-- state machine, job handlers and pipelines, its outbox and its provider calls.
--
-- The program and its model. A request for a generation holds credits on the user's grants, runs
-- as a job that the outbox hands to a worker and that moves through a state machine, calls a
-- provider under a rate limiter, and settles or releases its hold. The credit code works on
-- database tables inside an open transaction, and each of its calls is a function here from a
-- session, a record of tables, to a result and the session after it. A call that raises gives no
-- session, since its savepoint is rolled back. A row that the code writes through a shared object
-- is written in the table under its id. A value of a job's parameters is an integer, a text, the
-- credit metadata, None or any other value, and the duration of an asset is a whole number of
-- seconds, as the handlers write it.
--
--   Prelude      shared tests, lists, integers over the native numbers, and results
--   Credit/Code, Credit/Policy     backend/app/credit_policy.py: plans, rates, quotes, cycles
--   Credit/Tables                  backend/app/credit_models.py and identity_models.py: the rows
--   Credit/Lifecycle               backend/app/credit_lifecycle.py: _ensure and ensure_cycle in
--                                  Ensure, change_plan and grant_bonus in Commands
--   Credit/Accounting              backend/app/credit_accounting.py: reserve in Reserve, settle and
--                                  release in Terminal, _ledger_coherent and _reservation_coherent in
--                                  Check
--   Job                            backend/app/models.py (Job) and backend/app/state_machine.py, with
--                                  the claim of backend/app/services/jobs/tasks.py in Claim
--   Outbox                         backend/app/services/jobs/outbox.py and outbox_dispatcher.py, with
--                                  exception_code of enqueue.py; repair.py and dispatch_job of
--                                  enqueue.py in Repair
--   Runner                         backend/app/services/jobs/runner.py: poll_once,
--                                  resume_polling_jobs, shutdown, _sweep_orphaned_jobs and
--                                  _mark_job_failed
--   RateLimit                      backend/app/services/vertex/rate_limit.py
--   Provider                       backend/app/services/vertex/retry.py, with errors.py in Errors
--   Credit/Contract                the abstract view that the accounting gives its callers
--   Generation                     backend/app/generation_credit.py: _estimate and admit_generation,
--                                  with _parse, _usage and terminalize_generation in Terminal
--   Handler                        backend/app/services/jobs/handlers.py: _mark_failed and
--                                  _public_error, with the transactions in Steps, handle_t2i in
--                                  Image, handle_t2v, handle_i2v and handle in Video
--   Ownership                      backend/app/ownership.py (OwnershipAccess): job, enhancement and
--                                  asset, with file_asset in Files and validate_read_jobs in
--                                  Validation
--   Usage                          backend/app/personal_usage.py: read_personal_usage
--   Prompt                         backend/app/prompt_credit.py and the presets of
--                                  backend/app/prompt_enhancement.py, with
--                                  execute_prompt_enhancement in Execute
--   Pipeline                       backend/app/ownership.py (validate_execution_references), with
--                                  backend/app/master_work.py in Cancel and
--                                  backend/app/services/jobs/pipeline_link.py in Link
--
-- Choices. A UUID is a number, and uuid4 is a stream of ids in the session. An instant is the
-- number of microseconds since datetime.min in UTC. The range checks of 64-bit columns are
-- kept; counters that a CHECK constraint keeps from being negative are naturals. A text that is
-- compared with a fixed set of names is an enumeration with one more constructor for any other
-- text. A ledger event's key is the prefix and the id it is built from. The limiter's clock has
-- exact ticks. The type checks that Python does at run time are done by the signatures. The
-- parser of a UUID and its two texts, Python's regular expressions and str methods, the handler
-- of a claimed job and the dispatcher of an outbox event are parameters. The loops are
-- recursions on lists, and the loop of with_retry on the number of attempts left, which
-- max_attempts bounds. The loop of acquire runs over the clock readings of its rounds. A
-- handler runs alone on its rows, and each of its calls reads the clock once; it returns the
-- rows of its last commit. A task of the in-process runner is the id of its job and whether it is
-- done. What the prompt enhancer plans and answers, and what other sessions commit while it is
-- called, are arguments. A dictionary by meter is a function, and a temperature is in tenths.
--
-- Not modelled: database faults (DBAPIError) and lock waits; the prompt enhancer's texts and
-- parsing, authentication, the HTTP interface, the master's views and commands, provider clients,
-- storage, metrics, migrations, evaluations and scripts, which are I/O, queries for display, or
-- tooling.
pub mod Prelude
pub mod Job
pub mod Outbox
pub mod RateLimit
pub mod Provider
pub mod Credit
pub mod Generation
pub mod Pipeline
pub mod Handler
pub mod Runner
pub mod Ownership
pub mod Usage
pub mod Prompt
