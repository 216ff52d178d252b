-- ===== src/Lib.antt =====
-- The backend of the Naver real estate research portal (backend/app): crawl runs and their life cycle,
-- schedules, accounts and sessions, notifications, and the listings that a crawl finds.
--
-- How the program is put together. A user saves a source URL by asking for an analysis of it; the
-- analysis service inserts a run and hands it to the task queue; a worker claims the run, reports its
-- progress and ends it by saving what it collected, by a failure, or finds it cancelled. Saving
-- recognises each listing, compares it with the last completed run, and records what is new, changed,
-- restored, missing or removed as change events, of which the owner is notified. A schedule
-- asks for the same at its times, under a lock of the source. Accounts own the sources, and every
-- request is made in a session.
--
-- Which file models what:
--   Models          rows of backend/app/models and the enumerations of their checked columns; an id, an
--                   instant in microseconds and a count are natural numbers, a text is a list of codes
--   Locks           backend/app/runtime/local_locks.py: LocalSourceLockManager (acquire, release), and
--                   Locks/Contract, the SourceLockManager protocol of schedule_service.py
--   Runs            the table crawl_runs: its partial unique index (insert_run), _claim_run and
--                   _update_progress of backend/app/tasks/crawl_tasks.py, mark_run_terminal and the
--                   last statements of persist (finish_run) of
--                   backend/app/services/persistence_service.py, and the writes of AnalysisService
--   Analysis        backend/app/services/analysis_service.py, each method of AnalysisService
--   NextRun         calculate_next_run of backend/app/services/schedule_service.py
--   Schedules       the other operations of schedule_service.py (create, patch, delete) with the
--                   payloads of backend/app/schemas/schedule.py
--   Runner          backend/app/services/schedule_runner_service.py: enqueue_due, with
--                   enqueue_with_source_lock of schedule_service.py
--   Auth/Core       normalize_email, validate_password, core/security.py and the table users
--   Auth/Login      login, authenticate, validate_csrf and the ends of sessions of
--                   backend/app/services/auth_service.py
--   Auth/Users      bootstrap_admin, create_user, update_user, passwords of the same file, and the
--                   handler of PATCH /admin/users/{user_id}
--   Guard           backend/app/api/dependencies/auth.py: current_auth and current_admin
--   Notifications   backend/app/services/notification_service.py: notifying a change event, reading,
--                   the settings of a source, and the pages of the list (Notifications/Pages)
--   Keyset          the order by time and id of such a page, and what follows a cursor
--   Listings        backend/app/domain/comparator.py: the states (transition_absence and
--                   transition_presence) and compare_listings (Listings/Compare)
--   Listings/Identity  backend/app/domain/listing_identity.py: keys and choose_existing_listing
--   Persistence     backend/app/services/persistence_service.py: the rows and the transaction (Rows);
--                   what it reads (Records, Comparables); constraints and events (Writes); the
--                   apartment (Apartments), the broker articles (Brokers), the group of a listing and
--                   its state (Groups), one listing (Saving), the listings not found (Absences), and
--                   persist (Persist). Kept says what each part keeps, Effects what the whole does
--   Pipeline        backend/app/tasks/crawl_tasks.py: _execute_pipeline, and crawler/errors.py
--   Prelude         tests on numbers, lists, tables (find, update_where), texts (strip) and words
-- The children of a module hold its proofs, its sample rows (Samples) and its examples (Tests).
--
-- Conventions. A method takes the committed tables with whatever the process draws (ids, salts, tokens,
-- clock readings) and returns its result with the tables after it; an exception is an error value, and
-- the tables that come with it are those the transaction leaves. What other transactions commit
-- between two statements of one method is an argument (`others`, or a `Race`), or the calls of all tasks
-- are one list. A `Race` also says whether a rollback makes the rows that the session has loaded
-- unreadable: with SQLAlchemy's asyncio sessions, reading an expired row is an implicit IO that raises.
--
-- Parameters, for code that is not in the repository: the time zone database (Zone, with the
-- hypothesis IsForward that a later wall clock is a later instant), password hashing, token hashing and
-- lower case (Crypto), URL normalisation by the standard library (`normalize`), the task queue (Queue,
-- and `revoked` for a cancellation),
-- the text of a cursor (Codec, with the hypothesis IsFaithful that decoding undoes encoding), Unicode
-- normalisation and hashing (Hashing), and what saving takes from pydantic, the URL library and the
-- database (World). World also stands for three functions of the repository that are not modelled: the
-- aggregation of broker articles, the mapping of apartment details, and the test of an article's link.
-- The collector of a crawl (Collector) is a parameter too: any progress calls, then any result.
--
-- Bounds. The loop of calculate_next_run tries eight dates, as the code does, and that is enough for
-- every cadence. A client that follows cursors asks for one page more than there are rows, which is
-- enough. Nothing else runs on fuel. The year limit of Python's dates is not modelled.
--
-- Not modelled: the browser and the parsers, because they drive Playwright and read HTML; the Redis
-- locks, the thread pool of the local dispatcher, read-only queries, exports, the other HTTP handlers,
-- migrations and configuration. Of persist, two transactions that insert the same row at one time are
-- not modelled, nor the columns state and missing_count of a group, which nothing reads. Of what
-- the password library raises, only TypeError and ValueError, which verify_password catches, are
-- modelled; the release of a source lock by the runner is taken not to raise.
pub mod Prelude
pub mod Locks
pub mod Models
pub mod Runs
pub mod NextRun
pub mod Analysis
pub mod Auth
pub mod Schedules
pub mod Notifications
pub mod Listings
pub mod Runner
pub mod Keyset
pub mod Persistence
pub mod Pipeline
pub mod Guard
