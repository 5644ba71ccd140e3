-- ===== src/Lib.antt =====
-- A verification library for the backend of the revenue-assurance console: an HTTP service over one
-- PostgreSQL database, with a worker for reports.
--
-- The program. Handlers (app/modules/*/router.py) call the services (app/modules/*/service.py), which
-- read and write the tables of app/modules/*/models.py through one SQLAlchemy session for a request
-- (app/core/database.py). The caller is found from a JSON web token (app/core/deps.py,
-- app/core/security.py), and what it may do from its role's matrix (app/core/rbac.py). Exceptions
-- become responses in app/core/errors.py. A worker (app/workers/tasks.py) writes the files of reports.
--
-- The files.
--   Base            texts, decimals, floats (Doubles), dictionaries, tables as lists of rows,
--                   numbered references, unique columns (Keys), ORDER BY and pages (Order)
--   Models          app/modules/*/models.py: the rows of each table, and the database `Db`
--   Core/Errors     app/core/errors.py: the exceptions `Exc`, and `handle`, which answers them
--   Core/World      the settings, the clock, the random values, and the
--                   third-party calls: PyJWT, argon2-cffi, bcrypt, PostgreSQL's `lower` and its
--                   collation
--   Core/Exec       app/core/database.py: `Exec`, a computation on a session's `Tx` that returns or
--                   raises; `request` is `get_session` around a handler
--   Core/Holds      what a computation keeps of the database, one rule for each way to go on
--   Core/Rbac       app/core/rbac.py; Core/Rbac/Defaults: what the default matrices allow
--   Core/Passwords  app/core/security.py: `hash_password`, `verify_password`, `needs_rehash`
--   Core/Tokens     app/core/security.py: the two kinds of tokens
--   Core/Deps       app/core/deps.py: `get_current_principal` and `require`
--   Core/Config     app/core/config.py: the settings, their defaults, and what is computed from them
--   Core/Logging    app/core/logging.py: the context variables, and what an entry of the log carries
--   Core/Middleware app/core/middleware.py: `client_ip`; Dispatch: `dispatch`; Laws
--   Core/Redis      app/core/redis.py
--   Identity        app/modules/identity: Sessions, Login, Users, Roles, Audit, Profile (service.py),
--                   Rows (what the flush of a row checks), Lists (list_users, list_roles, list_audit
--                   and their handlers), Routes and Routes/Admin (router.py)
--   Reporting       app/modules/reporting: Service (with `download_report` of router.py), Sizes
--                   (`format_bytes`), Routes (router.py);
--                   Worker (app/workers/tasks.py); References: requests and jobs together; Delivery:
--                   from a request to the download
--   Assurance       app/modules/assurance: Payloads (schemas.py), Service and Reads
--                   (service.py), Routes (handlers; those
--                   that read are in Reads), Cases, Comments, Listing;
--                   Recon: recon_records; Summary: recon_summary; Summary/Rates: the match rate
--   Operations      app/modules/operations: Service, Routes, Laws, Decoders; Kpis: get_kpis, get_runs,
--                   list_alerts and their handlers; Stages: get_stages
--   Meta            app/modules/meta/router.py: health, readiness, dashboard_kpis
--   Integrations    app/integrations: Held (a module global that holds a client), Clickhouse (the
--                   errors of `query`, which is what the services use), Clickhouse/Client (the client
--                   itself), Clickhouse/Pool (its laws), Clickhouse/Ident (the quoted name of the
--                   database), RaPostgres, Airflow; Shutdown: app/core/integrations_shutdown.py and
--                   the `lifespan` of app/main.py
--   Migrations      migrations/versions: Schema (what the operations do to tables and indexes, which
--                   share their names), Initial and Extended (the
--                   two revisions), Orm (the columns of app/modules/*/models.py), Frame, Roundtrip;
--                   Environment: migrations/env.py
--   Seed            app/seed.py: Rows, and Run, the run; Keys, Steps, Rerun: a second run
--   System          the service as a whole: `Call`, a request to any of the handlers that use the
--                   database, `serve`, which answers it, and `Reach`, the runs of requests and jobs
--                   of the worker. Stable: what an invariant has to withstand; Sessions, Accounts,
--                   Others, Handlers, Reads, Figures: that every handler keeps it; Runs/Kept: that
--                   every run keeps it; Lifecycle, Keys, Ledger, Revocation: the invariants;
--                   Audited: the entry of the audit log that each change writes
--   Examples        a concrete world and rows, on which the theorems are applied
--
-- The state. `Tx` has the committed database, the database as the session sees it, the time of the
-- transaction, and how many readings of the clock and of the random source were made: the n-th one
-- is `clock n`, `uuid_str n`, `uuid_hex n` of the world. A table is the list of its rows in the
-- order of insertion. A flush checks the primary key, the unique indexes, the foreign keys and the
-- CHECK constraints of the row that it writes, and raises `integrity` with the name of the driver's
-- error. One request runs at a time, except in Reporting/References, where a job runs inside a
-- request: a run of System is any sequence of whole requests and jobs.
--
-- What is assumed of code from elsewhere. `ArgonLaws`: a hash that argon2-cffi makes carries its tag,
-- verifies and is current. `JwtLaws`: PyJWT decodes what it encoded until its end, and refuses it
-- after. `IsDocumented`: argon2-cffi and bcrypt raise their documented exceptions. They are
-- hypotheses of the theorems that use them, and Examples has a world where the first two hold.
--
-- Choices. Times are microseconds since 1970, in natural numbers. Python's `lower`, `upper` and
-- `split` are those of ASCII texts. A JSON column is its text, a double its bit pattern, a whole
-- number of a request is not negative. Lengths of columns are left out, and `updated_at` but for
-- cases. Rows that an ORDER BY does not tell apart come in the order of insertion, but in the list
-- of cases, where that order is an argument of each query. The size of a file is rounded to a
-- double before it is divided. The client's address is taken to be one that an INET column takes.
-- A token is of any type; the program only passes it on. What pydantic validates of a request's
-- body is its type here. The decimal text of a number runs on that number as fuel, which is at
-- least the count of its digits.
--
-- Floats. Base/Doubles has Python's floats that are not negative as quotients of a whole number
-- and a power of two, with `float(n)`, division, product and `round(x, 2)` rounded as IEEE 754
-- says, halves to even. The search for the scale runs on 1074 and 1024 steps, the exponents that
-- doubles have. A stored float is its bit pattern.
--
-- Clients. What a library does during a call is an argument of the call, so a history of calls may
-- have any answers. Calls of one client come one after the other: two threads that make a client at
-- the same time are left out. The names of the headers of a response are kept in one spelling.
--
-- Not modelled: the reading of the settings from the environment; the rendering of the log; the routes
-- and the set-up of FastAPI, Celery and the engines; the SQL that is sent to ClickHouse; the rules
-- tables but for their columns, as no code uses them.
pub mod Base
pub mod Models
pub mod Core
pub mod Identity
pub mod Assurance
pub mod Integrations
pub mod Migrations
pub mod Operations
pub mod Meta
pub mod Reporting
pub mod Seed
pub mod System
mod Examples
