-- ===== src/Lib.antt =====
-- The Rubika bot, modelled. A webhook takes the updates of the Rubika service, a queue holds them as
-- jobs, a pool of workers hands each job to a chain of plugins, and the plugins read and write a
-- SQLite database and call the Rubika API.
--
-- How the parts go together: app/webhook/router.py checks a request's signature, asks a rate limiter,
-- makes a `Job` of the payload and gives it to `JobQueue.enqueue`, which asks the deduplicator. A worker
-- of app/core/worker.py takes the job and calls `_process_job` of app/main.py, which is
-- `PluginRegistry.dispatch` over the plugins. One of these finds a command and runs its handler
-- (app/services/handlers.py). Beside the workers a janitor trims the tables.
--
-- Where the code is:
-- - Result, Json: what a function of the program does (return or raise), and the values of `json.loads`
--   with `.get`, truth and `str`. A key, an id or a text of an update is such a value, as in the code, so
--   the exceptions for values of another type are there too.
-- - Prelude: the shared names; Python's integers and the `str` methods that the program calls.
-- - Utils/Dedup, RateLimiter, Cache, Stats, Formatting, Message, Security, Links, SafeMath:
--   app/utils/dedup.py, rate_limiter.py, cache.py, stats.py, formatting.py, message.py, security.py,
--   regex.py (the pattern as a regular expression with a matcher), safe_math.py.
-- - Core/Queue, Core/Worker: app/core/queue.py and worker.py. `asyncio.Queue` is its items and its count
--   of unfinished tasks; the workers are interleaved by a step relation, in which a `get` that finds
--   nothing waits with a task for each queue; Core/Worker/Books, Steps and Balance keep count of what the
--   workers hold and of what the waits lose, Effort and Progress of the way to the end.
-- - Core/Client: app/core/rubika_client.py. Calls has one definition per method, the name and the payload
--   that it sends; Retry is `api_call` and `_sleep_before_retry`; Request is the client with its
--   limiters; the limiter is in the file itself.
-- - Db/Tables, Db/Repository, Db/Messages, Db/Migrations: app/db/repository.py and migrations.py. A table
--   is the list of its rows in the order of insertion, a statement of SQL the function that it computes;
--   a schema is its tables, its indexes and its version.
-- - Services/Action is the type of a plugin's or a handler's run: it takes the world (repository, flood
--   events, calls made) and gives a result and the world. Services/Context is the context of
--   app/main.py with the libraries. Services/Plugins, Services/Registry, Services/Commands,
--   Services/Handlers: the files of app/services/plugins and app/services/handlers.py.
--   Services/Keeps and Services/Rows prove that actions keep a property of the world.
--   Services/Dispatcher: app/services/dispatcher.py, a queue and workers of its own that app/main.py does
--   not use, with a step relation.
-- - Webhook/Router, Webhook/Schemas: app/webhook. Bot: app/main.py; Bot/Health: its answers of /health,
--   and what the doctor makes of them.
-- - Cli/Machine: what a tool does to a machine: the commands that it runs, the answers of its user, what it
--   posts; Cli/Machine/Files has `pathlib` and `shutil` on its files. Cli/Machine/Trees and
--   Cli/Machine/Keeps have the lemmas on trees of files and on what a script keeps; Cli/Backup those on a
--   backup beside an installation.
-- - Cli/Botctl: app/cli/botctl.py. Cli/Update, Cli/Configure, Cli/EnvFile, Cli/Doctor and Cli/Maintenance:
--   app/cli/rubikactl.py (update, rollback, status, logs and fix service; configure, webhook-set and
--   install; `read_env`; doctor and queue; db and the other commands of fix). The files under Cli/Doctor
--   are the sections of `doctor`, with the counts of its tables in Checks. Cli/DoctorUtils:
--   app/cli/doctor_utils.py.
-- - Cli/Installer: install.py. The file itself has the texts that are written; Wizard the prompts, Inputs
--   the arguments and `collect_inputs`, Parser the parser, Bootstrap the download of a repository, Steps
--   the functions that change the machine, Main the order in which `main` calls them.
-- - The modules named Tests apply the theorems at concrete inputs.
--
-- Bounds and fuel: numbers are natural and unbounded; where Python's numbers may be negative they are the
-- integers of Prelude/Int. Times are whole numbers of a unit that each file names, and are arguments.
-- `api_call` runs on as much fuel as it may make attempts, one more than retry_attempts; a theorem shows
-- that it always returns. `str(n)` runs n + 1 rounds, of which each drops a digit. A repetition in the
-- matcher of Utils/Links has as much fuel as the text has characters, and each round takes one. The loop of
-- `prompt_validated` has a round more than there are answers, and each round takes one; when the answers are
-- at an end a prompt raises EOFError. All else is structural recursion.
--
-- What is a parameter: HMAC, `json.loads` and `json.dumps`, `uuid4` (an argument of each request),
-- `random`, `re.search` on a filter's word, `ast.parse` and `eval`, Unicode's word characters,
-- Python's `str` of a list or a dict, the answers of the Rubika service, and how late the event loop
-- wakes a sleeper. For the tools: what the programs that they run do to the files and whether they
-- succeed, the environment, `urlparse`, how the names in a directory are listed from the files, and
-- what the doctor finds on the host (Cli/Doctor/Found).
--
-- What is simplified: an update is handled at one instant, and no other update comes between its steps;
-- the ids of chats are compared as texts, also in the cache of groups; SQL statements fail only for
-- parameters that SQLite's driver refuses; case and digits are those of ASCII.
-- The tools meet no links and no permissions: the link of a site of Nginx is a file with the site's text.
-- What they print is left out, and an answer is what rich's prompts return. A path that is given to a
-- tool is absolute and resolved. argparse gets options that are written out and stand apart from their values.
--
-- What is not modelled: `db vacuum` and `db optimize` of app/cli/rubikactl.py, a statement of SQLite each;
-- the parser of app/cli/botctl.py; app/config.py, app/logging_config.py, app/utils/speedcheck.py and
-- app/utils/models_doc.py, which declare, log, measure or are one text; FastAPI, the event loop and
-- SQLite's PRAGMAs.
pub mod Prelude
pub mod Result
pub mod Json
pub mod Utils
pub mod Core
pub mod Db
pub mod Services
pub mod Cli
pub mod Webhook
pub mod Bot
