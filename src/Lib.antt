-- ===== src/Lib.antt =====
-- ARGUS web intelligence: a service that collects evidence from the web for other programs. The API
-- admits collections into a queue in PostgreSQL, workers claim them under leases, run the tasks of a
-- collection with a browser, and write what they find back under the lease. Recipes keep what has
-- worked in the browser for a site, and a mailbox of files carries CAPTCHA challenges to a person and
-- the answers back.
--
-- The parts, with paths from the root of the repository:
-- - Prelude: Boolean tests, lists, options, `str.strip` and parts of `str.casefold`, sorting as ORDER
--   BY does it (Prelude/Order), texts in the order of their code points (Prelude/Collation), and
--   methods that change a state and may raise (Prelude/Action): what was written before an exception
--   stays written, unless `transaction` rolls it back.
-- - Sql: the statements that the storage modules send, over tables as lists of rows with a primary key
--   (`find`, `upsert`, `update_where`, `delete_where`, …), and what a look-up by key sees after each
--   (Sql/Laws).
-- - Contracts: the records of src/argus/contracts/models.py and src/argus/recipes/models.py. A time is
--   a number of microseconds, a coordinate a signed number of 10⁻⁷.
-- - Storage: src/argus/storage/postgres.py, fenced_postgres.py, content_postgres.py, lease_fencing.py
--   and the tables of postgres_migrations.py, which are the fields of `Database`.
--     Storage/Collections: create_collection, get_collection, update_collection.
--     Storage/Admission: create_collection_idempotent, with the window over a key and the limits on
--     the queue, in Replay and Capacity.
--     Storage/Queue: the registry of workers, claim_next_collection, renew_collection_lease and
--     release_collection_lease. A claim is two statements; Taking, Selection and Claiming say what
--     they do, Leasing what renewals do, and History follows leases along calls of any workers in any
--     order. Metrics is queue_metrics.
--     Storage/Fencing: the writes of a worker under its lease (update_collection, add_observation,
--     add_evidence, add_snapshot) and what becomes of exceptions of the driver. Lapsed follows
--     leases along writes, and Stale is about a worker whose lease another has taken.
--     Storage/Commits: commit_task_success, one transaction for the results of a task and its
--     checkpoint; Atomic says what it does, Interrupted what is left when the driver raises in it.
--     Storage/Recipes: save_recipe, get_recipe and prune_recipe_versions.
--     Storage/Reads: the lists of collections, observations and evidence, and latest_snapshot.
--     Storage/Retention: run_retention, the deletion of what is old in batches.
-- - Orchestrator: the loop of src/argus/orchestrator/atomic.py, with the methods that it inherits from
--   src/argus/orchestrator/service.py and the tasks of src/argus/sources/base.py.
--     Orchestrator/Tasks: tasks as JSON, and the merge of queues (_merge_tasks), in Resumed and Merged.
--     Orchestrator/Breaker: _apply_source_block_circuit_breaker, in Opening.
--     Orchestrator/Branch: _expand_historical. Orchestrator/Percent: the percentage that is shown.
--     Orchestrator/Turn: what one task leaves, by the way its fetch ended.
--     Orchestrator/Process: the loop of _process_tasks. Turns says what a turn does to the variables,
--     Runs what every run keeps, Ends that it ends, Recovery and Replay what is stored meanwhile.
--     Orchestrator/Final: the end of _process_tasks, and its status in Final/Status.
--     Orchestrator/Planning: _initial_tasks, _direct_no_discovery_tasks and
--     _discover_uncovered_intents, whose budget is in Planning/Budget.
--     Orchestrator/Run: _run, which joins planning and the loop, and its handlers; Run/Ended says what
--     it leaves behind.
--     Orchestrator/Lifecycle: submit, cancel, start and result, with cancel against the database in
--     Lifecycle/Cancelled.
--     Orchestrator/Postgres: FencedPostgresRepository as the repository of the loop.
-- - Worker: the claim loop and the stop of src/argus/worker.py, over the calls of the queue as an
--   interface; Worker/Bounded says how many collections a worker has at once.
-- - Recipes: RecipeManager of src/argus/recipes/service.py, over Storage/Recipes. The recipe that the
--   caller holds is part of the state, since the methods change it in place.
-- - Captcha: FileCaptchaBroker of src/argus/human_interaction.py: the calls (Captcha/Calls), the lists
--   and waiting loops (Captcha/Waiting). Consistency, Preservation and History are about the files
--   under any order of calls, Delivery about the way of an answer, Isolation about consumers.
--
-- How the code is carried over. NOW() and the clock are arguments, constant in a transaction. A
-- subtraction of a duration from a time is moved to the other side of its comparison, so that
-- nothing stops at 0. A statement of the driver may raise: `outage` and its like are the exception
-- that it raises, and it then writes nothing; in a task commit it may be any statement
-- (`Interruption`), and the transaction rolls back those before it. An error whose statement, or
-- COMMIT, was carried out nevertheless is not modelled. The fence, a context variable, is an
-- argument. The order of texts is the collation of the database, a parameter with the laws of a
-- total order.
--
-- Loops. The claim loop of the repository has no bound in the code; here it runs over the rounds
-- that the environment makes (`Round`: which rows others hold locked, what they commit between the
-- two statements), and answers `none` while it still runs when they are used up. The waiting loops
-- run over the turns before their deadline (`Poll`), and end with a time-out after the last. The
-- loop over tasks runs over the turns that the environment makes (`Turn`: the clock, and how the
-- fetch of the task ends), and says `out_of_turns` while it still runs when they are used up. The
-- loop of a worker runs over the turns until it is stopped (`Worker.Round`: which tasks are done,
-- and the check of the language model). All other loops are recursion on lists.
--
-- Not modelled: connections, pools, migrations, logs and the bodies of rows as JSON texts; foreign
-- keys, since the writers test the collection themselves; the embedded SQLite variant; the network,
-- the browser and the sources; parsers of documents; the semaphore of the orchestrator, and its
-- variants; the start, the heartbeats and the probe of a worker; the web framework, configuration
-- and command line. The test for a UUID in the mailbox and the host name of a URL are parameters,
-- as are the formats of times and of numbers of seconds.
mod Prelude
pub mod Sql
pub mod Contracts
pub mod Storage
pub mod Captcha
pub mod Recipes
pub mod Orchestrator
pub mod Worker
