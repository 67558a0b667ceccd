-- ===== src/Lib.antt =====
-- kra-analysis: the job system, the task runner, the data pipeline and the access control of the racing
-- API, and the post-processing and ranking of predictions.
--
-- Parts and files
--   Jobs/Contract   apps/api/services/job_contract.py: the names of job kinds, actions and statuses,
--                   their normalisation, and the row of a job (apps/api/models/database_models.py).
--   Jobs/Dispatch   JobService._dispatch_task: from an action and the parameters of a job to a call.
--   Jobs/Store      the database session and the state of the service.
--   Jobs/Service    JobService (apps/api/services/job_service.py): create_job, start_job, add_job_log,
--                   get_job, cancel_job, cleanup_old_jobs.
--   Jobs/Queries, Jobs/Statistics
--                   its reading methods: list_jobs, list_jobs_with_total, get_job_logs, get_job_status,
--                   _calculate_progress, get_job_statistics.
--   Jobs/Submit     CollectionJobs.submit_batch_collect (apps/api/services/kra_collection_module.py).
--   Jobs/Tasks      apps/api/tasks/async_tasks.py: the bodies that the runner executes; Composite has
--                   batch_collect and full_pipeline.
--   Jobs/Filed      the invariant of a job's row, and that every operation keeps it; Jobs/History puts
--                   the operations in sequence.
--   Jobs/Quiet, Jobs/Outcomes
--                   what the operations do, branch by branch, with and without database failures.
--   Jobs/Reading    what the reading methods answer.
--   Jobs/Examples   the theorems on concrete requests.
--   Pipelines       apps/api/pipelines/base.py: Context has StageResult and PipelineContext, Stage one
--                   round of the loop of Pipeline.execute, Pipeline the rest of the class; Undo,
--                   Steps, Rounds, Loop and Execution say what an execution does; Examples runs it.
--   Runner          apps/api/infrastructure/background_tasks.py: Task is one task as a machine that is
--                   suspended at its awaits, Events the module's functions and the histories of calls
--                   and wake-ups; Tally, Books, Registry and Health say what the counters and the
--                   statistics are, Ending and Retries how a task ends, Stopping and Cancellation
--                   what a cancelled one does; Examples runs short histories.
--   Predictions     packages/scripts/shared/prediction_postprocessing.py: Conversions reads numbers,
--                   scores and names out of untyped values, Candidate merges and ranks, Source,
--                   Lookups and Supplements read the payload, Report is
--                   postprocess_prediction_candidates. Converts, Merging, Looking, Cards, Ranked,
--                   Accepting, Reports, Sourced and Checked say what each of them gives, and
--                   Guarantees what the whole does.
--   Predictions/Guard
--                   packages/scripts/shared/prediction_output_guard.py, which reads the report and
--                   fills it up to three horses from the race card.
--   Rankings        packages/scripts/shared/alternative_ranking.py: Values and Key read a horse into a
--                   sort key, Ranking is rank_race_entries; Order and Determinism are about its order.
--   Access          apps/api/policy and apps/api/dependencies/auth.py: Policy has principals, actions and
--                   permissions, Keys the row of an API key and verify_api_key, Requests the
--                   dependencies of a route, Resources the access to a resource by its owner, Usage the
--                   usage events and apps/api/middleware/policy_accounting.py, RateLimit and KeyLimit
--                   apps/api/middleware/rate_limit.py. Granted and Admitted say what an admitted request
--                   has shown, Counting and Limits how many are admitted, Races what
--                   happens between the select and the commit of verify_api_key, Limited what the rate limiter
--                   does. The reservation of an admitted request (Requests) is what Usage records.
--   Prelude         shared types, the monad Exec of a state and an exception, and its logics:
--                   Exec/Keeps (invariants), Exec/Runs (from a state to a result and a state),
--                   Exec/Always and Exec/Post (results that do not depend on the state),
--                   Exec/Returned (what an answer says of the steps before it); Sorting and Reordering
--                   for Python's stable sort, Table for dicts by numbers.
--
-- How the code is modelled
--   A coroutine is a function from a state to a result and a state; a raise keeps what was written
--   before it. The state of the service (Jobs/Store, World) has the published tables, the tables as
--   the open session sees them, the tasks handed to the runner and the cancellations asked of it.
--   `commit` publishes the session's tables and `rollback` restores the published ones. Each awaited
--   call that reaches the database takes one item of `outages`, which says whether it raises; a
--   rollback does not raise. A task opens sessions of its own, which start from the published tables.
--   Generated keys, the clock (whole seconds) and the answers of the collection workflow are arguments.
--   The clock is read once in an operation. A log whose job is gone is refused by the
--   foreign key of `job_logs`, which the model counts as an outage of that commit.
--   An argument of type `object` is either a member of an enumeration or another object by its `str()`.
--   The members of a StrEnum are their texts, and an enumeration column returns the text it was given;
--   the condition of a query on the status is bound as PostgresEnum binds it (Jobs/Queries, bind_status),
--   with str.upper and str.lower as the parameter Casing, and the database refuses a text that is no
--   value of the enumeration.
--   Rows that ORDER BY cannot tell apart keep the order of the table. NULL times come first in
--   descending order, as in PostgreSQL.
--   A stage is a record of the four methods of PipelineStage, which may change the context and raise;
--   the status of the pipeline and the list of executed stages are out of their reach. Readings of the
--   clock in Pipelines are whole milliseconds, a function of how often it was read.
--   A background task (Runner/Task) is at one of the awaits of `_run_with_retries`. It is woken with the
--   answer of the awaited call, or with CancelledError if its cancellation was requested since; an
--   asyncio task that is cancelled before its first step never enters its coroutine, and the function of a
--   task may let the CancelledError out, catch it and go on, return or raise another exception. `_running_tasks`
--   is a mark on the tasks. A save may not reach Redis, and a key of Redis may expire at any time.
--   The calls that the job service makes of the runner are recorded in its state (Jobs/Store,
--   Submission and cancel_requests).
--   Untyped payloads are the values of Prelude/Value. A float is a whole number of units of 2 ^ -1074,
--   an infinity or NaN; what the interpreter does with texts and numbers (isspace, isdigit, int and
--   float of a text, float of an int, str) is the record Platform, and in Rankings with the divisions
--   the record Arithmetic. A set of numbers is a list, read only by membership. `sorted` and
--   `list.sort` are stable insertion; keys that are tuples are lists of numbers.
--   A request to Access runs without interruption, except in Races, where verify_api_key is cut at its
--   commit. In Access a datetime is a number of seconds and whether it is aware of a time zone; the table of
--   API keys is a map by its unique column. What Redis answers to the commands of the rate limiter is a
--   parameter, and so is the application that the middleware calls.
--   Loops are structural recursion on the list they read; the only fuel is the number
--   of wake-ups in Runner/Retries, where twelve are enough for a task to end, and that of the digits in
--   Prelude/Text, n + 1 for the number n.
--
-- Not modelled
--   Log messages to the console, the closing of the API client, and the columns of `jobs` and
--   `api_keys` that no operation reads or writes. The JWT functions of auth.py, which only call PyJWT,
--   and the HTTP layer. The collection services, the field contracts of the pre-race data, and the
--   research programs of packages/scripts but the three modules named above.
pub mod Prelude
pub mod Pipelines
pub mod Predictions
pub mod Rankings
pub mod Access
pub mod Runner
pub mod Jobs
