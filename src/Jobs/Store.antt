-- ===== src/Jobs/Store.antt =====
-- The database session that the job components use (apps/api/models/database_models.py: Job, JobLog)
-- and the state of the service. A session sees its own writes; `commit` publishes them and
-- `rollback` drops them. Every round trip to the database may fail.
use kra_analysis.Prelude.{
  ℕ, String, Option, none, some, List, [], ◌∷◌, ◌++◌, map, Bool, true, false, not, str_eq,
  if◌then◌else◌, keep,
}
use kra_analysis.Prelude.Value.{Value}
use kra_analysis.Prelude.Result.{ok, err}
use kra_analysis.Prelude.Exec.{Exec, raise, gets, modify, ◌>>◌, try_except}
use kra_analysis.Jobs.Dispatch.{Call}
use kra_analysis.Jobs.Contract.{Error, database_error, Job}

-- A row of `job_logs`, less its generated key.
pub record JobLog : Type 0 where
  pub job_id : String
  pub timestamp : ℕ
  pub level : String
  pub message : String
  pub log_metadata : Value

pub record Db : Type 0 where
  pub jobs : List Job
  pub logs : List JobLog

pub record Submission : Type 0 where
  pub task_id : String
  pub call : Call
  pub job_id : String

pub record World : Type 0 where
  pub committed : Db
  pub session : Db
  -- One item for each round trip to come: whether it fails. Past the end none does.
  pub outages : List Bool
  pub submitted : List Submission
  pub cancel_requests : List String

abbrev pub Service : Type 0 → Type 0
Service A = Exec World Error A

abbrev next_answer : List Bool → Service Unit
next_answer [] w = (ok tt, w)
next_answer (true ∷ rest) w = (err database_error, record w { outages = rest })
next_answer (false ∷ rest) w = (ok tt, record w { outages = rest })

-- An awaited call of the session that reaches the database.
unfoldable pub round_trip : Service Unit
round_trip w = next_answer w.outages w

unfoldable pub publish : World → World
publish w = record w { committed = w.session }

unfoldable pub forget : World → World
forget w = record w { session = w.committed }

unfoldable pub commit : Service Unit
commit = do round_trip; modify publish

unfoldable pub rollback : Service Unit
rollback = modify forget

-- `try: body` / `except Exception: await db.rollback(); raise`
unfoldable pub rolling_back : {A : Type 0} → Service A → Service A
rolling_back body = try_except body (λ e. do rollback; raise e)

abbrev pub has_id : String → Job → Bool
has_id id job = str_eq job.job_id id

-- `scalar_one_or_none`: the rows are few enough where the query names the primary key.
unfoldable pub first_row : (Job → Bool) → List Job → Option Job
first_row test [] = none
first_row test (job ∷ jobs) = if test job then some job else first_row test jobs

-- `select(Job).where(...)`
unfoldable pub select_jobs : (Job → Bool) → Service (List Job)
select_jobs test = do round_trip; gets (λ w. keep test w.session.jobs)

unfoldable pub select_one : (Job → Bool) → Service (Option Job)
unfolding first_row
select_one test = do round_trip; gets (λ w. first_row test w.session.jobs)

abbrev pub on_session : (Db → Db) → World → World
on_session change w = record w { session = change w.session }

unfoldable pub insert_job : Job → Db → Db
insert_job job db = record db { jobs = db.jobs ++ job ∷ [] }

-- Writes to the attributes of a loaded row.
unfoldable pub replace_job : Job → List Job → List Job
replace_job job = map (λ row. if has_id job.job_id row then job else row)

unfoldable pub update_job : Job → Db → Db
unfolding replace_job
update_job job db = record db { jobs = replace_job job db.jobs }

-- `db.delete(job)`: the logs of the job go with it (cascade "all, delete-orphan").
unfoldable pub delete_job : String → Db → Db
delete_job id db = record db {
  jobs = keep (λ job. not (has_id id job)) db.jobs;
  logs = keep (λ (log : JobLog). not (str_eq log.job_id id)) db.logs;
}

unfoldable pub insert_log : JobLog → Db → Db
insert_log log db = record db { logs = db.logs ++ log ∷ [] }
