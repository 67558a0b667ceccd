-- ===== src/Jobs/Service.antt =====
-- apps/api/services/job_service.py: creating, starting and cancelling a job, and cleaning up.
use kra_analysis.Prelude.{
  ℕ, ◌-◌, ◌*◌, ltb, String, Option, none, some, List, [], ◌∷◌, ◌++◌, Bool, true, false, not, ◌&&◌,
  ◌||◌, str_eq, if◌then◌else◌, length,
}
use kra_analysis.Prelude.Value.{Value, str, obj, end, field}
use kra_analysis.Prelude.Exec.{pure, raise, lift, modify, ◌>>=◌, ◌>>◌, try_except}
use kra_analysis.Jobs.Contract.{
  job_not_found, already_started, Raw, other, Job, normalize_job_kind, normalize_dispatch_action,
  apply_job_shadow_fields,
}
use kra_analysis.Jobs.Dispatch.{Call, dispatch_call}
use kra_analysis.Jobs.Store.{
  JobLog, World, Service, round_trip, commit, rollback, rolling_back, has_id, select_jobs,
  select_one, on_session, insert_job, update_job, delete_job, insert_log,
}

abbrev pub new_job : String → Value → String → String → ℕ → Job
new_job kind parameters owner_ref id now = record {
  job_id = id;
  type = kind;
  job_kind_v2 = none;
  status = some "pending";
  lifecycle_state_v2 = none;
  created_at = some now;
  started_at = none;
  completed_at = none;
  result = none;
  error_message = none;
  parameters = parameters;
  created_by = some owner_ref;
  task_id = none;
}

-- The row's key and its `created_at` are made when it is inserted: they are arguments.
unfoldable pub create_job : Raw → Value → String → String → ℕ → Service Job
create_job job_type parameters owner_ref id now = rolling_back do
  kind ← lift (normalize_job_kind job_type)
  let job =
      apply_job_shadow_fields (new_job kind parameters owner_ref id now) (some (other kind))
        (some (other "pending"))
  modify (on_session (insert_job job))
  commit
  round_trip
  pure job

unfoldable pub submit : String → String → Call → World → World
submit task_id job_id call w = record w {
  submitted = w.submitted ++ record { task_id = task_id; call = call; job_id = job_id } ∷ [];
}

-- `submit_task` makes the task's identifier: it is an argument.
unfoldable pub dispatch_task : Job → String → Service String
dispatch_task job task_id = do
  action ← lift (normalize_dispatch_action (other job.type))
  call ← lift (dispatch_call action job.parameters)
  modify (submit task_id job.job_id call)
  pure task_id

unfoldable pub add_job_log : String → String → String → Value → ℕ → Service JobLog
add_job_log job_id level message metadata now = rolling_back do
  let log : JobLog = record {
    job_id = job_id;
    timestamp = now;
    level = level;
    message = message;
    log_metadata = metadata;
  }
  modify (on_session (insert_log log))
  commit
  round_trip
  pure log

abbrev pub is_pending : Option String → Bool
is_pending none = false
is_pending (some status) = str_eq status "pending"

abbrev pub status_text : Option String → String
status_text none = "None"
status_text (some status) = status

abbrev pub require_pending : Option Job → String → Service Job
require_pending none job_id = raise (job_not_found job_id)
require_pending (some job) job_id =
    if is_pending job.status then pure job else raise (already_started (status_text job.status))

unfoldable pub queued_job : Job → String → ℕ → Job
queued_job job task_id now =
    apply_job_shadow_fields
      (record job { status = some "queued"; task_id = some task_id; started_at = some now }) none
      (some (other "queued"))

abbrev pub task_metadata : String → Value
task_metadata task_id = obj (field "task_id" (str task_id) end)

unfoldable pub start_job : String → String → ℕ → Service String
start_job job_id new_task now = rolling_back do
  found ← select_one (has_id job_id)
  job ← require_pending found job_id
  task_id ← dispatch_task job new_task
  modify (on_session (update_job (queued_job job task_id now)))
  commit
  add_job_log job_id "info" "Job started" (task_metadata task_id) now
  pure task_id

-- `if owner_ref:`
abbrev pub is_given : Option String → Bool
is_given none = false
is_given (some text) = not (str_eq text "")

abbrev pub equals : Option String → Option String → Bool
equals (some a) (some b) = str_eq a b
equals _ _ = false

-- The owner's condition of a query, where an owner is given.
abbrev pub owned_by : Option String → Job → Bool
owned_by owner_ref job = if is_given owner_ref then equals job.created_by owner_ref else true

unfoldable pub get_job : String → Option String → Service (Option Job)
get_job job_id owner_ref = select_one (λ job. has_id job_id job && owned_by owner_ref job)

abbrev pub is_terminal_text : String → Bool
is_terminal_text status =
    str_eq status "completed" || str_eq status "failed" || str_eq status "cancelled"

abbrev pub is_terminal : Option String → Bool
is_terminal none = false
is_terminal (some status) = is_terminal_text status

unfoldable pub cancelled_job : Job → ℕ → Job
cancelled_job job now =
    apply_job_shadow_fields (record job { status = some "cancelled"; completed_at = some now }) none
      (some (other "cancelled"))

-- The runner's answer to `cancel_task`, an exception included, is not used.
unfoldable pub with_request : Option String → List String → List String
with_request none requests = requests
with_request (some task_id) requests =
    if str_eq task_id "" then requests else requests ++ task_id ∷ []

abbrev pub request_cancel : Option String → World → World
request_cancel task_id w = record w { cancel_requests = with_request task_id w.cancel_requests }

abbrev pub cancel_found : Option Job → String → ℕ → Service Bool
cancel_found none job_id now = pure false
cancel_found (some job) job_id now = if is_terminal job.status then pure false else do
  modify (request_cancel job.task_id)
  modify (on_session (update_job (cancelled_job job now)))
  commit
  add_job_log job_id "warning" "Job cancelled" (obj end) now
  pure true

unfoldable pub cancel_job : String → Option String → ℕ → Service Bool
cancel_job job_id owner_ref now =
    try_except (do found ← get_job job_id owner_ref; cancel_found found job_id now)
      (λ _. do rollback; pure false)

abbrev pub is_before : Option ℕ → ℕ → Bool
is_before none cutoff = false
is_before (some time) cutoff = ltb time cutoff

abbrev pub is_old : ℕ → Job → Bool
is_old cutoff job = is_terminal job.status && is_before job.created_at cutoff

abbrev pub cutoff_of : ℕ → ℕ → ℕ
cutoff_of days now = now - 86400 * days

unfoldable pub delete_jobs : List Job → Service Unit
delete_jobs [] = pure tt
delete_jobs (job ∷ jobs) = do
  round_trip
  modify (on_session (delete_job job.job_id))
  delete_jobs jobs

unfoldable pub cleanup_old_jobs : ℕ → ℕ → Service ℕ
cleanup_old_jobs days now =
    try_except
      (do
        jobs ← select_jobs (is_old (cutoff_of days now))
        delete_jobs jobs
        commit
        pure (length jobs))
      (λ _. do rollback; pure 0)
