-- ===== src/Jobs/Examples.antt =====
-- Requests and tables on which the theorems on the job service (apps/api/services, apps/api/tasks)
-- are tried.
mod Requests
mod Cancelling
mod Reading
mod Tasks
use kra_analysis.Prelude.{
  ℕ, String, Option, none, some, Bool, str_eq, List, [], ◌∷◌, ◌++◌, true, false, not, ◌≡◌, ◌⊎◌, ◌≤◌,
  refl, length, keep,
}
use kra_analysis.Prelude.Value.{Value, null, obj, field, end, str, arr, pos, int}
use kra_analysis.Prelude.Result.{ok, err}
use kra_analysis.Prelude.Exec.{◌>>◌}
use kra_analysis.Prelude.Exec.Runs.{Runs}
use kra_analysis.Jobs.Contract.{
  Job, Raw, other, member, already_started, database_error, key_error, unknown_job_kind,
  normalize_job_kind, normalize_dispatch_action, status_value, apply_job_shadow_fields,
  DispatchAction, full_pipeline, batch_collect, collect_race, pending,
}
use kra_analysis.Jobs.Contract.Names.{
  action_kind, action_has_kind, kind_has_action, normalize_job_kind_idem, stored_action,
}
use kra_analysis.Jobs.Dispatch.{Call, dispatch_call, subscript}
use kra_analysis.Jobs.Store.{Db, World, first_row, has_id, insert_job, update_job, select_one}
use kra_analysis.Jobs.Service.{
  start_job, create_job, cancel_job, get_job, cleanup_old_jobs, cancelled_job, queued_job,
  with_request, is_old, cutoff_of, owned_by,
}
use kra_analysis.Jobs.Tasks.{number}
use kra_analysis.Jobs.Queries.{
  calculate_progress, list_jobs_with_total, order_desc, passes, owner_filter, status_filter,
  kind_filter,
}
use kra_analysis.Jobs.Statistics.{Statistics, get_job_statistics}
use kra_analysis.Jobs.Submit.{BatchCollectInput, numbers_of, batch_parameters}
use kra_analysis.Jobs.Quiet.{calm}
use kra_analysis.Jobs.Filed.{IsFiled, IsSound}
use kra_analysis.Jobs.History.{create, start, cancel, cleanup, run, run-IsSound}
use kra_analysis.Jobs.Outcomes.Starting.{started, submission, start_job-Runs, start_job-Runs-again}
use kra_analysis.Jobs.Outcomes.Creating.{created, create_job-Runs, create_job-Runs-unknown}
use kra_analysis.Jobs.Outcomes.Cancelling.{
  is_visible, cancelled, cancel_job-Runs, cancel_job-Runs-ended,
}
use kra_analysis.Jobs.Outcomes.Composed.{
  create_and_start, create_and_start-Runs, submit_batch_collect-Runs, start_job-Runs-twice,
}

abbrev pub race : Value
race = obj (
    field "race_date" (str "20250720") (
      field "meet" (number 1)
        (field "race_no" (number 3) (field "race_numbers" (arr (numbers_of (3 ∷ 4 ∷ []))) end))))

abbrev pub no_rows : Db
no_rows = record { jobs = []; logs = [] }

-- A pending batch of an owner.
abbrev pub batch_job : Job
batch_job = record {
  job_id = "j1";
  type = "batch";
  job_kind_v2 = some "batch";
  status = some "pending";
  lifecycle_state_v2 = some "pending";
  created_at = some 100;
  started_at = none;
  completed_at = none;
  result = none;
  error_message = none;
  parameters = race;
  created_by = some "alice";
  task_id = none;
}

abbrev pub one_job : Db
one_job = record { jobs = batch_job ∷ []; logs = [] }

abbrev pub ended_job : Db
ended_job = record {
  jobs = record batch_job { status = some "failed"; task_id = some "t0" } ∷ [];
  logs = [];
}

abbrev pub batch_call : Call
batch_call = Call.batch_collect (str "20250720") (number 1) (arr (numbers_of (3 ∷ 4 ∷ [])))

pub batch_job_found : first_row (has_id "j1") one_job.jobs ≡ some batch_job
unfolding first_row
batch_job_found = refl

pub batch_job_action : normalize_dispatch_action (other "batch") ≡ ok batch_collect
unfolding normalize_dispatch_action
batch_job_action = refl

pub batch_job_call : dispatch_call batch_collect race ≡ ok batch_call
unfolding dispatch_call subscript
batch_job_call = refl

pub ended_job_found :
    first_row (has_id "j1") ended_job.jobs
    ≡ some (record batch_job { status = some "failed"; task_id = some "t0" })
unfolding first_row
ended_job_found = refl

-- A batch whose parameters name no race.
abbrev pub unfit_job : Db
unfit_job = record {
  jobs = record batch_job { job_id = "j2"; parameters = obj end } ∷ [];
  logs = [];
}

pub unfit_job_found :
    first_row (has_id "j2") unfit_job.jobs
    ≡ some (record batch_job { job_id = "j2"; parameters = obj end })
unfolding first_row
unfit_job_found = refl

pub unfit_job_call : dispatch_call batch_collect (obj end) ≡ err (key_error "race_date")
unfolding dispatch_call subscript
unfit_job_call = refl

pub full_pipeline_kind : normalize_job_kind (other "full_pipeline") ≡ ok "batch"
unfolding normalize_job_kind
full_pipeline_kind = refl

pub full_pipeline_action : normalize_dispatch_action (other "full_pipeline") ≡ ok full_pipeline
unfolding normalize_dispatch_action
full_pipeline_action = refl

pub j9_fresh : first_row (has_id "j9") one_job.jobs ≡ none
unfolding first_row
j9_fresh = refl

pub batch_job_seen : first_row (is_visible "j1" (some "alice")) one_job.jobs ≡ some batch_job
unfolding first_row
batch_job_seen = refl

-- A request that names no races.
abbrev pub default_batch : BatchCollectInput
default_batch = record { race_date = "20250720"; meet = 1; race_numbers = none }

abbrev pub default_call : Call
default_call =
    Call.batch_collect (str "20250720") (number 1)
      (arr (numbers_of (1 ∷ 2 ∷ 3 ∷ 4 ∷ 5 ∷ 6 ∷ 7 ∷ 8 ∷ 9 ∷ 10 ∷ 11 ∷ 12 ∷ 13 ∷ 14 ∷ 15 ∷ [])))

pub batch_job-IsFiled : IsFiled batch_job
unfolding normalize_job_kind status_value
batch_job-IsFiled = record {
  kind_known = refl;
  kind_shadow = refl;
  state = pending;
  status_known = refl;
  state_shadow = refl;
  completed = λ h. absurd (cc);
}

pub ended_job_seen :
    first_row (is_visible "j1" none) ended_job.jobs
    ≡ some (record batch_job { status = some "failed"; task_id = some "t0" })
unfolding first_row
ended_job_seen = refl

abbrev pub by_batch : List (Job → Bool)
by_batch = (λ job. str_eq job.type "batch") ∷ []

pub batch_filter : kind_filter (some (other "batch_collect")) ≡ ok by_batch
unfolding normalize_job_kind
batch_filter = refl
