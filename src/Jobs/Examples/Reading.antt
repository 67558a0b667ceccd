-- ===== src/Jobs/Examples/Reading.antt =====
-- Listing and counting jobs (apps/api/services/job_service.py) at concrete tables.
use mathlib.Core.List.{Perm}
use kra_analysis.Prelude.{◌-◌, min, length, String, ◌∷◌}
use kra_analysis.Prelude.Value.{obj, end}
use kra_analysis.Jobs.Store.{Db, JobLog}
use kra_analysis.Jobs.Queries.{get_job_logs, page}
use kra_analysis.Jobs.Reading.Order.{IsDescending}
use kra_analysis.Jobs.Reading.Logs.{is_log_of, logged_at, get_job_logs-page}
use kra_analysis.Prelude.{
  ℕ, none, some, List, [], ◌≡◌, ◌≤◌, length, keep, Bool, refl, str_eq, if◌then◌else◌,
}
use kra_analysis.Prelude.Value.{str}
use kra_analysis.Prelude.Result.{ok}
use kra_analysis.Jobs.Contract.{Job, processing, normalize_job_kind, status_value}
use kra_analysis.Jobs.Filed.{IsFiled}
use kra_analysis.Jobs.Service.{owned_by, equals}
use kra_analysis.Jobs.Queries.{calculate_progress, Casing}
use kra_analysis.Jobs.Statistics.{Statistics, get_job_statistics}
use kra_analysis.Jobs.Quiet.{calm}
use kra_analysis.Jobs.Reading.Progress.{calculate_progress-IsFiled}
use kra_analysis.Jobs.Reading.Counting.{sum, get_job_statistics-sums}
use kra_analysis.Jobs.Examples.{batch_job-IsFiled}
use kra_analysis.Jobs.Examples.{batch_job, one_job}

abbrev casing : Casing
casing = record {
  upper = λ text. if str_eq text "Pending" then "PENDING" else text;
  lower = λ text. if str_eq text "Pending" then "pending" else text;
}

abbrev by_pending : List (Job → Bool)
by_pending = (λ job. equals job.status (some "pending")) ∷ []

abbrev processing_job : Job
processing_job = record batch_job {
  status = some "processing";
  lifecycle_state_v2 = some "processing";
}

processing_job-IsFiled : IsFiled processing_job
unfolding normalize_job_kind status_value
processing_job-IsFiled = record {
  kind_known = refl;
  kind_shadow = refl;
  state = processing;
  status_known = refl;
  state_shadow = refl;
  completed = λ h. absurd (cc);
}

calculate_progress-IsFiled_example :
    (calculate_progress processing_job (some (str "task")) ≡ ok 50) × (50 ≤ 100)
unfolding status_value
calculate_progress-IsFiled_example =
    calculate_progress-IsFiled processing_job processing_job-IsFiled processing refl
      (some (str "task"))

get_job_statistics-sums_example :
    (statistics : Statistics) × (get_job_statistics none 100000 (calm one_job one_job [] [])
      ≡ (ok (some statistics), calm one_job one_job [] []))
    × (statistics.total_jobs ≡ length (keep (owned_by none) one_job.jobs))
    × (sum statistics.status_counts ≡ statistics.total_jobs)
    × (sum statistics.type_counts ≡ statistics.total_jobs)
get_job_statistics-sums_example =
    get_job_statistics-sums one_job one_job [] [] none 100000 (batch_job-IsFiled, tt)

-- Two logs of a job and one of another.
abbrev log_at : String → ℕ → JobLog
log_at job_id time = record {
  job_id = job_id;
  timestamp = time;
  level = "info";
  message = "Job started";
  log_metadata = obj end;
}

abbrev three_logs : Db
three_logs = record one_job { logs = log_at "j1" 5 ∷ log_at "j2" 6 ∷ log_at "j1" 7 ∷ [] }

get_job_logs-page_example :
    (ordered : List JobLog) × (get_job_logs "j1" 1 0 (calm three_logs three_logs [] [])
      ≡ (ok (page 1 0 ordered), calm three_logs three_logs [] []))
    × Perm ordered (keep (is_log_of "j1") three_logs.logs)
    × IsDescending logged_at ordered
    × (length (page 1 0 ordered) ≡ min 1 (length (keep (is_log_of "j1") three_logs.logs) - 0))
get_job_logs-page_example = get_job_logs-page three_logs three_logs [] [] "j1" 1 0
