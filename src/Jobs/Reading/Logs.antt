-- ===== src/Jobs/Reading/Logs.antt =====
-- `get_job_logs` of apps/api/services/job_service.py.
use mathlib.Core.List.{Perm}
use kra_analysis.Prelude.{
  ℕ, ◌-◌, min, String, Option, some, List, Bool, ◌≡◌, str_eq, keep, length, length-take,
  length-drop, drop, arith,
}
use kra_analysis.Prelude.Result.{ok}
use kra_analysis.Prelude.Exec.Runs.{Runs-then, Runs-gets}
use kra_analysis.Jobs.Store.{Db, JobLog, Submission}
use kra_analysis.Jobs.Queries.{get_job_logs, order_desc, page}
use kra_analysis.Jobs.Quiet.{calm, Runs-round_trip}
use kra_analysis.Jobs.Reading.Order.{
  IsDescending, order_desc-perm, length-order_desc, order_desc-IsDescending,
}

abbrev pub logged_at : JobLog → Option ℕ
logged_at log = some log.timestamp

abbrev pub is_log_of : String → JobLog → Bool
is_log_of job_id log = str_eq log.job_id job_id

-- While the database answers, the answer is a page of the logs of the job, the latest first, with as
-- many logs as the limit allows past the offset, and nothing is changed.
pub get_job_logs-page :
    (c s : Db) (q : List Submission) (r : List String) (job_id : String) (limit offset : ℕ)
    → (ordered : List JobLog) × (get_job_logs job_id limit offset (calm c s q r)
        ≡ (ok (page limit offset ordered), calm c s q r))
      × Perm ordered (keep (is_log_of job_id) s.logs)
      × IsDescending logged_at ordered
      × (length (page limit offset ordered)
          ≡ min limit (length (keep (is_log_of job_id) s.logs) - offset))
unfolding get_job_logs
get_job_logs-page c s q r job_id limit offset =
    let logs = keep (is_log_of job_id) s.logs in
    let ordered = order_desc logged_at logs in
    (
      ordered,
      (Runs-then _ Runs-round_trip (Runs-gets _ _)).path,
      order_desc-perm logged_at logs,
      order_desc-IsDescending logged_at logs,
      omega (
        arith,
        length-take limit (drop offset ordered),
        length-drop offset ordered,
        length-order_desc logged_at logs,
      ),
    )
