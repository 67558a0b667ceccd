-- ===== src/Jobs/Outcomes/Starting.antt =====
-- `start_job` while the database answers.
use kra_analysis.Prelude.{ℕ, String, some, List, [], ◌∷◌, ◌++◌, true, false, ◌≡◌, subst}
use kra_analysis.Prelude.Result.{ok, err}
use kra_analysis.Prelude.Exec.Runs.{
  Runs, Runs-bind, Runs-bind-err, Runs-then, Runs-modify, Runs-pure, Runs-raise, Runs-lift,
  Runs-then-branch, Runs-else-branch,
}
use kra_analysis.Jobs.Contract.{
  already_started, other, Job, DispatchAction, normalize_dispatch_action,
}
use kra_analysis.Jobs.Dispatch.{Call, dispatch_call}
use kra_analysis.Jobs.Store.{
  Db, JobLog, Submission, first_row, has_id, update_job, insert_log, select_one,
}
use kra_analysis.Jobs.Service.{
  start_job, dispatch_task, submit, queued_job, is_pending, task_metadata, require_pending,
  status_text,
}
use kra_analysis.Jobs.Quiet.{
  calm, Runs-select_one, Runs-rolling_back, Runs-rolling_back-err, Runs-on_session, Runs-commit,
  Runs-add_job_log,
}

abbrev pub started_log : String → String → ℕ → JobLog
started_log job_id task_id now = record {
  job_id = job_id;
  timestamp = now;
  level = "info";
  message = "Job started";
  log_metadata = task_metadata task_id;
}

-- The tables once the job is queued and the start is logged.
abbrev pub started : Job → String → String → ℕ → Db → Db
started job job_id task_id now db =
    insert_log (started_log job_id task_id now) (update_job (queued_job job task_id now) db)

abbrev pub submission : String → Call → String → Submission
submission task_id call job_id = record { task_id = task_id; call = call; job_id = job_id }

module _ {c s : Db} {q : List Submission} {r : List String} (job : Job) (action : DispatchAction)
    (task_id : String) (known : normalize_dispatch_action (other job.type) ≡ ok action) where
  Runs-dispatch_task :
      (call : Call)
      → dispatch_call action job.parameters ≡ ok call
      → Runs
          (dispatch_task job task_id)
          (calm c s q r)
          (ok task_id)
          (calm c s (q ++ submission task_id call job.job_id ∷ []) r)
  unfolding dispatch_task submit
  Runs-dispatch_task call called =
      Runs-bind _ (Runs-lift _ known)
        (Runs-bind _ (Runs-lift _ called) (Runs-then _ (Runs-modify _ _) (Runs-pure _ _)))

module _ (c s : Db) (q : List Submission) (r : List String) (job_id task_id : String) (now : ℕ)
    {job : Job} (found : first_row (has_id job_id) s.jobs ≡ some job) where
  found_row : Runs (select_one (has_id job_id)) (calm c s q r) (ok (some job)) (calm c s q r)
  found_row =
      subst (λ o. Runs (select_one (has_id job_id)) (calm c s q r) (ok o) (calm c s q r)) found
        (Runs-select_one _)

  module _ (pending : is_pending job.status ≡ true) where
    require_pending-ok :
        Runs (require_pending (some job) job_id) (calm c s q r) (ok job) (calm c s q r)
    require_pending-ok = Runs-then-branch _ _ pending (Runs-pure _ _)

  -- While the database answers, starting a pending job whose action is known and whose parameters
  -- fit it submits one task, publishes its row as queued with the task's identifier, logs the start
  -- and returns the identifier.
  pub start_job-Runs :
      (action : DispatchAction) (call : Call)
      → is_pending job.status ≡ true
      → normalize_dispatch_action (other job.type) ≡ ok action
      → dispatch_call action job.parameters ≡ ok call
      → Runs (start_job job_id task_id now) (calm c s q r) (ok task_id) (
          calm
            (started job job_id task_id now s)
            (started job job_id task_id now s)
            (q ++ submission task_id call job.job_id ∷ [])
            r)
  unfolding start_job
  start_job-Runs action call pending known called = Runs-rolling_back (
      Runs-bind _ found_row (
        Runs-bind _ (require_pending-ok pending) (
          Runs-bind _ (Runs-dispatch_task job action task_id known call called) (
            Runs-then _ (Runs-on_session _) (
              Runs-then _ Runs-commit
                (Runs-then _ (Runs-add_job_log _ _ _ _ _) (Runs-pure _ _)))))))

  -- While the database answers, starting a job in any status but pending raises with that status,
  -- and neither publishes nor submits anything.
  pub start_job-Runs-again :
      is_pending job.status ≡ false
      → Runs
          (start_job job_id task_id now)
          (calm c s q r)
          (err (already_started (status_text job.status)))
          (calm c c q r)
  unfolding start_job
  start_job-Runs-again other_status =
      Runs-rolling_back-err (
        Runs-bind _ found_row
          (Runs-bind-err _ (Runs-else-branch _ _ other_status (Runs-raise _ _))))
