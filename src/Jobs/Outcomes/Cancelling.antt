-- ===== src/Jobs/Outcomes/Cancelling.antt =====
-- `cancel_job`: who may cancel what, and what is left when the database fails on the way.
use kra_analysis.Prelude.{ℕ, String, Option, none, some, List, Bool, true, false, ◌≡◌, subst, ◌&&◌}
use kra_analysis.Prelude.Value.{obj, end}
use kra_analysis.Prelude.Result.{ok}
use kra_analysis.Prelude.Exec.Runs.{
  Runs, Runs-bind, Runs-then, Runs-modify, Runs-pure, Runs-try, Runs-then-branch, Runs-else-branch,
}
use kra_analysis.Jobs.Contract.{Job}
use kra_analysis.Jobs.Store.{Db, JobLog, Submission, first_row, has_id, update_job, insert_log}
use kra_analysis.Jobs.Service.{
  cancel_job, cancelled_job, with_request, get_job, owned_by, is_terminal,
}
use kra_analysis.Jobs.Quiet.{calm, Runs-select_one, Runs-on_session, Runs-commit, Runs-add_job_log}

abbrev pub cancel_log : String → ℕ → JobLog
cancel_log job_id now = record {
  job_id = job_id;
  timestamp = now;
  level = "warning";
  message = "Job cancelled";
  log_metadata = obj end;
}

abbrev pub cancelled : Job → String → ℕ → Db → Db
cancelled job job_id now db =
    insert_log (cancel_log job_id now) (update_job (cancelled_job job now) db)

-- The row that a caller may see.
abbrev pub is_visible : String → Option String → Job → Bool
is_visible job_id owner_ref job = has_id job_id job && owned_by owner_ref job

module _ (c s : Db) (q : List Submission) (r : List String) (job_id : String)
    (owner_ref : Option String) (now : ℕ) where
  module _ {found : Option Job}
      (seen : first_row (is_visible job_id owner_ref) s.jobs ≡ found) where
    found_row : Runs (get_job job_id owner_ref) (calm c s q r) (ok found) (calm c s q r)
    unfolding get_job
    found_row =
        subst (λ o. Runs (get_job job_id owner_ref) (calm c s q r) (ok o) (calm c s q r)) seen
          (Runs-select_one _)

  -- While the database answers, a job that the caller may see and that has not ended is cancelled:
  -- its task is asked to stop, the row is published as cancelled, the cancellation is logged and
  -- the answer is `True`.
  pub cancel_job-Runs :
      (job : Job)
      → first_row (is_visible job_id owner_ref) s.jobs ≡ some job
      → is_terminal job.status ≡ false
      → Runs (cancel_job job_id owner_ref now) (calm c s q r) (ok true) (
          calm
            (cancelled job job_id now s)
            (cancelled job job_id now s)
            q
            (with_request job.task_id r))
  unfolding cancel_job
  cancel_job-Runs job seen live = Runs-try _ (
      Runs-bind _ (found_row seen) (
        Runs-else-branch _ _ live (
          Runs-then _ (Runs-modify _ _) (
            Runs-then _ (Runs-on_session _) (
              Runs-then _ Runs-commit
                (Runs-then _ (Runs-add_job_log _ _ _ _ _) (Runs-pure _ _)))))))

  -- While the database answers, cancelling a job that the caller may see and that has ended answers
  -- `False` and changes nothing.
  pub cancel_job-Runs-ended :
      (job : Job)
      → first_row (is_visible job_id owner_ref) s.jobs ≡ some job
      → is_terminal job.status ≡ true
      → Runs (cancel_job job_id owner_ref now) (calm c s q r) (ok false) (calm c s q r)
  unfolding cancel_job
  cancel_job-Runs-ended job seen ended =
      Runs-try _ (Runs-bind _ (found_row seen) (Runs-then-branch _ _ ended (Runs-pure _ _)))

  pub cancel_job-Runs-absent :
      first_row (is_visible job_id owner_ref) s.jobs ≡ none
      → Runs (cancel_job job_id owner_ref now) (calm c s q r) (ok false) (calm c s q r)
  unfolding cancel_job
  cancel_job-Runs-absent seen = Runs-try _ (Runs-bind _ (found_row seen) (Runs-pure _ _))
