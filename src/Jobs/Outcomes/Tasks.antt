-- ===== src/Jobs/Outcomes/Tasks.antt =====
-- The background tasks of apps/api/tasks/async_tasks.py while the database answers: what is left in
-- the row of the job.
use kra_analysis.Prelude.{
  none, [], true, false, ap, ◌∙◌, refl, str_eq, if◌then◌else◌, ℕ, String, Option, some, List, ◌≡◌,
  subst,
}
use kra_analysis.Prelude.Value.{Value}
use kra_analysis.Prelude.Result.{ok}
use kra_analysis.Prelude.Exec.{pure}
use kra_analysis.Prelude.Exec.Always.{Always, Always-pure}
use kra_analysis.Prelude.Exec.Runs.{Runs, Runs-bind, Runs-then}
use kra_analysis.Jobs.Contract.{Job}
use kra_analysis.Jobs.Store.{
  World, Db, JobLog, Submission, Service, first_row, has_id, forget, update_job, insert_log,
  select_one,
}
use kra_analysis.Jobs.Service.{is_given}
use kra_analysis.Jobs.Tasks.{
  Task, with_job, quietly, status_job, write_status, update_job_status, log_job,
}
use kra_analysis.Jobs.Quiet.{calm, Runs-select_one, Runs-on_session, Runs-commit}

module _ {c s c' s' : Db} {q : List Submission} {r : List String} where
  Runs-quietly :
      {body : Service Unit}
      → Runs body (calm c c q r) (ok tt) (calm c' s' q r)
      → Runs (quietly body) (calm c s q r) (ok tt) (calm c' c' q r)
  unfolding quietly forget
  Runs-quietly p = record { path = λ i. (ok tt, forget (p.path i).1) }

module _ {c s : Db} {q : List Submission} {r : List String} (job_id : String) (now : ℕ) where
  Runs-update_job_status :
      (job : Job) (status : String) (error task_id : Option String) (payload : Option Value)
      → first_row (has_id job_id) c.jobs ≡ some job
      → (let db = update_job (status_job job status error task_id payload now) c in
          Runs
            (update_job_status job_id status error task_id payload now)
            (calm c s q r)
            (ok tt)
            (calm db db q r))
  unfolding update_job_status write_status
  Runs-update_job_status job status error task_id payload found = Runs-quietly (
      Runs-bind _
        (subst (λ o. Runs (select_one (has_id job_id)) (calm c c q r) (ok o) (calm c c q r)) found
          (Runs-select_one _))
        (Runs-then _ (Runs-on_session _) Runs-commit))

  Runs-log_job :
      (level message : String) (metadata : Value)
      → (let log : JobLog = record {
        job_id = job_id;
        timestamp = now;
        level = level;
        message = message;
        log_metadata = metadata;
      } in
          Runs
            (log_job job_id level message metadata now)
            (calm c s q r)
            (ok tt)
            (calm (insert_log log c) (insert_log log c) q r))
  unfolding log_job
  Runs-log_job level message metadata = Runs-quietly (Runs-then _ (Runs-on_session _) Runs-commit)

Always-quietly : (body : Service Unit) → Always (quietly body) (ok tt)
unfolding quietly
Always-quietly body = record { at = λ s. refl }

pub Always-update :
    (job_id status : String) (error task_id : Option String) (payload : Option Value) (now : ℕ)
    → Always (update_job_status job_id status error task_id payload now) (ok tt)
unfolding update_job_status
Always-update job_id status error task_id payload now = Always-quietly _

pub Always-log :
    (job_id level message : String) (metadata : Value) (now : ℕ)
    → Always (log_job job_id level message metadata now) (ok tt)
unfolding log_job
Always-log job_id level message metadata now = Always-quietly _

pub Always-with_job :
    (job_id : Option String) (act : String → Task Unit)
    → ((id : String) → Always (act id) (ok tt))
    → Always (with_job job_id act) (ok tt)
Always-with_job none act h = Always-pure tt
Always-with_job (some id) act h =
    elim (str_eq id "") as (λ b. Always (if b then pure tt else act id) (ok tt)) [
      | true ↦ Always-pure tt
      | false ↦ h id
    ]

-- The database answers and the row of the job is there.
pub record IsReady (job_id : String) (w : World) : Type 0 where
  pub answering : w.outages ≡ []
  pub row : Job
  pub found : first_row (has_id job_id) w.committed.jobs ≡ some row
  pub named : row.job_id ≡ job_id

-- The published row of the job says how its task ended.
pub record HasEnded (job_id status : String) (error : Option String) (result : Option Value)
    (now : ℕ) (w : World) : Type 0 where
  pub ready : IsReady job_id w
  pub status_is : ready.row.status ≡ some status
  pub completed_is : ready.row.completed_at ≡ some now
  pub error_is : is_given error ≡ true → ready.row.error_message ≡ error
  pub result_is : (v : Value) → result ≡ some v → ready.row.result ≡ result

as_calm :
    (w : World) → w.outages ≡ [] → w ≡ calm w.committed w.session w.submitted w.cancel_requests
as_calm w e = ap (λ o. record w { outages = o }) e

pub updated :
    (job_id : String) (now : ℕ) (status : String) (error task_id : Option String)
    (payload : Option Value) (w : World) (ready : IsReady job_id w)
    → (let db = update_job (status_job ready.row status error task_id payload now) w.committed in
        (update_job_status job_id status error task_id payload now w).1
        ≡ calm db db w.submitted w.cancel_requests)
updated job_id now status error task_id payload w ready =
    ap (λ x. (update_job_status job_id status error task_id payload now x).1)
      (as_calm w ready.answering)
    ∙ ap (λ x. x.1)
        (Runs-update_job_status job_id now ready.row status error task_id payload ready.found).path

pub logged :
    (job_id level message : String) (metadata : Value) (now : ℕ) (w : World)
    → w.outages ≡ []
    → (let log : JobLog = record {
      job_id = job_id;
      timestamp = now;
      level = level;
      message = message;
      log_metadata = metadata;
    } in
        (log_job job_id level message metadata now w).1
        ≡ calm
            (insert_log log w.committed)
            (insert_log log w.committed)
            w.submitted
            w.cancel_requests)
logged job_id level message metadata now w e =
    ap (λ x. (log_job job_id level message metadata now x).1) (as_calm w e)
    ∙ ap (λ x. x.1) (Runs-log_job job_id now level message metadata).path
