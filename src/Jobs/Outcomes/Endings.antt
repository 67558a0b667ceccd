-- ===== src/Jobs/Outcomes/Endings.antt =====
-- How the tasks of apps/api/tasks/async_tasks.py end while the database answers.
use kra_analysis.Prelude.{
  ℕ, String, Option, none, some, Bool, true, false, ◌≡◌, refl, sym, subst, if◌then◌else◌,
}
use kra_analysis.Prelude.Value.{Value}
use kra_analysis.Prelude.Result.{ok}
use kra_analysis.Prelude.Exec.Post.{Post}
use kra_analysis.Jobs.Contract.{apply_job_shadow_fields}
use kra_analysis.Jobs.Store.{World, update_job, insert_log}
use kra_analysis.Jobs.Service.{is_given, is_terminal_text}
use kra_analysis.Jobs.Tasks.{Task, status_job, update_job_status, log_job, given_or, result_or}
use kra_analysis.Jobs.Outcomes.Rows.{first_row-replace}
use kra_analysis.Jobs.Outcomes.Tasks.{IsReady, HasEnded, updated, logged, Always-update, Always-log}

module _ (job_id : String) (now : ℕ) where
  updated_row :
      (status : String) (error task_id : Option String) (payload : Option Value) (w : World)
      (ready : IsReady job_id w)
      → IsReady job_id (update_job_status job_id status error task_id payload now w).1
  unfolding update_job status_job apply_job_shadow_fields
  updated_row status error task_id payload w ready =
      subst (IsReady job_id) (sym (updated job_id now status error task_id payload w ready))
        (record {
          answering = refl;
          row = status_job ready.row status error task_id payload now;
          found =
              first_row-replace job_id w.committed.jobs
                (status_job ready.row status error task_id payload now) ready.named ready.found;
          named = ready.named;
        })

  pub Post-update :
      (status : String) (error task_id : Option String) (payload : Option Value)
      → Post
          (IsReady job_id)
          (update_job_status job_id status error task_id payload now)
          (ok tt)
          (IsReady job_id)
  Post-update status error task_id payload = record {
    result = Always-update job_id status error task_id payload now;
    after = updated_row status error task_id payload;
  }

  given : (error old : Option String) → is_given error ≡ true → given_or error old ≡ error
  given error old h = rw h refl

  payload_kept :
      (payload old : Option Value) (v : Value) → payload ≡ some v → result_or payload old ≡ payload
  payload_kept none old v h = absurd (cc)
  payload_kept (some x) old v h = refl

  terminal_time :
      (status : String) (old : Option ℕ)
      → is_terminal_text status ≡ true
      → (if is_terminal_text status then some now else old) ≡ some now
  terminal_time status old h = rw h refl

  -- An update to a status that ends the job.
  pub Post-end :
      (status : String) (error task_id : Option String) (payload : Option Value)
      → is_terminal_text status ≡ true
      → Post
          (IsReady job_id)
          (update_job_status job_id status error task_id payload now)
          (ok tt)
          (HasEnded job_id status error payload now)
  unfolding update_job status_job apply_job_shadow_fields
  Post-end status error task_id payload terminal = record {
    result = Always-update job_id status error task_id payload now;
    after = λ w ready.
        subst (HasEnded job_id status error payload now)
          (sym (updated job_id now status error task_id payload w ready))
          (record {
            ready = record {
              answering = refl;
              row = status_job ready.row status error task_id payload now;
              found =
                  first_row-replace job_id w.committed.jobs
                    (status_job ready.row status error task_id payload now) ready.named ready.found;
              named = ready.named;
            };
            status_is = refl;
            completed_is = terminal_time status ready.row.completed_at terminal;
            error_is = given error ready.row.error_message;
            result_is = payload_kept payload ready.row.result;
          });
  }

  logged_row :
      (id level message : String) (metadata : Value) (w : World) (ready : IsReady job_id w)
      → IsReady job_id (log_job id level message metadata now w).1
  unfolding insert_log
  logged_row id level message metadata w ready =
      subst (IsReady job_id) (sym (logged id level message metadata now w ready.answering))
        (record { answering = refl; row = ready.row; found = ready.found; named = ready.named })

  pub Post-log :
      (id level message : String) (metadata : Value)
      → Post (IsReady job_id) (log_job id level message metadata now) (ok tt) (IsReady job_id)
  Post-log id level message metadata = record {
    result = Always-log id level message metadata now;
    after = logged_row id level message metadata;
  }

-- A log leaves the row as it is.
module _ (job_id : String) (now : ℕ) {status : String} {error : Option String}
    {payload : Option Value} where
  pub Post-log-HasEnded :
      (id level message : String) (metadata : Value)
      → Post
          (HasEnded job_id status error payload now)
          (log_job id level message metadata now)
          (ok tt)
          (HasEnded job_id status error payload now)
  unfolding insert_log
  Post-log-HasEnded id level message metadata = record {
    result = Always-log id level message metadata now;
    after = λ w h.
        subst (HasEnded job_id status error payload now)
          (sym (logged id level message metadata now w h.ready.answering))
          (record {
            ready = record {
              answering = refl;
              row = h.ready.row;
              found = h.ready.found;
              named = h.ready.named;
            };
            status_is = h.status_is;
            completed_is = h.completed_is;
            error_is = h.error_is;
            result_is = h.result_is;
          });
  }

-- `if job_id:` where there is one.
module _ {P Q : World → Type 0} {b : Bool} (m : Task Unit) {n : Task Unit} where
  pub Post-given : b ≡ false → Post P n (ok tt) Q → Post P (if b then m else n) (ok tt) Q
  Post-given e p = rw e p
