-- ===== src/Jobs/Filed/Operations.antt =====
-- Every operation of the service keeps the rows filed, whether it returns or raises.
use kra_analysis.Prelude.{ℕ, String, Option, none, some, false, ◌≡◌, refl, List, [], ◌∷◌}
use kra_analysis.Prelude.Value.{Value}
use kra_analysis.Prelude.Result.{ok}
use kra_analysis.Prelude.Exec.{lift}
use kra_analysis.Prelude.Exec.Keeps.{
  Keeps, Keeps-then, Keeps-if, Keeps-pure, Keeps-bind, Keeps-try_except, Gives, Keeps-bind-Gives,
  Gives-lift, Keeps-lift, keeps_rules,
}
use kra_analysis.Jobs.Contract.{
  Raw, other, Job, queued, cancelled, pending, normalize_job_kind, apply_job_shadow_fields,
  status_value,
}
use kra_analysis.Jobs.Contract.Names.{normalize_job_kind_idem}
use kra_analysis.Jobs.Service.{
  new_job, create_job, start_job, cancel_job, cleanup_old_jobs, queued_job, cancelled_job,
  cancel_found, get_job, delete_jobs,
}
use kra_analysis.Jobs.Filed.{IsFiled, IsSound, IsFiled-apply_job_shadow_fields}
use kra_analysis.Jobs.Filed.Session.{
  round_trip-IsSound, commit-IsSound, rollback-IsSound, insert_job-IsSound, update_job-IsSound,
  delete_job-IsSound, request_cancel-IsSound, select_jobs-IsSound, select_one-IsSound,
  rolling_back-IsSound, select_one-Gives, require_pending-Gives, require_pending-IsSound,
  dispatch_task-IsSound, add_job_log-IsSound, FoundFiled,
}

queued_job-IsFiled :
    (job : Job) (task_id : String) (now : ℕ) → IsFiled job → IsFiled (queued_job job task_id now)
unfolding queued_job status_value
queued_job-IsFiled job task_id now f =
    IsFiled-apply_job_shadow_fields _ queued f.kind_known refl (λ e. cc)

cancelled_job-IsFiled : (job : Job) (now : ℕ) → IsFiled job → IsFiled (cancelled_job job now)
unfolding cancelled_job status_value
cancelled_job-IsFiled job now f =
    IsFiled-apply_job_shadow_fields _ cancelled f.kind_known refl (λ e p. cc)

normalize_job_kind-Gives :
    (raw : Raw)
    → Gives IsSound (λ k. normalize_job_kind (other k) ≡ ok k) (lift (normalize_job_kind raw))
normalize_job_kind-Gives raw = Gives-lift _ (λ k e. normalize_job_kind_idem raw e)

new_job-IsFiled :
    (kind : String) (parameters : Value) (owner_ref id : String) (now : ℕ)
    → normalize_job_kind (other kind) ≡ ok kind
    → IsFiled (
        apply_job_shadow_fields
          (new_job kind parameters owner_ref id now)
          (some (other kind))
          (some (other "pending")))
unfolding status_value apply_job_shadow_fields
new_job-IsFiled kind parameters owner_ref id now h =
    IsFiled-apply_job_shadow_fields (new_job kind parameters owner_ref id now) pending h refl
      (λ e. cc)

ruleset session_rules = (
  keeps_rules, round_trip-IsSound, commit-IsSound, rollback-IsSound, select_one-IsSound,
  select_jobs-IsSound, add_job_log-IsSound, dispatch_task-IsSound, require_pending-IsSound,
  request_cancel-IsSound, delete_job-IsSound,
)

pub create_job-IsSound :
    (job_type : Raw) (parameters : Value) (owner_ref id : String) (now : ℕ)
    → Keeps IsSound (create_job job_type parameters owner_ref id now)
unfolding create_job
create_job-IsSound job_type parameters owner_ref id now = rolling_back-IsSound _ (
    Keeps-bind-Gives _ _ (Keeps-lift _) (normalize_job_kind-Gives job_type) (λ kind known.
      let f = new_job-IsFiled kind parameters owner_ref id now known in
      search (session_rules, insert_job-IsSound, f)))

pub start_job-IsSound :
    (job_id new_task : String) (now : ℕ) → Keeps IsSound (start_job job_id new_task now)
unfolding start_job
start_job-IsSound job_id new_task now = rolling_back-IsSound _ (
    Keeps-bind-Gives _ _ (select_one-IsSound _) (select_one-Gives _) (λ found f.
      Keeps-bind-Gives _ _ (require_pending-IsSound found job_id)
        (require_pending-Gives found job_id f)
        (λ job g. Keeps-bind _ _ (dispatch_task-IsSound job new_task) (λ task_id.
          Keeps-then _ _ (update_job-IsSound _ (queued_job-IsFiled job task_id now g))
            (search session_rules)))))

cancel_found-IsSound :
    (found : Option Job) (job_id : String) (now : ℕ)
    → FoundFiled found
    → Keeps IsSound (cancel_found found job_id now)
cancel_found-IsSound none job_id now f = search keeps_rules
cancel_found-IsSound (some job) job_id now f = Keeps-if _ _ _ (Keeps-pure false) (
    Keeps-then _ _ (request_cancel-IsSound job.task_id) (
      Keeps-then _ _ (update_job-IsSound _ (cancelled_job-IsFiled job now f))
        (search session_rules)))

pub cancel_job-IsSound :
    (job_id : String) (owner_ref : Option String) (now : ℕ)
    → Keeps IsSound (cancel_job job_id owner_ref now)
unfolding cancel_job get_job
cancel_job-IsSound job_id owner_ref now =
    Keeps-try_except _ _
      (Keeps-bind-Gives _ _ (select_one-IsSound _) (select_one-Gives _)
        (λ found f. cancel_found-IsSound found job_id now f))
      (λ _. search session_rules)

delete_jobs-IsSound : (jobs : List Job) → Keeps IsSound (delete_jobs jobs)
unfolding delete_jobs
delete_jobs-IsSound [] = search keeps_rules
delete_jobs-IsSound (job ∷ jobs) =
    Keeps-bind _ _ round_trip-IsSound
      (λ _. Keeps-bind _ _ (delete_job-IsSound job.job_id) (λ _. delete_jobs-IsSound jobs))

pub cleanup_old_jobs-IsSound : (days now : ℕ) → Keeps IsSound (cleanup_old_jobs days now)
unfolding cleanup_old_jobs
cleanup_old_jobs-IsSound days now = search (session_rules, delete_jobs-IsSound)
