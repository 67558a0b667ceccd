-- ===== src/Jobs/Reading/Progress.antt =====
-- `_calculate_progress`: its range, and what it makes of the task's own status.
use kra_analysis.Prelude.{
  ℕ, ◌≤◌, String, Option, some, ◌≡◌, refl, ◌∙◌, ap, false, str_eq, eq_iff, arith, subst,
  if◌then◌else◌, Bool-cases, inl, inr,
}
use kra_analysis.Prelude.Value.{Value}
use kra_analysis.Prelude.Result.{ok}
use kra_analysis.Jobs.Contract.{
  Job, status_value, other, normalize_job_kind, LifecycleStatus, pending, queued, processing,
  completed, failed, cancelled,
}
use kra_analysis.Jobs.Queries.{calculate_progress, progress_of}
use kra_analysis.Jobs.Filed.{IsFiled}

not_full_pipeline :
    (type : String)
    → normalize_job_kind (other type) ≡ ok type
    → str_eq type "full_pipeline" ≡ false
unfolding normalize_job_kind
not_full_pipeline type known = elim (Bool-cases (str_eq type "full_pipeline")) [
  | inr no_match ↦ no_match
  | inl same ↦
      let filed =
        subst (λ t. normalize_job_kind (other t) ≡ ok t) ((eq_iff type "full_pipeline").0 same)
          known in
      absurd (ground (arith, filed, eq_iff "batch" "full_pipeline"))
]

-- The progress of a row by its status alone.
abbrev pub progress_by_status : String → ℕ
progress_by_status status =
    if str_eq status "completed"
    then 100
    else if str_eq status "failed"
    then 0
    else if str_eq status "pending"
    then 0
    else if str_eq status "queued"
    then 5
    else if str_eq status "processing"
    then 50
    else 0

progress_of-kind :
    (type status : String) (task_status : Option Value)
    → str_eq type "full_pipeline" ≡ false
    → progress_of type status task_status ≡ ok (progress_by_status status)
progress_of-kind type status task_status kind = rw kind (ground arith)

-- The progress of a job in each status.
abbrev pub percent : LifecycleStatus → ℕ
percent pending = 0
percent queued = 5
percent processing = 50
percent completed = 100
percent failed = 0
percent cancelled = 0

progress_by_status-value :
    (state : LifecycleStatus) → progress_by_status (status_value state) ≡ percent state
unfolding status_value
progress_by_status-value pending = refl
progress_by_status-value queued = refl
progress_by_status-value processing = refl
progress_by_status-value completed = refl
progress_by_status-value failed = refl
progress_by_status-value cancelled = refl

percent_le : (state : LifecycleStatus) → percent state ≤ 100
percent_le pending = omega arith
percent_le queued = omega arith
percent_le processing = omega arith
percent_le completed = omega arith
percent_le failed = omega arith
percent_le cancelled = omega arith

-- Of a filed row the progress is 100 where its status is completed, 50 where it is processing, 5 where
-- it is queued, and 0 where it is pending, failed or cancelled, whatever its kind and whatever the task
-- reports of its steps; it is at most 100.
pub calculate_progress-IsFiled :
    (job : Job)
    → IsFiled job
    → (state : LifecycleStatus) → job.status ≡ some (status_value state)
    → (task_status : Option Value)
    → (calculate_progress job task_status ≡ ok (percent state)) × (percent state ≤ 100)
unfolding calculate_progress
calculate_progress-IsFiled job f state status task_status = (
  rw status (
      progress_of-kind job.type (status_value state) task_status
        (not_full_pipeline job.type f.kind_known)
      ∙ ap (λ n. ok n) (progress_by_status-value state)),
  percent_le state,
)
