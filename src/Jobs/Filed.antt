-- ===== src/Jobs/Filed.antt =====
-- The rows of `jobs` between two operations: the kind is canonical, the status is a member of the
-- vocabulary, the shadow columns (apps/api/services/job_contract.py) repeat both, and a job that has
-- ended has its time of completion.
pub mod Session
pub mod Operations
pub mod Tasks
use kra_analysis.Prelude.{String, Option, none, some, true, ◌≡◌, ◌≢◌, List, All, arith}
use kra_analysis.Prelude.Result.{ok}
use kra_analysis.Jobs.Contract.{
  LifecycleStatus, Raw, other, Job, status_value, normalize_job_kind, normalize_lifecycle_status,
  apply_job_shadow_fields, kind_or_text, status_or_text,
}
use kra_analysis.Jobs.Contract.Names.{status_round_trip}
use kra_analysis.Jobs.Store.{Db, World}
use kra_analysis.Jobs.Service.{is_terminal}

pub record IsFiled (job : Job) : Type 0 where
  pub kind_known : normalize_job_kind (other job.type) ≡ ok job.type
  pub kind_shadow : job.job_kind_v2 ≡ some job.type
  pub state : LifecycleStatus
  pub status_known : job.status ≡ some (status_value state)
  pub state_shadow : job.lifecycle_state_v2 ≡ some (status_value state)
  pub completed : is_terminal job.status ≡ true → job.completed_at ≢ none

abbrev pub RowsFiled : Db → Type 0
RowsFiled db = All IsFiled db.jobs

-- Of the published rows and of those that the open session sees.
pub record IsSound (w : World) : Type 0 where
  pub committed : RowsFiled w.committed
  pub session : RowsFiled w.session

-- A job whose kind is canonical is filed by the shadow fields of a status of the vocabulary.
pub IsFiled-apply_job_shadow_fields :
    (job : Job) (s : LifecycleStatus)
    → normalize_job_kind (other job.type) ≡ ok job.type
    → job.status ≡ some (status_value s)
    → (is_terminal job.status ≡ true → job.completed_at ≢ none)
    → IsFiled (apply_job_shadow_fields job none (some (other (status_value s))))
unfolding apply_job_shadow_fields
IsFiled-apply_job_shadow_fields job s known status done = record {
  kind_known = known;
  kind_shadow = ground (arith, known);
  state = s;
  status_known = status;
  state_shadow = ground (arith, (status_round_trip s).1);
  completed = done;
}
