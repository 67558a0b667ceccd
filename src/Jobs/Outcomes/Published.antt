-- ===== src/Jobs/Outcomes/Published.antt =====
-- `create_job`, `start_job` and `cancel_job` (apps/api/services/job_service.py): the rows that they
-- publish while the database answers, column by column.
use kra_analysis.Prelude.{
  ℕ, String, Option, none, some, List, [], ◌∷◌, ◌++◌, map, true, false, ◌≡◌, ◌⊎◌, refl,
  if◌then◌else◌, str_eq, arith,
}
use kra_analysis.Prelude.Value.{Value}
use kra_analysis.Prelude.Result.{ok}
use kra_analysis.Prelude.Dict.{get}
use kra_analysis.Prelude.Exec.Runs.{Runs}
use kra_analysis.Jobs.Contract.{
  Raw, other, Job, normalize_job_kind, normalize_lifecycle_status, status_value, raw_text,
  apply_job_shadow_fields,
}
use kra_analysis.Jobs.Contract.Names.{normalize_job_kind_idem}
use kra_analysis.Jobs.Store.{Db, JobLog, Submission, insert_job}
use kra_analysis.Jobs.Service.{create_job}
use kra_analysis.Jobs.Quiet.{calm}
use kra_analysis.Jobs.Outcomes.Creating.{created, create_job-Runs}

-- The tables with a row in the place of those with its key, and one more log.
abbrev pub replaced : Job → JobLog → Db → Db
replaced job log db = record db {
  jobs = map (λ (row : Job). if str_eq row.job_id job.job_id then job else row) db.jobs;
  logs = db.logs ++ log ∷ [];
}

-- The columns that starting or cancelling a job leaves.
pub record IsSameJob (old new : Job) : Type 0 where
  pub job_id : new.job_id ≡ old.job_id
  pub type : new.type ≡ old.type
  pub created_at : new.created_at ≡ old.created_at
  pub result : new.result ≡ old.result
  pub error_message : new.error_message ≡ old.error_message
  pub parameters : new.parameters ≡ old.parameters
  pub created_by : new.created_by ≡ old.created_by

pub record IsPendingRow (kind : String) (parameters : Value) (owner_ref id : String) (now : ℕ)
    (job : Job) : Type 0 where
  pub job_id : job.job_id ≡ id
  pub type : job.type ≡ kind
  pub job_kind_v2 : job.job_kind_v2 ≡ some kind
  pub status : job.status ≡ some "pending"
  pub lifecycle_state_v2 : job.lifecycle_state_v2 ≡ some "pending"
  pub created_at : job.created_at ≡ some now
  pub started_at : job.started_at ≡ none
  pub completed_at : job.completed_at ≡ none
  pub parameters_kept : job.parameters ≡ parameters
  pub created_by : job.created_by ≡ some owner_ref
  pub task_id : job.task_id ≡ none

created-IsPendingRow :
    (kind : String) (parameters : Value) (owner_ref id : String) (now : ℕ)
    → normalize_job_kind (other kind) ≡ ok kind
    → IsPendingRow kind parameters owner_ref id now (created kind parameters owner_ref id now)
unfolding apply_job_shadow_fields normalize_lifecycle_status status_value raw_text get
created-IsPendingRow kind parameters owner_ref id now known = record {
  job_id = refl;
  type = refl;
  job_kind_v2 = ground (arith, known);
  status = refl;
  lifecycle_state_v2 = refl;
  created_at = refl;
  started_at = refl;
  completed_at = refl;
  parameters_kept = refl;
  created_by = refl;
  task_id = refl;
}

pub record IsQueuedRow (old : Job) (task_id : String) (now : ℕ) (job : Job) : Type 0 where
  pub same : IsSameJob old job
  pub status : job.status ≡ some "queued"
  pub lifecycle_state_v2 : job.lifecycle_state_v2 ≡ some "queued"
  pub task : job.task_id ≡ some task_id
  pub started_at : job.started_at ≡ some now
  pub completed_at : job.completed_at ≡ old.completed_at

pub record IsCancelledRow (old : Job) (now : ℕ) (job : Job) : Type 0 where
  pub same : IsSameJob old job
  pub status : job.status ≡ some "cancelled"
  pub lifecycle_state_v2 : job.lifecycle_state_v2 ≡ some "cancelled"
  pub completed_at : job.completed_at ≡ some now
  pub started_at : job.started_at ≡ old.started_at
  pub task : job.task_id ≡ old.task_id

-- The requests of cancellation before and after: one more, for the task, if the row has one.
abbrev pub IsAsked : Option String → List String → List String → Type 0
IsAsked none before after = after ≡ before
IsAsked (some task_id) before after =
    ((str_eq task_id "" ≡ true) × (after ≡ before))
    ⊎ ((str_eq task_id "" ≡ false) × (after ≡ before ++ task_id ∷ []))

module _ (c s : Db) (q : List Submission) (r : List String) where
  -- While the database answers, a job of a known kind is published as the last row and returned: under
  -- its canonical name, with the given key, owner and parameters, pending, with its shadow columns, with
  -- the time of its creation and neither a task nor another time.
  pub create_job-IsPendingRow :
      (job_type : Raw) (parameters : Value) (owner_ref id : String) (now : ℕ) {kind : String}
      → normalize_job_kind job_type ≡ ok kind
      → (job : Job) × (let db : Db = record s { jobs = s.jobs ++ job ∷ [] } in
          Runs
            (create_job job_type parameters owner_ref id now)
            (calm c s q r)
            (ok job)
            (calm db db q r))
        × IsPendingRow kind parameters owner_ref id now job
  unfolding insert_job
  create_job-IsPendingRow job_type parameters owner_ref id now {kind} known = (
    created kind parameters owner_ref id now,
    create_job-Runs c s q r job_type parameters owner_ref id now known,
    created-IsPendingRow kind parameters owner_ref id now (normalize_job_kind_idem job_type known),
  )
