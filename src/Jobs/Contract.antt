-- ===== src/Jobs/Contract.antt =====
-- apps/api/services/job_contract.py: the job vocabulary and the tables that normalise it, and the
-- columns of the `jobs` table (apps/api/models/database_models.py).
pub mod Names
use kra_analysis.Prelude.{
  ℕ, String, Option, none, some, List, [], ◌∷◌, Bool, true, false, ◌≡◌, if◌then◌else◌,
}
use kra_analysis.Prelude.Dict.{Dict, get}
use kra_analysis.Prelude.Value.{Value}
use kra_analysis.Prelude.Result.{Result, ok, err, or_raise}

pub data DispatchAction : Type 0 where
  collect_race preprocess_race enrich_race analysis prediction improvement : DispatchAction
  batch_collect full_pipeline : DispatchAction

pub data LifecycleStatus : Type 0 where
  pending queued processing completed failed cancelled : LifecycleStatus

-- The `value` of a member of the enumeration.
unfoldable pub action_value : DispatchAction → String
action_value collect_race = "collect_race"
action_value preprocess_race = "preprocess_race"
action_value enrich_race = "enrich_race"
action_value analysis = "analysis"
action_value prediction = "prediction"
action_value improvement = "improvement"
action_value batch_collect = "batch_collect"
action_value full_pipeline = "full_pipeline"

unfoldable pub status_value : LifecycleStatus → String
status_value pending = "pending"
status_value queued = "queued"
status_value processing = "processing"
status_value completed = "completed"
status_value failed = "failed"
status_value cancelled = "cancelled"

-- The exceptions that the job components raise or pass on.
pub data Error : Type 0 where
  unknown_job_kind unknown_job_type unknown_status : String → Error
  job_not_found already_started : String → Error
  key_error : String → Error
  type_error database_error : Error

-- An argument of type `object`: one with a `value` attribute, or another by its `str()`.
pub data Raw : Type 0 where
  member other : String → Raw

unfoldable pub raw_text : Raw → String
raw_text (member value) = value
raw_text (other text) = text

abbrev pub kind_aliases : Dict String
kind_aliases =
    ("collection", "collection")
    ∷ ("collect_race", "collection")
    ∷ ("preprocess_race", "collection")
    ∷ ("enrichment", "enrichment")
    ∷ ("enrich_race", "enrichment")
    ∷ ("analysis", "analysis")
    ∷ ("prediction", "prediction")
    ∷ ("improvement", "improvement")
    ∷ ("batch", "batch")
    ∷ ("batch_collect", "batch")
    ∷ ("full_pipeline", "batch")
    ∷ []

abbrev pub action_aliases : Dict DispatchAction
action_aliases =
    ("collect_race", collect_race)
    ∷ ("collection", collect_race)
    ∷ ("preprocess_race", preprocess_race)
    ∷ ("enrich_race", enrich_race)
    ∷ ("enrichment", enrich_race)
    ∷ ("analysis", analysis)
    ∷ ("prediction", prediction)
    ∷ ("improvement", improvement)
    ∷ ("batch_collect", batch_collect)
    ∷ ("batch", batch_collect)
    ∷ ("full_pipeline", full_pipeline)
    ∷ []

abbrev pub status_aliases : Dict LifecycleStatus
status_aliases =
    ("pending", pending)
    ∷ ("queued", queued)
    ∷ ("processing", processing)
    ∷ ("running", processing)
    ∷ ("retrying", processing)
    ∷ ("completed", completed)
    ∷ ("failed", failed)
    ∷ ("cancelled", cancelled)
    ∷ []

unfoldable pub normalize_job_kind : Raw → Result Error String
unfolding raw_text get
normalize_job_kind value =
    let raw = raw_text value in or_raise (unknown_job_kind raw) (get kind_aliases raw)

unfoldable pub normalize_dispatch_action : Raw → Result Error DispatchAction
unfolding raw_text get
normalize_dispatch_action value =
    let raw = raw_text value in or_raise (unknown_job_type raw) (get action_aliases raw)

unfoldable pub normalize_lifecycle_status : Raw → Result Error LifecycleStatus
unfolding raw_text get
normalize_lifecycle_status value =
    let raw = raw_text value in or_raise (unknown_status raw) (get status_aliases raw)

-- A row of `jobs`. The columns that no modelled operation reads or writes are left out (progress,
-- current_step, total_steps, retry_count, tags). A member of an enumeration column is a `StrEnum`,
-- equal to its text. Times are seconds.
pub record Job : Type 0 where
  pub job_id : String
  pub type : String
  pub job_kind_v2 : Option String
  pub status : Option String
  pub lifecycle_state_v2 : Option String
  pub created_at : Option ℕ
  pub started_at : Option ℕ
  pub completed_at : Option ℕ
  pub result : Option Value
  pub error_message : Option String
  pub parameters : Value
  pub created_by : Option String
  pub task_id : Option String

-- `try: normalize(...) except ValueError: str(raw)`
abbrev pub kind_or_text : Raw → String
kind_or_text raw = elim (normalize_job_kind raw) [ ok kind ↦ kind | err _ ↦ raw_text raw ]

abbrev pub status_or_text : Raw → String
status_or_text raw = elim (normalize_lifecycle_status raw) [
  | ok s ↦ status_value s
  | err _ ↦ raw_text raw
]

-- The argument if it is given, or else the column.
abbrev pub source_of : Option Raw → Option String → Option Raw
source_of (some given) column = some given
source_of none none = none
source_of none (some text) = some (other text)

abbrev shadow_kind : Option Raw → Option String → Option String
shadow_kind none old = old
shadow_kind (some raw) old = some (kind_or_text raw)

abbrev shadow_status : Option Raw → Option String → Option String
shadow_status none old = old
shadow_status (some raw) old = some (status_or_text raw)

unfoldable pub apply_job_shadow_fields : Job → Option Raw → Option Raw → Job
unfolding normalize_job_kind normalize_lifecycle_status status_value
apply_job_shadow_fields job job_kind lifecycle_status = record job {
  job_kind_v2 = shadow_kind (source_of job_kind (some job.type)) job.job_kind_v2;
  lifecycle_state_v2 = shadow_status (source_of lifecycle_status job.status) job.lifecycle_state_v2;
}
