-- ===== src/Jobs/Queries.antt =====
-- apps/api/services/job_service.py: reading jobs, their logs, their progress and their statistics.
use kra_analysis.Prelude.{
  ℕ, ◌+◌, ◌*◌, leb, String, Option, none, some, List, [], ◌∷◌, ◌++◌, Bool, true, false, not, str_eq,
  if◌then◌else◌, length, keep, all, any, take, drop,
}
use kra_analysis.Prelude.Value.{Value, Fields, str, obj, end, field}
use kra_analysis.Prelude.Dict.{Dict, get}
use kra_analysis.Prelude.Result.{Result, ok, err}
use kra_analysis.Prelude.Exec.{pure, raise, lift, gets, ◌>>=◌, ◌>>◌}
use kra_analysis.Jobs.Contract.{
  Error, type_error, database_error, Raw, Job, raw_text, normalize_job_kind,
}
use kra_analysis.Jobs.Store.{JobLog, Service, round_trip, select_jobs}
use kra_analysis.Jobs.Service.{is_given, equals, get_job}

-- ORDER BY ... DESC. A missing time comes first, as PostgreSQL orders it; equal times keep the
-- table's order, which is one of the orders that the database may choose.
abbrev pub is_later : Option ℕ → Option ℕ → Bool
is_later none b = true
is_later (some a) none = false
is_later (some a) (some b) = leb b a

unfoldable pub insert_desc {ℓ} : {A : Type ℓ} → (A → Option ℕ) → A → List A → List A
insert_desc time x [] = x ∷ []
insert_desc time x (y ∷ ys) =
    if is_later (time x) (time y) then x ∷ y ∷ ys else y ∷ insert_desc time x ys

unfoldable pub order_desc {ℓ} : {A : Type ℓ} → (A → Option ℕ) → List A → List A
unfolding insert_desc
order_desc time [] = []
order_desc time (x ∷ xs) = insert_desc time x (order_desc time xs)

-- .limit(limit).offset(offset)
abbrev pub page {ℓ} : {A : Type ℓ} → ℕ → ℕ → List A → List A
page limit offset rows = take limit (drop offset rows)

unfoldable pub get_job_logs : String → ℕ → ℕ → Service (List JobLog)
unfolding order_desc
get_job_logs job_id limit offset = do
  round_trip
  gets λ w. page limit offset (
      order_desc (λ (log : JobLog). some log.timestamp)
        (keep (λ (log : JobLog). str_eq log.job_id job_id) w.session.logs))

-- `if job_type:` and `if status:`; every member of the two enumerations counts as given.
abbrev pub is_raw_given : Option Raw → Bool
is_raw_given none = false
is_raw_given (some raw) = not (str_eq (raw_text raw) "")

abbrev pub owner_filter : Option String → List (Job → Bool)
owner_filter owner_ref =
    if is_given owner_ref then (λ job. equals job.created_by owner_ref) ∷ [] else []

abbrev pub kind_filter : Option Raw → Result Error (List (Job → Bool))
kind_filter none = ok []
kind_filter (some raw) =
    if is_raw_given (some raw)
    then elim (normalize_job_kind raw) [
      | ok kind ↦ ok ((λ (job : Job). str_eq job.type kind) ∷ [])
      | err e ↦ err e
    ]
    else ok []

-- str.upper and str.lower
pub record Casing : Type 0 where
  pub upper : String → String
  pub lower : String → String

-- The members of JobStatus by their names; their values are in lower case.
abbrev pub status_members : Dict String
status_members =
    ("PENDING", "pending")
    ∷ ("QUEUED", "queued")
    ∷ ("PROCESSING", "processing")
    ∷ ("COMPLETED", "completed")
    ∷ ("FAILED", "failed")
    ∷ ("CANCELLED", "cancelled")
    ∷ []

abbrev pub is_job_status : String → Bool
is_job_status text = any (λ (entry : String × String). str_eq entry.1 text) status_members

abbrev or_lower : Casing → String → Option String → String
or_lower casing text none = casing.lower text
or_lower casing text (some value) = value

-- PostgresEnum.process_bind_param of a text: a value of a member, its name in any case, or another.
unfoldable pub bind_status : Casing → String → String
unfolding get
bind_status casing text =
    if is_job_status text
    then text
    else or_lower casing text (get status_members (casing.upper text))

-- What the database makes of the condition on the status; it refuses a text that is no value of the
-- enumeration.
abbrev pub bound_filter : String → Option (List (Job → Bool))
bound_filter bound =
    if is_job_status bound then some ((λ job. equals job.status (some bound)) ∷ []) else none

unfoldable pub status_filter : Casing → Option Raw → Option (List (Job → Bool))
unfolding bind_status raw_text
status_filter casing none = some []
status_filter casing (some raw) =
    if is_raw_given (some raw) then bound_filter (bind_status casing (raw_text raw)) else some []

-- `and_(*filters)`
abbrev pub passes : List (Job → Bool) → Job → Bool
passes filters job = all (λ f. f job) filters

-- A query with the three conditions.
abbrev pub select_filtered :
    List (Job → Bool) → List (Job → Bool) → Option (List (Job → Bool)) → Service (List Job)
select_filtered by_owner by_kind none = do round_trip; raise database_error
select_filtered by_owner by_kind (some by_status) =
    select_jobs (passes (by_owner ++ by_kind ++ by_status))

unfoldable pub list_jobs_with_total :
    Casing → Option String → Option Raw → Option Raw → ℕ → ℕ → Service (List Job × ℕ)
unfolding order_desc normalize_job_kind raw_text status_filter
list_jobs_with_total casing owner_ref job_type status limit offset = do
  by_kind ← lift (kind_filter job_type)
  let by_status = status_filter casing status
  matching ← select_filtered (owner_filter owner_ref) by_kind by_status
  counted ← select_filtered (owner_filter owner_ref) by_kind by_status
  pure (page limit offset (order_desc (λ (job : Job). job.created_at) matching), length counted)

unfoldable pub list_jobs :
    Casing → Option String → Option Raw → Option Raw → ℕ → ℕ → Service (List Job)
unfolding list_jobs_with_total
list_jobs casing owner_ref job_type status limit offset = do
  listed ← list_jobs_with_total casing owner_ref job_type status limit offset
  pure listed.0

abbrev pub lookup_field : Fields → String → Option Value
lookup_field end key = none
lookup_field (field j v rest) key = if str_eq j key then some v else lookup_field rest key

abbrev is_completed : Value → Bool
is_completed (str text) = str_eq text "completed"
is_completed _ = false

abbrev pub count_completed : Fields → ℕ
count_completed end = 0
count_completed (field j v rest) =
    let n = count_completed rest in if is_completed v then n + 1 else n

-- `info["steps"].values()` of what is no dict raises.
abbrev progress_of_steps : Option Value → Result Error ℕ
progress_of_steps none = ok 50
progress_of_steps (some (obj steps)) = ok (10 + count_completed steps * 30)
progress_of_steps (some _) = err type_error

abbrev progress_of_result : Option Value → Result Error ℕ
progress_of_result (some (obj info)) = progress_of_steps (lookup_field info "steps")
progress_of_result _ = ok 50

abbrev progress_of_task : Option Value → Result Error ℕ
progress_of_task (some (obj task)) = progress_of_result (lookup_field task "result")
progress_of_task _ = ok 50

abbrev pub progress_of : String → String → Option Value → Result Error ℕ
progress_of type status task_status =
    if str_eq status "completed"
    then ok 100
    else if str_eq status "failed"
    then ok 0
    else if str_eq status "pending"
    then ok 0
    else if str_eq status "queued"
    then ok 5
    else if str_eq status "processing"
    then (if str_eq type "full_pipeline" then progress_of_task task_status else ok 50)
    else ok 0

unfoldable pub calculate_progress : Job → Option Value → Result Error ℕ
calculate_progress job task_status = elim job.status [
  | none ↦ ok 0
  | some status ↦ progress_of job.type status task_status
]

-- The answer of `get_job_status`, less the columns that it copies.
pub record JobView : Type 0 where
  pub job_id : String
  pub type : String
  pub status : String
  pub progress : ℕ
  pub created_at : ℕ
  pub started_at : Option ℕ
  pub completed_at : Option ℕ
  pub error : Option String
  pub task_status : Option Value
  pub parameters : Value

-- What the runner's `get_task_status` answers for a task; an exception counts as no answer.
abbrev background_status : (String → Result Error (Option Value)) → Option String → Option Value
background_status runner none = none
background_status runner (some task_id) =
    if str_eq task_id "" then none else elim (runner task_id) [ ok answer ↦ answer | err _ ↦ none ]

abbrev status_view : Job → Option Value → Result Error JobView
status_view job task_status = elim (calculate_progress job task_status) [
  | err e ↦ err e
  | ok progress ↦ elim job.created_at [
    | none ↦ err type_error
    | some created_at ↦ ok (record {
      job_id = job.job_id;
      type = job.type;
      status = elim job.status [ none ↦ "None" | some status ↦ status ];
      progress = progress;
      created_at = created_at;
      started_at = job.started_at;
      completed_at = job.completed_at;
      error = job.error_message;
      task_status = task_status;
      parameters = job.parameters;
    })
  ]
]

abbrev view_found :
    (String → Result Error (Option Value)) → Option Job → Result Error (Option JobView)
view_found runner none = ok none
view_found runner (some job) = elim (status_view job (background_status runner job.task_id)) [
  | ok view ↦ ok (some view)
  | err e ↦ err e
]

unfoldable pub get_job_status :
    (String → Result Error (Option Value)) → String → Service (Option JobView)
unfolding calculate_progress get_job
get_job_status runner job_id = do found ← get_job job_id none; lift (view_found runner found)
