-- ===== src/Jobs/Tasks/Composite.antt =====
-- apps/api/tasks/async_tasks.py: `batch_collect` and `full_pipeline`.
use kra_analysis.Prelude.{
  ℕ, String, Option, none, some, List, [], ◌∷◌, ◌++◌, Bool, true, false, if◌then◌else◌, length,
}
use kra_analysis.Prelude.Text.{show_ℕ, ◌+++◌}
use kra_analysis.Prelude.Value.{Value, Items, str, arr, obj, nil, cons, end, field}
use kra_analysis.Prelude.Result.{Result, ok, err}
use kra_analysis.Prelude.Exec.{pure, raise, lift, ◌>>=◌, ◌>>◌, try_except}
use kra_analysis.Jobs.Tasks.{Task, update_job_status, log_job, with_job, collect_race_data, number}

abbrev pub items_of : List Value → Items
items_of [] = nil
items_of (v ∷ vs) = cons v (items_of vs)

-- The lists `results` and `errors` of the loop.
pub record Batch : Type 0 where
  pub results : List Value
  pub errors : List Value

abbrev pub failure_of : ℕ → String → Value
failure_of race_no e = obj (field "race_no" (number race_no) (field "error" (str e) end))

-- `results.append(await ...)` or, in the handler, `errors.append(...)`
abbrev pub append_outcome : ℕ → Result String Value → Batch → Batch
append_outcome race_no (ok v) b = record b { results = b.results ++ v ∷ [] }
append_outcome race_no (err e) b = record b { errors = b.errors ++ failure_of race_no e ∷ [] }

-- `collected` is what the client and the workflow do for each race.
unfoldable pub collect_each :
    String
    → ℕ
    → List (ℕ × Result String Value)
    → Option String
    → Option String
    → ℕ
    → Batch
    → Task Batch
collect_each race_date meet [] job_id task_id now b = pure b
collect_each race_date meet ((race_no, collected) ∷ rest) job_id task_id now b = do
  b' ←
      try_except
        (do
          v ← collect_race_data race_date meet race_no job_id task_id false collected now
          pure (append_outcome race_no (ok v) b))
        (λ e. pure (append_outcome race_no (err e) b))
  collect_each race_date meet rest job_id task_id now b'

abbrev pub is_clean : Batch → Bool
is_clean b = elim b.errors [ [] ↦ true | _ ∷ _ ↦ false ]

abbrev pub batch_payload : String → ℕ → Batch → Value
batch_payload race_date meet b = obj (
    field "status" (str (if is_clean b then "completed" else "partial")) (
      field "race_date" (str race_date) (
        field "meet" (number meet) (
          field "results" (arr (items_of b.results))
            (field "errors" (arr (items_of b.errors)) end)))))

unfoldable pub batch_collect :
    String → ℕ → List (ℕ × Result String Value) → Option String → Option String → ℕ → Task Value
batch_collect race_date meet races job_id task_id now = do
  with_job job_id (λ id. update_job_status id "processing" none task_id none now)
  b ← collect_each race_date meet races job_id task_id now (record { results = []; errors = [] })
  let payload = batch_payload race_date meet b
  with_job job_id λ id.
      update_job_status id (if is_clean b then "completed" else "failed")
        (if is_clean b
          then none
          else some (show_ℕ (length b.errors) +++ " races failed during batch collection"))
        task_id (some payload) now
  pure payload

abbrev step_metadata : String → Value
step_metadata step = obj (field "step" (str step) end)

abbrev pub pipeline_payload : String → ℕ → ℕ → String → Value
pipeline_payload race_date meet race_no race_id = obj (
    field "status" (str "success") (
      field "race_date" (str race_date) (
        field "meet" (number meet) (
          field "race_no" (number race_no) (
            field "race_id" (str race_id) (
              field "steps"
                (obj (
                  field "collect" (str "completed")
                    (field "preprocess" (str "completed") (field "enrich" (str "completed") end))))
                end))))))

-- What the three calls of the workflow do: the first returns the race's identifier.
pub record Stages : Type 0 where
  pub collected : Result String String
  pub preprocessed : Result String Unit
  pub enriched : Result String Unit

-- The handler of `full_pipeline`.
abbrev pub report_failure : Option String → Option String → ℕ → String → Task Value
report_failure job_id task_id now e = do
  with_job job_id λ id. do
    update_job_status id "failed" (some e) task_id none now
    log_job id "error" ("Pipeline failed: " +++ e) (obj (field "error" (str e) end)) now
  raise e

unfoldable pub full_pipeline :
    String → ℕ → ℕ → Option String → Option String → Stages → ℕ → Task Value
full_pipeline race_date meet race_no job_id task_id stages now =
    try_except
      (do
        with_job job_id (λ id. update_job_status id "processing" none task_id none now)
        with_job job_id
            (λ id. log_job id "info" "Starting data collection" (step_metadata "collect") now)
        race_id ← lift stages.collected
        with_job job_id
            (λ id. log_job id "info" "Starting preprocessing" (step_metadata "preprocess") now)
        lift stages.preprocessed
        with_job job_id (λ id. log_job id "info" "Starting enrichment" (step_metadata "enrich") now)
        lift stages.enriched
        let payload = pipeline_payload race_date meet race_no race_id
        with_job job_id λ id. do
          update_job_status id "completed" none task_id (some payload) now
          log_job id "info" "Pipeline completed successfully"
              (obj (field "race_id" (str race_id) end)) now
        pure payload)
      (report_failure job_id task_id now)
