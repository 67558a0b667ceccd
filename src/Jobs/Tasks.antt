-- ===== src/Jobs/Tasks.antt =====
-- apps/api/tasks/async_tasks.py: the background tasks, which write the status and the log of their
-- job in sessions of their own. What the KRA client and the race workflow return or raise is an
-- argument, an exception by its `str()`. A race number is a non-negative integer.
pub mod Composite
use kra_analysis.Prelude.{
  ℕ, String, Option, none, some, List, [], ◌∷◌, ◌++◌, Bool, true, false, ◌&&◌, str_eq,
  if◌then◌else◌, length,
}
use kra_analysis.Prelude.Text.{show_ℕ, ◌+++◌}
use kra_analysis.Prelude.Value.{
  Value, Items, Fields, null, int, pos, str, arr, obj, nil, cons, end, field,
}
use kra_analysis.Prelude.Result.{Result, ok, err}
use kra_analysis.Prelude.Exec.{Exec, pure, raise, lift, modify, ◌>>=◌, ◌>>◌, try_except}
use kra_analysis.Jobs.Contract.{Raw, other, Job, apply_job_shadow_fields}
use kra_analysis.Jobs.Store.{
  JobLog, World, Service, commit, forget, select_one, has_id, on_session, update_job, insert_log,
}
use kra_analysis.Jobs.Service.{is_terminal_text, is_given}

abbrev pub Task : Type 0 → Type 0
Task A = Exec World String A

-- `async with async_session_maker() as db: try: body except Exception: log`. What the body did not
-- commit is dropped when the session is closed.
unfoldable pub quietly : Service Unit → Task Unit
quietly body w = (ok tt, forget (body (forget w)).1)

-- `if error:`
abbrev pub given_or : Option String → Option String → Option String
given_or given old = if is_given given then given else old

abbrev pub result_or : Option Value → Option Value → Option Value
result_or none old = old
result_or (some payload) old = some payload

unfoldable pub status_job : Job → String → Option String → Option String → Option Value → ℕ → Job
unfolding apply_job_shadow_fields
status_job job status error task_id result_payload now =
    let shadowed =
      apply_job_shadow_fields (record job { status = some status }) none (some (other status)) in
    record shadowed {
      error_message = given_or error job.error_message;
      result = result_or result_payload job.result;
      task_id = given_or task_id job.task_id;
      completed_at = if is_terminal_text status then some now else job.completed_at;
    }

unfoldable pub write_status :
    Option Job → String → Option String → Option String → Option Value → ℕ → Service Unit
write_status none status error task_id result_payload now = pure tt
write_status (some job) status error task_id result_payload now = do
  modify (on_session (update_job (status_job job status error task_id result_payload now)))
  commit

unfoldable pub update_job_status :
    String → String → Option String → Option String → Option Value → ℕ → Task Unit
update_job_status job_id status error task_id result_payload now = quietly do
  found ← select_one (has_id job_id)
  write_status found status error task_id result_payload now

unfoldable pub log_job : String → String → String → Value → ℕ → Task Unit
log_job job_id level message metadata now = quietly do
  let log : JobLog = record {
    job_id = job_id;
    timestamp = now;
    level = level;
    message = message;
    log_metadata = metadata;
  }
  modify (on_session (insert_log log))
  commit

-- `if job_id:`
abbrev pub with_job : Option String → (String → Task Unit) → Task Unit
with_job none act = pure tt
with_job (some job_id) act = if str_eq job_id "" then pure tt else act job_id

unfoldable pub unsupported_job_type : String → Option String → ℕ → Task Value
unsupported_job_type job_kind job_id now = do
  let error = "Unsupported job type: " +++ job_kind
  with_job job_id λ id. do
    log_job id "error" error (obj (field "job_kind" (str job_kind) end)) now
    update_job_status id "failed" (some error) none none now
  pure (
      obj (
        field "status" (str "failed")
          (field "job_kind" (str job_kind) (field "error" (str error) end))))

abbrev pub number : ℕ → Value
number n = int (pos n)

abbrev pub collect_payload : String → ℕ → ℕ → Value → Value
collect_payload race_date meet race_no collected = obj (
    field "status" (str "success") (
      field "race_date" (str race_date) (
        field "meet" (number meet)
          (field "race_no" (number race_no) (field "data" collected end)))))

-- `if job_id and manage_job_status:`
abbrev managed : Bool → Option String → (String → Task Unit) → Task Unit
managed manage_job_status job_id act = if manage_job_status then with_job job_id act else pure tt

unfoldable pub collect_race_data :
    String → ℕ → ℕ → Option String → Option String → Bool → Result String Value → ℕ → Task Value
collect_race_data race_date meet race_no job_id task_id manage_job_status collected now =
    try_except
      (do
        managed manage_job_status job_id
            (λ id. update_job_status id "processing" none task_id none now)
        payload_data ← lift collected
        let payload = collect_payload race_date meet race_no payload_data
        with_job job_id λ id.
            log_job id "info" ("Successfully collected race " +++ show_ℕ race_no)
              (obj (field "race_no" (number race_no) end)) now
        managed manage_job_status job_id
            (λ id. update_job_status id "completed" none task_id (some payload) now)
        pure payload)
      (λ e. do
        with_job job_id λ id. do
          log_job id "error" ("Failed to collect race " +++ show_ℕ race_no +++ ": " +++ e)
              (obj (field "race_no" (number race_no) (field "error" (str e) end))) now
          managed manage_job_status job_id
              (λ _. update_job_status id "failed" (some e) task_id none now)
        raise e)

abbrev pub race_payload : String → Value → Value
race_payload race_id made =
    obj (field "status" (str "success") (field "race_id" (str race_id) (field "data" made end)))

-- `preprocess_race_data` and `enrich_race_data` differ in the target and in the words of the log.
abbrev materialize_race :
    String → String → String → Option String → Option String → Result String Value → ℕ → Task Value
materialize_race done failed_to race_id job_id task_id materialized now =
    try_except
      (do
        with_job job_id (λ id. update_job_status id "processing" none task_id none now)
        made ← lift materialized
        let payload = race_payload race_id made
        with_job job_id λ id. do
          log_job id "info" (done +++ race_id) (obj (field "race_id" (str race_id) end)) now
          update_job_status id "completed" none task_id (some payload) now
        pure payload)
      (λ e. do
        with_job job_id λ id. do
          log_job id "error" (failed_to +++ race_id +++ ": " +++ e)
              (obj (field "race_id" (str race_id) (field "error" (str e) end))) now
          update_job_status id "failed" (some e) task_id none now
        raise e)

unfoldable pub preprocess_race_data :
    String → Option String → Option String → Result String Value → ℕ → Task Value
preprocess_race_data =
    materialize_race "Successfully preprocessed race " "Failed to preprocess race "

unfoldable pub enrich_race_data :
    String → Option String → Option String → Result String Value → ℕ → Task Value
enrich_race_data = materialize_race "Successfully enriched race " "Failed to enrich race "
