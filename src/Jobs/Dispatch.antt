-- ===== src/Jobs/Dispatch.antt =====
-- apps/api/services/job_service.py: the dispatch table of `_dispatch_task`.
use kra_analysis.Prelude.{String, str_eq, if◌then◌else◌}
use kra_analysis.Prelude.Value.{Value, Fields, obj, end, field}
use kra_analysis.Prelude.Result.{Result, ok, err, ◌>>=◌}
use kra_analysis.Jobs.Contract.{Error, key_error, type_error, DispatchAction}

-- What `_dispatch_task` hands to the task runner: a coroutine function of `tasks.async_tasks`.
pub data Call : Type 0 where
  collect_race_data full_pipeline : Value → Value → Value → Call
  preprocess_race_data enrich_race_data : Value → Call
  unsupported_job_type : String → Call
  batch_collect : Value → Value → Value → Call

-- dispatch_params[key]
abbrev pub field_of : Fields → String → Result Error Value
field_of end key = err (key_error key)
field_of (field j v rest) key = if str_eq j key then ok v else field_of rest key

unfoldable pub subscript : Value → String → Result Error Value
subscript (obj fields) key = field_of fields key
subscript _ key = err type_error

-- The handlers of `dispatch_table`, in the order in which they read the parameters.
unfoldable pub dispatch_call : DispatchAction → Value → Result Error Call
dispatch_call DispatchAction.collect_race params = do
  race_date ← subscript params "race_date"
  meet ← subscript params "meet"
  race_no ← subscript params "race_no"
  ok (collect_race_data race_date meet race_no)
dispatch_call DispatchAction.preprocess_race params = do
  race_id ← subscript params "race_id"
  ok (preprocess_race_data race_id)
dispatch_call DispatchAction.enrich_race params = do
  race_id ← subscript params "race_id"
  ok (enrich_race_data race_id)
dispatch_call DispatchAction.analysis params = ok (unsupported_job_type "analysis")
dispatch_call DispatchAction.prediction params = ok (unsupported_job_type "prediction")
dispatch_call DispatchAction.improvement params = ok (unsupported_job_type "improvement")
dispatch_call DispatchAction.batch_collect params = do
  race_date ← subscript params "race_date"
  meet ← subscript params "meet"
  race_numbers ← subscript params "race_numbers"
  ok (batch_collect race_date meet race_numbers)
dispatch_call DispatchAction.full_pipeline params = do
  race_date ← subscript params "race_date"
  meet ← subscript params "meet"
  race_no ← subscript params "race_no"
  ok (full_pipeline race_date meet race_no)
