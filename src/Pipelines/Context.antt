-- ===== src/Pipelines/Context.antt =====
-- apps/api/pipelines/base.py: the result of a stage and the context that the stages share.
use kra_analysis.Prelude.{ℕ, ◌-◌, String, Option, none, some, Bool, true, false, if◌then◌else◌, leb}
use kra_analysis.Prelude.Dict.{Dict, get, put}
use kra_analysis.Prelude.Text.{show_ℕ, ◌+++◌}
use kra_analysis.Prelude.Value.{Value, ℤ, pos, negsuc}

pub data StageStatus : Type 0 where
  pending running completed failed skipped : StageStatus

pub data PipelineStatus : Type 0 where
  idle running completed failed cancelled : PipelineStatus

pub record StageResult : Type 0 where
  pub status : StageStatus
  pub data_ : Option Value
  pub error : Option String
  pub metadata : Value
  pub execution_time_ms : Option ℤ
  pub stage_name : Option String

abbrev pub is_completed_status : StageStatus → Bool
is_completed_status StageStatus.completed = true
is_completed_status _ = false

abbrev pub is_failed_status : StageStatus → Bool
is_failed_status StageStatus.failed = true
is_failed_status _ = false

abbrev pub is_success : StageResult → Bool
is_success result = is_completed_status result.status

abbrev pub is_failure : StageResult → Bool
is_failure result = is_failed_status result.status

-- Times are milliseconds.
pub record PipelineContext : Type 0 where
  pub race_date : String
  pub meet : ℕ
  pub race_number : ℕ
  pub raw_data : Option Value
  pub preprocessed_data : Option Value
  pub enriched_data : Option Value
  pub validation_result : Option Value
  pub pipeline_id : Option String
  pub started_at : Option ℕ
  pub completed_at : Option ℕ
  pub metadata : Value
  pub current_stage : Option String
  pub stage_results : Dict StageResult

unfoldable pub add_stage_result : String → StageResult → PipelineContext → PipelineContext
add_stage_result stage_name result context = record context {
  stage_results =
      put context.stage_results stage_name (record result { stage_name = some stage_name });
}

unfoldable pub get_stage_result : PipelineContext → String → Option StageResult
get_stage_result context stage_name = get context.stage_results stage_name

abbrev succeeded : Option StageResult → Bool
succeeded none = false
succeeded (some result) = is_success result

unfoldable pub is_stage_completed : PipelineContext → String → Bool
unfolding get_stage_result
is_stage_completed context stage_name = succeeded (get_stage_result context stage_name)

unfoldable pub get_race_id : PipelineContext → String
unfolding show_ℕ
get_race_id context =
    context.race_date +++ "_" +++ show_ℕ context.meet +++ "_" +++ show_ℕ context.race_number

-- `int((later - earlier).total_seconds() * 1000)`
abbrev pub elapsed : ℕ → ℕ → ℤ
elapsed earlier later =
    if leb earlier later then pos (later - earlier) else negsuc (earlier - later - 1)

abbrev pub elapsed_between : Option ℕ → Option ℕ → Option ℤ
elapsed_between (some earlier) (some later) = some (elapsed earlier later)
elapsed_between _ _ = none

unfoldable pub get_execution_time_ms : PipelineContext → Option ℤ
get_execution_time_ms context = elapsed_between context.started_at context.completed_at
