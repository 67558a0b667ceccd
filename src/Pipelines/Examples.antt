-- ===== src/Pipelines/Examples.antt =====
-- Pipelines of apps/api/pipelines/base.py over two sample stages.
use kra_analysis.Prelude.{ℕ, ◌*◌, none, some, [], ◌∷◌, true, false, ◌≡◌, refl, ◌⊎◌}
use kra_analysis.Prelude.Dict.{put, get}
use kra_analysis.Prelude.Text.{show_ℕ}
use kra_analysis.Prelude.Value.{obj, end, str}
use kra_analysis.Prelude.Result.{ok, err}
use kra_analysis.Prelude.Exec.{try_except, ◌>>=◌}
use kra_analysis.Pipelines.Context.{
  StageStatus, PipelineStatus, PipelineContext, add_stage_result, get_race_id,
}
use kra_analysis.Pipelines.Stage.{
  Stage, Machine, other_error, execution_error, skipped_result, call, now, execute_stage, run_stage,
  run_stages, roll_back,
}
use kra_analysis.Pipelines.Pipeline.{Pipeline, begin, finish, abort, run_pipeline, execute}
use kra_analysis.Pipelines.Steps.{RoundEnded}
use kra_analysis.Pipelines.Rounds.{run_stage-Ended}
use kra_analysis.Pipelines.Execution.{Succeeded, Aborted, execute-Ended}

-- A stage that writes the raw data, and whose rollback raises after it has cleared them.
abbrev collecting : Stage
collecting = record {
  name = "collection";
  should_skip = λ c. (ok false, c);
  validate_prerequisites = λ c. (ok true, c);
  execute = λ c. (
    ok (record skipped_result { status = StageStatus.completed }),
    record c { raw_data = some (str "raw") },
  );
  rollback = λ c. (err (other_error "rollback"), record c { raw_data = none });
}

-- A stage that raises.
abbrev raising : Stage
raising = record collecting { name = "preprocessing"; execute = λ c. (err (other_error "boom"), c) }

abbrev empty_context : PipelineContext
empty_context = record {
  race_date = "20250720";
  meet = 1;
  race_number = 3;
  raw_data = none;
  preprocessed_data = none;
  enriched_data = none;
  validation_result = none;
  pipeline_id = none;
  started_at = none;
  completed_at = none;
  metadata = obj end;
  current_stage = none;
  stage_results = [];
}

abbrev sample : Pipeline
sample = record {
  name = "standard";
  stages = collecting ∷ raising ∷ [];
  status = PipelineStatus.idle;
}

abbrev ticking : ℕ → ℕ
ticking n = 1000 * n

abbrev machine : Machine
machine = record {
  context = empty_context;
  status = PipelineStatus.running;
  executed = [];
  readings = 1;
}

execute-Ended_example :
    Succeeded ticking sample empty_context (execute ticking sample empty_context)
    ⊎ Aborted ticking sample empty_context (execute ticking sample empty_context)
execute-Ended_example = execute-Ended ticking sample empty_context

run_stage-Ended_example : RoundEnded raising (run_stage ticking raising) machine
run_stage-Ended_example = run_stage-Ended ticking raising machine

-- The failure of the second stage is raised, and the first stage's data are cleared.
execute_raises :
    (execute ticking sample empty_context).0
    ≡ err (execution_error "Stage preprocessing execution error: boom")
unfolding execute run_pipeline begin finish abort run_stages run_stage execute_stage call now
    roll_back try_except ◌>>=◌ put get add_stage_result
execute_raises = refl

race_id_of_sample : get_race_id empty_context ≡ "20250720_1_3"
unfolding get_race_id show_ℕ
race_id_of_sample = refl
