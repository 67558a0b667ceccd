-- ===== src/Pipelines/Pipeline.antt =====
-- apps/api/pipelines/base.py: Pipeline and PipelineBuilder.
use Prim.Native.Nat.{◌/◌}
use kra_analysis.Prelude.{ℕ, String, some, List, [], ◌∷◌, ◌++◌, map, reverse}
use kra_analysis.Prelude.Result.{Result}
use kra_analysis.Prelude.Exec.{raise, gets, modify, ◌>>=◌, ◌>>◌, try_except}
use kra_analysis.Prelude.Text.{◌+++◌, show_ℕ}
use kra_analysis.Pipelines.Context.{PipelineStatus, PipelineContext, get_race_id}
use kra_analysis.Pipelines.Stage.{
  Stage, Machine, Run, Failure, on_context, now, run_stages, roll_back,
}

pub record Pipeline : Type 0 where
  pub name : String
  pub stages : List Stage
  pub status : PipelineStatus

unfoldable pub new_pipeline : String → Pipeline
new_pipeline name = record { name = name; stages = []; status = PipelineStatus.idle }

unfoldable pub add_stage : Stage → Pipeline → Pipeline
add_stage stage pipeline = record pipeline { stages = pipeline.stages ++ stage ∷ [] }

unfoldable pub add_stages : List Stage → Pipeline → Pipeline
add_stages stages pipeline = record pipeline { stages = pipeline.stages ++ stages }

unfoldable pub get_stage_names : Pipeline → List String
get_stage_names pipeline = map (λ (stage : Stage). stage.name) pipeline.stages

unfoldable pub reset : Pipeline → Pipeline
reset pipeline = record pipeline { status = PipelineStatus.idle }

unfoldable pub pipeline_id : String → PipelineContext → ℕ → String
unfolding get_race_id show_ℕ
pipeline_id name context started_at =
    name +++ "_" +++ get_race_id context +++ "_" +++ show_ℕ (started_at / 1000)

abbrev pub with_status : PipelineStatus → Machine → Machine
with_status status m = record m { status = status }

abbrev pub begun : String → ℕ → PipelineContext → PipelineContext
begun name started_at context = record context {
  started_at = some started_at;
  pipeline_id = some (pipeline_id name context started_at);
}

abbrev pub ended_at : ℕ → PipelineContext → PipelineContext
ended_at completed_at context = record context { completed_at = some completed_at }

module _ (clock : ℕ → ℕ) where
  -- The steps before the loop.
  unfoldable pub begin : String → Run Unit
  begin name = do
    modify (with_status PipelineStatus.running)
    started_at ← now clock
    modify (on_context (begun name started_at))
    modify (λ m. record m { executed = [] })

  unfoldable pub finish : List Stage → Run PipelineContext
  finish stages = do
    run_stages clock stages
    modify (with_status PipelineStatus.completed)
    completed_at ← now clock
    modify (on_context (ended_at completed_at))
    gets (λ m. m.context)

  -- The handler: the stages that ran are rolled back in reverse order.
  unfoldable pub abort : Failure → Run PipelineContext
  abort e = do
    modify (with_status PipelineStatus.failed)
    completed_at ← now clock
    modify (on_context (ended_at completed_at))
    executed_stages ← gets (λ (m : Machine). m.executed)
    roll_back (reverse executed_stages)
    raise e

  unfoldable pub run_pipeline : String → List Stage → Run PipelineContext
  run_pipeline name stages = do begin name; try_except (finish stages) abort

  -- `Pipeline.execute`: the outcome, the context and the pipeline that it leaves. The clock is read
  -- from its first reading.
  unfoldable pub execute :
      Pipeline → PipelineContext → Result Failure PipelineContext × PipelineContext × Pipeline
  execute pipeline context =
      let m : Machine = record {
        context = context;
        status = pipeline.status;
        executed = [];
        readings = 0;
      } in
      let (r, m') = run_pipeline pipeline.name pipeline.stages m in
      (r, m'.context, record pipeline { status = m'.status })
