-- ===== src/Pipelines/Execution.antt =====
-- `Pipeline.execute` of apps/api/pipelines/base.py, for any stages.
use kra_analysis.Prelude.{ℕ, suc, List, [], ◌≡◌, sym, ap, ◌∙◌, subst, ◌⊎◌, inl, inr}
use kra_analysis.Prelude.Result.{Result, ok, err}
use kra_analysis.Prelude.Exec.Runs.{
  Runs, Runs-bind, Runs-then, Runs-then-err, Runs-modify, Runs-raise, Runs-gets, Runs-try,
  Runs-catch,
}
use kra_analysis.Pipelines.Context.{PipelineStatus, PipelineContext}
use kra_analysis.Pipelines.Stage.{Stage, Machine, Failure, run_stages}
use kra_analysis.Pipelines.Pipeline.{
  Pipeline, begun, ended_at, begin, finish, abort, run_pipeline, execute,
}
use kra_analysis.Pipelines.Undo.{undone, Runs-roll_back-reverse}
use kra_analysis.Pipelines.Steps.{Runs-now}
use kra_analysis.Pipelines.Loop.{Within, Ran, Stopped, Ran-Within, run_stages-Ended}

module _ (clock : ℕ → ℕ) where
  -- The state in which the loop starts.
  abbrev pub loop_start : Pipeline → PipelineContext → Machine
  loop_start pipeline context = record {
    context = begun pipeline.name (clock 0) context;
    status = PipelineStatus.running;
    executed = [];
    readings = 1;
  }

  -- Every stage passed, in order; the pipeline is completed and the context is returned.
  pub record Succeeded (pipeline : Pipeline) (context : PipelineContext)
      (outcome : Result Failure PipelineContext × PipelineContext × Pipeline) : Type 0 where
    pub last : Machine
    pub ran : Ran clock pipeline.stages (loop_start pipeline context) last
    pub outcome_is : outcome ≡ (
      ok (ended_at (clock last.readings) last.context),
      ended_at (clock last.readings) last.context,
      record pipeline { status = PipelineStatus.completed },
    )

  -- The loop stopped at a stage; the pipeline is failed, the exception is raised, and of the context
  -- is left what the rollbacks of the executed stages make of it, the last one's first. The executed
  -- stages are some of those before the one that broke off.
  pub record Aborted (pipeline : Pipeline) (context : PipelineContext)
      (outcome : Result Failure PipelineContext × PipelineContext × Pipeline) : Type 0 where
    pub e : Failure
    pub last : Machine
    pub stopped : Stopped clock pipeline.stages (loop_start pipeline context) e last
    pub executed_within : Within last.executed stopped.before
    pub outcome_is : outcome ≡ (
      err e,
      undone last.executed (ended_at (clock last.readings) last.context),
      record pipeline { status = PipelineStatus.failed },
    )

module _ (clock : ℕ → ℕ) where
  Runs-begin :
      (pipeline : Pipeline) (context : PipelineContext)
      → (let m : Machine = record {
        context = context;
        status = pipeline.status;
        executed = [];
        readings = 0;
      } in
          Runs (begin clock pipeline.name) m (ok tt) (loop_start clock pipeline context))
  unfolding begin
  Runs-begin pipeline context =
      Runs-then _ (Runs-modify _ _)
        (Runs-bind _ (Runs-now clock _) (Runs-then _ (Runs-modify _ _) (Runs-modify _ _)))

  Runs-finish :
      (stages : List Stage) (m m' : Machine)
      → Runs (run_stages clock stages) m (ok tt) m'
      → (let context = ended_at (clock m'.readings) m'.context in
          Runs (finish clock stages) m (ok context) (record m' {
            status = PipelineStatus.completed;
            context = context;
            readings = suc m'.readings;
          }))
  unfolding finish
  Runs-finish stages m m' runs = Runs-then _ runs (
      Runs-then _ (Runs-modify _ _)
        (Runs-bind _ (Runs-now clock _) (Runs-then _ (Runs-modify _ _) (Runs-gets _ _))))

  Runs-abort :
      (e : Failure) (m : Machine)
      → Runs (abort clock e) m (err e) (record m {
        status = PipelineStatus.failed;
        context = undone m.executed (ended_at (clock m.readings) m.context);
        readings = suc m.readings;
      })
  unfolding abort
  Runs-abort e m = Runs-then _ (Runs-modify _ _) (
      Runs-bind _ (Runs-now clock _) (
        Runs-then _ (Runs-modify _ _) (
          Runs-bind _ (Runs-gets _ _)
            (Runs-then _ (Runs-roll_back-reverse m.executed _) (Runs-raise _ _)))))

module _ (clock : ℕ → ℕ) where
  finish-fails :
      (stages : List Stage) (m m' : Machine) {e : Failure}
      → Runs (run_stages clock stages) m (err e) m'
      → Runs (finish clock stages) m (err e) m'
  unfolding finish
  finish-fails stages m m' runs = Runs-then-err _ runs

  succeeded :
      (pipeline : Pipeline) (context : PipelineContext) (m : Machine)
      → Runs (run_stages clock pipeline.stages) (loop_start clock pipeline context) (ok tt) m
      → Ran clock pipeline.stages (loop_start clock pipeline context) m
      → Succeeded clock pipeline context (execute clock pipeline context)
  unfolding execute run_pipeline
  succeeded pipeline context m runs ran = record {
    last = m;
    ran = ran;
    outcome_is =
        ap
          (λ (x : Result Failure PipelineContext × Machine).
            (x.0, x.1.context, record pipeline { status = x.1.status }))
          (Runs-then _ (Runs-begin clock pipeline context)
            (Runs-try _ (Runs-finish clock pipeline.stages _ m runs))).path;
  }

  aborted :
      (pipeline : Pipeline) (context : PipelineContext) (e : Failure) (m : Machine)
      → Runs (run_stages clock pipeline.stages) (loop_start clock pipeline context) (err e) m
      → Stopped clock pipeline.stages (loop_start clock pipeline context) e m
      → Aborted clock pipeline context (execute clock pipeline context)
  unfolding execute run_pipeline
  aborted pipeline context e m runs stopped =
      let (done, same, within) = Ran-Within stopped.ran in
      record {
        e = e;
        last = m;
        stopped = stopped;
        executed_within =
            subst (λ xs. Within xs stopped.before) (sym (stopped.broke.executed ∙ same)) within;
        outcome_is =
            ap
              (λ (x : Result Failure PipelineContext × Machine).
                (x.0, x.1.context, record pipeline { status = x.1.status }))
              (Runs-then _ (Runs-begin clock pipeline context)
                (Runs-catch _ (finish-fails pipeline.stages _ m runs) (Runs-abort clock e m))).path;
      }

-- Whatever the stages do, an execution ends in one of two ways. Either every stage in turn was
-- skipped, as its `should_skip` answered, or was appended to the executed stages, with a recorded result
-- that is no failure, the pipeline is completed and the
-- context is returned; or the stages before one passed in this way, that one broke off without counting as
-- executed and no later one was reached, the pipeline is failed, the exception is raised, and the
-- context is what the rollbacks of the executed stages, each called once, the last one's first, leave.
pub execute-Ended :
    (clock : ℕ → ℕ) (pipeline : Pipeline) (context : PipelineContext)
    → Succeeded clock pipeline context (execute clock pipeline context)
      ⊎ Aborted clock pipeline context (execute clock pipeline context)
execute-Ended clock pipeline context =
    elim (run_stages-Ended clock pipeline.stages (loop_start clock pipeline context)) [
      | inl (m, runs, ran) ↦ inl (succeeded clock pipeline context m runs ran)
      | inr (e, m, runs, stopped) ↦ inr (aborted clock pipeline context e m runs stopped)
    ]
