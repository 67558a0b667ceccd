-- ===== src/Pipelines/Rounds.antt =====
-- apps/api/pipelines/base.py: one round of the loop over the stages, on every branch.
use kra_analysis.Prelude.{ℕ, suc, some, true, false, ◌≡◌, refl, inl, inr, Bool-cases}
use kra_analysis.Prelude.Result.{ok, err}
use kra_analysis.Prelude.Exec.{modify}
use kra_analysis.Prelude.Exec.Runs.{
  Runs, Runs-bind, Runs-bind-err, Runs-then, Runs-modify, Runs-raise, Runs-then-branch,
  Runs-else-branch, Runs-try, Runs-catch,
}
use kra_analysis.Pipelines.Context.{is_failure}
use kra_analysis.Pipelines.Stage.{
  Stage, Machine, Run, Failure, call, execute_stage, run_stage, checked_stage, run_timed,
}
use kra_analysis.Pipelines.Steps.{
  Ended, RoundEnded, asked, Result-cases, Runs-call, get-add_stage_result, Runs-now, Runs-reject,
  Broke-failed, Ended-after,
}

not_skipped :
    (stage : Stage) (body : Run Unit) (m : Machine)
    → asked stage m ≡ ok false
    → Ended stage body m
    → RoundEnded stage body m
not_skipped stage body m needed (inl (m', run, passed)) = inl (false, m', needed, run, passed)
not_skipped stage body m needed (inr broke) = inr broke

module _ (clock : ℕ → ℕ) (stage : Stage) where
  -- What the inner handler makes of an exception of the inner body.
  broke_off :
      (m m' : Machine) {e : Failure}
      → m'.executed ≡ m.executed
      → Runs
          (run_timed clock stage (clock m.readings))
          (record m { readings = suc m.readings })
          (err e)
          m'
      → Ended stage (execute_stage clock stage) m
  unfolding execute_stage
  broke_off m m' {e} same run = inr (
    _,
    _,
    Runs-bind _ (Runs-now clock m)
        (Runs-catch _ run (Runs-reject clock stage (clock m.readings) e m')),
    Broke-failed clock stage _ _ m _ same,
  )

  -- A stage that is run ends in a result that is no failure, or breaks off.
  execute_stage-Ended : (m : Machine) → Ended stage (execute_stage clock stage) m
  unfolding execute_stage
  execute_stage-Ended m = elim (Result-cases (stage.execute m.context).0) [
    | inr (e, raised) ↦ broke_off m _ refl (Runs-bind-err _ (Runs-call _ _ raised))
    | inl (result, returned) ↦ elim (Bool-cases (is_failure result)) [
      | inl failure ↦ broke_off m _ refl (
          Runs-bind _ (Runs-call _ _ returned)
            (Runs-bind _ (Runs-now clock _) (Runs-then-branch _ _ failure (Runs-raise _ _))))
      | inr success ↦ inl (
        _,
        Runs-bind _ (Runs-now clock m) (
            Runs-try _ (
              Runs-bind _ (Runs-call _ _ returned) (
                Runs-bind _ (Runs-now clock _) (
                  Runs-else-branch _ _ success
                    (Runs-then _ (Runs-modify _ _) (Runs-modify _ _)))))),
        record {
          executed = refl;
          result = _;
          recorded = get-add_stage_result stage.name _ _;
          not_failed = success;
        },
      )
    ]
  ]

  -- A stage that is not skipped is checked first.
  checked_stage-Ended : (m : Machine) → Ended stage (checked_stage clock stage) m
  checked_stage-Ended m = elim (Result-cases (stage.validate_prerequisites m.context).0) [
    | inr (e, raised) ↦ inr (
      e,
      _,
      Runs-bind-err _ (Runs-call _ _ raised),
      record { executed = refl; cause = inr (inr (m.context, raised)) },
    )
    | inl (false, unmet) ↦ inr (
      _,
      _,
      Runs-bind _ (Runs-call _ _ unmet) (Runs-then _ (Runs-modify _ _) (Runs-raise _ _)),
      Broke-failed clock stage _ _ m _ refl,
    )
    | inl (true, met) ↦
        Ended-after (call stage.validate_prerequisites) _ m _ refl (Runs-call _ _ met)
          (execute_stage-Ended _)
  ]

  -- Whatever its methods do, a stage either passes, with a recorded result that is no failure, and then
  -- it is appended to the executed stages if `should_skip` answered `False` and they stay as they were
  -- if it answered `True`; or an exception is raised and the stage does not count as executed. The exception is
  -- then a `PipelineExecutionError` whose text is recorded in a failed result under the stage's name,
  -- unless `should_skip` or `validate_prerequisites` raised it.
  pub run_stage-Ended : (m : Machine) → RoundEnded stage (run_stage clock stage) m
  unfolding run_stage
  run_stage-Ended m =
      let named : Machine = record m {
        context = record m.context { current_stage = some stage.name };
      } in
      elim (Result-cases (stage.should_skip named.context).0) [
        | inr (e, raised) ↦ inr (
          e,
          _,
          Runs-then _ (Runs-modify _ m) (Runs-bind-err _ (Runs-call _ _ raised)),
          record { executed = refl; cause = inr (inl (named.context, raised)) },
        )
        | inl (true, skipped) ↦ inl (
          true,
          _,
          skipped,
          Runs-then _ (Runs-modify _ m) (Runs-bind _ (Runs-call _ _ skipped) (Runs-modify _ _)),
          record {
            executed = refl;
            result = _;
            recorded = get-add_stage_result stage.name _ _;
            not_failed = refl;
          },
        )
        | inl (false, needed) ↦ not_skipped stage _ m needed (
            Ended-after (modify _) _ m named refl (Runs-modify _ m) (
              Ended-after (call stage.should_skip) _ named _ refl (Runs-call _ _ needed)
                (checked_stage-Ended _)))
      ]
