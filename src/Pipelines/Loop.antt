-- ===== src/Pipelines/Loop.antt =====
-- apps/api/pipelines/base.py: how the loop over the stages ends.
use kra_analysis.Prelude.{
  ℕ, List, [], ◌∷◌, ◌++◌, Bool, true, false, ◌≡◌, refl, sym, ap, ◌∙◌, ◌⊎◌, inl, inr,
}
use kra_analysis.Prelude.Result.{ok, err}
use kra_analysis.Prelude.Exec.Runs.{Runs, Runs-then, Runs-then-err, Runs-pure}
use mathlib.Core.List.{append-nil, append_assoc}
use kra_analysis.Pipelines.Stage.{Stage, Machine, Failure, run_stage, run_stages}
use kra_analysis.Pipelines.Steps.{Passed, Broke, asked, after_stage}
use kra_analysis.Pipelines.Rounds.{run_stage-Ended}

-- The first list is the second less some of its items, in the same order.
pub data Within : List Stage → List Stage → Type 0 where
  within_nil : Within [] []
  within_drop : {xs ys : List Stage} (y : Stage) → Within xs ys → Within xs (y ∷ ys)
  within_take : {xs ys : List Stage} (y : Stage) → Within xs ys → Within (y ∷ xs) (y ∷ ys)

module _ (clock : ℕ → ℕ) where
  -- The stages passed one after another, each skipped or not as its `should_skip` answered.
  pub data Ran : List Stage → Machine → Machine → Type 0 where
    ran_nil : (m : Machine) → Ran [] m m
    ran_cons :
        {stage : Stage} {stages : List Stage} {m m' m'' : Machine} (skipped : Bool)
        → asked stage m ≡ ok skipped
        → Runs (run_stage clock stage) m (ok tt) m'
        → Passed skipped stage m m'
        → Ran stages m' m''
        → Ran (stage ∷ stages) m m''

  -- The stages before one passed, that one broke off with the exception, and none after it was reached.
  pub record Stopped (stages : List Stage) (m : Machine) (e : Failure) (m' : Machine) : Type 0 where
    pub before : List Stage
    pub stage : Stage
    pub after : List Stage
    pub split : stages ≡ before ++ stage ∷ after
    pub reached : Machine
    pub ran : Ran before m reached
    pub broken : Runs (run_stage clock stage) reached (err e) m'
    pub broke : Broke stage reached e m'

  abbrev pub LoopEnded : List Stage → Machine → Type 0
  LoopEnded stages m =
      ((m' : Machine) × Runs (run_stages clock stages) m (ok tt) m' × Ran stages m m')
      ⊎ ((e : Failure) × (m' : Machine) × Runs (run_stages clock stages) m (err e) m'
          × Stopped stages m e m')

module _ (clock : ℕ → ℕ) where
  later_stage :
      (stage : Stage) (stages : List Stage) (m m' : Machine) (skipped : Bool)
      → asked stage m ≡ ok skipped
      → Runs (run_stage clock stage) m (ok tt) m'
      → Passed skipped stage m m'
      → LoopEnded clock stages m'
      → LoopEnded clock (stage ∷ stages) m
  unfolding run_stages
  later_stage stage stages m m' skipped answer run passed (inl (m'', runs, ran)) =
      inl (m'', Runs-then _ run runs, Ran.ran_cons skipped answer run passed ran)
  later_stage stage stages m m' skipped answer run passed (inr (e, m'', runs, s)) = inr (
    e,
    m'',
    Runs-then _ run runs,
    record {
      before = stage ∷ s.before;
      stage = s.stage;
      after = s.after;
      split = ap (λ xs. stage ∷ xs) s.split;
      reached = s.reached;
      ran = Ran.ran_cons skipped answer run passed s.ran;
      broken = s.broken;
      broke = s.broke;
    },
  )

  pub run_stages-Ended : (stages : List Stage) (m : Machine) → LoopEnded clock stages m
  unfolding run_stages
  run_stages-Ended [] m = inl (m, Runs-pure _ _, Ran.ran_nil m)
  run_stages-Ended (stage ∷ stages) m = elim (run_stage-Ended clock stage m) [
    | inl (skipped, m', answer, run, passed) ↦
        later_stage stage stages m m' skipped answer run passed (run_stages-Ended stages m')
    | inr (e, m', run, broke) ↦ inr (
      e,
      m',
      Runs-then-err _ run,
      record {
        before = [];
        stage = stage;
        after = stages;
        split = refl;
        reached = m;
        ran = Ran.ran_nil m;
        broken = run;
        broke = broke;
      },
    )
  ]

more_executed :
    {stage : Stage} {stages done : List Stage} (m m' : Machine) (all : List Stage) (skipped : Bool)
    → m'.executed ≡ after_stage skipped stage m.executed
    → all ≡ m'.executed ++ done
    → Within done stages
    → (more : List Stage) × (all ≡ m.executed ++ more) × Within more (stage ∷ stages)
more_executed {stage = stage} {done = done} m m' all true same e w =
    (done, e ∙ ap (λ xs. xs ++ done) same, Within.within_drop stage w)
more_executed {stage = stage} {done = done} m m' all false longer e w = (
  stage ∷ done,
  e ∙ ap (λ xs. xs ++ done) longer ∙ append_assoc m.executed (stage ∷ []) done,
  Within.within_take stage w,
)

module _ {clock : ℕ → ℕ} where
  -- What counts as executed afterwards are some of the stages, in their order.
  pub Ran-Within :
      {stages : List Stage} {m m' : Machine}
      → Ran clock stages m m'
      → (done : List Stage) × (m'.executed ≡ m.executed ++ done) × Within done stages
  Ran-Within (Ran.ran_nil m) = ([], sym (append-nil m.executed), Within.within_nil)
  Ran-Within (Ran.ran_cons {m = m} {m' = m'} {m'' = m''} skipped answer run passed ran) =
      let (done, e, w) = Ran-Within ran in
      more_executed m m' m''.executed skipped passed.executed e w
