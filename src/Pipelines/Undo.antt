-- ===== src/Pipelines/Undo.antt =====
-- apps/api/pipelines/base.py: what the rollbacks leave of the context.
use kra_analysis.Prelude.{List, [], ◌∷◌, ◌++◌, reverse, ◌≡◌, refl, ap, ◌∙◌}
use mathlib.Core.List.{reverse-cons}
use kra_analysis.Prelude.Result.{Result, ok, err}
use kra_analysis.Prelude.Exec.{pure, handle_with, try_except}
use kra_analysis.Prelude.Exec.Runs.{Runs, Runs-then, Runs-pure}
use kra_analysis.Pipelines.Context.{PipelineContext}
use kra_analysis.Pipelines.Stage.{Stage, Machine, Failure, call, on_context, roll_back}

-- The context that a stage's rollback leaves, whether or not it raises.
abbrev pub undo : Stage → PipelineContext → PipelineContext
undo stage context = (stage.rollback context).1

-- The stages ran in the order of the list: the later ones are undone before the earlier ones.
abbrev pub undone : List Stage → PipelineContext → PipelineContext
undone [] context = context
undone (stage ∷ stages) context = undo stage (undone stages context)

abbrev undo_each : List Stage → PipelineContext → PipelineContext
undo_each [] context = context
undo_each (stage ∷ stages) context = undo_each stages (undo stage context)

settled : (r : Result Failure Unit) (m : Machine) → handle_with r (λ _. pure tt) m ≡ (ok tt, m)
settled (ok tt) m = refl
settled (err e) m = (Runs-pure tt m).path

Runs-undo :
    (stage : Stage) (m : Machine)
    → Runs (try_except (call stage.rollback) (λ _. pure tt)) m (ok tt) (on_context (undo stage) m)
unfolding try_except call
Runs-undo stage m = record { path = settled _ _ }

-- Whatever the rollbacks raise, each is called once, in the order of the list.
Runs-roll_back :
    (stages : List Stage) (m : Machine)
    → Runs (roll_back stages) m (ok tt) (on_context (undo_each stages) m)
unfolding roll_back
Runs-roll_back [] m = Runs-pure _ _
Runs-roll_back (stage ∷ stages) m = Runs-then _ (Runs-undo stage m) (Runs-roll_back stages _)

undo_each-append :
    (xs ys : List Stage) (context : PipelineContext)
    → undo_each (xs ++ ys) context ≡ undo_each ys (undo_each xs context)
undo_each-append [] ys context = refl
undo_each-append (x ∷ xs) ys context = undo_each-append xs ys (undo x context)

undo_each-reverse :
    (stages : List Stage) (context : PipelineContext)
    → undo_each (reverse stages) context ≡ undone stages context
undo_each-reverse [] context = refl
undo_each-reverse (stage ∷ stages) context =
    ap (λ ss. undo_each ss context) (reverse-cons stage stages)
    ∙ undo_each-append (reverse stages) (stage ∷ []) context
    ∙ ap (undo stage) (undo_each-reverse stages context)

-- Rolling back the reverse of a list of stages calls the rollback of each once, the last one's
-- first, whatever they raise, and never raises.
pub Runs-roll_back-reverse :
    (stages : List Stage) (m : Machine)
    → Runs (roll_back (reverse stages)) m (ok tt) (on_context (undone stages) m)
Runs-roll_back-reverse stages m = record {
  path =
      (Runs-roll_back (reverse stages) m).path
      ∙ ap (λ c. (ok tt, on_context (λ _. c) m)) (undo_each-reverse stages m.context);
}
