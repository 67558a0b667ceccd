-- ===== src/Jobs/Outcomes/Pipelines.antt =====
-- What `full_pipeline` of apps/api/tasks/async_tasks.py leaves in the row of its job.
use kra_analysis.Prelude.{ℕ, String, Option, none, some, false, ◌≡◌, refl, str_eq}
use kra_analysis.Prelude.Value.{Value}
use kra_analysis.Prelude.Result.{Result, ok, err}
use kra_analysis.Prelude.Exec.Post.{
  Post, Post-pure, Post-raise, Post-lift, Post-bind, Post-bind-err, Post-then, Post-try, Post-catch,
}
use kra_analysis.Jobs.Store.{World}
use kra_analysis.Jobs.Tasks.Composite.{Stages, full_pipeline, pipeline_payload, report_failure}
use kra_analysis.Jobs.Outcomes.Tasks.{IsReady, HasEnded}
use kra_analysis.Jobs.Outcomes.Endings.{
  Post-update, Post-end, Post-log, Post-given, Post-log-HasEnded,
}

-- What the three calls of the workflow come to: the race's identifier or the first error.
abbrev pub pipeline_outcome :
    Result String String → Result String Unit → Result String Unit → Result String String
pipeline_outcome (ok race_id) (ok p) (ok e) = ok race_id
pipeline_outcome (ok race_id) (ok p) (err e) = err e
pipeline_outcome (ok race_id) (err e) _ = err e
pipeline_outcome (err e) _ _ = err e

abbrev PipelineEnds :
    String → ℕ → ℕ → String → Option String → ℕ → Stages → Result String String → Type 0
PipelineEnds date meet n job_id task_id now stages (ok race_id) =
    let payload = pipeline_payload date meet n race_id in
    Post (IsReady job_id) (full_pipeline date meet n (some job_id) task_id stages now) (ok payload)
      (HasEnded job_id "completed" none (some payload) now)
PipelineEnds date meet n job_id task_id now stages (err e) =
    Post (IsReady job_id) (full_pipeline date meet n (some job_id) task_id stages now) (err e)
      (HasEnded job_id "failed" (some e) none now)

-- What a run of the pipeline returns and leaves, when the three calls come to a result.
abbrev pub EndedAs :
    String → ℕ → ℕ → String → ℕ → Result String String → Result String Value × World → Type 0
EndedAs date meet n job_id now (ok race_id) after =
    let payload = pipeline_payload date meet n race_id in
    (after.0 ≡ ok payload) × HasEnded job_id "completed" none (some payload) now after.1
EndedAs date meet n job_id now (err e) after =
    (after.0 ≡ err e) × HasEnded job_id "failed" (some e) none now after.1

module _ (date : String) (meet n : ℕ) (job_id : String) (task_id : Option String) (now : ℕ)
    (given_id : str_eq job_id "" ≡ false) where
  ended_as :
      (stages : Stages) (outcome : Result String String)
      → PipelineEnds date meet n job_id task_id now stages outcome
      → (w : World) → IsReady job_id w
      → EndedAs date meet n job_id now outcome
          (full_pipeline date meet n (some job_id) task_id stages now w)
  ended_as stages (ok race_id) p w ready = (p.result.at w, p.after w ready)
  ended_as stages (err e) p w ready = (p.result.at w, p.after w ready)

  reported :
      (e : String)
      → Post
          (IsReady job_id)
          (report_failure (some job_id) task_id now e)
          (err e)
          (HasEnded job_id "failed" (some e) none now)
  reported e =
      Post-then _
        (Post-given _ given_id
          (Post-then _ (Post-end job_id now _ _ _ _ refl) (Post-log-HasEnded job_id now _ _ _ _)))
        (Post-raise e)

  ended_pipeline :
      (collected : Result String String) (preprocessed enriched : Result String Unit)
      → PipelineEnds date meet n job_id task_id now
          (record { collected = collected; preprocessed = preprocessed; enriched = enriched })
          (pipeline_outcome collected preprocessed enriched)
  unfolding full_pipeline
  ended_pipeline (ok race_id) (ok p) (ok x) = Post-try _ (
      Post-then _ (Post-given _ given_id (Post-update job_id now _ _ _ _)) (
        Post-then _ (Post-given _ given_id (Post-log job_id now _ _ _ _)) (
          Post-bind _ (Post-lift (ok race_id)) (
            Post-then _ (Post-given _ given_id (Post-log job_id now _ _ _ _)) (
              Post-then _ (Post-lift (ok p)) (
                Post-then _ (Post-given _ given_id (Post-log job_id now _ _ _ _)) (
                  Post-then _ (Post-lift (ok x)) (
                    Post-then _
                      (Post-given _ given_id (
                        Post-then _ (Post-end job_id now _ _ _ _ refl)
                          (Post-log-HasEnded job_id now _ _ _ _)))
                      (Post-pure _)))))))))
  ended_pipeline (ok race_id) (ok p) (err e) =
      Post-catch _
        (Post-then _ (Post-given _ given_id (Post-update job_id now _ _ _ _)) (
          Post-then _ (Post-given _ given_id (Post-log job_id now _ _ _ _)) (
            Post-bind _ (Post-lift (ok race_id)) (
              Post-then _ (Post-given _ given_id (Post-log job_id now _ _ _ _)) (
                Post-then _ (Post-lift (ok p)) (
                  Post-then _ (Post-given _ given_id (Post-log job_id now _ _ _ _))
                    (Post-bind-err _ (Post-lift (err e)))))))))
        (reported e)
  ended_pipeline (ok race_id) (err e) enriched =
      Post-catch _
        (Post-then _ (Post-given _ given_id (Post-update job_id now _ _ _ _)) (
          Post-then _ (Post-given _ given_id (Post-log job_id now _ _ _ _)) (
            Post-bind _ (Post-lift (ok race_id)) (
              Post-then _ (Post-given _ given_id (Post-log job_id now _ _ _ _))
                (Post-bind-err _ (Post-lift (err e)))))))
        (reported e)
  ended_pipeline (err e) preprocessed enriched =
      Post-catch _
        (Post-then _ (Post-given _ given_id (Post-update job_id now _ _ _ _)) (
          Post-then _ (Post-given _ given_id (Post-log job_id now _ _ _ _))
            (Post-bind-err _ (Post-lift (err e)))))
        (reported e)

  -- While the database answers and the row of the job (its key is not empty) is there,
  -- `full_pipeline` ends the job: if the race is collected, preprocessed and enriched, the payload
  -- is returned and the row is completed with it; otherwise the first error is raised and the row
  -- is failed, with its text unless that is empty.
  pub full_pipeline-HasEnded :
      (collected : Result String String) (preprocessed enriched : Result String Unit) (w : World)
      → IsReady job_id w
      → (let stages : Stages = record {
        collected = collected;
        preprocessed = preprocessed;
        enriched = enriched;
      } in
          EndedAs date meet n job_id now
            (pipeline_outcome collected preprocessed enriched)
            (full_pipeline date meet n (some job_id) task_id stages now w))
  full_pipeline-HasEnded collected preprocessed enriched w ready =
      ended_as _ (pipeline_outcome collected preprocessed enriched)
        (ended_pipeline collected preprocessed enriched) w ready
