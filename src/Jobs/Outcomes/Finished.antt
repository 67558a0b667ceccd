-- ===== src/Jobs/Outcomes/Finished.antt =====
-- What the tasks of apps/api/tasks/async_tasks.py leave in the row of their job.
use kra_analysis.Prelude.{
  ℕ, String, Option, none, some, List, [], Bool, true, false, ◌≡◌, refl, str_eq, if◌then◌else◌,
  length,
}
use kra_analysis.Prelude.Text.{show_ℕ, ◌+++◌}
use kra_analysis.Prelude.Value.{Value}
use kra_analysis.Prelude.Result.{Result, ok, err}
use kra_analysis.Prelude.Exec.Post.{
  Post, Post-pure, Post-raise, Post-lift, Post-bind, Post-bind-err, Post-then, Post-try, Post-catch,
}
use kra_analysis.Jobs.Store.{World}
use kra_analysis.Jobs.Service.{is_terminal_text}
use kra_analysis.Jobs.Tasks.{collect_race_data, collect_payload}
use kra_analysis.Jobs.Tasks.Composite.{Batch, batch_collect, batch_payload, is_clean}
use kra_analysis.Jobs.Outcomes.Tasks.{IsReady, HasEnded}
use kra_analysis.Jobs.Outcomes.Endings.{Post-update, Post-end, Post-log, Post-given}
use kra_analysis.Jobs.Outcomes.Batches.{successes, failures, collect_each-grown}

module _ (date : String) (meet n : ℕ) (job_id : String) (task_id : Option String) (now : ℕ)
    (given_id : str_eq job_id "" ≡ false) where
  -- The row of a collected race's job is completed and holds the payload that is returned.
  collected-HasEnded :
      (v : Value)
      → (let payload = collect_payload date meet n v in
          Post
            (IsReady job_id)
            (collect_race_data date meet n (some job_id) task_id true (ok v) now)
            (ok payload)
            (HasEnded job_id "completed" none (some payload) now))
  unfolding collect_race_data
  collected-HasEnded v = Post-try _ (
      Post-then _ (Post-given _ given_id (Post-update job_id now _ _ _ _)) (
        Post-bind _ (Post-lift (ok v)) (
          Post-then _ (Post-given _ given_id (Post-log job_id now _ _ _ _)) (
            Post-then _ (Post-given _ given_id (Post-end job_id now _ _ _ _ refl)) (Post-pure _)))))

  -- Of a race that was not collected the error is raised, and the row is failed with its text.
  failed-HasEnded :
      (e : String)
      → Post
          (IsReady job_id)
          (collect_race_data date meet n (some job_id) task_id true (err e) now)
          (err e)
          (HasEnded job_id "failed" (some e) none now)
  unfolding collect_race_data
  failed-HasEnded e =
      Post-catch _
        (Post-then _ (Post-given _ given_id (Post-update job_id now _ _ _ _))
          (Post-bind-err _ (Post-lift (err e))))
        (Post-then _
          (Post-given _ given_id (
            Post-then _ (Post-log job_id now _ _ _ _)
              (Post-given _ given_id (Post-end job_id now _ _ _ _ refl))))
          (Post-raise e))

  -- While the database answers and the row of the job (its key is not empty) is there,
  -- `collect_race_data` for the job ends it: if the race was collected, the payload is returned and
  -- the row is completed with it; otherwise the error is raised and the row is failed, with its
  -- text unless that is empty.
  pub collect_race_data-HasEnded :
      (w : World)
      → IsReady job_id w
      → ((v : Value)
          → (let payload = collect_payload date meet n v in
              let after = collect_race_data date meet n (some job_id) task_id true (ok v) now w in
              (after.0 ≡ ok payload) × HasEnded job_id "completed" none (some payload) now after.1))
        × ((e : String)
            → (let after = collect_race_data date meet n (some job_id) task_id true (err e) now w in
                (after.0 ≡ err e) × HasEnded job_id "failed" (some e) none now after.1))
  collect_race_data-HasEnded w ready = (
    λ v. ((collected-HasEnded v).result.at w, (collected-HasEnded v).after w ready),
    λ e. ((failed-HasEnded e).result.at w, (failed-HasEnded e).after w ready),
  )

terminal_status : (b : Bool) → is_terminal_text (if b then "completed" else "failed") ≡ true
terminal_status true = refl
terminal_status false = refl

ended_batch :
    (date : String) (meet : ℕ) (races : List (ℕ × Result String Value)) (job_id : String)
    (task_id : Option String) (now : ℕ)
    → str_eq job_id "" ≡ false
    → (let b : Batch = record { results = successes date meet races; errors = failures races } in
        Post
          (IsReady job_id)
          (batch_collect date meet races (some job_id) task_id now)
          (ok (batch_payload date meet b))
          (HasEnded job_id
            (if is_clean b then "completed" else "failed")
            (if is_clean b
              then none
              else some (show_ℕ (length b.errors) +++ " races failed during batch collection"))
            (some (batch_payload date meet b))
            now))
unfolding batch_collect
ended_batch date meet races job_id task_id now given_id =
    Post-then _ (Post-given _ given_id (Post-update job_id now _ _ _ _)) (
      Post-bind _
        (collect_each-grown (IsReady job_id) date meet (some job_id) task_id now
          (λ id level message metadata. Post-log job_id now id level message metadata) races
          (record { results = []; errors = [] }))
        (Post-then _
          (Post-given _ given_id (
            Post-end job_id now _ _ _ _ (
              terminal_status (
                is_clean
                  (record { results = successes date meet races; errors = failures races })))))
          (Post-pure _)))

-- While the database answers and the row of the job (its key is not empty) is there,
-- `batch_collect` ends the job: the row is completed if every race was collected, and failed with
-- the number of the others if not, and in both cases it holds the payload that is returned, with
-- the results and the errors of all races.
pub batch_collect-HasEnded :
    (date : String) (meet : ℕ) (races : List (ℕ × Result String Value)) (job_id : String)
    (task_id : Option String) (now : ℕ) (w : World)
    → str_eq job_id "" ≡ false
    → IsReady job_id w
    → (let b : Batch = record { results = successes date meet races; errors = failures races } in
        let after = batch_collect date meet races (some job_id) task_id now w in
        (after.0 ≡ ok (batch_payload date meet b))
        × HasEnded job_id
            (if is_clean b then "completed" else "failed")
            (if is_clean b
              then none
              else some (show_ℕ (length b.errors) +++ " races failed during batch collection"))
            (some (batch_payload date meet b))
            now
            after.1)
batch_collect-HasEnded date meet races job_id task_id now w given_id ready =
    let p = ended_batch date meet races job_id task_id now given_id in
    (p.result.at w, p.after w ready)
