-- ===== src/Jobs/Outcomes/Batches.antt =====
-- `batch_collect` of apps/api/tasks/async_tasks.py: what it returns, whatever the database does.
use kra_analysis.Prelude.{
  ℕ, String, Option, none, some, List, [], ◌∷◌, ◌++◌, true, false, ◌≡◌, ap, ◌∙◌, sym, subst, str_eq,
  if◌then◌else◌,
}
use mathlib.Core.List.{append_assoc, append-nil}
use kra_analysis.Prelude.Value.{Value}
use kra_analysis.Prelude.Result.{Result, ok, err}
use kra_analysis.Prelude.Exec.{pure}
use kra_analysis.Prelude.Exec.Always.{Always, Always-pure, Always-bind, Always-then}
use kra_analysis.Prelude.Exec.Post.{
  Post, Post-pure, Post-raise, Post-lift, Post-bind, Post-bind-err, Post-then, Post-try, Post-catch,
}
use kra_analysis.Jobs.Store.{World}
use kra_analysis.Jobs.Tasks.{Task, log_job, with_job, collect_race_data, collect_payload}
use kra_analysis.Jobs.Outcomes.Tasks.{Always-update, Always-log, Always-with_job}
use kra_analysis.Jobs.Tasks.Composite.{
  Batch, batch_collect, collect_each, append_outcome, batch_payload, failure_of,
}

-- The payloads of the races that were collected, and the entries of the others, in their order.
abbrev pub successes : String → ℕ → List (ℕ × Result String Value) → List Value
successes date meet [] = []
successes date meet ((n, ok v) ∷ races) = collect_payload date meet n v ∷ successes date meet races
successes date meet ((n, err e) ∷ races) = successes date meet races

abbrev pub failures : List (ℕ × Result String Value) → List Value
failures [] = []
failures ((n, ok v) ∷ races) = failures races
failures ((n, err e) ∷ races) = failure_of n e ∷ failures races

Post-with_job_any :
    {P : World → Type 0} (job_id : Option String) (act : String → Task Unit)
    → ((id : String) → Post P (act id) (ok tt) P)
    → Post P (with_job job_id act) (ok tt) P
Post-with_job_any none act h = Post-pure tt
Post-with_job_any {P} (some id) act h =
    elim (str_eq id "") as (λ b. Post P (if b then pure tt else act id) (ok tt) P) [
      | true ↦ Post-pure tt
      | false ↦ h id
    ]

-- What every log keeps, the loop keeps.
module _ (P : World → Type 0) (date : String) (meet : ℕ) (job_id task_id : Option String) (now : ℕ)
    (logs : (id level message : String) (metadata : Value)
      → Post P (log_job id level message metadata now) (ok tt) P) where
  collected_item :
      (n : ℕ) (v : Value)
      → Post P
          (collect_race_data date meet n job_id task_id false (ok v) now)
          (ok (collect_payload date meet n v))
          P
  unfolding collect_race_data
  collected_item n v = Post-try _ (
      Post-then _ (Post-pure tt) (
        Post-bind _ (Post-lift (ok v)) (
          Post-then _ (Post-with_job_any job_id _ (λ id. logs _ _ _ _))
            (Post-then _ (Post-pure tt) (Post-pure _)))))

  failed_item :
      (n : ℕ) (e : String)
      → Post P (collect_race_data date meet n job_id task_id false (err e) now) (err e) P
  unfolding collect_race_data
  failed_item n e =
      Post-catch _ (Post-then _ (Post-pure tt) (Post-bind-err _ (Post-lift (err e)))) (
        Post-then _ (Post-with_job_any job_id _ (λ id. Post-then _ (logs _ _ _ _) (Post-pure tt)))
          (Post-raise e))

  -- The lists that the loop leaves, from those with which it starts.
  abbrev pub grown : List (ℕ × Result String Value) → Batch → Batch
  grown races b = record {
    results = b.results ++ successes date meet races;
    errors = b.errors ++ failures races;
  }

  grown-nil : (b : Batch) → grown [] b ≡ b
  grown-nil b =
      ap (λ xs. record { results = xs; errors = b.errors ++ [] }) (append-nil b.results)
      ∙ ap (λ xs. record b { errors = xs }) (append-nil b.errors)

  more_results :
      (v : Value) (races : List (ℕ × Result String Value)) (b : Batch)
      → grown races (record b { results = b.results ++ v ∷ [] }) ≡ record {
        results = b.results ++ v ∷ successes date meet races;
        errors = b.errors ++ failures races;
      }
  more_results v races b =
      ap (λ xs. record { results = xs; errors = b.errors ++ failures races })
        (append_assoc b.results (v ∷ []) (successes date meet races))

  more_errors :
      (v : Value) (races : List (ℕ × Result String Value)) (b : Batch)
      → grown races (record b { errors = b.errors ++ v ∷ [] }) ≡ record {
        results = b.results ++ successes date meet races;
        errors = b.errors ++ v ∷ failures races;
      }
  more_errors v races b =
      ap (λ xs. record { results = b.results ++ successes date meet races; errors = xs })
        (append_assoc b.errors (v ∷ []) (failures races))

  pub collect_each-grown :
      (races : List (ℕ × Result String Value)) (b : Batch)
      → Post P (collect_each date meet races job_id task_id now b) (ok (grown races b)) P
  unfolding collect_each
  collect_each-grown [] b =
      subst (λ x. Post {E = String} P (pure b) (ok x) P) (sym (grown-nil b)) (Post-pure b)
  collect_each-grown ((n, ok v) ∷ races) b =
      let payload = collect_payload date meet n v in
      subst (λ x. Post P (collect_each date meet ((n, ok v) ∷ races) job_id task_id now b) (ok x) P)
        (more_results payload races b)
        (Post-bind _ (Post-try _ (Post-bind _ (collected_item n v) (Post-pure _)))
          (collect_each-grown races (append_outcome n (ok payload) b)))
  collect_each-grown ((n, err e) ∷ races) b =
      subst
        (λ x. Post P (collect_each date meet ((n, err e) ∷ races) job_id task_id now b) (ok x) P)
        (more_errors (failure_of n e) races b)
        (Post-bind _ (Post-catch _ (Post-bind-err _ (failed_item n e)) (Post-pure _))
          (collect_each-grown races (append_outcome n (err e) b)))

batch_collect-Always :
    (date : String) (meet : ℕ) (races : List (ℕ × Result String Value))
    (job_id task_id : Option String) (now : ℕ)
    → Always (batch_collect date meet races job_id task_id now) (
        ok (
          batch_payload date meet
            (record { results = successes date meet races; errors = failures races })))
unfolding batch_collect
batch_collect-Always date meet races job_id task_id now =
    Always-then _ (Always-with_job job_id _ (λ id. Always-update _ _ _ _ _ _)) (
      Always-bind _
        (collect_each-grown (λ w. Unit) date meet job_id task_id now
          (λ id level message metadata. record { result = Always-log _ _ _ _ _; after = λ w h. tt })
          races (record { results = []; errors = [] })).result
        (Always-then _ (Always-with_job job_id _ (λ id. Always-update _ _ _ _ _ _))
          (Always-pure _)))

-- Whatever the database does, a batch returns: its results are the payloads of the races that were
-- collected and its errors those of the others, each in the order of the races, and its status is
-- "completed" if there are no errors and "partial" otherwise.
pub batch_collect-returns :
    (date : String) (meet : ℕ) (races : List (ℕ × Result String Value))
    (job_id task_id : Option String) (now : ℕ) (w : World)
    → (batch_collect date meet races job_id task_id now w).0
      ≡ ok (
          batch_payload date meet
            (record { results = successes date meet races; errors = failures races }))
batch_collect-returns date meet races job_id task_id now w =
    (batch_collect-Always date meet races job_id task_id now).at w
