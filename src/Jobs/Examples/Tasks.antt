-- ===== src/Jobs/Examples/Tasks.antt =====
-- The background tasks (apps/api/tasks/async_tasks.py) for a concrete job.
use kra_analysis.Prelude.{ℕ, String, none, some, List, [], ◌∷◌, true, false, ◌≡◌, refl}
use kra_analysis.Prelude.Text.{show_ℕ, ◌+++◌}
use kra_analysis.Prelude.Value.{Value, str}
use kra_analysis.Prelude.Result.{Result, ok, err}
use kra_analysis.Jobs.Tasks.{collect_race_data, collect_payload}
use kra_analysis.Jobs.Tasks.Composite.{Batch, batch_collect, batch_payload, full_pipeline}
use kra_analysis.Jobs.Store.{World}
use kra_analysis.Jobs.Outcomes.Outages.{world}
use kra_analysis.Jobs.Quiet.{calm}
use kra_analysis.Jobs.Outcomes.Tasks.{IsReady, HasEnded}
use kra_analysis.Jobs.Outcomes.Batches.{successes, failures, batch_collect-returns}
use kra_analysis.Jobs.Outcomes.Pipelines.{full_pipeline-HasEnded, EndedAs}
use kra_analysis.Jobs.Outcomes.Finished.{collect_race_data-HasEnded, batch_collect-HasEnded}
use kra_analysis.Jobs.Examples.{one_job, batch_job, batch_job_found}

-- The second of two races fails.
abbrev races : List (ℕ × Result String Value)
races = (3, ok (str "data")) ∷ (4, err "timeout") ∷ []

abbrev outcomes : Batch
outcomes = record { results = successes "20250720" 1 races; errors = failures races }

abbrev ready : World
ready = calm one_job one_job [] []

-- Two calls of the database fail.
abbrev failing : World
failing = world one_job one_job (true ∷ false ∷ true ∷ []) [] []

ready-IsReady : IsReady "j1" ready
ready-IsReady = record { answering = refl; row = batch_job; found = batch_job_found; named = refl }

batch_collect-returns_example :
    (batch_collect "20250720" 1 races (some "j1") (some "t1") 100 failing).0
    ≡ ok (batch_payload "20250720" 1 outcomes)
batch_collect-returns_example =
    batch_collect-returns "20250720" 1 races (some "j1") (some "t1") 100 failing

collect_race_data-HasEnded_example :
    ((v : Value)
      → (let payload = collect_payload "20250720" 1 3 v in
          let after = collect_race_data "20250720" 1 3 (some "j1") none true (ok v) 100 ready in
          (after.0 ≡ ok payload) × HasEnded "j1" "completed" none (some payload) 100 after.1))
    × ((e : String)
        → (let after = collect_race_data "20250720" 1 3 (some "j1") none true (err e) 100 ready in
            (after.0 ≡ err e) × HasEnded "j1" "failed" (some e) none 100 after.1))
collect_race_data-HasEnded_example =
    collect_race_data-HasEnded "20250720" 1 3 "j1" none 100 refl ready ready-IsReady

batch_collect-HasEnded_example :
    (let after = batch_collect "20250720" 1 races (some "j1") none 100 ready in
      (after.0 ≡ ok (batch_payload "20250720" 1 outcomes))
      × HasEnded "j1" "failed"
          (some (show_ℕ 1 +++ " races failed during batch collection"))
          (some (batch_payload "20250720" 1 outcomes))
          100
          after.1)
batch_collect-HasEnded_example =
    batch_collect-HasEnded "20250720" 1 races "j1" none 100 ready refl ready-IsReady

full_pipeline-HasEnded_example : EndedAs "20250720" 1 3 "j1" 100 (err "no data") (
    full_pipeline "20250720" 1 3
      (some "j1")
      none
      (record { collected = ok "20250720_1_3"; preprocessed = err "no data"; enriched = ok tt })
      100
      ready)
full_pipeline-HasEnded_example =
    full_pipeline-HasEnded "20250720" 1 3 "j1" none 100 refl (ok "20250720_1_3") (err "no data")
      (ok tt) ready ready-IsReady
