-- ===== src/Jobs/Examples/Requests.antt =====
-- Creating and starting jobs (apps/api/services/job_service.py) at concrete requests.
use kra_analysis.Prelude.{[], ◌∷◌, true, false, ◌≡◌, refl}
use kra_analysis.Prelude.Result.{ok, err}
use kra_analysis.Prelude.Exec.{◌>>◌}
use kra_analysis.Prelude.Exec.Runs.{Runs}
use kra_analysis.Jobs.Contract.{
  Job, other, already_started, database_error, normalize_dispatch_action, DispatchAction,
}
use kra_analysis.Jobs.Contract.Names.{action_kind, kind_has_action, stored_action}
use kra_analysis.Jobs.Store.{Db, insert_job, update_job}
use kra_analysis.Jobs.Service.{start_job, create_job, queued_job}
use kra_analysis.Jobs.Submit.{
  batch_parameters, normalize_race_numbers, submit_batch_collect, receipt_of,
}
use kra_analysis.Jobs.Quiet.{calm}
use kra_analysis.Jobs.Outcomes.Starting.{started, submission}
use kra_analysis.Jobs.Outcomes.Published.{IsPendingRow, create_job-IsPendingRow}
use kra_analysis.Jobs.Outcomes.Creating.{created}
use kra_analysis.Jobs.Outcomes.Composed.{
  create_and_start, create_and_start-Runs, submit_batch_collect-Runs, start_job-Runs-twice,
}
use kra_analysis.Jobs.Outcomes.Outages.{world, start_job-Runs-outage}
use kra_analysis.Jobs.Examples.{
  race, no_rows, batch_job, one_job, batch_call, batch_job_found, batch_job_action, batch_job_call,
  full_pipeline_kind, full_pipeline_action, j9_fresh, default_batch, default_call,
}

create_job-IsPendingRow_example :
    (job : Job) × (let db : Db = record one_job { jobs = batch_job ∷ job ∷ [] } in
      Runs
        (create_job (other "full_pipeline") race "alice" "j9" 100)
        (calm one_job one_job [] [])
        (ok job)
        (calm db db [] []))
    × IsPendingRow "batch" race "alice" "j9" 100 job
create_job-IsPendingRow_example =
    create_job-IsPendingRow one_job one_job [] [] (other "full_pipeline") race "alice" "j9" 100
      full_pipeline_kind

start_job-Runs-twice_example :
    Runs
      (start_job "j1" "t1" 101 >> start_job "j1" "t2" 102)
      (calm no_rows one_job [] [])
      (err (already_started "queued"))
      (calm
        (started batch_job "j1" "t1" 101 one_job)
        (started batch_job "j1" "t1" 101 one_job)
        (submission "t1" batch_call "j1" ∷ [])
        [])
start_job-Runs-twice_example =
    start_job-Runs-twice no_rows one_job [] [] "j1" "t1" "t2" 101 102 batch_job
      DispatchAction.batch_collect batch_call batch_job_found refl refl batch_job_action
      batch_job_call

create_and_start-Runs_example :
    Runs
      (create_and_start (other "full_pipeline") race "alice" "j9" "t9" 100)
      (calm one_job one_job [] [])
      (ok "t9")
      (calm
        (started
          (created "batch" race "alice" "j9" 100)
          "j9"
          "t9"
          100
          (insert_job (created "batch" race "alice" "j9" 100) one_job))
        (started
          (created "batch" race "alice" "j9" 100)
          "j9"
          "t9"
          100
          (insert_job (created "batch" race "alice" "j9" 100) one_job))
        (submission "t9" batch_call "j9" ∷ [])
        [])
create_and_start-Runs_example =
    create_and_start-Runs one_job one_job [] [] race "alice" "j9" "t9" 100 j9_fresh
      (other "full_pipeline") DispatchAction.full_pipeline batch_call full_pipeline_action
      batch_job_call

submit_batch_collect-Runs_example :
    Runs
      (submit_batch_collect default_batch "alice" "j9" "t9" 100)
      (calm one_job one_job [] [])
      (ok (receipt_of "j9"))
      (calm
        (started
          (created "batch" (batch_parameters default_batch) "alice" "j9" 100)
          "j9"
          "t9"
          100
          (insert_job (created "batch" (batch_parameters default_batch) "alice" "j9" 100) one_job))
        (started
          (created "batch" (batch_parameters default_batch) "alice" "j9" 100)
          "j9"
          "t9"
          100
          (insert_job (created "batch" (batch_parameters default_batch) "alice" "j9" 100) one_job))
        (submission "t9" default_call "j9" ∷ [])
        [])
unfolding normalize_race_numbers
submit_batch_collect-Runs_example =
    submit_batch_collect-Runs one_job one_job [] [] default_batch "alice" "j9" "t9" 100 j9_fresh

start_job-Runs-outage_example :
    Runs
      (start_job "j1" "t1" 101)
      (world one_job one_job (false ∷ true ∷ []) [] [])
      (err database_error)
      (world one_job one_job [] (submission "t1" batch_call "j1" ∷ []) [])
    × Runs
        (start_job "j1" "t1" 101)
        (world one_job one_job (false ∷ false ∷ true ∷ []) [] [])
        (err database_error)
        (world
          (update_job (queued_job batch_job "t1" 101) one_job)
          (update_job (queued_job batch_job "t1" 101) one_job)
          []
          (submission "t1" batch_call "j1" ∷ [])
          [])
start_job-Runs-outage_example =
    start_job-Runs-outage one_job one_job [] [] [] "j1" 101 batch_job "t1"
      DispatchAction.batch_collect batch_call batch_job_found refl batch_job_action batch_job_call

kind_has_action_example :
    (a : DispatchAction) × (normalize_dispatch_action (other "full_pipeline") ≡ ok a)
    × (action_kind a ≡ "batch")
    × (normalize_dispatch_action (other "batch") ≡ ok (stored_action a))
kind_has_action_example = kind_has_action (other "full_pipeline") full_pipeline_kind
