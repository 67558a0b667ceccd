-- ===== src/Jobs/Examples/Cancelling.antt =====
-- Cancelling and clearing jobs (apps/api/services/job_service.py) at concrete requests.
use kra_analysis.Prelude.{some, [], ◌∷◌, true, false, not, ◌≡◌, ◌⊎◌, refl, length, keep}
use kra_analysis.Prelude.Result.{ok}
use kra_analysis.Prelude.Exec.{◌>>=◌}
use kra_analysis.Prelude.Exec.Runs.{Runs}
use kra_analysis.Jobs.Contract.{Job, other}
use kra_analysis.Jobs.Store.{Db, first_row, round_trip, update_job, select_one}
use kra_analysis.Jobs.Service.{
  cancel_job, get_job, cleanup_old_jobs, cancelled_job, with_request, is_old, cutoff_of,
}
use kra_analysis.Jobs.Quiet.{calm}
use kra_analysis.Jobs.Filed.{IsSound}
use kra_analysis.Jobs.History.{create, start, cancel, cleanup, run, run-IsSound}
use kra_analysis.Jobs.Outcomes.Outages.{world, cancel_job-Runs-unlogged}
use kra_analysis.Jobs.Outcomes.Owners.{cancel_job-NotOwned, get_job_owned}
use kra_analysis.Jobs.Outcomes.CleaningOutages.{cleanup_old_jobs_atomic}
use kra_analysis.Jobs.Examples.{race, no_rows, batch_job, one_job, ended_job, batch_job_seen}

run-IsSound_example : IsSound (
    run
      (create (other "full_pipeline") race "alice" "j1" 100
        ∷ start "j1" "t1" 101
        ∷ cancel "j1" (some "alice") 102
        ∷ cleanup 0 103
        ∷ [])
      (calm no_rows no_rows [] []))
run-IsSound_example = run-IsSound _ _ (record { committed = tt; session = tt })

-- A job that was started.
abbrev queued_batch : Job
queued_batch = record batch_job {
  status = some "queued";
  lifecycle_state_v2 = some "queued";
  started_at = some 101;
  task_id = some "t1";
}

abbrev one_queued : Db
one_queued = record { jobs = queued_batch ∷ []; logs = [] }

cancel_job-Runs-unlogged_example :
    Runs
      (cancel_job "j1" (some "alice") 105)
      (world one_job one_job (false ∷ false ∷ true ∷ []) [] [])
      (ok false)
      (world
        (update_job (cancelled_job batch_job 105) one_job)
        (update_job (cancelled_job batch_job 105) one_job)
        []
        []
        [])
unfolding with_request
cancel_job-Runs-unlogged_example =
    cancel_job-Runs-unlogged one_job one_job [] [] [] "j1" 105 batch_job (some "alice")
      batch_job_seen refl

cancel_job-NotOwned_example :
    ((cancel_job "j1" (some "bob") 105 (world one_job one_job (false ∷ []) [] [])).0 ≡ ok false)
    × ((cancel_job "j1" (some "bob") 105 (world one_job one_job (false ∷ []) [] [])).1.committed
        ≡ one_job)
    × ((cancel_job "j1"
          (some "bob")
          105
          (world one_job one_job (false ∷ []) [] [])).1.cancel_requests
        ≡ [])
cancel_job-NotOwned_example =
    cancel_job-NotOwned "j1" "bob" 105 (world one_job one_job (false ∷ []) [] []) refl
      ((λ h. refl), tt)

get_job_owned_example : (batch_job.job_id ≡ "j1") × (batch_job.created_by ≡ some "alice")
unfolding get_job select_one round_trip first_row ◌>>=◌
get_job_owned_example = get_job_owned "j1" "alice" (calm one_job one_job [] []) refl refl

cleanup_old_jobs_atomic_example :
    (((cleanup_old_jobs 7 900000 (world ended_job ended_job (false ∷ true ∷ []) [] [])).0
        ≡ ok (length (keep (is_old (cutoff_of 7 900000)) ended_job.jobs)))
      × ((cleanup_old_jobs 7 900000
            (world ended_job ended_job (false ∷ true ∷ []) [] [])).1.committed.jobs
          ≡ keep (λ job. not (is_old (cutoff_of 7 900000) job)) ended_job.jobs))
    ⊎ (((cleanup_old_jobs 7 900000 (world ended_job ended_job (false ∷ true ∷ []) [] [])).0 ≡ ok 0)
        × ((cleanup_old_jobs 7 900000
              (world ended_job ended_job (false ∷ true ∷ []) [] [])).1.committed
            ≡ ended_job))
cleanup_old_jobs_atomic_example =
    cleanup_old_jobs_atomic 7 900000 (world ended_job ended_job (false ∷ true ∷ []) [] []) (tt, tt)
