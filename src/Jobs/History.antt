-- ===== src/Jobs/History.antt =====
-- Every history of the job service: its operations and the background tasks (apps/api/services and
-- apps/api/tasks), in any order, with any arguments and under any outages.
use kra_analysis.Prelude.{ℕ, String, Option, List, [], ◌∷◌, Bool}
use kra_analysis.Prelude.Value.{Value}
use kra_analysis.Prelude.Result.{Result}
use kra_analysis.Jobs.Contract.{Raw}
use kra_analysis.Jobs.Store.{World}
use kra_analysis.Jobs.Service.{create_job, start_job, cancel_job, cleanup_old_jobs}
use kra_analysis.Jobs.Tasks.{
  unsupported_job_type, collect_race_data, preprocess_race_data, enrich_race_data,
}
use kra_analysis.Jobs.Tasks.Composite.{Stages, batch_collect, full_pipeline}
use kra_analysis.Jobs.Filed.{IsSound}
use kra_analysis.Jobs.Filed.Operations.{
  create_job-IsSound, start_job-IsSound, cancel_job-IsSound, cleanup_old_jobs-IsSound,
}
use kra_analysis.Jobs.Filed.Tasks.{
  unsupported-IsSound, collect-IsSound, preprocess-IsSound, enrich-IsSound, batch-IsSound,
  pipeline-IsSound,
}

-- One request to the service or one run of a task, with what it takes from outside.
pub data Event : Type 0 where
  create : Raw → Value → String → String → ℕ → Event
  start : String → String → ℕ → Event
  cancel : String → Option String → ℕ → Event
  cleanup : ℕ → ℕ → Event
  unsupported : String → Option String → ℕ → Event
  collect : String → ℕ → ℕ → Option String → Option String → Bool → Result String Value → ℕ → Event
  preprocess enrich : String → Option String → Option String → Result String Value → ℕ → Event
  batch : String → ℕ → List (ℕ × Result String Value) → Option String → Option String → ℕ → Event
  pipeline : String → ℕ → ℕ → Option String → Option String → Stages → ℕ → Event

-- What an event returns or raises is given to its caller; the state goes on.
unfoldable pub step : Event → World → World
step (create job_type parameters owner_ref id now) w =
    (create_job job_type parameters owner_ref id now w).1
step (start job_id task_id now) w = (start_job job_id task_id now w).1
step (cancel job_id owner_ref now) w = (cancel_job job_id owner_ref now w).1
step (cleanup days now) w = (cleanup_old_jobs days now w).1
step (unsupported kind job_id now) w = (unsupported_job_type kind job_id now w).1
step (collect date meet race_no job_id task_id manage collected now) w =
    (collect_race_data date meet race_no job_id task_id manage collected now w).1
step (preprocess race_id job_id task_id made now) w =
    (preprocess_race_data race_id job_id task_id made now w).1
step (enrich race_id job_id task_id made now) w =
    (enrich_race_data race_id job_id task_id made now w).1
step (batch date meet races job_id task_id now) w =
    (batch_collect date meet races job_id task_id now w).1
step (pipeline date meet race_no job_id task_id stages now) w =
    (full_pipeline date meet race_no job_id task_id stages now w).1

unfoldable pub run : List Event → World → World
unfolding step
run [] w = w
run (e ∷ es) w = run es (step e w)

step-IsSound : (e : Event) (w : World) → IsSound w → IsSound (step e w)
unfolding step
step-IsSound (create job_type parameters owner_ref id now) w h =
    (create_job-IsSound job_type parameters owner_ref id now).at w h
step-IsSound (start job_id task_id now) w h = (start_job-IsSound job_id task_id now).at w h
step-IsSound (cancel job_id owner_ref now) w h = (cancel_job-IsSound job_id owner_ref now).at w h
step-IsSound (cleanup days now) w h = (cleanup_old_jobs-IsSound days now).at w h
step-IsSound (unsupported kind job_id now) w h = (unsupported-IsSound kind job_id now).at w h
step-IsSound (collect date meet race_no job_id task_id manage collected now) w h =
    (collect-IsSound date meet race_no job_id task_id manage collected now).at w h
step-IsSound (preprocess race_id job_id task_id made now) w h =
    (preprocess-IsSound race_id job_id task_id made now).at w h
step-IsSound (enrich race_id job_id task_id made now) w h =
    (enrich-IsSound race_id job_id task_id made now).at w h
step-IsSound (batch date meet races job_id task_id now) w h =
    (batch-IsSound date meet races job_id task_id now).at w h
step-IsSound (pipeline date meet race_no job_id task_id stages now) w h =
    (pipeline-IsSound date meet race_no job_id task_id stages now).at w h

-- From a world whose published rows and session rows are all filed (canonical kind, status of the
-- vocabulary, matching shadow columns, a time of completion once ended), every history of requests
-- and tasks, under any outages, leads to such a world.
pub run-IsSound : (es : List Event) (w : World) → IsSound w → IsSound (run es w)
unfolding run
run-IsSound [] w h = h
run-IsSound (e ∷ es) w h = run-IsSound es (step e w) (step-IsSound e w h)
