-- ===== src/Jobs/Outcomes/Composed.antt =====
-- Operations one after another: creating and starting a job, and starting it again.
use kra_analysis.Prelude.{ℕ, String, none, some, List, [], ◌∷◌, ◌++◌, true, ◌≡◌, refl, eq_refl}
use kra_analysis.Prelude.Value.{Value, str, arr}
use kra_analysis.Prelude.Result.{ok, err}
use kra_analysis.Prelude.Exec.{◌>>=◌, ◌>>◌}
use kra_analysis.Prelude.Exec.Runs.{Runs, Runs-bind, Runs-then, Runs-pure}
use kra_analysis.Jobs.Contract.{
  already_started, Raw, other, Job, DispatchAction, normalize_job_kind, normalize_dispatch_action,
  apply_job_shadow_fields,
}
use kra_analysis.Jobs.Contract.Names.{
  action_kind, action_has_kind, dispatch-action_kind, stored_action,
}
use kra_analysis.Jobs.Dispatch.{Call, batch_collect, dispatch_call, subscript}
use kra_analysis.Jobs.Store.{
  Db, Submission, Service, first_row, has_id, insert_job, update_job, insert_log,
}
use kra_analysis.Jobs.Service.{create_job, start_job, queued_job, is_pending}
use kra_analysis.Jobs.Tasks.{number}
use kra_analysis.Jobs.Submit.{
  numbers_of, BatchCollectInput, batch_parameters, normalize_race_numbers, receipt_of,
  submit_batch_collect,
}
use kra_analysis.Jobs.Quiet.{calm}
use kra_analysis.Jobs.Outcomes.Rows.{first_row-insert, first_row-replace}
use kra_analysis.Jobs.Outcomes.Creating.{created, create_job-Runs}
use kra_analysis.Jobs.Outcomes.Starting.{started, submission, start_job-Runs, start_job-Runs-again}

module _ (s : Db) (parameters : Value) (owner_ref id kind : String) (now : ℕ) where
  -- A new row is found by its key.
  created_row :
      first_row (has_id id) s.jobs ≡ none
      → first_row (has_id id) (insert_job (created kind parameters owner_ref id now) s).jobs
        ≡ some (created kind parameters owner_ref id now)
  unfolding insert_job apply_job_shadow_fields
  created_row fresh = first_row-insert (has_id id) s.jobs _ fresh (eq_refl id)

abbrev pub create_and_start : Raw → Value → String → String → String → ℕ → Service String
create_and_start job_type parameters owner_ref id task_id now = do
  job ← create_job job_type parameters owner_ref id now
  start_job job.job_id task_id now

module _ (c s : Db) (q : List Submission) (r : List String) (parameters : Value)
    (owner_ref id task_id : String) (now : ℕ) (fresh : first_row (has_id id) s.jobs ≡ none) where
  -- While the database answers and the new key is in no row, a job that is created under any name
  -- of an action and started, with parameters that fit what `stored_action` leaves of the action,
  -- is queued and runs that: a `preprocess_race` collects one race, and a `full_pipeline` collects
  -- a batch.
  pub create_and_start-Runs :
      (job_type : Raw) (action : DispatchAction) (call : Call)
      → normalize_dispatch_action job_type ≡ ok action
      → dispatch_call (stored_action action) parameters ≡ ok call
      → (let job = created (action_kind action) parameters owner_ref id now in
          let db = started job id task_id now (insert_job job s) in
          Runs
            (create_and_start job_type parameters owner_ref id task_id now)
            (calm c s q r)
            (ok task_id)
            (calm db db (q ++ submission task_id call id ∷ []) r))
  unfolding apply_job_shadow_fields
  create_and_start-Runs job_type action call known called =
      let kind = action_has_kind job_type known in
      Runs-bind _ (create_job-Runs c s q r job_type parameters owner_ref id now kind) (
        start_job-Runs _ _ q r id task_id now
          (created_row s parameters owner_ref id (action_kind action) now fresh)
          (stored_action action) call refl (dispatch-action_kind action) called)

-- While the database answers and the new key is in no row, a request for a batch is accepted once
-- its job is published as queued, its start is logged, and one call of `batch_collect` with the
-- requested races, or races 1 to 15, is submitted for it.
pub submit_batch_collect-Runs :
    (c s : Db) (q : List Submission) (r : List String) (request : BatchCollectInput)
    (owner_ref id task_id : String) (now : ℕ)
    → first_row (has_id id) s.jobs ≡ none
    → (let job = created "batch" (batch_parameters request) owner_ref id now in
        let db = started job id task_id now (insert_job job s) in
        let call =
          batch_collect
            (str request.race_date)
            (number request.meet)
            (arr (numbers_of (normalize_race_numbers request.race_numbers))) in
        Runs
          (submit_batch_collect request owner_ref id task_id now)
          (calm c s q r)
          (ok (receipt_of id))
          (calm db db (q ++ submission task_id call id ∷ []) r))
unfolding submit_batch_collect normalize_job_kind normalize_dispatch_action dispatch_call subscript
    apply_job_shadow_fields
submit_batch_collect-Runs c s q r request owner_ref id task_id now fresh =
    Runs-bind _
      (create_job-Runs c s q r (other "batch") (batch_parameters request) owner_ref id now refl)
      (Runs-then _
        (start_job-Runs _ _ q r id task_id now
          (created_row s (batch_parameters request) owner_ref id "batch" now fresh)
          DispatchAction.batch_collect _ refl refl refl)
        (Runs-pure _ _))

-- While the database answers, a pending job that was started (its action is known and its
-- parameters fit) is not started again: the second call raises that it is queued, and submits and
-- writes nothing.
pub start_job-Runs-twice :
    (c s : Db) (q : List Submission) (r : List String) (id task_id task_id' : String) (now now' : ℕ)
    (job : Job) (action : DispatchAction) (call : Call)
    → first_row (has_id id) s.jobs ≡ some job
    → job.job_id ≡ id
    → is_pending job.status ≡ true
    → normalize_dispatch_action (other job.type) ≡ ok action
    → dispatch_call action job.parameters ≡ ok call
    → (let db = started job id task_id now s in
        let q' = q ++ submission task_id call job.job_id ∷ [] in
        Runs
          (start_job id task_id now >> start_job id task_id' now')
          (calm c s q r)
          (err (already_started "queued"))
          (calm db db q' r))
unfolding queued_job apply_job_shadow_fields update_job insert_log
start_job-Runs-twice c s q r id task_id task_id' now now' job action call found same pending known
      called =
    Runs-then _ (start_job-Runs c s q r id task_id now found action call pending known called) (
      start_job-Runs-again _ _ _ r id task_id' now'
        (first_row-replace id s.jobs (queued_job job task_id now) same found) refl)
