-- ===== src/Jobs/Outcomes/Outages.antt =====
-- apps/api/services/job_service.py when the database fails on the way, and the owner's scope under
-- any outages.
use kra_analysis.Prelude.{
  ℕ, String, Option, some, List, [], ◌∷◌, ◌++◌, Bool, true, false, ◌≡◌, refl, subst,
}
use kra_analysis.Prelude.Value.{Value}
use kra_analysis.Prelude.Result.{ok, err}
use kra_analysis.Prelude.Exec.Runs.{
  Runs, Runs-bind, Runs-then, Runs-then-err, Runs-modify, Runs-gets, Runs-pure, Runs-raise,
  Runs-lift, Runs-catch, Runs-then-branch, Runs-else-branch,
}
use kra_analysis.Jobs.Contract.{
  Error, database_error, other, Job, DispatchAction, normalize_dispatch_action,
}
use kra_analysis.Jobs.Dispatch.{Call, dispatch_call}
use kra_analysis.Jobs.Store.{
  World, Db, Submission, Service, first_row, has_id, update_job, select_one, round_trip, rollback,
  forget, publish, commit, rolling_back,
}
use kra_analysis.Jobs.Service.{
  start_job, dispatch_task, submit, queued_job, is_pending, cancel_job, cancelled_job, with_request,
  get_job, is_terminal, add_job_log,
}
use kra_analysis.Jobs.Outcomes.Starting.{submission}
use kra_analysis.Jobs.Outcomes.Cancelling.{is_visible}

-- A world with its outages to come.
abbrev pub world : Db → Db → List Bool → List Submission → List String → World
world committed session outages submitted cancel_requests = record {
  committed = committed;
  session = session;
  outages = outages;
  submitted = submitted;
  cancel_requests = cancel_requests;
}

module _ {c s : Db} {o : List Bool} {q : List Submission} {r : List String} where
  reached : Runs round_trip (world c s (false ∷ o) q r) (ok tt) (world c s o q r)
  unfolding round_trip
  reached = record { path = refl }

  lost : Runs round_trip (world c s (true ∷ o) q r) (err database_error) (world c s o q r)
  unfolding round_trip
  lost = record { path = refl }

module _ {c s : Db} {o : List Bool} {q : List Submission} {r : List String} where
  committed_now : Runs commit (world c s (false ∷ o) q r) (ok tt) (world s s o q r)
  unfolding commit publish
  committed_now = Runs-then _ reached (Runs-modify _ _)

  commit_lost : Runs commit (world c s (true ∷ o) q r) (err database_error) (world c s o q r)
  unfolding commit
  commit_lost = Runs-then-err _ lost

  dropped : Runs rollback (world c s o q r) (ok tt) (world c c o q r)
  unfolding rollback forget
  dropped = Runs-modify _ _

  select_now :
      (test : Job → Bool)
      → Runs
          (select_one test)
          (world c s (false ∷ o) q r)
          (ok (first_row test s.jobs))
          (world c s o q r)
  unfolding select_one
  select_now test = Runs-then _ reached (Runs-gets _ _)

module _ {c s : Db} {o : List Bool} {q : List Submission} {r : List String} where
  seen_now :
      (test : Job → Bool) {found : Option Job}
      → first_row test s.jobs ≡ found
      → Runs (select_one test) (world c s (false ∷ o) q r) (ok found) (world c s o q r)
  seen_now test e =
      subst (λ f. Runs (select_one test) (world c s (false ∷ o) q r) (ok f) (world c s o q r)) e
        (select_now test)

module _ {c s c' s' : Db} {o o' : List Bool} {q q' : List Submission} {r r' : List String} where
  rolled_back :
      {A : Type 0} {body : Service A} {e : Error}
      → Runs body (world c s o q r) (err e) (world c' s' o' q' r')
      → Runs (rolling_back body) (world c s o q r) (err e) (world c' c' o' q' r')
  unfolding rolling_back
  rolled_back p = Runs-catch _ p (Runs-then _ dropped (Runs-raise _ _))

module _ {c s : Db} {o : List Bool} {q : List Submission} {r : List String} where
  log_lost :
      (job_id level message : String) (metadata : Value) (now : ℕ)
      → Runs
          (add_job_log job_id level message metadata now)
          (world c s (true ∷ o) q r)
          (err database_error)
          (world c c o q r)
  unfolding add_job_log
  log_lost job_id level message metadata now =
      rolled_back (Runs-then _ (Runs-modify _ _) (Runs-then-err _ commit_lost))

module _ (c s : Db) (o : List Bool) (q : List Submission) (r : List String) (job_id : String)
    (now : ℕ) (job : Job) where
  -- If a job that the caller may see has not ended and only the log of its cancellation cannot be
  -- written, the cancellation is published, its task is asked to stop, and yet the answer is
  -- `False`.
  pub cancel_job-Runs-unlogged :
      (owner_ref : Option String)
      → first_row (is_visible job_id owner_ref) s.jobs ≡ some job
      → is_terminal job.status ≡ false
      → (let db = update_job (cancelled_job job now) s in
          Runs
            (cancel_job job_id owner_ref now)
            (world c s (false ∷ false ∷ true ∷ o) q r)
            (ok false)
            (world db db o q (with_request job.task_id r)))
  unfolding cancel_job get_job
  cancel_job-Runs-unlogged owner_ref seen live =
      Runs-catch _
        (Runs-bind _ (seen_now _ seen) (
          Runs-else-branch _ _ live (
            Runs-then _ (Runs-modify _ _) (
              Runs-then _ (Runs-modify _ _)
                (Runs-then _ committed_now (Runs-then-err _ (log_lost _ _ _ _ _)))))))
        (Runs-then _ dropped (Runs-pure _ _))

  module _ (task_id : String) (action : DispatchAction) (call : Call)
      (found : first_row (has_id job_id) s.jobs ≡ some job) (pending : is_pending job.status ≡ true)
      (known : normalize_dispatch_action (other job.type) ≡ ok action)
      (called : dispatch_call action job.parameters ≡ ok call) where
    submitted_now :
        {o' : List Bool}
        → Runs
            (dispatch_task job task_id)
            (world c s o' q r)
            (ok task_id)
            (world c s o' (q ++ submission task_id call job.job_id ∷ []) r)
    unfolding dispatch_task submit
    submitted_now =
        Runs-bind _ (Runs-lift _ known)
          (Runs-bind _ (Runs-lift _ called) (Runs-then _ (Runs-modify _ _) (Runs-pure _ _)))

    -- Starting a pending job of a known action with parameters that fit: if the commit fails, the
    -- row stays pending though its task was submitted; if only the log fails, the row is published
    -- as queued. Either way the start raises a database error.
    pub start_job-Runs-outage :
        (let q' = q ++ submission task_id call job.job_id ∷ [] in
          let db = update_job (queued_job job task_id now) s in
          Runs
            (start_job job_id task_id now)
            (world c s (false ∷ true ∷ o) q r)
            (err database_error)
            (world c c o q' r)
          × Runs
              (start_job job_id task_id now)
              (world c s (false ∷ false ∷ true ∷ o) q r)
              (err database_error)
              (world db db o q' r))
    unfolding start_job
    start_job-Runs-outage = (
      rolled_back (
          Runs-bind _ (seen_now _ found) (
            Runs-bind _ (Runs-then-branch _ _ pending (Runs-pure _ _)) (
              Runs-bind _ submitted_now
                (Runs-then _ (Runs-modify _ _) (Runs-then-err _ commit_lost))))),
      rolled_back (
          Runs-bind _ (seen_now _ found) (
            Runs-bind _ (Runs-then-branch _ _ pending (Runs-pure _ _)) (
              Runs-bind _ submitted_now (
                Runs-then _ (Runs-modify _ _)
                  (Runs-then _ committed_now (Runs-then-err _ (log_lost _ _ _ _ _))))))),
    )
