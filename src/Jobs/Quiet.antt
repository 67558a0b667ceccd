-- ===== src/Jobs/Quiet.antt =====
-- The primitives of the session while the database answers every call.
use kra_analysis.Prelude.{ℕ, String, List, [], Bool, refl, keep}
use kra_analysis.Prelude.Value.{Value}
use kra_analysis.Prelude.Result.{ok, err}
use kra_analysis.Prelude.Exec.{modify}
use kra_analysis.Prelude.Exec.Runs.{
  Runs, Runs-then, Runs-modify, Runs-gets, Runs-pure, Runs-try, Runs-catch, Runs-raise,
}
use kra_analysis.Jobs.Contract.{Error, Job}
use kra_analysis.Jobs.Store.{
  Db, JobLog, World, Service, Submission, round_trip, publish, forget, commit, rollback,
  rolling_back, first_row, select_jobs, select_one, on_session, insert_log,
}
use kra_analysis.Jobs.Service.{add_job_log}

-- A world with no outage to come.
abbrev pub calm : Db → Db → List Submission → List String → World
calm committed session submitted cancel_requests = record {
  committed = committed;
  session = session;
  outages = [];
  submitted = submitted;
  cancel_requests = cancel_requests;
}

module _ {c s : Db} {q : List Submission} {r : List String} where
  pub Runs-round_trip : Runs round_trip (calm c s q r) (ok tt) (calm c s q r)
  unfolding round_trip
  Runs-round_trip = record { path = refl }

module _ {c s : Db} {q : List Submission} {r : List String} where
  pub Runs-commit : Runs commit (calm c s q r) (ok tt) (calm s s q r)
  unfolding commit publish
  Runs-commit = Runs-then _ Runs-round_trip (Runs-modify _ _)

  pub Runs-rollback : Runs rollback (calm c s q r) (ok tt) (calm c c q r)
  unfolding rollback forget
  Runs-rollback = Runs-modify _ _

  pub Runs-select_jobs :
      (test : Job → Bool)
      → Runs (select_jobs test) (calm c s q r) (ok (keep test s.jobs)) (calm c s q r)
  unfolding select_jobs
  Runs-select_jobs test = Runs-then _ Runs-round_trip (Runs-gets _ _)

  pub Runs-select_one :
      (test : Job → Bool)
      → Runs (select_one test) (calm c s q r) (ok (first_row test s.jobs)) (calm c s q r)
  unfolding select_one
  Runs-select_one test = Runs-then _ Runs-round_trip (Runs-gets _ _)

module _ {c s : Db} {q : List Submission} {r : List String} where
  pub Runs-rolling_back :
      {A : Type 0} {body : Service A} {a : A} {w : World}
      → Runs body (calm c s q r) (ok a) w
      → Runs (rolling_back body) (calm c s q r) (ok a) w
  unfolding rolling_back
  Runs-rolling_back p = Runs-try _ p

  pub Runs-rolling_back-err :
      {A : Type 0} {body : Service A} {e : Error} {c' s' : Db} {q' : List Submission}
      {r' : List String}
      → Runs body (calm c s q r) (err e) (calm c' s' q' r')
      → Runs (rolling_back body) (calm c s q r) (err e) (calm c' c' q' r')
  unfolding rolling_back rollback forget
  Runs-rolling_back-err p = Runs-catch _ p (Runs-then _ (Runs-modify _ _) (Runs-raise _ _))

module _ {c s : Db} {q : List Submission} {r : List String} where
  pub Runs-on_session :
      (change : Db → Db)
      → Runs {E = Error} (modify (on_session change)) (calm c s q r) (ok tt) (calm c (change s) q r)
  Runs-on_session change = Runs-modify _ _

module _ {c s : Db} {q : List Submission} {r : List String} where
  pub Runs-add_job_log :
      (job_id level message : String) (metadata : Value) (now : ℕ)
      → (let log : JobLog = record {
        job_id = job_id;
        timestamp = now;
        level = level;
        message = message;
        log_metadata = metadata;
      } in
          Runs
            (add_job_log job_id level message metadata now)
            (calm c s q r)
            (ok log)
            (calm (insert_log log s) (insert_log log s) q r))
  unfolding add_job_log
  Runs-add_job_log job_id level message metadata now = Runs-rolling_back (
      Runs-then _ (Runs-on_session _)
        (Runs-then _ Runs-commit (Runs-then _ Runs-round_trip (Runs-pure _ _))))
