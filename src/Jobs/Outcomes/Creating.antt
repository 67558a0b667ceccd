-- ===== src/Jobs/Outcomes/Creating.antt =====
-- `create_job` while the database answers.
use kra_analysis.Prelude.{ℕ, String, some, List, ◌≡◌}
use kra_analysis.Prelude.Value.{Value}
use kra_analysis.Prelude.Result.{ok, err}
use kra_analysis.Prelude.Exec.Runs.{Runs, Runs-bind, Runs-bind-err, Runs-then, Runs-pure, Runs-lift}
use kra_analysis.Jobs.Contract.{Error, Raw, other, Job, normalize_job_kind, apply_job_shadow_fields}
use kra_analysis.Jobs.Store.{Db, Submission, insert_job}
use kra_analysis.Jobs.Service.{create_job, new_job}
use kra_analysis.Jobs.Quiet.{
  calm, Runs-rolling_back, Runs-rolling_back-err, Runs-on_session, Runs-commit, Runs-round_trip,
}

-- A new pending row with its shadow columns.
abbrev pub created : String → Value → String → String → ℕ → Job
created kind parameters owner_ref id now =
    apply_job_shadow_fields (new_job kind parameters owner_ref id now) (some (other kind))
      (some (other "pending"))

module _ (c s : Db) (q : List Submission) (r : List String) (job_type : Raw) (parameters : Value)
    (owner_ref id : String) (now : ℕ) where
  -- While the database answers, a job of a known kind is filed under its canonical name as pending,
  -- with its shadow columns, published as the last row, and returned.
  pub create_job-Runs :
      {kind : String}
      → normalize_job_kind job_type ≡ ok kind
      → (let job = created kind parameters owner_ref id now in
          Runs
            (create_job job_type parameters owner_ref id now)
            (calm c s q r)
            (ok job)
            (calm (insert_job job s) (insert_job job s) q r))
  unfolding create_job
  create_job-Runs known = Runs-rolling_back (
      Runs-bind _ (Runs-lift _ known) (
        Runs-then _ (Runs-on_session _)
          (Runs-then _ Runs-commit (Runs-then _ Runs-round_trip (Runs-pure _ _)))))

  -- An unknown kind is refused, and nothing is published.
  pub create_job-Runs-unknown :
      {e : Error}
      → normalize_job_kind job_type ≡ err e
      → Runs (create_job job_type parameters owner_ref id now) (calm c s q r) (err e) (calm c c q r)
  unfolding create_job
  create_job-Runs-unknown unknown = Runs-rolling_back-err (Runs-bind-err _ (Runs-lift _ unknown))
