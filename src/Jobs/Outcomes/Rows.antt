-- ===== src/Jobs/Outcomes/Rows.antt =====
-- Finding a row by its key after an insertion or an update.
use kra_analysis.Prelude.{
  String, none, some, List, [], ◌∷◌, ◌++◌, Bool, true, ◌≡◌, arith, inl, inr, Bool-cases, eq_iff,
}
use kra_analysis.Jobs.Contract.{Job}
use kra_analysis.Jobs.Store.{first_row, has_id, replace_job}

pub first_row-insert :
    (test : Job → Bool) (jobs : List Job) (job : Job)
    → first_row test jobs ≡ none
    → test job ≡ true
    → first_row test (jobs ++ job ∷ []) ≡ some job
unfolding first_row
first_row-insert test [] job absent hit = rw hit
first_row-insert test (row ∷ rows) job absent hit = elim (Bool-cases (test row)) [
  | inl e ↦ absurd (cc (e))
  | inr e ↦ rw e (first_row-insert test rows job (rw e at absent) hit)
]

pub first_row-replace :
    (id : String) (jobs : List Job) {old : Job} (job : Job)
    → job.job_id ≡ id
    → first_row (has_id id) jobs ≡ some old
    → first_row (has_id id) (replace_job job jobs) ≡ some job
unfolding first_row replace_job
first_row-replace id [] job same found = absurd (cc)
first_row-replace id (row ∷ rows) job same found = elim (Bool-cases (has_id id row)) [
  | inl e ↦ ground (arith, eq_iff row.job_id id, eq_iff row.job_id job.job_id, eq_iff job.job_id id)
  | inr e ↦ ground (
    arith,
    eq_iff row.job_id id,
    eq_iff row.job_id job.job_id,
    eq_iff job.job_id id,
    first_row-replace id rows job same (rw e at found),
  )
]
