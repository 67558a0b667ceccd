-- ===== src/Jobs/Outcomes/Cleaning.antt =====
-- `cleanup_old_jobs` removes every old job and nothing else, or nothing at all.
use kra_analysis.Prelude.{
  ℕ, String, List, [], ◌∷◌, Bool, true, false, not, ◌≡◌, refl, ◌∙◌, ap, inl, inr, All, All-keep,
  keep, length, arith, Bool-cases, str_eq, eq_iff, eq_refl,
}
use kra_analysis.Prelude.Result.{Result, ok}
use kra_analysis.Prelude.Exec.Runs.{Runs, Runs-bind, Runs-then, Runs-pure, Runs-try}
use kra_analysis.Jobs.Contract.{Error, Job}
use kra_analysis.Jobs.Store.{World, Db, Submission, has_id, delete_job}
use kra_analysis.Jobs.Service.{cleanup_old_jobs, delete_jobs, is_old, cutoff_of}
use kra_analysis.Jobs.Quiet.{calm, Runs-round_trip, Runs-select_jobs, Runs-commit, Runs-on_session}

-- No two rows have one key.
abbrev pub Distinct : List Job → Type 0
Distinct [] = Unit
Distinct (job ∷ jobs) = All (λ row. has_id job.job_id row ≡ false) jobs × Distinct jobs

unfoldable pub delete_rows : List Job → Db → Db
unfolding delete_job
delete_rows [] db = db
delete_rows (job ∷ jobs) db = delete_rows jobs (delete_job job.job_id db)

keep-All :
    (test : Job → Bool) (rows : List Job)
    → All (λ row. test row ≡ true) rows
    → keep test rows ≡ rows
keep-All test [] h = refl
keep-All test (row ∷ rows) h = rw (h.0, keep-All test rows h.1)

holds_of_not :
    (id : String) (rows : List Job)
    → All (λ row. has_id id row ≡ false) rows
    → All (λ row. not (has_id id row) ≡ true) rows
holds_of_not id [] h = tt
holds_of_not id (row ∷ rows) h = (rw h.0, holds_of_not id rows h.1)

str_ne_sym : (a b : String) → str_eq a b ≡ false → str_eq b a ≡ false
str_ne_sym a b h = ground (arith, eq_iff a b, eq_iff b a)

keep_others :
    (row : Job) (rows : List Job)
    → All (λ other. has_id row.job_id other ≡ false) rows
    → keep (λ r. not (has_id row.job_id r)) (row ∷ rows) ≡ rows
keep_others row rows h = rw eq_refl (keep-All _ rows (holds_of_not row.job_id rows h))

apart_of_keep :
    (test : Job → Bool) (row : Job) (rows : List Job)
    → All (λ other. has_id row.job_id other ≡ false) rows
    → All (λ other. has_id row.job_id other ≡ false) (keep test rows)
apart_of_keep test row rows h = All-keep _ test rows h

-- A row whose key is not among those of the deleted rows stays.
delete_rows-stays :
    (gone : List Job) (db : Db) (row : Job) (rows : List Job)
    → db.jobs ≡ row ∷ rows
    → All (λ job. has_id row.job_id job ≡ false) gone
    → (delete_rows gone db).jobs ≡ row ∷ (delete_rows gone (record db { jobs = rows })).jobs
unfolding delete_rows
delete_rows-stays [] db row rows e h = e
delete_rows-stays (job ∷ gone) db row rows e h =
    delete_rows-stays gone (delete_job job.job_id db) row
      (keep (λ r. not (has_id job.job_id r)) rows) (rw (e, str_ne_sym job.job_id row.job_id h.0))
      h.1

pub delete_rows-keep :
    (test : Job → Bool) (db : Db) (rows : List Job)
    → Distinct rows
    → (delete_rows (keep test rows) (record db { jobs = rows })).jobs
      ≡ keep (λ row. not (test row)) rows
unfolding delete_rows
delete_rows-keep test db [] d = refl
delete_rows-keep test db (row ∷ rows) d = elim (Bool-cases (test row)) [
  | inl e ↦ rw e (
      ap
        (λ js.
          (delete_rows (keep test rows)
            (record (delete_job row.job_id (record db { jobs = row ∷ rows })) { jobs = js })).jobs)
        (keep_others row rows d.0)
      ∙ delete_rows-keep test (delete_job row.job_id (record db { jobs = row ∷ rows })) rows d.1)
  | inr e ↦ rw e (
      delete_rows-stays (keep test rows) (record db { jobs = row ∷ rows }) row rows refl
        (apart_of_keep test row rows d.0)
      ∙ ap (λ js. row ∷ js) (delete_rows-keep test db rows d.1))
]

Runs-delete_jobs :
    (gone : List Job) (c s : Db) (q : List Submission) (r : List String)
    → Runs (delete_jobs gone) (calm c s q r) (ok tt) (calm c (delete_rows gone s) q r)
unfolding delete_jobs delete_rows
Runs-delete_jobs [] c s q r = Runs-pure _ _
Runs-delete_jobs (job ∷ gone) c s q r =
    Runs-then _ Runs-round_trip
      (Runs-then _ (Runs-on_session _) (Runs-delete_jobs gone c (delete_job job.job_id s) q r))

cleanup-Runs :
    (days now : ℕ) (c s : Db) (q : List Submission) (r : List String)
    → (let old = keep (is_old (cutoff_of days now)) s.jobs in
        let db = delete_rows old s in
        Runs (cleanup_old_jobs days now) (calm c s q r) (ok (length old)) (calm db db q r))
unfolding cleanup_old_jobs
cleanup-Runs days now c s q r = Runs-try _ (
    Runs-bind _ (Runs-select_jobs _)
      (Runs-then _ (Runs-delete_jobs _ c s q r) (Runs-then _ Runs-commit (Runs-pure _ _))))

-- While the database answers and no two rows have one key, the clean-up publishes exactly the rows
-- that are not both ended and older than the cutoff, in their order, and returns the number of the
-- others.
pub cleanup_old_jobs-rows :
    (days now : ℕ) (c s : Db) (q : List Submission) (r : List String)
    → Distinct s.jobs
    → (let old = is_old (cutoff_of days now) in
        let after = cleanup_old_jobs days now (calm c s q r) in
        (after.0 ≡ ok (length (keep old s.jobs)))
        × (after.1.committed.jobs ≡ keep (λ job. not (old job)) s.jobs))
cleanup_old_jobs-rows days now c s q r distinct =
    let run = (cleanup-Runs days now c s q r).path in
    (
      ap (λ (x : Result Error ℕ × World). x.0) run,
      ap (λ (x : Result Error ℕ × World). x.1.committed.jobs) run
          ∙ delete_rows-keep (is_old (cutoff_of days now)) s s.jobs distinct,
    )
