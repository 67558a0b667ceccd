-- ===== src/Jobs/Outcomes/CleaningOutages.antt =====
-- `cleanup_old_jobs` when the database fails on the way.
use kra_analysis.Prelude.{
  ℕ, String, List, [], ◌∷◌, Bool, true, false, not, ◌≡◌, refl, ◌∙◌, ap, ◌⊎◌, inl, inr, keep, length,
}
use kra_analysis.Prelude.Result.{Result, ok, err}
use kra_analysis.Prelude.Exec.{◌>>=◌, ◌>>◌, pure, continue, handle_with, try_except}
use kra_analysis.Jobs.Contract.{Error, Job}
use kra_analysis.Jobs.Store.{
  World, Db, Submission, delete_job, round_trip, select_jobs, commit, publish, rollback, forget,
}
use kra_analysis.Jobs.Service.{cleanup_old_jobs, delete_jobs, is_old, cutoff_of}
use kra_analysis.Jobs.Outcomes.Outages.{world}
use kra_analysis.Jobs.Outcomes.Cleaning.{Distinct, delete_rows, delete_rows-keep}

-- What a run of the loop leaves: all of it in the session, or an exception; nothing is published.
abbrev Deleted : List Job → Db → Db → Result Error Unit → World → Type 0
Deleted gone c s (ok _) w = (w.session ≡ delete_rows gone s) × (w.committed ≡ c)
Deleted gone c s (err _) w = w.committed ≡ c

delete_jobs-Deleted :
    (gone : List Job) (c s : Db) (o : List Bool) (q : List Submission) (r : List String)
    → Deleted gone c s (delete_jobs gone (world c s o q r)).0 (delete_jobs gone (world c s o q r)).1
unfolding delete_jobs delete_rows round_trip ◌>>=◌
delete_jobs-Deleted [] c s o q r = (refl, refl)
delete_jobs-Deleted (job ∷ gone) c s [] q r =
    delete_jobs-Deleted gone c (delete_job job.job_id s) [] q r
delete_jobs-Deleted (job ∷ gone) c s (true ∷ o) q r = refl
delete_jobs-Deleted (job ∷ gone) c s (false ∷ o) q r =
    delete_jobs-Deleted gone c (delete_job job.job_id s) o q r

abbrev AllOrNothing : ℕ → Db → Db → Result Error ℕ × World → Type 0
AllOrNothing n db c (result, w) =
    ((result ≡ ok n) × (w.committed ≡ db)) ⊎ ((result ≡ ok 0) × (w.committed ≡ c))

-- The rest of the block after the loop, and the handler.
finish_cleanup : ℕ → Result Error Unit → World → Result Error ℕ × World
unfolding commit publish round_trip rollback forget ◌>>=◌
finish_cleanup n result w =
    let (r, w') = continue result (λ _. commit >> pure n) w in
    handle_with r (λ _. rollback >> pure 0) w'

finish_cleanup-AllOrNothing :
    (gone : List Job) (n : ℕ) (c s : Db) (result : Result Error Unit) (c' s' : Db) (o : List Bool)
    (q : List Submission) (r : List String)
    → Deleted gone c s result (world c' s' o q r)
    → AllOrNothing n (delete_rows gone s) c (finish_cleanup n result (world c' s' o q r))
unfolding finish_cleanup
finish_cleanup-AllOrNothing gone n c s (err e) c' s' o q r h = inr (refl, h)
finish_cleanup-AllOrNothing gone n c s (ok u) c' s' [] q r h = inl (refl, h.0)
finish_cleanup-AllOrNothing gone n c s (ok u) c' s' (true ∷ o) q r h = inr (refl, h.1)
finish_cleanup-AllOrNothing gone n c s (ok u) c' s' (false ∷ o) q r h = inl (refl, h.0)

cleanup_world :
    (days now : ℕ) (c s : Db) (o : List Bool) (q : List Submission) (r : List String)
    → (let old = keep (is_old (cutoff_of days now)) s.jobs in
        AllOrNothing
          (length old)
          (delete_rows old s)
          c
          (cleanup_old_jobs days now (world c s o q r)))
unfolding cleanup_old_jobs select_jobs round_trip try_except rollback forget finish_cleanup ◌>>=◌
cleanup_world days now c s [] q r =
    let old = keep (is_old (cutoff_of days now)) s.jobs in
    let after = delete_jobs old (world c s [] q r) in
    finish_cleanup-AllOrNothing old (length old) c s after.0 after.1.committed after.1.session
      after.1.outages after.1.submitted after.1.cancel_requests (delete_jobs-Deleted old c s [] q r)
cleanup_world days now c s (true ∷ o) q r = inr (refl, refl)
cleanup_world days now c s (false ∷ o) q r =
    let old = keep (is_old (cutoff_of days now)) s.jobs in
    let after = delete_jobs old (world c s o q r) in
    finish_cleanup-AllOrNothing old (length old) c s after.0 after.1.committed after.1.session
      after.1.outages after.1.submitted after.1.cancel_requests (delete_jobs-Deleted old c s o q r)

-- If no two rows have one key, then under any outages the clean-up either publishes exactly the
-- rows that are not both ended and older than the cutoff and returns the number of the others, or
-- it publishes nothing and returns 0. It never raises.
pub cleanup_old_jobs_atomic :
    (days now : ℕ) (w : World)
    → Distinct w.session.jobs
    → (let old = is_old (cutoff_of days now) in
        let after = cleanup_old_jobs days now w in
        ((after.0 ≡ ok (length (keep old w.session.jobs)))
          × (after.1.committed.jobs ≡ keep (λ job. not (old job)) w.session.jobs))
        ⊎ ((after.0 ≡ ok 0) × (after.1.committed ≡ w.committed)))
cleanup_old_jobs_atomic days now w distinct =
    elim (cleanup_world days now w.committed w.session w.outages w.submitted w.cancel_requests) [
      | inl h ↦ inl (
        h.0,
        ap (λ (db : Db). db.jobs) h.1
            ∙ delete_rows-keep (is_old (cutoff_of days now)) w.session w.session.jobs distinct,
      )
      | inr h ↦ inr h
    ]
