-- ===== src/Jobs/Outcomes/Owners.antt =====
-- The owner's scope of apps/api/services/job_service.py, under any outages.
use kra_analysis.Prelude.{
  ℕ, String, Option, none, some, List, [], ◌∷◌, Bool, true, false, ◌≡◌, refl, All, arith, str_eq,
  eq_iff, ap, Bool-cases, inl, inr,
}
use kra_analysis.Prelude.Result.{ok}
use kra_analysis.Prelude.Exec.{◌>>=◌, try_except}
use kra_analysis.Prelude.Exec.Keeps.{ok_eq}
use kra_analysis.Jobs.Contract.{Job}
use kra_analysis.Jobs.Store.{
  World, Db, Submission, first_row, has_id, select_one, round_trip, rollback, forget,
}
use kra_analysis.Jobs.Service.{cancel_job, cancel_found, get_job, equals}
use kra_analysis.Jobs.Outcomes.Cancelling.{is_visible}
use kra_analysis.Jobs.Outcomes.Outages.{world}

-- No row with the key belongs to the owner.
abbrev pub NotOwned : String → String → List Job → Type 0
NotOwned job_id owner =
    All (λ job. has_id job_id job ≡ true → equals job.created_by (some owner) ≡ false)

created_by_eq :
    (column : Option String) (owner : String)
    → equals column (some owner) ≡ true
    → column ≡ some owner
created_by_eq none owner h = cc
created_by_eq (some text) owner h = ap some ((eq_iff text owner).0 h)

not_visible :
    (job_id owner : String) (jobs : List Job)
    → str_eq owner "" ≡ false
    → NotOwned job_id owner jobs
    → first_row (is_visible job_id (some owner)) jobs ≡ none
unfolding first_row
not_visible job_id owner [] given apart = refl
not_visible job_id owner (job ∷ jobs) given apart =
    ground (arith, apart.0, not_visible job_id owner jobs given apart.1)

cancel_apart :
    (job_id owner : String) (now : ℕ) (c s : Db) (o : List Bool) (q : List Submission)
    (r : List String)
    → first_row (is_visible job_id (some owner)) s.jobs ≡ none
    → ((cancel_job job_id (some owner) now (world c s o q r)).0 ≡ ok false)
      × ((cancel_job job_id (some owner) now (world c s o q r)).1.committed ≡ c)
      × ((cancel_job job_id (some owner) now (world c s o q r)).1.cancel_requests ≡ r)
unfolding cancel_job get_job select_one round_trip rollback forget try_except ◌>>=◌
cancel_apart job_id owner now c s [] q r absent = rw (absent, cancel_found) (refl, refl, refl)
cancel_apart job_id owner now c s (true ∷ o) q r absent = (refl, refl, refl)
cancel_apart job_id owner now c s (false ∷ o) q r absent =
    rw (absent, cancel_found) (refl, refl, refl)

-- Whatever the database does, if no row with the key belongs to the caller (a non-empty name),
-- nothing is cancelled: the answer is `False`, nothing is published, and no task is asked to stop.
pub cancel_job-NotOwned :
    (job_id owner : String) (now : ℕ) (w : World)
    → str_eq owner "" ≡ false
    → NotOwned job_id owner w.session.jobs
    → ((cancel_job job_id (some owner) now w).0 ≡ ok false)
      × ((cancel_job job_id (some owner) now w).1.committed ≡ w.committed)
      × ((cancel_job job_id (some owner) now w).1.cancel_requests ≡ w.cancel_requests)
cancel_job-NotOwned job_id owner now w given apart =
    cancel_apart job_id owner now w.committed w.session w.outages w.submitted w.cancel_requests
      (not_visible job_id owner w.session.jobs given apart)

first_row_holds :
    (test : Job → Bool) (jobs : List Job) {job : Job}
    → first_row test jobs ≡ some job
    → test job ≡ true
unfolding first_row
first_row_holds test [] h = absurd (cc)
first_row_holds test (row ∷ rows) h = elim (Bool-cases (test row)) [
  | inl e ↦ cc (e, rw e at h)
  | inr e ↦ first_row_holds test rows (rw e at h)
]

found_by :
    (test : Job → Bool) (c s : Db) (o : List Bool) (q : List Submission) (r : List String)
    {job : Job}
    → (select_one test (world c s o q r)).0 ≡ ok (some job)
    → test job ≡ true
unfolding select_one round_trip ◌>>=◌
found_by test c s [] q r h = first_row_holds test s.jobs (ok_eq h)
found_by test c s (true ∷ o) q r h = absurd (cc)
found_by test c s (false ∷ o) q r h = first_row_holds test s.jobs (ok_eq h)

-- A job that is found for an owner (a non-empty name) has the key that was asked for and is that
-- owner's, whatever the database does.
pub get_job_owned :
    (job_id owner : String) (w : World) {job : Job}
    → str_eq owner "" ≡ false
    → (get_job job_id (some owner) w).0 ≡ ok (some job)
    → (job.job_id ≡ job_id) × (job.created_by ≡ some owner)
unfolding get_job
get_job_owned job_id owner w {job} given h =
    let visible =
      found_by (is_visible job_id (some owner)) w.committed w.session w.outages w.submitted
        w.cancel_requests h in
    ground (arith, visible, eq_iff job.job_id job_id, created_by_eq job.created_by owner)
