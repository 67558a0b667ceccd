-- ===== src/Jobs/Filed/Session.antt =====
-- Every primitive of the session keeps the rows filed, and what a query finds is filed.
use kra_analysis.Prelude.{
  ℕ, String, Option, none, some, Bool, inl, inr, List, [], ◌∷◌, All, All-keep, All-append, arith,
  Bool-cases,
}
use kra_analysis.Prelude.Value.{Value}
use kra_analysis.Prelude.Exec.{modify}
use kra_analysis.Prelude.Exec.Keeps.{
  Keeps, Keeps-modify, Keeps-bind, Gives, Gives-bind, Gives-pure, Gives-raise, Gives-gets, Gives-if,
  keeps_rules,
}
use kra_analysis.Jobs.Contract.{Error, Job}
use kra_analysis.Jobs.Dispatch.{Call}
use kra_analysis.Jobs.Store.{
  Db, JobLog, Service, round_trip, publish, forget, commit, rollback, rolling_back, first_row,
  select_jobs, select_one, on_session, insert_job, replace_job, update_job, delete_job, insert_log,
  has_id,
}
use kra_analysis.Jobs.Service.{dispatch_task, submit, add_job_log, require_pending, request_cancel}
use kra_analysis.Jobs.Filed.{IsFiled, RowsFiled, IsSound}

pub round_trip-IsSound : Keeps IsSound round_trip
unfolding round_trip
round_trip-IsSound = record { at = λ s h. ground arith }

pub commit-IsSound : Keeps IsSound commit
unfolding commit publish
commit-IsSound =
    Keeps-bind _ _ round_trip-IsSound
      (λ _. Keeps-modify _ (λ s h. record { committed = h.session; session = h.session }))

pub rollback-IsSound : Keeps IsSound rollback
unfolding rollback forget
rollback-IsSound = Keeps-modify _ (λ s h. record { committed = h.committed; session = h.committed })

on_session-IsSound :
    (change : Db → Db)
    → ((db : Db) → RowsFiled db → RowsFiled (change db))
    → Keeps IsSound (modify {E = Error} (on_session change))
on_session-IsSound change k =
    Keeps-modify _ (λ s h. record { committed = h.committed; session = k s.session h.session })

pub insert_job-IsSound :
    (job : Job) → IsFiled job → Keeps IsSound (modify {E = Error} (on_session (insert_job job)))
unfolding insert_job
insert_job-IsSound job f = on_session-IsSound _ (λ db h. All-append IsFiled db.jobs _ h (f, tt))

replace_job-RowsFiled :
    (job : Job) (rows : List Job)
    → IsFiled job
    → All IsFiled rows
    → All IsFiled (replace_job job rows)
unfolding replace_job
replace_job-RowsFiled job [] f h = tt
replace_job-RowsFiled job (row ∷ rows) f h = elim (Bool-cases (has_id job.job_id row)) [
  | inl e ↦ rw e (f, replace_job-RowsFiled job rows f h.1)
  | inr e ↦ rw e (h.0, replace_job-RowsFiled job rows f h.1)
]

pub update_job-IsSound :
    (job : Job) → IsFiled job → Keeps IsSound (modify {E = Error} (on_session (update_job job)))
unfolding update_job
update_job-IsSound job f = on_session-IsSound _ (λ db h. replace_job-RowsFiled job db.jobs f h)

pub delete_job-IsSound :
    (id : String) → Keeps IsSound (modify {E = Error} (on_session (delete_job id)))
unfolding delete_job
delete_job-IsSound id = on_session-IsSound _ (λ db h. All-keep IsFiled _ db.jobs h)

pub insert_log-IsSound :
    (log : JobLog) → Keeps IsSound (modify {E = Error} (on_session (insert_log log)))
unfolding insert_log
insert_log-IsSound log = on_session-IsSound _ (λ db h. h)

submit-IsSound :
    (task_id job_id : String) (call : Call)
    → Keeps IsSound (modify {E = Error} (submit task_id job_id call))
unfolding submit
submit-IsSound task_id job_id call =
    Keeps-modify _ (λ s h. record { committed = h.committed; session = h.session })

pub request_cancel-IsSound :
    (task_id : Option String) → Keeps IsSound (modify {E = Error} (request_cancel task_id))
request_cancel-IsSound task_id =
    Keeps-modify _ (λ s h. record { committed = h.committed; session = h.session })

pub select_jobs-IsSound : (test : Job → Bool) → Keeps IsSound (select_jobs test)
unfolding select_jobs
select_jobs-IsSound test = search (keeps_rules, round_trip-IsSound)

pub select_one-IsSound : (test : Job → Bool) → Keeps IsSound (select_one test)
unfolding select_one
select_one-IsSound test = search (keeps_rules, round_trip-IsSound)

pub rolling_back-IsSound :
    {A : Type 0} (body : Service A) → Keeps IsSound body → Keeps IsSound (rolling_back body)
unfolding rolling_back
rolling_back-IsSound body k = search (keeps_rules, rollback-IsSound)

-- A row that is found is filed.
abbrev pub FoundFiled : Option Job → Type 0
FoundFiled none = Unit
FoundFiled (some job) = IsFiled job

first_row-filed :
    (test : Job → Bool) (rows : List Job) → All IsFiled rows → FoundFiled (first_row test rows)
unfolding first_row
first_row-filed test [] h = tt
first_row-filed test (row ∷ rows) h = elim (Bool-cases (test row)) [
  | inl e ↦ rw e h.0
  | inr e ↦ rw e (first_row-filed test rows h.1)
]

pub select_one-Gives : (test : Job → Bool) → Gives IsSound FoundFiled (select_one test)
unfolding select_one
select_one-Gives test =
    Gives-bind _ _ round_trip-IsSound
      (λ _. Gives-gets _ (λ s h. first_row-filed test s.session.jobs h.session))

pub require_pending-Gives :
    (found : Option Job) (id : String)
    → FoundFiled found
    → Gives IsSound IsFiled (require_pending found id)
require_pending-Gives none id f = Gives-raise _
require_pending-Gives (some job) id f = Gives-if _ _ _ (Gives-pure job f) (Gives-raise _)

pub require_pending-IsSound :
    (found : Option Job) (id : String) → Keeps IsSound (require_pending found id)
require_pending-IsSound none id = search keeps_rules
require_pending-IsSound (some job) id = search keeps_rules

pub dispatch_task-IsSound :
    (job : Job) (task_id : String) → Keeps IsSound (dispatch_task job task_id)
unfolding dispatch_task
dispatch_task-IsSound job task_id = search (keeps_rules, submit-IsSound)

pub add_job_log-IsSound :
    (job_id level message : String) (metadata : Value) (now : ℕ)
    → Keeps IsSound (add_job_log job_id level message metadata now)
unfolding add_job_log
add_job_log-IsSound job_id level message metadata now =
    rolling_back-IsSound _
      (search (keeps_rules, insert_log-IsSound, commit-IsSound, round_trip-IsSound))
