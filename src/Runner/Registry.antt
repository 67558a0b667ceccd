-- ===== src/Runner/Registry.antt =====
-- `_running_tasks` of apps/api/infrastructure/background_tasks.py: which tasks are in it.
use kra_analysis.Prelude.{
  String, Option, none, some, List, [], ◌∷◌, Bool, true, false, not, ◌||◌, ◌≡◌, refl, if◌then◌else◌,
  str_eq, all, All, All-map, All-append, Bool-cases, inl, inr, arith, subst,
}
use kra_analysis.Runner.Task.{
  Phase, unstarted, scheduled, saving_processing, running, saving_completed, sleeping,
  saving_failed, saving_cancelled, ended, Task, Answer, started, slept, saved, returned, raised,
  stopped, advance, throw, wake, done,
}
use kra_analysis.Runner.Events.{
  Runner, Event, submit, save_pending, wake_up, cancel, begin_shutdown, end_shutdown, expire,
  find_task, set_task, wake_found, wake_task, cancel_handle, cancel_task, submit_task,
  shutdown_begin, shutdown_end, step, run, request, is_cancellable, is_gathered, new_task,
}

-- Of the tasks that ended only one that never ran may be registered.
abbrev pub fits_at : Bool → Phase → Bool
fits_at registered (ended unstarted) = true
fits_at registered (ended _) = not registered
fits_at registered _ = true

abbrev pub Fits : Task → Type 0
Fits t = fits_at t.registered t.phase ≡ true

advance-Fits :
    (t : Task) (phase : Phase) (answer : Answer)
    → fits_at t.registered phase ≡ true
    → Fits (advance t phase answer).task
unfolding advance
advance-Fits t scheduled started h = refl
advance-Fits t (saving_processing n) (saved ok) h = h
advance-Fits t (running n) (returned v) h = h
advance-Fits t (running n) (raised e) h = ground arith
advance-Fits t (running n) stopped h = refl
advance-Fits t (saving_completed v) (saved ok) h = refl
advance-Fits t (sleeping n) slept h = h
advance-Fits t (saving_failed e) (saved ok) h = refl
advance-Fits t saving_cancelled (saved ok) h = refl
advance-Fits t phase answer h = h

throw-Fits :
    (t : Task) (phase : Phase) (answer : Answer)
    → fits_at t.registered phase ≡ true
    → Fits (throw t phase answer).task
unfolding throw
throw-Fits t scheduled answer h = refl
throw-Fits t (saving_processing n) answer h = h
throw-Fits t (running n) answer h = advance-Fits t (running n) answer h
throw-Fits t (saving_completed v) answer h = h
throw-Fits t (ended e) answer h = h
throw-Fits t _ answer h = refl

wake-Fits : (t : Task) (answer : Answer) → Fits t → Fits (wake t answer).task
unfolding wake
wake-Fits t answer h =
    elim t.cancelling
      as (λ b.
        Fits
          (if b
            then throw (record t { cancelling = false }) t.phase answer
            else advance t t.phase answer).task) [
              | true ↦ throw-Fits (record t { cancelling = false }) t.phase answer h
              | false ↦ advance-Fits t t.phase answer h
            ]

task_of : (u t : Task) → some u ≡ some t → u ≡ t
task_of u t e = cc

module _ (P : Task → Type 0) (id : String) where
  pub set_task-All : (new : Task) (ts : List Task) → P new → All P ts → All P (set_task id new ts)
  unfolding set_task
  set_task-All new [] p h = tt
  set_task-All new (t ∷ ts) p h =
      elim (str_eq t.id id) as (λ b. All P (if b then new ∷ ts else t ∷ set_task id new ts)) [
        | true ↦ (p, h.1)
        | false ↦ (h.0, set_task-All new ts p h.1)
      ]

  pub find_task-All : (ts : List Task) {t : Task} → All P ts → find_task id ts ≡ some t → P t
  unfolding find_task
  find_task-All [] h e = absurd (cc)
  find_task-All (u ∷ ts) {t} h e = elim (Bool-cases (str_eq u.id id)) [
    | inl same ↦ subst P (task_of u t (rw same at e)) h.0
    | inr other ↦ find_task-All ts h.1 (rw other at e)
  ]

wake_found-Fits :
    (id : String) (answer : Answer) (r : Runner) (found : Option Task)
    → find_task id r.tasks ≡ found
    → All Fits r.tasks
    → All Fits (wake_found found id answer r).tasks
wake_found-Fits id answer r none e h = h
wake_found-Fits id answer r (some t) e h =
    set_task-All Fits id (wake t answer).task r.tasks
      (wake-Fits t answer (find_task-All Fits id r.tasks h e)) h

cancel_handle-Fits :
    (id : String) (reached : Bool) (r : Runner) (found : Option Task)
    → find_task id r.tasks ≡ found
    → All Fits r.tasks
    → All Fits (cancel_handle found id reached r).1.tasks
cancel_handle-Fits id reached r none e h = h
cancel_handle-Fits id reached r (some t) e h = elim (Bool-cases (is_cancellable t)) [
  | inr e' ↦ rw e' h
  | inl e' ↦ rw e' (set_task-All Fits id (request t) r.tasks (find_task-All Fits id r.tasks h e) h)
]

unregistered :
    (registered : Bool) (phase : Phase)
    → fits_at registered phase ≡ true
    → fits_at false phase ≡ true
unregistered registered (ended unstarted) h = refl
unregistered registered (ended _) h = refl
unregistered registered _ h = refl

step-Fits : (e : Event) (r : Runner) → All Fits r.tasks → All Fits (step e r).tasks
unfolding step submit_task wake_task cancel_task shutdown_begin shutdown_end
step-Fits (submit id) r h = All-append Fits r.tasks (new_task id ∷ []) h (refl, tt)
step-Fits (save_pending id) r h = h
step-Fits (expire id) r h = h
step-Fits (wake_up id answer) r h = wake_found-Fits id answer r (find_task id r.tasks) refl h
step-Fits (cancel id reached) r h = cancel_handle-Fits id reached r (find_task id r.tasks) refl h
step-Fits begin_shutdown r h = All-map Fits _ r.tasks (λ t p. ground arith) h
step-Fits (end_shutdown ids) r h =
    elim (Bool-cases (all (λ t. not (is_gathered ids t) || done t) r.tasks)) [
      | inl e ↦ rw e (All-map Fits _ r.tasks (λ t p. unregistered t.registered t.phase p) h)
      | inr e ↦ rw e h
    ]

pub run-Fits : (es : List Event) (r : Runner) → All Fits r.tasks → All Fits (run es r).tasks
unfolding run
run-Fits [] r h = h
run-Fits (e ∷ es) r h = run-Fits es (step e r) (step-Fits e r h)
