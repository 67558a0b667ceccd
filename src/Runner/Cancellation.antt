-- ===== src/Runner/Cancellation.antt =====
-- After `cancel_task` of apps/api/infrastructure/background_tasks.py, whatever happens next.
use kra_analysis.Prelude.{
  String, Option, none, some, List, [], ◌∷◌, ◌++◌, map, Bool, true, false, not, ◌||◌, ◌≡◌, refl,
  sym, ap, ◌∙◌, subst, if◌then◌else◌, str_eq, all, All, Bool-cases, inl, inr, arith,
}
use kra_analysis.Runner.Task.{Task, Answer, wake, done, is_ended}
use kra_analysis.Runner.Events.{
  Runner, Event, submit, save_pending, wake_up, cancel, begin_shutdown, end_shutdown, expire,
  find_task, set_task, wake_found, wake_task, cancel_handle, cancel_task, submit_task,
  shutdown_begin, shutdown_end, step, run, request, is_cancellable, is_gathered, new_task,
}
use kra_analysis.Runner.Stopping.{
  found_eq, ends_call, IsStopped, is_stopping, set_task-IsStopped, wake-stopping, wake-id,
  request_stops, live_stops,
}

asked_stops :
    (t : Task)
    → is_stopping t ≡ true
    → is_stopping (if is_cancellable t then request t else t) ≡ true
asked_stops t h = elim (Bool-cases (is_cancellable t)) [
  | inl e ↦ rw e (request_stops t.cancelling t.phase h)
  | inr e ↦ rw e h
]

live_of : (t : Task) → is_cancellable t ≡ true → is_ended t.phase ≡ false
live_of t e = ground arith

-- The function of the task does not end by returning or with another exception than `CancelledError`.
abbrev pub lets_out : String → Event → Bool
lets_out id (wake_up id' answer) = if ends_call answer then not (str_eq id' id) else true
lets_out id _ = true

let_out :
    (id id' : String) (answer : Answer)
    → lets_out id (wake_up id' answer) ≡ true
    → str_eq id' id ≡ true
    → ends_call answer ≡ false
let_out id id' answer l same = elim (Bool-cases (ends_call answer)) [
  | inl ends ↦ absurd (let k = rw (ends, same) at l in cc)
  | inr lets ↦ lets
]

module _ (id : String) where
  find-append :
      (ts us : List Task) {t : Task} → find_task id ts ≡ some t → find_task id (ts ++ us) ≡ some t
  unfolding find_task
  find-append [] us f = absurd (cc)
  find-append (x ∷ xs) us f = elim (Bool-cases (str_eq x.id id)) [
    | inl here ↦ rw here (rw here at f)
    | inr there ↦ rw there (find-append xs us (rw there at f))
  ]

  find-set_task :
      (new : Task) (ts : List Task) {t : Task}
      → find_task id ts ≡ some t
      → new.id ≡ t.id
      → find_task id (set_task id new ts) ≡ some new
  unfolding find_task set_task
  find-set_task new [] f same = absurd (cc)
  find-set_task new (x ∷ xs) {t} f same = elim (Bool-cases (str_eq x.id id)) [
    | inl here ↦ rw here (
        subst (λ i. (if str_eq i id then some new else find_task id xs) ≡ some new)
          (sym (same ∙ ap (λ (y : Task). y.id) (sym (found_eq x t (rw here at f))))) (rw here refl))
    | inr there ↦ rw there (rw there (find-set_task new xs (rw there at f) same))
  ]

  find-map :
      (f : Task → Task)
      → ((t : Task) → (f t).id ≡ t.id)
      → (ts : List Task) {t : Task} → find_task id ts ≡ some t
      → find_task id (map f ts) ≡ some (f t)
  unfolding find_task
  find-map f same [] found = absurd (cc)
  find-map f same (x ∷ xs) {t} found = elim (Bool-cases (str_eq x.id id)) [
    | inl here ↦
        subst (λ i. (if str_eq i id then some (f x) else find_task id (map f xs)) ≡ some (f t))
          (sym (same x)) (rw here (ap (λ y. some (f y)) (found_eq x t (rw here at found))))
    | inr there ↦
        subst (λ i. (if str_eq i id then some (f x) else find_task id (map f xs)) ≡ some (f t))
          (sym (same x)) (rw there (find-map f same xs (rw there at found)))
  ]

  -- A change of every task that leaves its key and keeps it stopping.
  map-IsStopped :
      (f : Task → Task)
      → ((t : Task) → (f t).id ≡ t.id)
      → ((t : Task) → is_stopping t ≡ true → is_stopping (f t) ≡ true)
      → (ts : List Task) → IsStopped id ts
      → IsStopped id (map f ts)
  map-IsStopped f same keeps ts s = record {
    task = f s.task;
    found = find-map f same ts s.found;
    stopping = keeps s.task s.stopping;
  }

  append-IsStopped : (ts us : List Task) → IsStopped id ts → IsStopped id (ts ++ us)
  append-IsStopped ts us s = record {
    task = s.task;
    found = find-append ts us s.found;
    stopping = s.stopping;
  }

  wake_found-IsStopped :
      (id' : String) (answer : Answer) (r : Runner) (found : Option Task)
      → find_task id' r.tasks ≡ found
      → lets_out id (wake_up id' answer) ≡ true
      → IsStopped id r.tasks
      → IsStopped id (wake_found found id' answer r).tasks
  wake_found-IsStopped id' answer r none e l s = s
  wake_found-IsStopped id' answer r (some t) e l s =
      set_task-IsStopped id id' (wake t answer).task r.tasks s.found s.stopping e (wake-id t answer)
        (λ same. wake-stopping t answer (let_out id id' answer l same))

  cancel_handle-IsStopped :
      (id' : String) (reached : Bool) (r : Runner) (found : Option Task)
      → find_task id' r.tasks ≡ found
      → IsStopped id r.tasks
      → IsStopped id (cancel_handle found id' reached r).1.tasks
  cancel_handle-IsStopped id' reached r none e s = s
  cancel_handle-IsStopped id' reached r (some t) e s = elim (Bool-cases (is_cancellable t)) [
    | inr e' ↦ rw e' s
    | inl e' ↦ rw e' (
        set_task-IsStopped id id' (request t) r.tasks s.found s.stopping e refl
          (λ same. request_stops t.cancelling t.phase))
  ]

  step-IsStopped :
      (e : Event) (r : Runner)
      → lets_out id e ≡ true
      → IsStopped id r.tasks
      → IsStopped id (step e r).tasks
  unfolding step submit_task wake_task cancel_task shutdown_begin shutdown_end
  step-IsStopped (submit new) r l s = append-IsStopped r.tasks (new_task new ∷ []) s
  step-IsStopped (save_pending i) r l s = s
  step-IsStopped (expire i) r l s = s
  step-IsStopped (wake_up i answer) r l s =
      wake_found-IsStopped i answer r (find_task i r.tasks) refl l s
  step-IsStopped (cancel i reached) r l s =
      cancel_handle-IsStopped i reached r (find_task i r.tasks) refl s
  step-IsStopped begin_shutdown r l s =
      map-IsStopped (λ t. if is_cancellable t then request t else t) (λ t. ground arith)
        (λ t h. asked_stops t h) r.tasks s
  step-IsStopped (end_shutdown ids) r l s =
      elim (all (λ t. not (is_gathered ids t) || done t) r.tasks)
        as (λ b.
          IsStopped id
            (if b
              then record r { tasks = map (λ (t : Task). record t { registered = false }) r.tasks }
              else r).tasks) [
                | true ↦
                    map-IsStopped (λ (t : Task). record t { registered = false }) (λ t. refl)
                      (λ t h. h) r.tasks s
                | false ↦ s
              ]

  run-IsStopped :
      (es : List Event) (r : Runner)
      → All (λ e. lets_out id e ≡ true) es
      → IsStopped id r.tasks
      → IsStopped id (run es r).tasks
  unfolding run
  run-IsStopped [] r l s = s
  run-IsStopped (e ∷ es) r l s = run-IsStopped es (step e r) l.1 (step-IsStopped e r l.0 s)

cancel_handle-accepts :
    (id : String) (reached : Bool) (r : Runner) (found : Option Task)
    → find_task id r.tasks ≡ found
    → (cancel_handle found id reached r).0 ≡ true
    → IsStopped id (cancel_handle found id reached r).1.tasks
cancel_handle-accepts id reached r none e h = absurd (cc)
cancel_handle-accepts id reached r (some t) e h = elim (Bool-cases (is_cancellable t)) [
  | inr e' ↦ absurd (cc (rw e' at h))
  | inl e' ↦ rw e' (record {
    task = request t;
    found = find-set_task id (request t) r.tasks e refl;
    stopping = live_stops t.phase (live_of t e');
  })
]

-- Once `cancel_task` has answered `True` for a task, and unless its function returns afterwards or
-- raises another exception than `CancelledError`, the task never completes or fails, whatever calls and
-- wake-ups follow: it is to be cancelled, is still in its function, is being cancelled, or has ended as
-- cancelled or in no counter.
pub cancel_task-IsStopped :
    (id : String) (reached : Bool) (r : Runner) (es : List Event)
    → (cancel_task id reached r).0 ≡ true
    → All (λ e. lets_out id e ≡ true) es
    → IsStopped id (run es (cancel_task id reached r).1).tasks
unfolding cancel_task
cancel_task-IsStopped id reached r es h l =
    run-IsStopped id es _ l (cancel_handle-accepts id reached r (find_task id r.tasks) refl h)
