-- ===== src/Runner/Books.antt =====
-- The counters of apps/api/infrastructure/background_tasks.py and the tasks that they count.
use kra_analysis.Prelude.{
  ℕ, suc, ◌+◌, String, Option, none, some, List, [], ◌∷◌, ◌++◌, map, Bool, true, false, not, ◌||◌,
  ◌≡◌, refl, sym, ◌∙◌, if◌then◌else◌, all, length, length-append, Bool-cases, inl, inr, arith,
}
use kra_analysis.Runner.Task.{
  Counter, Phase, counted, scheduled, saving_processing, running, saving_completed, sleeping,
  saving_failed, saving_cancelled, ended, Task, Answer, started, slept, saved, raised, stopped,
  advance, throw, wake, done,
}
use kra_analysis.Runner.Events.{
  Counters, Runner, Event, submit, save_pending, wake_up, cancel, begin_shutdown, end_shutdown,
  expire, find_task, bump, wake_found, wake_task, cancel_handle, cancel_task, submit_task,
  shutdown_begin, shutdown_end, step, run, request, is_cancellable, is_gathered, new_task,
}
use kra_analysis.Runner.Tally.{
  bit, number_of, set_task-counts, number_of-map, number_of-append, length-map, length-set_task,
}

abbrev pub same : Counter → Counter → Bool
same Counter.completed Counter.completed = true
same Counter.failed Counter.failed = true
same Counter.cancelled Counter.cancelled = true
same _ _ = false

-- The task ended and added to the counter.
abbrev pub ends_in : Counter → Phase → Bool
ends_in k (ended (counted k')) = same k k'
ends_in k _ = false

abbrev pub ends_with : Counter → Task → Bool
ends_with k t = ends_in k t.phase

abbrev pub value : Counter → Counters → ℕ
value Counter.completed c = c.completed
value Counter.failed c = c.failed
value Counter.cancelled c = c.cancelled

abbrev counts : Counter → Option Counter → Bool
counts k none = false
counts k (some k') = same k k'

advance-counts :
    (k : Counter) (t : Task) (phase : Phase) (answer : Answer)
    → (let m = advance t phase answer in
        bit (ends_with k m.task) ≡ bit (ends_in k phase) + bit (counts k m.counted))
unfolding advance
advance-counts k t scheduled started = refl
advance-counts k t (saving_processing n) (saved ok) = refl
advance-counts k t (running n) (raised e) = ground arith
advance-counts k t (running n) stopped = refl
advance-counts k t (saving_completed v) (saved ok) = omega arith
advance-counts k t (sleeping n) slept = refl
advance-counts k t (saving_failed e) (saved ok) = omega arith
advance-counts k t saving_cancelled (saved ok) = omega arith
advance-counts k t phase answer = omega arith

throw-counts :
    (k : Counter) (t : Task) (phase : Phase) (answer : Answer)
    → (let m = throw t phase answer in
        bit (ends_with k m.task) ≡ bit (ends_in k phase) + bit (counts k m.counted))
unfolding throw
throw-counts k t scheduled answer = refl
throw-counts k t (ended e) answer = omega arith
throw-counts k t (running n) answer = advance-counts k t (running n) answer
throw-counts k t _ answer = refl

wake-counts :
    (k : Counter) (t : Task) (answer : Answer)
    → (let m = wake t answer in
        bit (ends_with k m.task) ≡ bit (ends_with k t) + bit (counts k m.counted))
unfolding wake
wake-counts k t answer =
    elim t.cancelling
      as (λ b.
        let m =
          if b
          then throw (record t { cancelling = false }) t.phase answer
          else advance t t.phase answer in
        bit (ends_with k m.task) ≡ bit (ends_with k t) + bit (counts k m.counted)) [
          | true ↦ throw-counts k (record t { cancelling = false }) t.phase answer
          | false ↦ advance-counts k t t.phase answer
        ]

bump-counts :
    (k : Counter) (o : Option Counter) (c : Counters)
    → value k (bump o c) ≡ value k c + bit (counts k o)
bump-counts k none c = omega arith
bump-counts Counter.completed (some Counter.completed) c = omega arith
bump-counts Counter.failed (some Counter.failed) c = omega arith
bump-counts Counter.cancelled (some Counter.cancelled) c = omega arith
bump-counts k (some k') c = omega arith

-- Every counter is the number of tasks that it counts.
pub record IsKept (r : Runner) : Type 0 where
  pub submitted : r.counters.submitted ≡ length r.tasks
  pub ends : (k : Counter) → value k r.counters ≡ number_of (ends_with k) r.tasks

bump-submitted : (o : Option Counter) (c : Counters) → (bump o c).submitted ≡ c.submitted
bump-submitted none c = refl
bump-submitted (some Counter.completed) c = refl
bump-submitted (some _) c = refl

wake_found-IsKept :
    (id : String) (answer : Answer) (r : Runner) (found : Option Task)
    → find_task id r.tasks ≡ found
    → IsKept r
    → IsKept (wake_found found id answer r)
wake_found-IsKept id answer r none e h = h
wake_found-IsKept id answer r (some t) e h = record {
  submitted =
      bump-submitted _ _ ∙ h.submitted ∙ sym (length-set_task id (wake t answer).task r.tasks);
  ends = λ k. omega (
    arith,
    bump-counts k (wake t answer).counted r.counters,
    wake-counts k t answer,
    set_task-counts (ends_with k) id (wake t answer).task r.tasks e,
    h.ends k,
  );
}

cancel_handle-IsKept :
    (id : String) (reached : Bool) (r : Runner) (found : Option Task)
    → find_task id r.tasks ≡ found
    → IsKept r
    → IsKept (cancel_handle found id reached r).1
cancel_handle-IsKept id reached r none e h = h
cancel_handle-IsKept id reached r (some t) e h = elim (Bool-cases (is_cancellable t)) [
  | inr e' ↦ rw e' h
  | inl e' ↦ rw e' (record {
    submitted = h.submitted ∙ sym (length-set_task id (request t) r.tasks);
    ends = λ k. omega (arith, set_task-counts (ends_with k) id (request t) r.tasks e, h.ends k);
  })
]

module _ (f : Task → Task)
    (keeps : (k : Counter) (t : Task) → ends_with k (f t) ≡ ends_with k t) where
  map-IsKept : (r : Runner) → IsKept r → IsKept (record r { tasks = map f r.tasks })
  map-IsKept r h = record {
    submitted = h.submitted ∙ sym (length-map f r.tasks);
    ends = λ k. h.ends k ∙ sym (number_of-map (ends_with k) f (keeps k) r.tasks);
  }

value-submitted :
    (k : Counter) (c : Counters) (n : ℕ) → value k (record c { submitted = n }) ≡ value k c
value-submitted Counter.completed c n = refl
value-submitted _ c n = refl

submit-ends :
    (k : Counter) (id : String) (r : Runner)
    → IsKept r
    → value k (record r.counters { submitted = suc r.counters.submitted })
      ≡ number_of (ends_with k) (r.tasks ++ new_task id ∷ [])
submit-ends k id r h = omega (
  arith,
  h.ends k,
  value-submitted k r.counters (suc r.counters.submitted),
  number_of-append (ends_with k) r.tasks (new_task id ∷ []),
)

step-IsKept : (e : Event) (r : Runner) → IsKept r → IsKept (step e r)
unfolding step submit_task wake_task cancel_task shutdown_begin shutdown_end
step-IsKept (submit id) r h = record {
  submitted = omega (arith, h.submitted, length-append r.tasks (new_task id ∷ []));
  ends = λ k. submit-ends k id r h;
}
step-IsKept (save_pending id) r h = record { submitted = h.submitted; ends = h.ends }
step-IsKept (expire id) r h = record { submitted = h.submitted; ends = h.ends }
step-IsKept (wake_up id answer) r h = wake_found-IsKept id answer r (find_task id r.tasks) refl h
step-IsKept (cancel id reached) r h =
    cancel_handle-IsKept id reached r (find_task id r.tasks) refl h
step-IsKept begin_shutdown r h = map-IsKept _ (λ k t. ground arith) r h
step-IsKept (end_shutdown ids) r h =
    elim (all (λ t. not (is_gathered ids t) || done t) r.tasks)
      as (λ b. IsKept (
        if b
        then record r { tasks = map (λ (t : Task). record t { registered = false }) r.tasks }
        else r)) [ true ↦ map-IsKept _ (λ k t. refl) r h | false ↦ h ]

-- However the calls and the wake-ups follow one another, `submitted` is the number of tasks that were
-- submitted, and each other counter the number of tasks that ended by adding to it.
pub run-IsKept : (es : List Event) (r : Runner) → IsKept r → IsKept (run es r)
unfolding run
run-IsKept [] r h = h
run-IsKept (e ∷ es) r h = run-IsKept es (step e r) (step-IsKept e r h)
