-- ===== src/Runner/Examples.antt =====
-- Short histories of the task runner (apps/api/infrastructure/background_tasks.py).
use kra_analysis.Prelude.{◌≤◌, none, some, List, [], ◌∷◌, true, false, ◌≡◌, refl}
use kra_analysis.Prelude.Value.{str}
use kra_analysis.Prelude.Result.{ok, err}
use kra_analysis.Runner.Task.{
  counted, ended, started, slept, saved, returned, raised, resumed, advance, throw, wake, Counter,
}
use kra_analysis.Runner.Events.{
  Event, Runner, submit, wake_up, cancel, find_task, set_task, submit_task, wake_task, cancel_task,
  step, run, idle_runner, get_task_stats, new_task,
}
use kra_analysis.Runner.Stopping.{IsStopped}
use kra_analysis.Runner.Cancellation.{cancel_task-IsStopped}
use kra_analysis.Runner.Books.{IsKept}
use kra_analysis.Runner.Health.{IsBalanced, no_end, run-IsBalanced}
use kra_analysis.Runner.Ending.{Stimulus, answered, requested, wake_ups, wake_ups-le}
use kra_analysis.Runner.Retries.{
  drive, three, once, uncounted, verdict, first_success, drive-first_success,
}
use kra_analysis.Prelude.Dict.{put}

-- A task that is cancelled before its first step, and one that completes.
abbrev history : List Event
history =
    submit "a"
    ∷ cancel "a" true
    ∷ wake_up "a" started
    ∷ submit "b"
    ∷ wake_up "b" started
    ∷ wake_up "b" (saved true)
    ∷ wake_up "b" (returned (str "done"))
    ∷ wake_up "b" (saved true)
    ∷ []

idle_runner-IsKept : IsKept idle_runner
idle_runner-IsKept = record { submitted = refl; ends = λ k. no_end k }

run-IsBalanced_example :
    IsBalanced (get_task_stats (run history idle_runner)) (run history idle_runner)
run-IsBalanced_example = run-IsBalanced history

-- Its function catches the cancellation, goes on and fails, and is tried again.
abbrev interrupted : List Stimulus
interrupted =
    answered started
    ∷ answered (saved true)
    ∷ requested
    ∷ answered resumed
    ∷ answered (raised "boom")
    ∷ answered slept
    ∷ []

wake_ups-le_example : wake_ups interrupted ≤ 13
unfolding wake advance throw
wake_ups-le_example = wake_ups-le "a" interrupted (refl, (refl, (refl, (refl, (refl, tt)))))

drive-first_success_example :
    drive 12 (three (err "e0") (ok (str "v")) (err "e2")) (new_task "a") none (uncounted 1) ≡ (
      record (new_task "a") { phase = ended (counted Counter.completed); registered = false },
      some (verdict (first_success (err "e0") (ok (str "v")) (err "e2"))).1,
      once 1 Counter.completed,
    )
drive-first_success_example = drive-first_success "a" 1 (err "e0") (ok (str "v")) (err "e2")

-- A task that sleeps after its first attempt failed.
abbrev sleeper : Runner
sleeper =
    run
      (submit "a"
        ∷ wake_up "a" started
        ∷ wake_up "a" (saved true)
        ∷ wake_up "a" (raised "boom")
        ∷ [])
      idle_runner

cancel_task-IsStopped_example :
    IsStopped "a"
      (run (wake_up "a" slept ∷ wake_up "a" started ∷ []) (cancel_task "a" true sleeper).1).tasks
unfolding run step submit_task wake_task cancel_task find_task set_task wake advance put
cancel_task-IsStopped_example =
    cancel_task-IsStopped "a" true sleeper (wake_up "a" slept ∷ wake_up "a" started ∷ []) refl
      (refl, (refl, tt))

-- The cancelled task stays in the registry and in no counter.
history_degrades :
    (let s = get_task_stats (run history idle_runner) in
      (s.status ≡ "degraded")
      × (s.counters.submitted ≡ 2)
      × (s.counters.completed ≡ 1)
      × (s.counters.cancelled ≡ 0))
unfolding run step submit_task wake_task cancel_task find_task set_task wake advance throw put
    get_task_stats
history_degrades = (refl, refl, refl, refl)
