-- ===== src/Runner/Health.antt =====
-- `get_task_stats` of apps/api/infrastructure/background_tasks.py.
use kra_analysis.Prelude.{
  ◌+◌, List, [], ◌∷◌, Bool, true, false, not, ◌&&◌, ◌≡◌, refl, ap, if◌then◌else◌, ◌==◌, length,
  keep, All, arith,
}
use kra_analysis.Runner.Task.{
  Counter, Phase, counted, dropped, unstarted, ended, Task, done, is_ended,
}
use kra_analysis.Runner.Events.{Runner, Stats, Event, get_task_stats, run, idle_runner}
use kra_analysis.Runner.Tally.{bit, number_of, number_of-cons}
use kra_analysis.Runner.Books.{ends_with, value, IsKept, run-IsKept}
use kra_analysis.Runner.Registry.{Fits, fits_at, run-Fits}

abbrev is_lost_end : Phase → Bool
is_lost_end (ended dropped) = true
is_lost_end (ended unstarted) = true
is_lost_end _ = false

-- The task ended without adding to a counter.
abbrev pub is_lost : Task → Bool
is_lost t = is_lost_end t.phase

abbrev is_unstarted_end : Phase → Bool
is_unstarted_end (ended unstarted) = true
is_unstarted_end _ = false

-- The task is in the registry though it was cancelled before it ran.
abbrev pub is_stuck : Task → Bool
is_stuck t = t.registered && is_unstarted_end t.phase

abbrev pub is_alive : Task → Bool
is_alive t = not (done t)

-- The task has not ended, and is no longer in the registry.
abbrev pub is_forgotten : Task → Bool
is_forgotten t = not t.registered && not (done t)

abbrev is_registered : Task → Bool
is_registered t = t.registered

one_phase :
    (t : Task) (phase : Phase)
    → 1
      ≡ bit (not (done (record t { phase = phase })))
        + bit (ends_with Counter.completed (record t { phase = phase }))
        + bit (ends_with Counter.failed (record t { phase = phase }))
        + bit (ends_with Counter.cancelled (record t { phase = phase }))
        + bit (is_lost (record t { phase = phase }))
one_phase t (ended (counted Counter.completed)) = refl
one_phase t (ended (counted Counter.failed)) = refl
one_phase t (ended (counted Counter.cancelled)) = refl
one_phase t (ended dropped) = refl
one_phase t (ended unstarted) = refl
one_phase t _ = refl

-- Every task is alive, counted once, or lost.
sorted :
    (ts : List Task)
    → length ts
      ≡ number_of is_alive ts
        + number_of (ends_with Counter.completed) ts
        + number_of (ends_with Counter.failed) ts
        + number_of (ends_with Counter.cancelled) ts
        + number_of is_lost ts
sorted [] = refl
sorted (t ∷ ts) = omega (
  arith,
  one_phase t t.phase,
  sorted ts,
  number_of-cons is_alive t ts,
  number_of-cons (ends_with Counter.completed) t ts,
  number_of-cons (ends_with Counter.failed) t ts,
  number_of-cons (ends_with Counter.cancelled) t ts,
  number_of-cons is_lost t ts,
)

registered_phase :
    (registered : Bool) (phase : Phase)
    → fits_at registered phase ≡ true
    → bit registered
      ≡ bit (registered && not (is_ended phase)) + bit (registered && is_unstarted_end phase)
registered_phase true (ended unstarted) h = refl
registered_phase false phase h = refl
registered_phase true (ended _) h = absurd (cc)
registered_phase true _ h = refl

alive_phase :
    (registered : Bool) (phase : Phase)
    → bit (registered && not (is_ended phase)) + bit (not registered && not (is_ended phase))
      ≡ bit (not (is_ended phase))
alive_phase true phase = omega arith
alive_phase false phase = omega arith

abbrev is_live : Task → Bool
is_live t = t.registered && is_alive t

registered_tasks :
    (ts : List Task)
    → All Fits ts
    → number_of is_registered ts ≡ number_of is_live ts + number_of is_stuck ts
registered_tasks [] h = refl
registered_tasks (t ∷ ts) h = omega (
  arith,
  registered_phase t.registered t.phase h.0,
  registered_tasks ts h.1,
  number_of-cons is_registered t ts,
  number_of-cons is_live t ts,
  number_of-cons is_stuck t ts,
)

-- The live tasks are those of the registry and the forgotten ones.
alive_tasks :
    (ts : List Task) → number_of is_live ts + number_of is_forgotten ts ≡ number_of is_alive ts
alive_tasks [] = refl
alive_tasks (t ∷ ts) = omega (
  arith,
  alive_phase t.registered t.phase,
  alive_tasks ts,
  number_of-cons is_live t ts,
  number_of-cons is_forgotten t ts,
  number_of-cons is_alive t ts,
)

kept_alive :
    (registered : Bool) (t : Task) (ts : List Task)
    → number_of is_alive (if registered then t ∷ ts else ts)
      ≡ bit (registered && is_alive t) + number_of is_alive ts
kept_alive true t ts = number_of-cons is_alive t ts
kept_alive false t ts = omega arith

-- The code looks for live tasks in the registry.
live_tasks : (ts : List Task) → number_of is_alive (keep is_registered ts) ≡ number_of is_live ts
live_tasks [] = refl
live_tasks (t ∷ ts) = omega (
  arith,
  live_tasks ts,
  kept_alive t.registered t (keep is_registered ts),
  number_of-cons is_live t ts,
)

pub no_end : (k : Counter) → value k idle_runner.counters ≡ 0
no_end Counter.completed = refl
no_end _ = refl

-- What the statistics say of a runner whose tasks are those of `r`.
pub record IsBalanced (s : Stats) (r : Runner) : Type 0 where
  pub balance :
      s.counters.submitted
      ≡ s.alive_tasks
        + s.counters.completed
        + s.counters.failed
        + s.counters.cancelled
        + number_of is_lost r.tasks
        + number_of is_forgotten r.tasks
  pub stuck : s.stuck_tasks ≡ number_of is_stuck r.tasks
  pub active : s.active_tasks ≡ s.alive_tasks + s.stuck_tasks
  pub healthy : s.status ≡ (if number_of is_stuck r.tasks == 0 then "healthy" else "degraded")

stats-IsBalanced : (r : Runner) → IsKept r → All Fits r.tasks → IsBalanced (get_task_stats r) r
unfolding get_task_stats
stats-IsBalanced r k f =
    let stuck : (get_task_stats r).stuck_tasks ≡ number_of is_stuck r.tasks =
      omega (arith, registered_tasks r.tasks f, live_tasks r.tasks) in
    record {
      balance = omega (
        arith,
        k.submitted,
        sorted r.tasks,
        k.ends Counter.completed,
        k.ends Counter.failed,
        k.ends Counter.cancelled,
        alive_tasks r.tasks,
        live_tasks r.tasks,
      );
      stuck = stuck;
      active = omega (arith, registered_tasks r.tasks f, live_tasks r.tasks);
      healthy = ap (λ n. if n == 0 then "healthy" else "degraded") stuck;
    }

-- However calls and wake-ups follow one another from the start, `submitted` is the sum of the live
-- tasks of the registry, the three other counters, the tasks that were cancelled before their first
-- step, in a backoff sleep or in their last save, which no counter has, and the live tasks that a
-- shutdown has cleared from the registry. The stuck
-- tasks are those of the registry that were cancelled before their first step, and one of them makes
-- the status "degraded".
pub run-IsBalanced :
    (es : List Event) → IsBalanced (get_task_stats (run es idle_runner)) (run es idle_runner)
run-IsBalanced es =
    stats-IsBalanced (run es idle_runner)
      (run-IsKept es idle_runner (record { submitted = refl; ends = λ k. no_end k }))
      (run-Fits es idle_runner tt)
