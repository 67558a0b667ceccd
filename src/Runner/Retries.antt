-- ===== src/Runner/Retries.antt =====
-- `_run_with_retries` of apps/api/infrastructure/background_tasks.py: a task that nobody cancels.
use kra_analysis.Prelude.{ℕ, zero, suc, String, Option, none, some, true, false, ◌≡◌, refl}
use kra_analysis.Prelude.Value.{Value}
use kra_analysis.Prelude.Result.{Result, ok, err}
use kra_analysis.Runner.Task.{
  TaskState, Stored, Counter, Phase, counted, scheduled, running, sleeping, ended, Task, Answer,
  started, slept, saved, returned, raised, advance, wake, of_state,
}
use kra_analysis.Runner.Events.{Counters, bump, new_task}

-- The function's outcome at each attempt.
abbrev pub Attempts : Type 0
Attempts = ℕ → Result String Value

abbrev pub outcome : Result String Value → Answer
outcome (ok v) = returned v
outcome (err e) = raised e

-- What the awaited call gives where the task stands, when Redis is reached.
abbrev pub answer_at : Attempts → Phase → Answer
answer_at f scheduled = started
answer_at f (running n) = outcome (f n)
answer_at f (sleeping n) = slept
answer_at f _ = saved true

abbrev pub last_of : Option Stored → Option Stored → Option Stored
last_of none before = before
last_of (some s) before = some s

-- A number of wake-ups: the last state that was saved, and the counters.
unfoldable pub drive :
    ℕ → Attempts → Task → Option Stored → Counters → Task × Option Stored × Counters
unfolding wake
drive zero f t stored counters = (t, stored, counters)
drive (suc n) f t stored counters =
    let m = wake t (answer_at f t.phase) in
    drive n f m.task (last_of m.stored stored) (bump m.counted counters)

abbrev pub three : Result String Value → Result String Value → Result String Value → Attempts
three r0 r1 r2 zero = r0
three r0 r1 r2 (suc zero) = r1
three r0 r1 r2 (suc (suc n)) = r2

-- The first success, or the last error.
abbrev pub first_success :
    Result String Value → Result String Value → Result String Value → Result String Value
first_success (ok v) r1 r2 = ok v
first_success (err e) (ok v) r2 = ok v
first_success (err e) (err e') r2 = r2

abbrev pub verdict : Result String Value → Counter × Stored
verdict (ok v) = (Counter.completed, record (of_state TaskState.completed) { result = some v })
verdict (err e) = (Counter.failed, record (of_state TaskState.failed) { error = some e })

-- The counters after one task that ended so.
abbrev pub once : ℕ → Counter → Counters
once submitted Counter.completed = record {
  submitted = submitted;
  completed = 1;
  failed = 0;
  cancelled = 0;
}
once submitted Counter.failed = record {
  submitted = submitted;
  completed = 0;
  failed = 1;
  cancelled = 0;
}
once submitted Counter.cancelled = record {
  submitted = submitted;
  completed = 0;
  failed = 0;
  cancelled = 1;
}

abbrev pub uncounted : ℕ → Counters
uncounted submitted = record { submitted = submitted; completed = 0; failed = 0; cancelled = 0 }

-- A task that nobody cancels, with Redis reached, ends within twelve wake-ups as the first of three
-- attempts that succeeds, or as the third if none does: out of the registry, with its result or its
-- error saved last, and having added one to the counter of completed or of failed tasks and nothing to
-- the others.
pub drive-first_success :
    (id : String) (submitted : ℕ) (r0 r1 r2 : Result String Value)
    → (let v = verdict (first_success r0 r1 r2) in
        drive 12 (three r0 r1 r2) (new_task id) none (uncounted submitted) ≡ (
          record (new_task id) { phase = ended (counted v.0); registered = false },
          some v.1,
          once submitted v.0,
        ))
unfolding drive wake advance
drive-first_success id submitted (ok v) r1 r2 = refl
drive-first_success id submitted (err e) (ok v) r2 = refl
drive-first_success id submitted (err e) (err e') (ok v) = refl
drive-first_success id submitted (err e) (err e') (err e'') = refl
