-- ===== src/Runner/Task.antt =====
-- apps/api/infrastructure/background_tasks.py: one background task between two of its awaits.
use kra_analysis.Prelude.{ℕ, ◌+◌, String, Option, none, some, Bool, true, false, if◌then◌else◌, ltb}
use kra_analysis.Prelude.Value.{Value}

pub data TaskState : Type 0 where
  pending processing completed failed cancelled : TaskState

-- The payload that `_save_state` writes, less the key and the time.
pub record Stored : Type 0 where
  pub state : TaskState
  pub result : Option Value
  pub error : Option String

-- A counter of `_task_counters` that an ended task adds to.
pub data Counter : Type 0 where
  completed failed cancelled : Counter

-- How a task ended: with one of the counters, by an exception that `_run_with_retries` let through,
-- or before it ran at all. No code reads it.
pub data End : Type 0 where
  counted : Counter → End
  dropped unstarted : End

-- Where the task is suspended. An attempt is numbered from 0.
pub data Phase : Type 0 where
  scheduled : Phase
  saving_processing running : ℕ → Phase
  saving_completed : Value → Phase
  sleeping : ℕ → Phase
  saving_failed : String → Phase
  saving_cancelled : Phase
  ended : End → Phase

-- `registered`: it is in `_running_tasks`. `cancelling`: `cancel` was called and `CancelledError` is
-- thrown when it is next woken.
pub record Task : Type 0 where
  pub id : String
  pub phase : Phase
  pub cancelling : Bool
  pub registered : Bool

-- What the awaited call gives: a save, which reached Redis or not; the function, which returns a
-- value, raises an exception or lets a `CancelledError` out; the sleep. A function that caught a
-- `CancelledError` may go on to another await of its own (`resumed`).
pub data Answer : Type 0 where
  started slept stopped resumed : Answer
  saved : Bool → Answer
  returned : Value → Answer
  raised : String → Answer

pub record Move : Type 0 where
  pub task : Task
  pub counted : Option Counter
  pub stored : Option Stored

abbrev pub max_retries : ℕ
max_retries = 3

abbrev pub is_ended : Phase → Bool
is_ended (ended e) = true
is_ended _ = false

-- `task.done()`
abbrev pub done : Task → Bool
done t = is_ended t.phase

abbrev pub go_on : Task → Phase → Move
go_on t phase = record { task = record t { phase = phase }; counted = none; stored = none }

abbrev pub when_saved : Bool → Stored → Option Stored
when_saved true s = some s
when_saved false s = none

abbrev pub of_state : TaskState → Stored
of_state state = record { state = state; result = none; error = none }

-- `_run_with_retries` returned or raised: `_wrapper` takes the task out of the registry.
abbrev pub leave : Task → End → Move
leave t e = record {
  task = record t { phase = ended e; registered = false };
  counted = none;
  stored = none;
}

abbrev pub count_end : Task → Counter → Bool → Stored → Move
count_end t c ok s = record (leave t (counted c)) { counted = some c; stored = when_saved ok s }

-- The awaited call is answered.
unfoldable pub advance : Task → Phase → Answer → Move
advance t scheduled started = go_on t (saving_processing 0)
advance t (saving_processing attempt) (saved ok) = record (go_on t (running attempt)) {
  stored = when_saved ok (of_state TaskState.processing);
}
advance t (running attempt) (returned result) = go_on t (saving_completed result)
advance t (running attempt) (raised error) =
    if ltb (attempt + 1) max_retries
    then go_on t (sleeping attempt)
    else go_on t (saving_failed error)
advance t (running attempt) stopped = go_on t saving_cancelled
advance t (saving_completed result) (saved ok) =
    count_end t Counter.completed ok
      (record (of_state TaskState.completed) { result = some result })
advance t (sleeping attempt) slept = go_on t (saving_processing (attempt + 1))
advance t (saving_failed error) (saved ok) =
    count_end t Counter.failed ok (record (of_state TaskState.failed) { error = some error })
advance t saving_cancelled (saved ok) =
    count_end t Counter.cancelled ok (of_state TaskState.cancelled)
advance t phase answer = go_on t phase

-- A save that is cancelled may have reached Redis.
abbrev if_reached : Answer → Stored → Option Stored
if_reached (saved ok) s = when_saved ok s
if_reached _ s = none

-- `CancelledError` is thrown at the await. A coroutine that never ran has no `finally` to run; the
-- function may let it out, catch it or raise another exception; the sleep and the last save stand
-- outside the `try` whose handler counts.
unfoldable pub throw : Task → Phase → Answer → Move
unfolding advance
throw t scheduled answer = go_on t (ended unstarted)
throw t (saving_processing attempt) answer = record (go_on t saving_cancelled) {
  stored = if_reached answer (of_state TaskState.processing);
}
throw t (running attempt) answer = advance t (running attempt) answer
throw t (saving_completed result) answer = record (go_on t saving_cancelled) {
  stored = if_reached answer (record (of_state TaskState.completed) { result = some result });
}
throw t (sleeping attempt) answer = leave t dropped
throw t (saving_failed error) answer = record (leave t dropped) {
  stored = if_reached answer (record (of_state TaskState.failed) { error = some error });
}
throw t saving_cancelled answer = record (leave t dropped) {
  stored = if_reached answer (of_state TaskState.cancelled);
}
throw t (ended e) answer = go_on t (ended e)

unfoldable pub wake : Task → Answer → Move
unfolding advance throw
wake t answer =
    if t.cancelling
    then throw (record t { cancelling = false }) t.phase answer
    else advance t t.phase answer
