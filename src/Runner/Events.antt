-- ===== src/Runner/Events.antt =====
-- apps/api/infrastructure/background_tasks.py: the functions of the module, and every way in which
-- calls of them and wake-ups of tasks follow one another.
use kra_analysis.Prelude.{
  ℕ, suc, ◌-◌, String, Option, none, some, List, [], ◌∷◌, ◌++◌, map, Bool, true, false, not, ◌&&◌,
  ◌||◌, if◌then◌else◌, str_eq, length, keep, all, any, ◌==◌,
}
use kra_analysis.Prelude.Dict.{Dict, get, put, pop}
use kra_analysis.Runner.Task.{
  TaskState, Stored, Counter, Phase, Task, Answer, Move, done, of_state, when_saved, wake,
}

pub record Counters : Type 0 where
  pub submitted : ℕ
  pub completed : ℕ
  pub failed : ℕ
  pub cancelled : ℕ

-- The tasks in the order in which they were submitted, the counters, and what Redis holds.
pub record Runner : Type 0 where
  pub tasks : List Task
  pub counters : Counters
  pub store : Dict Stored

unfoldable pub find_task : String → List Task → Option Task
find_task id [] = none
find_task id (t ∷ ts) = if str_eq t.id id then some t else find_task id ts

unfoldable pub set_task : String → Task → List Task → List Task
set_task id new [] = []
set_task id new (t ∷ ts) =
    let rest = set_task id new ts in if str_eq t.id id then new ∷ ts else t ∷ rest

-- `_save_state`: `none` when Redis was not reached.
abbrev pub save_state : String → Option Stored → Dict Stored → Dict Stored
save_state id none store = store
save_state id (some s) store = put store id s

-- A key of Redis may have expired: then the store that is given does not have it.
abbrev pub load_state : String → Dict Stored → Option Stored
load_state id store = get store id

abbrev pub bump : Option Counter → Counters → Counters
bump none c = c
bump (some Counter.completed) c = record c { completed = suc c.completed }
bump (some Counter.failed) c = record c { failed = suc c.failed }
bump (some Counter.cancelled) c = record c { cancelled = suc c.cancelled }

abbrev pub new_task : String → Task
new_task id = record { id = id; phase = Phase.scheduled; cancelling = false; registered = true }

-- The new task's identifier is an argument.
unfoldable pub submit_task : String → Runner → Runner
submit_task id r = record r {
  tasks = r.tasks ++ new_task id ∷ [];
  counters = record r.counters { submitted = suc r.counters.submitted };
}

abbrev pub apply_move : String → Move → Runner → Runner
apply_move id m r = record r {
  tasks = set_task id m.task r.tasks;
  counters = bump m.counted r.counters;
  store = save_state id m.stored r.store;
}

abbrev pub wake_found : Option Task → String → Answer → Runner → Runner
wake_found none id answer r = r
wake_found (some t) id answer r = apply_move id (wake t answer) r

unfoldable pub wake_task : String → Answer → Runner → Runner
unfolding find_task set_task wake put
wake_task id answer r = wake_found (find_task id r.tasks) id answer r

abbrev pub is_cancellable : Task → Bool
is_cancellable t = t.registered && not (done t)

abbrev pub request : Task → Task
request t = record t { cancelling = true }

abbrev pub cancel_handle : Option Task → String → Bool → Runner → Bool × Runner
cancel_handle none id reached r = (false, r)
cancel_handle (some t) id reached r =
    if is_cancellable t
    then (
      true,
      record r {
        tasks = set_task id (request t) r.tasks;
        store = save_state id (when_saved reached (of_state TaskState.cancelled)) r.store;
      },
    )
    else (false, r)

-- Whether Redis is reached is an argument.
unfoldable pub cancel_task : String → Bool → Runner → Bool × Runner
unfolding find_task set_task put
cancel_task id reached r = cancel_handle (find_task id r.tasks) id reached r

-- The two halves of `shutdown_all`, before and after `gather`. The first gives the keys of the tasks
-- that are registered then, for which `gather` waits.
unfoldable pub shutdown_begin : Runner → List String × Runner
shutdown_begin r = (
  map (λ (t : Task). t.id) (keep (λ (t : Task). t.registered) r.tasks),
  record r { tasks = map (λ t. if is_cancellable t then request t else t) r.tasks },
)

abbrev pub is_gathered : List String → Task → Bool
is_gathered ids t = any (λ id. str_eq t.id id) ids

-- `clear` drops every task of the registry, also one that was submitted while `gather` waited.
unfoldable pub shutdown_end : List String → Runner → Runner
shutdown_end ids r =
    if all (λ t. not (is_gathered ids t) || done t) r.tasks
    then record r { tasks = map (λ (t : Task). record t { registered = false }) r.tasks }
    else r

pub record Stats : Type 0 where
  pub active_tasks : ℕ
  pub alive_tasks : ℕ
  pub stuck_tasks : ℕ
  pub counters : Counters
  pub status : String

unfoldable pub get_task_stats : Runner → Stats
get_task_stats r =
    let registered = keep (λ (t : Task). t.registered) r.tasks in
    let alive = keep (λ t. not (done t)) registered in
    let stuck = length registered - length alive in
    record {
      active_tasks = length registered;
      alive_tasks = length alive;
      stuck_tasks = stuck;
      counters = r.counters;
      status = if stuck == 0 then "healthy" else "degraded";
    }

pub record TaskStatus : Type 0 where
  pub stored : Stored
  pub alive : Bool

abbrev is_alive_handle : Option Task → Bool
is_alive_handle none = false
is_alive_handle (some t) = not (done t)

abbrev status_of : Option Stored → Option Task → Option TaskStatus
status_of (some s) handle = some (record { stored = s; alive = is_alive_handle handle })
status_of none (some t) = some (record {
  stored = of_state (if done t then TaskState.completed else TaskState.processing);
  alive = not (done t);
})
status_of none none = none

-- Of the handles only those in the registry are looked at.
unfoldable pub get_task_status : String → Runner → Option TaskStatus
unfolding find_task get
get_task_status id r =
    status_of (load_state id r.store) (find_task id (keep (λ (t : Task). t.registered) r.tasks))

pub data Event : Type 0 where
  submit : String → Event
  save_pending : String → Event
  wake_up : String → Answer → Event
  cancel : String → Bool → Event
  begin_shutdown : Event
  end_shutdown : List String → Event
  expire : String → Event

unfoldable pub step : Event → Runner → Runner
unfolding submit_task wake_task cancel_task shutdown_begin shutdown_end put pop
step (submit id) r = submit_task id r
step (save_pending id) r = record r {
  store = save_state id (some (of_state TaskState.pending)) r.store;
}
step (wake_up id answer) r = wake_task id answer r
step (cancel id reached) r = (cancel_task id reached r).1
step begin_shutdown r = (shutdown_begin r).1
step (end_shutdown ids) r = shutdown_end ids r
step (expire id) r = record r { store = pop r.store id }

unfoldable pub run : List Event → Runner → Runner
unfolding step
run [] r = r
run (e ∷ es) r = run es (step e r)

abbrev pub idle_runner : Runner
idle_runner = record {
  tasks = [];
  counters = record { submitted = 0; completed = 0; failed = 0; cancelled = 0 };
  store = [];
}
