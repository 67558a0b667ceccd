-- ===== src/Runner/Ending.antt =====
-- `_run_with_retries` and `_wrapper` of apps/api/infrastructure/background_tasks.py: every task ends.
use kra_analysis.Prelude.{
  ℕ, suc, ◌+◌, ◌-◌, ◌*◌, ◌<◌, ◌≤◌, String, List, [], ◌∷◌, Bool, true, false, not, ◌≡◌, refl,
  if◌then◌else◌, ltb, ltb→lt, Bool-cases, inl, inr, arith, subst, ap,
}
use kra_analysis.Runner.Task.{
  Phase, scheduled, saving_processing, running, saving_completed, sleeping, saving_failed,
  saving_cancelled, ended, Task, Answer, started, slept, saved, returned, raised, stopped, resumed,
  advance, throw, wake, is_ended, max_retries,
}
use kra_analysis.Runner.Events.{new_task, request}
use kra_analysis.Runner.Tally.{bit}

-- The awaited call may give the answer.
abbrev pub is_awaited_at : Phase → Answer → Bool
is_awaited_at scheduled started = true
is_awaited_at (saving_processing n) (saved ok) = true
is_awaited_at (running n) (returned v) = true
is_awaited_at (running n) (raised e) = true
is_awaited_at (running n) stopped = true
is_awaited_at (saving_completed v) (saved ok) = true
is_awaited_at (sleeping n) slept = true
is_awaited_at (saving_failed e) (saved ok) = true
is_awaited_at saving_cancelled (saved ok) = true
is_awaited_at _ _ = false

-- A task whose cancellation was requested is woken by the exception: whatever else it awaits, and the
-- function may then catch it and go on.
abbrev pub is_thrown_at : Phase → Answer → Bool
is_thrown_at (running n) resumed = true
is_thrown_at (running n) answer = is_awaited_at (running n) answer
is_thrown_at phase answer = not (is_ended phase)

abbrev pub is_awaited : Task → Answer → Bool
is_awaited t answer =
    if t.cancelling then is_thrown_at t.phase answer else is_awaited_at t.phase answer

-- The attempts are numbered below three; a further one follows a sleep.
abbrev pub in_range : Phase → Bool
in_range (saving_processing n) = ltb n max_retries
in_range (running n) = ltb n max_retries
in_range (sleeping n) = ltb (n + 1) max_retries
in_range _ = true

-- A bound on the wake-ups that are left.
abbrev pub weight : Phase → ℕ
weight scheduled = 12
weight (saving_processing n) = 3 * (3 - n) + 2
weight (running n) = 3 * (3 - n) + 1
weight (saving_completed v) = 2
weight (sleeping n) = 3 * (3 - n)
weight (saving_failed e) = 2
weight saving_cancelled = 1
weight (ended e) = 0

record IsLighter (phase : Phase) (t : Task) : Type 0 where
  lighter : weight t.phase < weight phase
  ranged : in_range t.phase ≡ true

advance-IsLighter :
    (t : Task) (phase : Phase) (answer : Answer)
    → in_range phase ≡ true
    → is_awaited_at phase answer ≡ true
    → IsLighter phase (advance t phase answer).task
unfolding advance
advance-IsLighter t scheduled started h a = record { lighter = omega arith; ranged = refl }
advance-IsLighter t (saving_processing n) (saved ok) h a = record {
  lighter = omega arith;
  ranged = h;
}
advance-IsLighter t (running n) (returned v) h a = record {
  lighter = omega (arith, ltb→lt n 3 h);
  ranged = refl;
}
advance-IsLighter t (running n) (raised e) h a = elim (Bool-cases (ltb (n + 1) max_retries)) [
  | inl more ↦ rw more (record { lighter = omega arith; ranged = more })
  | inr last ↦ rw last (record { lighter = omega (arith, ltb→lt n 3 h); ranged = refl })
]
advance-IsLighter t (running n) stopped h a = record {
  lighter = omega (arith, ltb→lt n 3 h);
  ranged = refl;
}
advance-IsLighter t (saving_completed v) (saved ok) h a = record {
  lighter = omega arith;
  ranged = refl;
}
advance-IsLighter t (sleeping n) slept h a = record {
  lighter = omega (arith, ltb→lt (n + 1) 3 h);
  ranged = h;
}
advance-IsLighter t (saving_failed e) (saved ok) h a = record {
  lighter = omega arith;
  ranged = refl;
}
advance-IsLighter t saving_cancelled (saved ok) h a = record {
  lighter = omega arith;
  ranged = refl;
}
advance-IsLighter t phase answer h a = absurd (cc)

-- A request that is not answered yet counts, too.
abbrev load : Task → ℕ
load t = weight t.phase + bit t.cancelling

record IsRelieved (before : ℕ) (t : Task) : Type 0 where
  relieved : load t < before
  ranged : in_range t.phase ≡ true

advance-cancelling :
    (t : Task) (phase : Phase) (answer : Answer)
    → (advance t phase answer).task.cancelling ≡ t.cancelling
unfolding advance
advance-cancelling t scheduled started = refl
advance-cancelling t (saving_processing n) (saved ok) = refl
advance-cancelling t (running n) (returned v) = refl
advance-cancelling t (sleeping n) slept = refl
advance-cancelling t (running n) (raised e) = ground arith
advance-cancelling t (running n) stopped = refl
advance-cancelling t (saving_completed v) (saved ok) = refl
advance-cancelling t (saving_failed e) (saved ok) = refl
advance-cancelling t saving_cancelled (saved ok) = refl
advance-cancelling t phase answer = refl

advance-IsRelieved :
    (t : Task) (phase : Phase) (answer : Answer)
    → in_range phase ≡ true
    → is_awaited_at phase answer ≡ true
    → IsRelieved (weight phase + bit t.cancelling) (advance t phase answer).task
advance-IsRelieved t phase answer h a =
    let l = advance-IsLighter t phase answer h a in
    record {
      relieved = omega (arith, l.lighter, ap (λ b. bit b) (advance-cancelling t phase answer));
      ranged = l.ranged;
    }

throw-IsRelieved :
    (t : Task) (phase : Phase) (answer : Answer)
    → t.cancelling ≡ false
    → in_range phase ≡ true
    → is_thrown_at phase answer ≡ true
    → IsRelieved (weight phase + 1) (throw t phase answer).task
unfolding throw advance
throw-IsRelieved t (ended e) answer c h a = absurd (cc)
throw-IsRelieved t (running n) resumed c h a = record { relieved = rw c (omega arith); ranged = h }
throw-IsRelieved t (running n) answer c h a =
    let l = advance-IsRelieved t (running n) answer h a in
    record { relieved = omega (arith, l.relieved, ap (λ b. bit b) c); ranged = l.ranged }
throw-IsRelieved t _ answer c h a = record { relieved = rw c (omega arith); ranged = refl }

wake-IsRelieved :
    (t : Task) (answer : Answer)
    → in_range t.phase ≡ true
    → is_awaited t answer ≡ true
    → IsRelieved (load t) (wake t answer).task
unfolding wake
wake-IsRelieved t answer h a =
    (elim t.cancelling
        as (λ b.
          (if b then is_thrown_at t.phase answer else is_awaited_at t.phase answer) ≡ true
          → t.cancelling ≡ b
          → IsRelieved (weight t.phase + bit b)
              (if b
                then throw (record t { cancelling = false }) t.phase answer
                else advance t t.phase answer).task) [
                  | true ↦ λ a' e.
                      throw-IsRelieved (record t { cancelling = false }) t.phase answer refl h a'
                  | false ↦ λ a' e.
                      subst
                        (λ b. IsRelieved (weight t.phase + bit b) (advance t t.phase answer).task) e
                        (advance-IsRelieved t t.phase answer h a')
                ])
      a refl

-- What happens to one task: its awaited call is answered, or its cancellation is requested.
pub data Stimulus : Type 0 where
  answered : Answer → Stimulus
  requested : Stimulus

unfoldable pub stimulate : List Stimulus → Task → Task
unfolding wake
stimulate [] t = t
stimulate (answered a ∷ ss) t = stimulate ss (wake t a).task
stimulate (requested ∷ ss) t = stimulate ss (request t)

-- Each answer is one that the task awaits at its time.
abbrev pub Awaited : List Stimulus → Task → Type 0
Awaited [] t = Unit
Awaited (answered a ∷ ss) t = (is_awaited t a ≡ true) × Awaited ss (wake t a).task
Awaited (requested ∷ ss) t = Awaited ss (request t)

abbrev pub wake_ups : List Stimulus → ℕ
wake_ups [] = 0
wake_ups (answered a ∷ ss) = suc (wake_ups ss)
wake_ups (requested ∷ ss) = wake_ups ss

abbrev pub requests : List Stimulus → ℕ
requests [] = 0
requests (answered a ∷ ss) = requests ss
requests (requested ∷ ss) = suc (requests ss)

wake_ups-load :
    (ss : List Stimulus) (t : Task)
    → in_range t.phase ≡ true
    → Awaited ss t
    → wake_ups ss + load (stimulate ss t) ≤ load t + requests ss
unfolding stimulate
wake_ups-load [] t h a = omega arith
wake_ups-load (answered x ∷ ss) t h a =
    let w = wake-IsRelieved t x h a.0 in
    omega (arith, w.relieved, wake_ups-load ss (wake t x).task w.ranged a.1)
wake_ups-load (requested ∷ ss) t h a = omega (arith, wake_ups-load ss (request t) h a)

-- A new task is woken at most twelve times and once more for each request to cancel it, however the
-- calls that it awaits are answered, whenever the cancellation is requested, and whether its function
-- lets the cancellation out, replaces it, returns all the same or goes on.
pub wake_ups-le :
    (id : String) (ss : List Stimulus) → Awaited ss (new_task id) → wake_ups ss ≤ 12 + requests ss
wake_ups-le id ss a = omega (arith, wake_ups-load ss (new_task id) refl a)
