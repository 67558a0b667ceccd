-- ===== src/Runner/Stopping.antt =====
-- `cancel_task` of apps/api/infrastructure/background_tasks.py: what becomes of a cancelled task.
use kra_analysis.Prelude.{
  ℕ, eq_iff, String, some, List, [], ◌∷◌, Bool, true, false, ◌≡◌, refl, sym, ap, ◌∙◌, subst,
  if◌then◌else◌, str_eq, Bool-cases, inl, inr, arith,
}
use kra_analysis.Runner.Task.{
  Counter, Phase, counted, scheduled, saving_processing, running, saving_completed, sleeping,
  saving_failed, saving_cancelled, ended, Task, Answer, started, slept, saved, returned, raised,
  stopped, advance, throw, wake, is_ended,
}
use kra_analysis.Runner.Events.{find_task, set_task}

-- The task is to be cancelled, is in its function, is being cancelled, or ended without completing or
-- failing.
abbrev pub stops : Bool → Phase → Bool
stops cancelling (ended (counted Counter.completed)) = false
stops cancelling (ended (counted Counter.failed)) = false
stops cancelling (ended _) = true
stops cancelling saving_cancelled = true
stops cancelling (running n) = true
stops cancelling _ = cancelling

abbrev pub is_stopping : Task → Bool
is_stopping t = stops t.cancelling t.phase

-- The function returned, or raised another exception than `CancelledError`.
abbrev pub ends_call : Answer → Bool
ends_call (returned v) = true
ends_call (raised e) = true
ends_call _ = false

running-stopping :
    (t : Task) (n : ℕ) (answer : Answer)
    → ends_call answer ≡ false
    → is_stopping (advance t (running n) answer).task ≡ true
unfolding advance
running-stopping t n (returned v) c = absurd (cc)
running-stopping t n (raised e) c = absurd (cc)
running-stopping t n stopped c = refl
running-stopping t n _ c = refl

throw-stopping :
    (t : Task) (phase : Phase) (answer : Answer)
    → ends_call answer ≡ false
    → stops true phase ≡ true
    → is_stopping (throw t phase answer).task ≡ true
unfolding throw
throw-stopping t (ended (counted Counter.completed)) answer c h = absurd (cc)
throw-stopping t (ended (counted Counter.failed)) answer c h = absurd (cc)
throw-stopping t (ended _) answer c h = refl
throw-stopping t (running n) answer c h = running-stopping t n answer c
throw-stopping t _ answer c h = refl

after_save :
    (t : Task) (answer : Answer) → is_stopping (advance t saving_cancelled answer).task ≡ true
unfolding advance
after_save t (saved ok) = refl
after_save t _ = refl

advance-stopping :
    (t : Task) (phase : Phase) (answer : Answer)
    → ends_call answer ≡ false
    → stops false phase ≡ true
    → is_stopping (advance t phase answer).task ≡ true
unfolding advance
advance-stopping t (ended (counted Counter.completed)) a c h = absurd (cc)
advance-stopping t (ended (counted Counter.failed)) a c h = absurd (cc)
advance-stopping t (ended _) a c h = refl
advance-stopping t saving_cancelled a c h = after_save t a
advance-stopping t (running n) a c h = running-stopping t n a c
advance-stopping t _ a c h = absurd (cc)

pub wake-stopping :
    (t : Task) (answer : Answer)
    → ends_call answer ≡ false
    → is_stopping t ≡ true
    → is_stopping (wake t answer).task ≡ true
unfolding wake
wake-stopping t answer c h =
    (elim t.cancelling
        as (λ b.
          stops b t.phase ≡ true
          → is_stopping
              (if b
                then throw (record t { cancelling = false }) t.phase answer
                else advance t t.phase answer).task
            ≡ true) [
              | true ↦ λ h'. throw-stopping (record t { cancelling = false }) t.phase answer c h'
              | false ↦ λ h'. advance-stopping t t.phase answer c h'
            ])
      h

advance-id : (t : Task) (phase : Phase) (answer : Answer) → (advance t phase answer).task.id ≡ t.id
unfolding advance
advance-id t scheduled started = refl
advance-id t (saving_processing n) (saved ok) = refl
advance-id t (running n) (returned v) = refl
advance-id t (running n) (raised e) = ground arith
advance-id t (running n) stopped = refl
advance-id t (saving_completed v) (saved ok) = refl
advance-id t (sleeping n) slept = refl
advance-id t (saving_failed e) (saved ok) = refl
advance-id t saving_cancelled (saved ok) = refl
advance-id t phase answer = refl

throw-id : (t : Task) (phase : Phase) (answer : Answer) → (throw t phase answer).task.id ≡ t.id
unfolding throw
throw-id t scheduled answer = refl
throw-id t (running n) answer = advance-id t (running n) answer
throw-id t _ answer = refl

pub wake-id : (t : Task) (answer : Answer) → (wake t answer).task.id ≡ t.id
unfolding wake
wake-id t answer =
    elim t.cancelling
      as (λ b.
        (if b
          then throw (record t { cancelling = false }) t.phase answer
          else advance t t.phase answer).task.id
        ≡ t.id) [
          | true ↦ throw-id (record t { cancelling = false }) t.phase answer
          | false ↦ advance-id t t.phase answer
        ]

pub request_stops :
    (cancelling : Bool) (phase : Phase) → stops cancelling phase ≡ true → stops true phase ≡ true
request_stops c (ended (counted Counter.completed)) h = h
request_stops c (ended (counted Counter.failed)) h = h
request_stops c _ h = refl

pub live_stops : (phase : Phase) → is_ended phase ≡ false → stops true phase ≡ true
live_stops (ended e) h = absurd (cc)
live_stops _ h = refl

-- The task with the key is there and is stopping.
pub record IsStopped (id : String) (ts : List Task) : Type 0 where
  pub task : Task
  pub found : find_task id ts ≡ some task
  pub stopping : is_stopping task ≡ true

pub found_eq : (t u : Task) → some t ≡ some u → t ≡ u
found_eq t u e = cc

module _ (id id' : String) (new : Task) where
  pub set_task-IsStopped :
      (ts : List Task) {t t' : Task}
      → find_task id ts ≡ some t
      → is_stopping t ≡ true
      → find_task id' ts ≡ some t'
      → new.id ≡ t'.id
      → (str_eq id' id ≡ true → is_stopping t' ≡ true → is_stopping new ≡ true)
      → IsStopped id (set_task id' new ts)
  unfolding find_task set_task
  set_task-IsStopped [] f s f' same keeps = absurd (cc)
  set_task-IsStopped (x ∷ xs) {t} {t'} f s f' same keeps = elim (Bool-cases (str_eq x.id id')) [
    | inl here' ↦ rw here' (
        let e' = found_eq x t' (rw here' at f') in
        elim (Bool-cases (str_eq x.id id)) [
          | inl here ↦
              let e = found_eq x t (rw here at f) in
              record {
                task = new;
                found =
                    subst (λ i. (if str_eq i id then some new else find_task id xs) ≡ some new)
                      (sym (same ∙ ap (λ (y : Task). y.id) (sym e'))) (rw here refl);
                stopping =
                    keeps (subst (λ i. str_eq i id ≡ true) ((eq_iff x.id id').0 here') here)
                      (subst (λ y. is_stopping y ≡ true) (sym e ∙ e') s);
              }
          | inr there ↦ record {
            task = t;
            found =
                subst (λ i. (if str_eq i id then some new else find_task id xs) ≡ some t)
                  (sym (same ∙ ap (λ (y : Task). y.id) (sym e'))) (rw there (rw there at f));
            stopping = s;
          }
        ])
    | inr there' ↦ rw there' (elim (Bool-cases (str_eq x.id id)) [
      | inl here ↦ record { task = t; found = rw here (rw here at f); stopping = s }
      | inr there ↦
          let later = set_task-IsStopped xs (rw there at f) s (rw there' at f') same keeps in
          record { task = later.task; found = rw there later.found; stopping = later.stopping }
    ])
  ]
