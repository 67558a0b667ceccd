-- ===== src/Runner/Tally.antt =====
-- Numbers of tasks of apps/api/infrastructure/background_tasks.py.
use kra_analysis.Prelude.{
  ℕ, suc, ◌+◌, String, some, List, [], ◌∷◌, ◌++◌, map, Bool, true, false, ◌≡◌, refl, ap, str_eq,
  length, keep, Bool-cases, inl, inr, arith,
}
use kra_analysis.Runner.Task.{Task}
use kra_analysis.Runner.Events.{find_task, set_task}

abbrev pub bit : Bool → ℕ
bit true = 1
bit false = 0

-- The number of tasks of which a test holds.
abbrev pub number_of : (Task → Bool) → List Task → ℕ
number_of test ts = length (keep test ts)

pub number_of-cons :
    (test : Task → Bool) (t : Task) (ts : List Task)
    → number_of test (t ∷ ts) ≡ bit (test t) + number_of test ts
number_of-cons test t ts = elim (Bool-cases (test t)) [
  | inl e ↦ rw e (omega arith)
  | inr e ↦ rw e (omega arith)
]

some_task : (u t : Task) → some u ≡ some t → u ≡ t
some_task u t e = cc

pub set_task-counts :
    (test : Task → Bool) (id : String) (new : Task) (ts : List Task) {t : Task}
    → find_task id ts ≡ some t
    → number_of test (set_task id new ts) + bit (test t) ≡ number_of test ts + bit (test new)
unfolding find_task set_task
set_task-counts test id new [] found = absurd (cc)
set_task-counts test id new (u ∷ ts) {t} found = elim (Bool-cases (str_eq u.id id)) [
  | inl e ↦ rw e (
      omega (
        arith,
        number_of-cons test new ts,
        number_of-cons test u ts,
        ap (λ x. bit (test x)) (some_task u t (rw e at found)),
      ))
  | inr e ↦ rw e (
      omega (
        arith,
        number_of-cons test u (set_task id new ts),
        number_of-cons test u ts,
        set_task-counts test id new ts (rw e at found),
      ))
]

module _ (test : Task → Bool) (f : Task → Task) (keeps : (t : Task) → test (f t) ≡ test t) where
  pub number_of-map : (ts : List Task) → number_of test (map f ts) ≡ number_of test ts
  number_of-map [] = refl
  number_of-map (t ∷ ts) = omega (
    arith,
    number_of-cons test (f t) (map f ts),
    number_of-cons test t ts,
    ap (λ x. bit x) (keeps t),
    number_of-map ts,
  )

pub number_of-append :
    (test : Task → Bool) (ts us : List Task)
    → number_of test (ts ++ us) ≡ number_of test ts + number_of test us
number_of-append test [] us = omega arith
number_of-append test (t ∷ ts) us =
    omega (
      arith,
      number_of-cons test t (ts ++ us),
      number_of-cons test t ts,
      number_of-append test ts us,
    )

pub length-map : (f : Task → Task) (ts : List Task) → length (map f ts) ≡ length ts
length-map f [] = refl
length-map f (t ∷ ts) = ap suc (length-map f ts)

pub length-set_task :
    (id : String) (new : Task) (ts : List Task) → length (set_task id new ts) ≡ length ts
unfolding set_task
length-set_task id new [] = refl
length-set_task id new (t ∷ ts) = ground (arith, length-set_task id new ts)
