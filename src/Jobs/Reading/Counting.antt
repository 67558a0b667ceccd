-- ===== src/Jobs/Reading/Counting.antt =====
-- `get_job_statistics`: the counts by status and by type.
use kra_analysis.Prelude.{
  ℕ, suc, ◌+◌, ◌-◌, String, Option, some, List, [], ◌∷◌, Bool, true, false, ◌&&◌, ◌≡◌, refl, All,
  keep, length, arith, str_eq, ◌∙◌,
}
use kra_analysis.Prelude.Dict.{Dict, get, get-All}
use kra_analysis.Prelude.Result.{ok}
use kra_analysis.Prelude.Exec.Runs.{Runs, Runs-bind, Runs-pure, Runs-try}
use kra_analysis.Jobs.Contract.{
  Job, LifecycleStatus, pending, other, normalize_job_kind, kind_aliases, raw_text, status_value,
}
use kra_analysis.Jobs.Contract.Names.{normalize_job_kind_found}
use kra_analysis.Jobs.Store.{Db, Submission}
use kra_analysis.Jobs.Service.{owned_by}
use kra_analysis.Jobs.Statistics.{
  Statistics, public_job_statuses, public_job_types, has_status, has_type, is_since, count_each,
  get_job_statistics,
}
use kra_analysis.Jobs.Quiet.{calm, Runs-select_jobs}
use kra_analysis.Jobs.Filed.{IsFiled}

abbrev pub counts : (String → Job → Bool) → List String → (Job → Bool) → List Job → Dict ℕ
counts test [] owned rows = []
counts test (v ∷ vs) owned rows =
    (v, length (keep (λ job. owned job && test v job) rows)) ∷ counts test vs owned rows

abbrev pub sum : Dict ℕ → ℕ
sum [] = 0
sum ((k, n) ∷ d) = n + sum d

Runs-count_each :
    (owner_ref : Option String) (test : String → Job → Bool) (values : List String) (c s : Db)
    (q : List Submission) (r : List String)
    → Runs
        (count_each owner_ref test values)
        (calm c s q r)
        (ok (counts test values (owned_by owner_ref) s.jobs))
        (calm c s q r)
unfolding count_each
Runs-count_each owner_ref test [] c s q r = Runs-pure _ _
Runs-count_each owner_ref test (v ∷ vs) c s q r =
    Runs-bind _ (Runs-select_jobs _)
      (Runs-bind _ (Runs-count_each owner_ref test vs c s q r) (Runs-pure _ _))

-- How many of the values a row has.
abbrev hits : (String → Job → Bool) → List String → Job → ℕ
hits test [] job = 0
hits test (v ∷ vs) job = let n = hits test vs job in elim (test v job) [ true ↦ suc n | false ↦ n ]

sum_cons :
    (test : String → Job → Bool) (values : List String) (owned : Job → Bool) (job : Job)
    (rows : List Job)
    → sum (counts test values owned (job ∷ rows))
      ≡ (elim (owned job) [ true ↦ hits test values job | false ↦ 0 ])
        + sum (counts test values owned rows)
sum_cons test [] owned job rows = ground arith
sum_cons test (v ∷ vs) owned job rows = ground (arith, sum_cons test vs owned job rows)

sum_nil :
    (test : String → Job → Bool) (values : List String) (owned : Job → Bool)
    → sum (counts test values owned []) ≡ 0
sum_nil test [] owned = refl
sum_nil test (v ∷ vs) owned = omega (arith, sum_nil test vs owned)

sum-eq-length :
    (test : String → Job → Bool) (values : List String) (owned : Job → Bool) (rows : List Job)
    → All (λ job. hits test values job ≡ 1) rows
    → sum (counts test values owned rows) ≡ length (keep owned rows)
sum-eq-length test values owned [] h = sum_nil test values owned
sum-eq-length test values owned (job ∷ rows) h =
    ground
      (arith, h.0, sum_cons test values owned job rows, sum-eq-length test values owned rows h.1)

abbrev hits_text : String → List String → ℕ
hits_text text [] = 0
hits_text text (v ∷ vs) =
    let n = hits_text text vs in elim (str_eq text v) [ true ↦ suc n | false ↦ n ]

status_hits_text :
    (values : List String) (job : Job) (text : String)
    → job.status ≡ some text
    → hits has_status values job ≡ hits_text text values
status_hits_text [] job text e = refl
status_hits_text (v ∷ vs) job text e = ground (arith, e, status_hits_text vs job text e)

type_hits_text :
    (values : List String) (job : Job) → hits has_type values job ≡ hits_text job.type values
type_hits_text [] job = refl
type_hits_text (v ∷ vs) job = ground (arith, type_hits_text vs job)

one_status : (s : LifecycleStatus) → hits_text (status_value s) public_job_statuses ≡ 1
unfolding status_value
one_status pending = refl
one_status _ = refl

one_type :
    (type : String)
    → normalize_job_kind (other type) ≡ ok type
    → hits_text type public_job_types ≡ 1
unfolding get
one_type type known =
    get-All (λ _ kind. hits_text kind public_job_types ≡ 1) kind_aliases (raw_text (other type))
      (ground arith) (normalize_job_kind_found (other type) known)

All-one_status :
    (rows : List Job)
    → All IsFiled rows
    → All (λ job. hits has_status public_job_statuses job ≡ 1) rows
All-one_status [] h = tt
All-one_status (job ∷ rows) h = (
  status_hits_text public_job_statuses job _ h.0.status_known ∙ one_status h.0.state,
  All-one_status rows h.1,
)

All-one_type :
    (rows : List Job) → All IsFiled rows → All (λ job. hits has_type public_job_types job ≡ 1) rows
All-one_type [] h = tt
All-one_type (job ∷ rows) h =
    (type_hits_text public_job_types job ∙ one_type job.type h.0.kind_known, All-one_type rows h.1)

-- While the database answers and every row is filed, the statistics are given, the total is the
-- number of the owner's jobs, and the six counts by status add up to it, as do the six counts by
-- type.
pub get_job_statistics-sums :
    (c s : Db) (q : List Submission) (r : List String) (owner_ref : Option String) (now : ℕ)
    → All IsFiled s.jobs
    → (statistics : Statistics) × (get_job_statistics owner_ref now (calm c s q r)
        ≡ (ok (some statistics), calm c s q r))
      × (statistics.total_jobs ≡ length (keep (owned_by owner_ref) s.jobs))
      × (sum statistics.status_counts ≡ statistics.total_jobs)
      × (sum statistics.type_counts ≡ statistics.total_jobs)
unfolding get_job_statistics
get_job_statistics-sums c s q r owner_ref now filed =
    let owned = owned_by owner_ref in
    (
      record {
        total_jobs = length (keep owned s.jobs);
        status_counts = counts has_status public_job_statuses owned s.jobs;
        type_counts = counts has_type public_job_types owned s.jobs;
        recent_jobs_24h = length (keep (λ job. owned job && is_since (now - 86400) job) s.jobs);
      },
      (Runs-try _ (
          Runs-bind _ (Runs-select_jobs _) (
            Runs-bind _ (Runs-count_each owner_ref has_status public_job_statuses c s q r) (
              Runs-bind _ (Runs-count_each owner_ref has_type public_job_types c s q r)
                (Runs-bind _ (Runs-select_jobs _) (Runs-pure _ _)))))).path,
      refl,
      sum-eq-length has_status public_job_statuses owned s.jobs (All-one_status s.jobs filed),
      sum-eq-length has_type public_job_types owned s.jobs (All-one_type s.jobs filed),
    )
