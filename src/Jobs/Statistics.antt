-- ===== src/Jobs/Statistics.antt =====
-- apps/api/services/job_service.py: `get_job_statistics`.
use kra_analysis.Prelude.{
  ℕ, ◌-◌, leb, String, Option, none, some, List, [], ◌∷◌, Bool, false, ◌&&◌, str_eq, length,
}
use kra_analysis.Prelude.Dict.{Dict}
use kra_analysis.Prelude.Exec.{pure, ◌>>=◌, try_except}
use kra_analysis.Jobs.Contract.{Job}
use kra_analysis.Jobs.Store.{Service, select_jobs}
use kra_analysis.Jobs.Service.{equals, owned_by}

abbrev pub public_job_statuses : List String
public_job_statuses =
    "pending" ∷ "queued" ∷ "processing" ∷ "completed" ∷ "failed" ∷ "cancelled" ∷ []

abbrev pub public_job_types : List String
public_job_types =
    "collection" ∷ "batch" ∷ "enrichment" ∷ "analysis" ∷ "prediction" ∷ "improvement" ∷ []

pub record Statistics : Type 0 where
  pub total_jobs : ℕ
  pub status_counts : Dict ℕ
  pub type_counts : Dict ℕ
  pub recent_jobs_24h : ℕ

abbrev pub has_status : String → Job → Bool
has_status status job = equals job.status (some status)

abbrev pub has_type : String → Job → Bool
has_type type job = str_eq job.type type

abbrev pub is_since : ℕ → Job → Bool
is_since time job = elim job.created_at [ none ↦ false | some created ↦ leb time created ]

-- `for value in values: counts[value] = ...`, one query for each.
unfoldable pub count_each : Option String → (String → Job → Bool) → List String → Service (Dict ℕ)
count_each owner_ref test [] = pure []
count_each owner_ref test (value ∷ values) = do
  rows ← select_jobs (λ job. owned_by owner_ref job && test value job)
  counts ← count_each owner_ref test values
  pure ((value, length rows) ∷ counts)

-- `none` stands for the answer with an `error` entry.
unfoldable pub get_job_statistics : Option String → ℕ → Service (Option Statistics)
get_job_statistics owner_ref now =
    try_except
      (do
        total ← select_jobs (owned_by owner_ref)
        status_counts ← count_each owner_ref has_status public_job_statuses
        type_counts ← count_each owner_ref has_type public_job_types
        recent ← select_jobs (λ job. owned_by owner_ref job && is_since (now - 86400) job)
        pure (
            some (record {
              total_jobs = length total;
              status_counts = status_counts;
              type_counts = type_counts;
              recent_jobs_24h = length recent;
            })))
      (λ _. pure none)
