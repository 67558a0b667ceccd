-- ===== src/Jobs/Reading/Listing.antt =====
-- `list_jobs_with_total`: the total, the page and its order.
use mathlib.Core.List.{Perm}
use kra_analysis.Prelude.{ℕ, ◌-◌, min, Option, List, Bool, true, ◌≡◌, All, keep, length}
use kra_analysis.Prelude.Exec.Runs.{Runs}
use kra_analysis.Jobs.Contract.{Job}
use kra_analysis.Jobs.Queries.{page}
use kra_analysis.Jobs.Reading.Order.{IsDescending}

abbrev created : Job → Option ℕ
created job = job.created_at

-- `rows` is a page of the rows of `table` that pass the test, and `total` is the number of these.
pub record IsPage (test : Job → Bool) (limit offset : ℕ) (table rows : List Job) (total : ℕ)
    : Type 0 where
  pub ordered : List Job
  pub matching : Perm ordered (keep test table)
  pub latest_first : IsDescending created ordered
  pub cut : rows ≡ page limit offset ordered
  pub sized : length rows ≡ min limit (total - offset)
  pub passing : All (λ row. test row ≡ true) rows
  pub counted : total ≡ length ordered
