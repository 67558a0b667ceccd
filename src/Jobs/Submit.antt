-- ===== src/Jobs/Submit.antt =====
-- apps/api/services/kra_collection_module.py: `CollectionJobs.submit_batch_collect`.
use kra_analysis.Prelude.{ℕ, String, Option, none, some, List, [], ◌∷◌}
use kra_analysis.Prelude.Text.{◌+++◌}
use kra_analysis.Prelude.Value.{Value, Items, arr, obj, nil, cons, str, end, field}
use kra_analysis.Prelude.Exec.{pure, ◌>>=◌, ◌>>◌}
use kra_analysis.Jobs.Contract.{other}
use kra_analysis.Jobs.Store.{Service}
use kra_analysis.Jobs.Service.{create_job, start_job}
use kra_analysis.Jobs.Tasks.{number}

pub record BatchCollectInput : Type 0 where
  pub race_date : String
  pub meet : ℕ
  pub race_numbers : Option (List ℕ)

pub record JobReceipt : Type 0 where
  pub job_id : String
  pub status : String
  pub message : String
  pub webhook_url : Option String
  pub estimated_time : Option ℕ

abbrev default_race_numbers : List ℕ
default_race_numbers = 1 ∷ 2 ∷ 3 ∷ 4 ∷ 5 ∷ 6 ∷ 7 ∷ 8 ∷ 9 ∷ 10 ∷ 11 ∷ 12 ∷ 13 ∷ 14 ∷ 15 ∷ []

unfoldable pub normalize_race_numbers : Option (List ℕ) → List ℕ
normalize_race_numbers none = default_race_numbers
normalize_race_numbers (some []) = default_race_numbers
normalize_race_numbers (some (n ∷ ns)) = n ∷ ns

abbrev pub numbers_of : List ℕ → Items
numbers_of [] = nil
numbers_of (n ∷ ns) = cons (number n) (numbers_of ns)

abbrev pub batch_parameters : BatchCollectInput → Value
batch_parameters request = obj (
    field "race_date" (str request.race_date) (
      field "meet" (number request.meet) (
        field "race_numbers" (arr (numbers_of (normalize_race_numbers request.race_numbers))) end)))

abbrev pub receipt_of : String → JobReceipt
receipt_of job_id = record {
  job_id = job_id;
  status = "accepted";
  message = "Collection job started";
  webhook_url = some ("/api/v2/jobs/" +++ job_id);
  estimated_time = some 5;
}

-- The job's key, the task's and the time are made on the way: they are arguments.
unfoldable pub submit_batch_collect :
    BatchCollectInput → String → String → String → ℕ → Service JobReceipt
unfolding normalize_race_numbers
submit_batch_collect request owner_ref new_id new_task now = do
  job ← create_job (other "batch") (batch_parameters request) owner_ref new_id now
  start_job job.job_id new_task now
  pure (receipt_of job.job_id)
