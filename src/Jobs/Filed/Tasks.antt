-- ===== src/Jobs/Filed/Tasks.antt =====
-- Every background task keeps the rows filed, whatever the client and the workflow do.
use kra_analysis.Prelude.{
  ℕ, String, Option, none, some, List, [], ◌∷◌, Bool, true, false, if◌then◌else◌, refl, arith,
}
use kra_analysis.Prelude.Value.{Value}
use kra_analysis.Prelude.Result.{Result}
use kra_analysis.Prelude.Exec.Keeps.{
  Keeps, Keeps-pure, Keeps-if, Keeps-then, Keeps-bind, Keeps-bind-Gives, keeps_rules,
}
use kra_analysis.Jobs.Contract.{Job, LifecycleStatus, processing, completed, failed, status_value}
use kra_analysis.Jobs.Contract.Names.{status_round_trip}
use kra_analysis.Jobs.Store.{Service, forget}
use kra_analysis.Jobs.Tasks.{
  Task, quietly, status_job, write_status, update_job_status, log_job, with_job,
  unsupported_job_type, collect_race_data, preprocess_race_data, enrich_race_data,
}
use kra_analysis.Jobs.Tasks.Composite.{
  Batch, Stages, is_clean, collect_each, batch_collect, full_pipeline,
}
use kra_analysis.Jobs.Filed.{IsFiled, IsSound}
use kra_analysis.Jobs.Filed.Session.{
  FoundFiled, commit-IsSound, select_one-IsSound, select_one-Gives, update_job-IsSound,
  insert_log-IsSound,
}

quietly-IsSound : (body : Service Unit) → Keeps IsSound body → Keeps IsSound (quietly body)
unfolding quietly forget
quietly-IsSound body k = record {
  at = λ w h.
      let after = k.at (forget w) (record { committed = h.committed; session = h.committed }) in
      record { committed = after.committed; session = after.committed };
}

status_job-IsFiled :
    (job : Job) (s : LifecycleStatus) (error task_id : Option String) (payload : Option Value)
    (now : ℕ)
    → IsFiled job
    → IsFiled (status_job job (status_value s) error task_id payload now)
unfolding status_job
status_job-IsFiled job s error task_id payload now f = record {
  kind_known = f.kind_known;
  kind_shadow = ground (arith, f.kind_known);
  state = s;
  status_known = refl;
  state_shadow = ground (arith, (status_round_trip s).1);
  completed = ground arith;
}

write_status-IsSound :
    (found : Option Job) (s : LifecycleStatus) (error task_id : Option String)
    (payload : Option Value) (now : ℕ)
    → FoundFiled found
    → Keeps IsSound (write_status found (status_value s) error task_id payload now)
unfolding write_status
write_status-IsSound none s error task_id payload now f = Keeps-pure tt
write_status-IsSound (some job) s error task_id payload now f =
    Keeps-then _ _ (update_job-IsSound _ (status_job-IsFiled job s error task_id payload now f))
      commit-IsSound

update_status-IsSound :
    (job_id : String) (s : LifecycleStatus) (error task_id : Option String) (payload : Option Value)
    (now : ℕ)
    → Keeps IsSound (update_job_status job_id (status_value s) error task_id payload now)
unfolding update_job_status
update_status-IsSound job_id s error task_id payload now = quietly-IsSound _ (
    Keeps-bind-Gives _ _ (select_one-IsSound _) (select_one-Gives _)
      (λ found f. write_status-IsSound found s error task_id payload now f))

-- The three statuses that the tasks write.
module _ (job_id : String) (error task_id : Option String) (payload : Option Value) (now : ℕ) where
  processing-IsSound :
      Keeps IsSound (update_job_status job_id "processing" error task_id payload now)
  unfolding status_value
  processing-IsSound = update_status-IsSound job_id processing error task_id payload now

  completed-IsSound : Keeps IsSound (update_job_status job_id "completed" error task_id payload now)
  unfolding status_value
  completed-IsSound = update_status-IsSound job_id completed error task_id payload now

  failed-IsSound : Keeps IsSound (update_job_status job_id "failed" error task_id payload now)
  unfolding status_value
  failed-IsSound = update_status-IsSound job_id failed error task_id payload now

pub log_job-IsSound :
    (job_id level message : String) (metadata : Value) (now : ℕ)
    → Keeps IsSound (log_job job_id level message metadata now)
unfolding log_job
log_job-IsSound job_id level message metadata now =
    quietly-IsSound _ (Keeps-then _ _ (insert_log-IsSound _) commit-IsSound)

with_job-IsSound :
    (job_id : Option String) (act : String → Task Unit)
    → ((id : String) → Keeps IsSound (act id))
    → Keeps IsSound (with_job job_id act)
with_job-IsSound none act k = Keeps-pure tt
with_job-IsSound (some id) act k = Keeps-if _ _ _ (Keeps-pure tt) (k id)

ruleset task_rules = (
  keeps_rules, processing-IsSound, completed-IsSound, failed-IsSound, log_job-IsSound,
  with_job-IsSound,
)

pub unsupported-IsSound :
    (kind : String) (job_id : Option String) (now : ℕ)
    → Keeps IsSound (unsupported_job_type kind job_id now)
unfolding unsupported_job_type
unsupported-IsSound kind job_id now = search task_rules depth 8

pub collect-IsSound :
    (date : String) (meet race_no : ℕ) (job_id task_id : Option String) (manage : Bool)
    (collected : Result String Value) (now : ℕ)
    → Keeps IsSound (collect_race_data date meet race_no job_id task_id manage collected now)
unfolding collect_race_data
collect-IsSound date meet race_no job_id task_id manage collected now = search task_rules depth 9

pub preprocess-IsSound :
    (race_id : String) (job_id task_id : Option String) (made : Result String Value) (now : ℕ)
    → Keeps IsSound (preprocess_race_data race_id job_id task_id made now)
unfolding preprocess_race_data
preprocess-IsSound race_id job_id task_id made now = search task_rules depth 9

pub enrich-IsSound :
    (race_id : String) (job_id task_id : Option String) (made : Result String Value) (now : ℕ)
    → Keeps IsSound (enrich_race_data race_id job_id task_id made now)
unfolding enrich_race_data
enrich-IsSound race_id job_id task_id made now = search task_rules depth 9

collect_each-IsSound :
    (date : String) (meet : ℕ) (races : List (ℕ × Result String Value))
    (job_id task_id : Option String) (now : ℕ) (b : Batch)
    → Keeps IsSound (collect_each date meet races job_id task_id now b)
unfolding collect_each
collect_each-IsSound date meet [] job_id task_id now b = Keeps-pure b
collect_each-IsSound date meet ((race_no, collected) ∷ rest) job_id task_id now b =
    Keeps-bind _ _ (search (task_rules, collect-IsSound))
      (λ b'. collect_each-IsSound date meet rest job_id task_id now b')

finished-IsSound :
    (clean : Bool) (job_id : String) (error task_id : Option String) (payload : Option Value)
    (now : ℕ)
    → Keeps IsSound (
        update_job_status job_id
          (if clean then "completed" else "failed")
          error
          task_id
          payload
          now)
finished-IsSound true = completed-IsSound
finished-IsSound false = failed-IsSound

pub batch-IsSound :
    (date : String) (meet : ℕ) (races : List (ℕ × Result String Value))
    (job_id task_id : Option String) (now : ℕ)
    → Keeps IsSound (batch_collect date meet races job_id task_id now)
unfolding batch_collect
batch-IsSound date meet races job_id task_id now = Keeps-then _ _ (search task_rules) (
    Keeps-bind _ _ (collect_each-IsSound date meet races job_id task_id now _) (λ b.
      Keeps-then _ _
        (with_job-IsSound job_id _ (λ id. finished-IsSound (is_clean b) id _ task_id _ now))
        (Keeps-pure _)))

pub pipeline-IsSound :
    (date : String) (meet race_no : ℕ) (job_id task_id : Option String) (stages : Stages) (now : ℕ)
    → Keeps IsSound (full_pipeline date meet race_no job_id task_id stages now)
unfolding full_pipeline
pipeline-IsSound date meet race_no job_id task_id stages now = search task_rules depth 15
