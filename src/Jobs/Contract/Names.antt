-- ===== src/Jobs/Contract/Names.antt =====
-- apps/api/services/job_contract.py: how the three tables of names agree with one another.
use kra_analysis.Prelude.{String, Option, none, some, ◌≡◌, refl, arith}
use kra_analysis.Prelude.Dict.{get, get-All}
use kra_analysis.Prelude.Result.{ok, or_raise}
use kra_analysis.Jobs.Contract.{
  DispatchAction, collect_race, preprocess_race, enrich_race, analysis, prediction, improvement,
  batch_collect, full_pipeline, pending, Raw, member, other, Error, raw_text, kind_aliases,
  action_aliases, status_value, action_value, normalize_job_kind, normalize_dispatch_action,
  normalize_lifecycle_status, LifecycleStatus,
}

or_raise-ok : {A : Type 0} (e : Error) (o : Option A) {a : A} → or_raise e o ≡ ok a → o ≡ some a
or_raise-ok e none h = cc
or_raise-ok e (some b) h = cc

-- The kind under which an action's job is filed.
abbrev pub action_kind : DispatchAction → String
action_kind collect_race = "collection"
action_kind preprocess_race = "collection"
action_kind enrich_race = "enrichment"
action_kind analysis = "analysis"
action_kind prediction = "prediction"
action_kind improvement = "improvement"
action_kind batch_collect = "batch"
action_kind full_pipeline = "batch"

-- The action that is left of an action once only its kind is stored.
abbrev pub stored_action : DispatchAction → DispatchAction
stored_action preprocess_race = collect_race
stored_action full_pipeline = batch_collect
stored_action action = action

-- The action of a stored kind.
pub dispatch-action_kind :
    (a : DispatchAction) → normalize_dispatch_action (other (action_kind a)) ≡ ok (stored_action a)
unfolding normalize_dispatch_action
dispatch-action_kind collect_race = refl
dispatch-action_kind _ = refl

module _ (raw : Raw) where
  pub normalize_job_kind_found :
      {k : String} → normalize_job_kind raw ≡ ok k → get kind_aliases (raw_text raw) ≡ some k
  unfolding normalize_job_kind
  normalize_job_kind_found h = or_raise-ok _ _ h

-- A kind that normalisation gives is its own normal form.
pub normalize_job_kind_idem :
    (raw : Raw) {k : String} → normalize_job_kind raw ≡ ok k → normalize_job_kind (other k) ≡ ok k
unfolding normalize_job_kind
normalize_job_kind_idem raw h =
    get-All (λ _ k. normalize_job_kind (other k) ≡ ok k) kind_aliases (raw_text raw) (ground arith)
      (normalize_job_kind_found raw h)

-- A name that has a kind has an action of that kind, and the kind by itself, as a row stores it,
-- dispatches to what `stored_action` leaves of that action.
pub kind_has_action :
    (raw : Raw) {k : String}
    → normalize_job_kind raw ≡ ok k
    → (a : DispatchAction) × (normalize_dispatch_action raw ≡ ok a)
      × (action_kind a ≡ k)
      × (normalize_dispatch_action (other k) ≡ ok (stored_action a))
unfolding normalize_job_kind normalize_dispatch_action
kind_has_action raw h =
    get-All
      (λ name k.
        (a : DispatchAction) × (normalize_dispatch_action (other name) ≡ ok a)
        × (action_kind a ≡ k)
        × (normalize_dispatch_action (other k) ≡ ok (stored_action a)))
      kind_aliases (raw_text raw)
      (
        (collect_race, refl, refl, refl),
        (
          (collect_race, refl, refl, refl),
          (
            (preprocess_race, refl, refl, refl),
            (
              (enrich_race, refl, refl, refl),
              (
                (enrich_race, refl, refl, refl),
                (
                  (analysis, refl, refl, refl),
                  (
                    (prediction, refl, refl, refl),
                    (
                      (improvement, refl, refl, refl),
                      (
                        (batch_collect, refl, refl, refl),
                        (
                          (batch_collect, refl, refl, refl),
                          ((full_pipeline, refl, refl, refl), tt),
                        ),
                      ),
                    ),
                  ),
                ),
              ),
            ),
          ),
        ),
      )
      (normalize_job_kind_found raw h)

-- A name that has an action has the kind of that action.
pub action_has_kind :
    (raw : Raw) {a : DispatchAction}
    → normalize_dispatch_action raw ≡ ok a
    → normalize_job_kind raw ≡ ok (action_kind a)
unfolding normalize_job_kind normalize_dispatch_action
action_has_kind raw h =
    get-All (λ name a. normalize_job_kind (other name) ≡ ok (action_kind a)) action_aliases
      (raw_text raw) (ground arith) (or_raise-ok _ _ h)

action_round_trip :
    (a : DispatchAction)
    → (normalize_dispatch_action (member (action_value a)) ≡ ok a)
      × (normalize_dispatch_action (other (action_value a)) ≡ ok a)
unfolding normalize_dispatch_action action_value
action_round_trip collect_race = (refl, refl)
action_round_trip _ = (refl, refl)

pub status_round_trip :
    (s : LifecycleStatus)
    → (normalize_lifecycle_status (member (status_value s)) ≡ ok s)
      × (normalize_lifecycle_status (other (status_value s)) ≡ ok s)
unfolding normalize_lifecycle_status status_value
status_round_trip pending = (refl, refl)
status_round_trip _ = (refl, refl)

-- Every member of the two enumerations, given as the member or as its text, normalises to itself.
pub normalize-members :
    ((a : DispatchAction)
      → (normalize_dispatch_action (member (action_value a)) ≡ ok a)
        × (normalize_dispatch_action (other (action_value a)) ≡ ok a))
    × ((s : LifecycleStatus)
        → (normalize_lifecycle_status (member (status_value s)) ≡ ok s)
          × (normalize_lifecycle_status (other (status_value s)) ≡ ok s))
normalize-members = (action_round_trip, status_round_trip)
