-- ===== src/Datasets/Topology.antt =====
-- packages/datasets/src/cloudcause_datasets/store.py: the store that a deployment allows. Whether the
-- database answers is an argument.
use cloudcause.Prelude.{
  ◌≡◌, ◌↔◌, ◌⊎◌, Bool, true, false, not, ◌&&◌, ◌||◌, Option, none, some, arith, if◌then◌else◌,
}

pub data Mode : Type 0 where
  inprocess http : Mode

abbrev is_http : Mode → Bool
is_http inprocess = false
is_http http = true

-- the settings that decide; `database_given` says that the URL is more than blanks
pub record Deployment : Type 0 where
  pub uploads_enabled : Bool
  pub orchestrator_mode : Mode
  pub worker_mode : Mode
  pub database_given : Bool

-- what `dataset_store_reason` names
pub data Reason : Type 0 where
  uploads_disabled database_missing database_unreachable : Reason

-- what `build_dataset_store` gives, or the `UploadsUnavailableError` that it raises
pub data Opened : Type 0 where
  memory_store sql_store : Opened
  unavailable : Reason → Opened

-- `dataset_store_reason`
unfoldable pub dataset_store_reason : Deployment → Option Reason
dataset_store_reason s =
    if not s.uploads_enabled
    then some uploads_disabled
    else if (is_http s.orchestrator_mode || is_http s.worker_mode) && not s.database_given
    then some database_missing
    else none

-- `build_dataset_store`
unfoldable pub build_dataset_store : Bool → Deployment → Opened
unfolding dataset_store_reason
build_dataset_store reachable s = elim (dataset_store_reason s) [
  | some reason ↦ unavailable reason
  | none ↦
      if not (is_http s.orchestrator_mode) && not (is_http s.worker_mode)
      then memory_store
      else if reachable
      then sql_store
      else unavailable database_unreachable
]

-- The in-memory store is opened exactly when uploads are enabled and nothing runs over HTTP: a
-- database that is missing or does not answer never leads to it. The SQL store is opened exactly when
-- uploads are enabled, something runs over HTTP, and the database is given and answers.
pub build_dataset_store_lem :
    (reachable : Bool) (s : Deployment)
    → ((build_dataset_store reachable s ≡ memory_store) ↔ (
        (s.uploads_enabled ≡ true)
        × (s.orchestrator_mode ≡ inprocess)
        × (s.worker_mode ≡ inprocess)))
      × ((build_dataset_store reachable s ≡ sql_store) ↔ (
          (s.uploads_enabled ≡ true)
          × ((s.orchestrator_mode ≡ http) ⊎ (s.worker_mode ≡ http))
          × (s.database_given ≡ true)
          × (reachable ≡ true)))
unfolding build_dataset_store dataset_store_reason
build_dataset_store_lem reachable s = ground arith
