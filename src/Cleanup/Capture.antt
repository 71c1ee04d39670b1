-- ===== src/Cleanup/Capture.antt =====
-- What a cleanup job captures: the `capture_` methods of backend/app/repositories/cleanup.py, and the three
-- of backend/app/services/cleanup.py that open a job for them. The rows that a query reads are arguments.
use mcplica.Common.{ℕ, Option, none, some, List, [], ◌∷◌, ◌++◌, Text, codes, Result, ok, ◌>>=◌}
use mcplica.Common.Table.{find}
use mcplica.Cleanup.Target.{TargetType, object, vector_generation}
use mcplica.Cleanup.Job.{JobKind, CleanupJob, job_id}
use mcplica.Cleanup.{State, CleanupError, NewJob, create_job, add_each, finalize_empty_job}

-- The storage keys of a Build, and a row of `DocumentIndexGeneration`.
pub record BuildKeys : Type 0 where
  pub manifest_storage_key : Option Text
  pub artifact_storage_key : Option Text

pub record Generation : Type 0 where
  pub id : ℕ
  pub project_id : ℕ
  pub chunk_manifest_storage_key : Option Text
  pub collection_name : Option Text

abbrev pub object_of : Option Text → List TargetType
object_of none = []
object_of (some key) = object key ∷ []

abbrev pub vector_of : ℕ → ℕ → Option Text → List TargetType
vector_of project id none = []
vector_of project id (some collection) = vector_generation collection project id ∷ []

abbrev pub generation_targets : Generation → List TargetType
generation_targets g =
    object_of g.chunk_manifest_storage_key ++ vector_of g.project_id g.id g.collection_name

abbrev pub keys_targets : BuildKeys → List TargetType
keys_targets b = object_of b.manifest_storage_key ++ object_of b.artifact_storage_key

abbrev pub source_targets : List Text → List TargetType
source_targets [] = []
source_targets (key ∷ keys) = object key ∷ source_targets keys

abbrev pub all_keys_targets : List BuildKeys → List TargetType
all_keys_targets [] = []
all_keys_targets (b ∷ bs) = keys_targets b ++ all_keys_targets bs

abbrev pub all_generation_targets : List Generation → List TargetType
all_generation_targets [] = []
all_generation_targets (g ∷ gs) = generation_targets g ++ all_generation_targets gs

-- `capture_project_targets`, in the order of its calls
unfoldable pub project_targets : List Text → List BuildKeys → List Generation → List TargetType
project_targets keys builds generations =
    source_targets keys ++ all_keys_targets builds ++ all_generation_targets generations

abbrev pub of_generation : Option Generation → List TargetType
of_generation none = []
of_generation (some g) = generation_targets g

-- `capture_build_targets`, each Build with its generation
unfoldable pub build_targets : List (BuildKeys × Option Generation) → List TargetType
build_targets [] = []
build_targets ((b, g) ∷ rest) = keys_targets b ++ of_generation g ++ build_targets rest

module _ (sha256 : Text → Text) (str : ℕ → Text) where
  -- A job with its targets; a job without any is finished at once.
  unfoldable pub capture :
      ℕ
      → ℕ
      → (ℕ → ℕ)
      → NewJob
      → List TargetType
      → State
      → Result CleanupError (Option CleanupJob × State)
  capture now wall fresh c types s = do
    (job, s1) ← create_job c s
    s2 ← add_each sha256 str now wall fresh 0 job.id types s1
    let s3 : State = finalize_empty_job wall job.id s2
    ok (find job_id job.id s3.jobs, s3)

  abbrev pub capture_project_delete :
      ℕ
      → ℕ
      → (ℕ → ℕ)
      → ℕ
      → ℕ
      → ℕ
      → Option Text
      → List Text
      → List BuildKeys
      → List Generation
      → State
      → Result CleanupError (Option CleanupJob × State)
  capture_project_delete now wall fresh new_id project actor request_id keys builds generations s =
      capture now wall fresh
        record {
          new_id = new_id;
          kind = JobKind.project_delete;
          idempotency_key = codes "project-delete:" ++ str project;
          project_id = some project;
          requested_by = some actor;
          request_id = request_id;
        }
        (project_targets keys builds generations) s

  abbrev pub capture_source_delete :
      ℕ
      → ℕ
      → (ℕ → ℕ)
      → ℕ
      → ℕ
      → ℕ
      → ℕ
      → Option Text
      → List Text
      → State
      → Result CleanupError (Option CleanupJob × State)
  capture_source_delete now wall fresh new_id project source actor request_id keys s =
      capture now wall fresh
        record {
          new_id = new_id;
          kind = JobKind.source_delete;
          idempotency_key = codes "source-delete:" ++ str source;
          project_id = some project;
          requested_by = some actor;
          request_id = request_id;
        }
        (source_targets keys) s

  abbrev pub capture_build_cancellation :
      ℕ
      → ℕ
      → (ℕ → ℕ)
      → ℕ
      → ℕ
      → ℕ
      → Option ℕ
      → Option Text
      → List (BuildKeys × Option Generation)
      → State
      → Result CleanupError (Option CleanupJob × State)
  capture_build_cancellation now wall fresh new_id project build actor request_id builds s =
      capture now wall fresh
        record {
          new_id = new_id;
          kind = JobKind.orphan_guard;
          idempotency_key = codes "build-cancellation:" ++ str build;
          project_id = some project;
          requested_by = actor;
          request_id = request_id;
        }
        (build_targets builds) s
