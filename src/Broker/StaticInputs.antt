-- ===== src/Broker/StaticInputs.antt =====
-- The check of a request's static inputs: `_validate_static_input_refs` of broker/planning.py, and
-- `validate_static_ref` of data_plane/local.py.
use portable_batch_execution.Base.{
  ◌==◌, ◌&&◌, length, not, value_error, contains, some, raise_if, true, ◌>>◌, none, false, ◌∷◌,
  raise, ok, [], Outcome, Bool, List, String,
}
use portable_batch_execution.Base.Decimal.{after}
use portable_batch_execution.Base.Dict.{get}
use portable_batch_execution.Broker.Planning.{with_separator}
use portable_batch_execution.Contracts.Artifact.{ArtifactRef}
use portable_batch_execution.DataPlane.Artifacts.{size_agrees, local_payload_path, Artifacts}
use portable_batch_execution.DataPlane.Host.{Host}

-- `LocalFilesystemDataPlane.validate_static_ref`, which remembers the files it has hashed. No file
-- here changes while it is read.
pub validate_static_ref : Host → Artifacts → ArtifactRef → Bool
validate_static_ref host files ref = elim (local_payload_path host ref) [
  | raise e ↦ false
  | ok path ↦ elim path [
    | none ↦ true
    | some name ↦ elim (get files name) [
      | none ↦ false
      | some payload ↦
          size_agrees ref.size_bytes (length payload)
          && (after "sha256:" (host.hexdigest payload) == ref.sha256)
    ]
  ]
]

abbrev identity_of : ArtifactRef → String
identity_of ref = with_separator ref.object_id ref.sha256

-- The loop of `_validate_static_input_refs`, with the sets that it has collected.
static_refs_after :
    Host → Artifacts → List String → List String → List ArtifactRef → Outcome (Unit {0})
static_refs_after host files seen_object_ids seen_sha256 [] = ok tt
static_refs_after host files seen_object_ids seen_sha256 (ref ∷ refs) = do
  raise_if (contains seen_object_ids ref.object_id)
      (value_error "duplicate static input reference object_id")
  raise_if (contains seen_sha256 (identity_of ref))
      (value_error "duplicate static input reference identity")
  raise_if (not (validate_static_ref host files ref))
      (value_error "static input reference is missing or invalid")
  static_refs_after host files (ref.object_id ∷ seen_object_ids) (identity_of ref ∷ seen_sha256)
      refs

unfoldable pub validate_static_input_refs : Host → Artifacts → List ArtifactRef → Outcome (Unit {0})
unfolding static_refs_after
validate_static_input_refs host files refs = static_refs_after host files [] [] refs
