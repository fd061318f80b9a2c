-- ===== src/DataPlane/Artifacts.antt =====
-- `write`, `read`, `verify`, `exists` and the checks of references of `LocalFilesystemDataPlane`.
pub mod Payloads
use Prim.Native.Char.{code}
use portable_batch_execution.Base.{
  ℕ, String, Bool, true, false, not, ◌&&◌, ◌||◌, ◌==◌, Option, none, some, List, [], ◌∷◌, eqb,
  length, if◌then◌else◌, Outcome, ok, raise, value_error, file_not_found, raise_if, ◌>>=◌, ◌>>◌,
}
use portable_batch_execution.Base.Decimal.{after}
use portable_batch_execution.Base.Dict.{Dict, get, put}
use portable_batch_execution.Contracts.Artifact.{ArtifactRef, validate_artifact}
use portable_batch_execution.DataPlane.Host.{Bytes, external, elsewhere, file_at, Host}

-- `text.removeprefix(prefix)`: what is behind the prefix, or else the whole text.
pub behind : String → String → String → String
behind String.[] whole rest = rest
behind (String.◌∷◌ c p) whole String.[] = whole
behind (String.◌∷◌ c p) whole (String.◌∷◌ d rest) =
    let deeper = behind p whole rest in if eqb (code c) (code d) then deeper else whole

unfoldable pub removeprefix : String → String → String
unfolding behind
removeprefix text prefix = behind prefix text text

-- The files of the artifact directory, by name.
abbrev pub Artifacts : Type 0
Artifacts = Dict Bytes

-- `size_bytes is None or size_bytes == n`
abbrev pub size_agrees : Option ℕ → ℕ → Bool
size_agrees none n = true
size_agrees (some k) n = eqb k n

module _ (host : Host) where
  -- `_local_payload_path`: the name of the payload's file, or `none` for an external reference
  pub local_payload_path : ArtifactRef → Outcome (Option String)
  unfolding removeprefix
  local_payload_path ref = elim (host.resolved ref.uri) [
    | external ↦ ok none
    | elsewhere ↦ raise (value_error "artifact ref must be a local file URI")
    | file_at inside name ↦ do
      raise_if (not inside || not (name == ref.object_id))
          (value_error "artifact ref is outside this data plane")
      raise_if (not (ref.object_id == removeprefix ref.sha256 "sha256:"))
          (value_error "artifact ref object_id does not match digest")
      ok (some name)
  ]

  payload_matches : Option Bytes → ArtifactRef → Outcome (Unit {0})
  payload_matches none ref = raise file_not_found
  payload_matches (some payload) ref =
      raise_if (not (size_agrees ref.size_bytes (length payload)))
        (value_error "local artifact size mismatch")

  pub check_ref : Artifacts → ArtifactRef → Outcome (Unit {0})
  unfolding local_payload_path payload_matches
  check_ref files ref = do
    path ← local_payload_path ref
    elim path [ none ↦ ok tt | some name ↦ payload_matches (get files name) ref ]

  -- `_validate_local_refs`
  unfoldable pub validate_local_refs : Artifacts → List ArtifactRef → Outcome (Unit {0})
  unfolding check_ref
  validate_local_refs files [] = ok tt
  validate_local_refs files (ref ∷ refs) = do check_ref files ref; validate_local_refs files refs

  -- `_artifact_ref_for_payload`
  pub artifact_ref_for_payload : String → Bytes → Option String → Outcome ArtifactRef
  unfolding validate_artifact
  artifact_ref_for_payload digest payload media_type = validate_artifact (record {
    object_id = digest;
    uri = host.artifact_uri digest;
    sha256 = after "sha256:" digest;
    media_type = media_type;
    size_bytes = some (length payload);
  })

  -- `_persist_payload_unlocked`: a payload that is there stays as it is.
  pub persist_payload : Artifacts → String → Bytes → Artifacts
  unfolding put
  persist_payload files digest payload = elim (get files digest) [
    | some _ ↦ files
    | none ↦ put files digest payload
  ]

  unfoldable pub write : Artifacts → Bytes → Option String → Outcome ArtifactRef × Artifacts
  unfolding artifact_ref_for_payload persist_payload
  write files payload media_type =
      let digest = host.hexdigest payload in
      (artifact_ref_for_payload digest payload media_type, persist_payload files digest payload)

  -- `_artifact_path` and the test that follows it in `read`: the name of the file
  pub plane_path : ArtifactRef → Outcome String
  plane_path ref = elim (host.written ref.uri) [
    | external ↦ raise (value_error "artifact ref must be a local file URI")
    | elsewhere ↦ raise (value_error "artifact ref must be a local file URI")
    | file_at inside name ↦ do
      raise_if (not inside || not (name == ref.object_id))
          (value_error "artifact ref is outside this data plane")
      ok name
  ]

  read_file : Option Bytes → Outcome Bytes
  read_file none = raise file_not_found
  read_file (some payload) = ok payload

  unfoldable pub read : Artifacts → ArtifactRef → Outcome Bytes
  unfolding plane_path read_file
  read files ref = do name ← plane_path ref; read_file (get files name)

  unfoldable pub exists : Artifacts → ArtifactRef → Bool
  unfolding plane_path
  exists files ref = elim (plane_path ref) [
    | raise e ↦ false
    | ok name ↦ elim (get files name) [ none ↦ false | some _ ↦ true ]
  ]

  pub verify : Artifacts → ArtifactRef → Bool
  unfolding read
  verify files ref = elim (read files ref) [
    | raise e ↦ false
    | ok payload ↦
        (after "sha256:" (host.hexdigest payload) == ref.sha256)
        && size_agrees ref.size_bytes (length payload)
  ]
