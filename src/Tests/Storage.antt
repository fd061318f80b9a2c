-- ===== src/Tests/Storage.antt =====
-- The theorems on the data plane at a store that has one run.
use portable_batch_execution.Base.{
  String, true, ◌==◌, ◌≡◌, refl, sym, arith, [], ◌∷◌, none, some, if◌then◌else◌, Error, ok, raise,
  revision_conflict, inl,
}
use portable_batch_execution.Base.Int.{ℤ, pos, negsuc, succ_ℤ, ltb_ℤ}
use portable_batch_execution.Base.Sorting.{sorted}
use portable_batch_execution.Contracts.Artifact.{
  ArtifactRef, is_digest, has_secret, validate_artifact,
}
use portable_batch_execution.Contracts.Attempt.{AttemptStatus}
use portable_batch_execution.Contracts.Manifest.{RunManifest, validate_manifest}
use portable_batch_execution.DataPlane.Artifacts.{
  write, read, verify, check_ref, validate_local_refs,
}
use portable_batch_execution.DataPlane.Artifacts.Payloads.{write-verified}
use portable_batch_execution.DataPlane.Attempts.{Plane, RunDirectory, run_of}
use portable_batch_execution.DataPlane.Host.{Bytes, Location, external, file_at, Host, IsHost}
use portable_batch_execution.DataPlane.Manifests.{
  revision_file, current_revision, read_manifest, next_checks, write_next_manifest,
  interrupted_write,
}
use portable_batch_execution.DataPlane.Manifests.Crash.{interrupted_write-blocks}
use portable_batch_execution.DataPlane.Manifests.Linear.{IsLinear, write_next_manifest-IsLinear}
use portable_batch_execution.DataPlane.Manifests.Writers.{
  write_next_manifest-reads, write_next_manifest-conflicts,
}
use portable_batch_execution.DataPlane.Store.{local_store}
use portable_batch_execution.DataPlane.Store.Publish.{finalize-publishes}
use portable_batch_execution.Kernel.Controller.{finalize, finalized_manifest}
use portable_batch_execution.Names.{is_safe_component, safe_file_component}
use portable_batch_execution.Tests.{attempt, manifest, ready_manifest, hex_digits, output}

-- A host with one payload, whose file is at the one URI in the artifact directory.
abbrev payload_uri : String
payload_uri = "file:///plane/artifacts/payload"

abbrev locate : String → Location
locate uri = if uri == payload_uri then file_at true hex_digits else external

abbrev host : Host
host = record {
  hexdigest = λ d. hex_digits;
  artifact_uri = λ digest. payload_uri;
  written = locate;
  resolved = locate;
}

host-IsHost : IsHost host
unfolding is_digest has_secret
host-IsHost = record {
  hexadecimal = λ d. refl;
  found = λ d. refl;
  really_found = λ d. refl;
  clean = λ d. refl;
}

abbrev payload : Bytes
payload = 1 ∷ 2 ∷ 3 ∷ []

write-verified_example :
    (ref : ArtifactRef) × ((write host [] payload none).0 ≡ ok ref)
    × (read host (write host [] payload none).1 ref ≡ ok payload)
    × (verify host (write host [] payload none).1 ref ≡ true)
    × (check_ref host (write host [] payload none).1 ref ≡ ok tt)
write-verified_example = write-verified host host-IsHost payload none [] (inl refl)

-- A plane without a run, and one whose run is at its first revision.
abbrev fresh : Plane
fresh = record { artifacts = []; runs = [] }

abbrev first_run : RunDirectory
first_run = record {
  attempts = ("a1", attempt "a" "a1" AttemptStatus.succeeded) ∷ [];
  history = (pos 0, ready_manifest) ∷ [];
  latest = some ready_manifest;
}

abbrev started : Plane
started = record { artifacts = []; runs = ("run", first_run) ∷ [] }

abbrev second_manifest : RunManifest
second_manifest = record ready_manifest { revision = pos 1 }

write_next_manifest-reads_example :
    (manifest ≡ manifest)
    × (current_revision (run_of fresh "run").latest ≡ negsuc 0)
    × (pos 0 ≡ succ_ℤ (negsuc 0))
    × (read_manifest (write_next_manifest host fresh manifest (negsuc 0)).1 "run"
        ≡ ok (some manifest))
    × (revision_file
          (run_of (write_next_manifest host fresh manifest (negsuc 0)).1 "run").history
          (pos 0)
        ≡ some manifest)
    × ((j : String)
        → run_of (write_next_manifest host fresh manifest (negsuc 0)).1 j ≡ (
            if "run" == j
            then run_of (write_next_manifest host fresh manifest (negsuc 0)).1 "run"
            else run_of fresh j))
unfolding write_next_manifest sorted is_safe_component
write_next_manifest-reads_example =
    write_next_manifest-reads host fresh (write_next_manifest host fresh manifest (negsuc 0)).1
      manifest manifest (negsuc 0) refl

write_next_manifest-conflicts_example :
    write_next_manifest host
      (write_next_manifest host fresh manifest (negsuc 0)).1
      ready_manifest
      (negsuc 0)
    ≡ (
      raise (revision_conflict "expected revision, found another"),
      (write_next_manifest host fresh manifest (negsuc 0)).1,
    )
unfolding write_next_manifest validate_manifest sorted is_safe_component
write_next_manifest-conflicts_example =
    write_next_manifest-conflicts host fresh (write_next_manifest host fresh manifest (negsuc 0)).1
      manifest manifest (negsuc 0) ready_manifest refl refl refl

fresh-IsLinear : (j : String) → IsLinear (run_of fresh j)
unfolding run_of revision_file
fresh-IsLinear j = record { newest = λ k h. refl; kept = λ m h. cc }

write_next_manifest-IsLinear_example :
    IsLinear (run_of (write_next_manifest host fresh manifest (negsuc 0)).1 "run")
write_next_manifest-IsLinear_example =
    write_next_manifest-IsLinear host fresh manifest (negsuc 0) fresh-IsLinear "run"

interrupted_write-blocks_example :
    (read_manifest (interrupted_write host started second_manifest (pos 0)) "run"
      ≡ read_manifest started "run")
    × (e : Error) × (write_next_manifest host
          (interrupted_write host started second_manifest (pos 0))
          second_manifest
          (pos 0)
        ≡ (raise e, interrupted_write host started second_manifest (pos 0)))
unfolding next_checks sorted is_safe_component
interrupted_write-blocks_example =
    interrupted_write-blocks host started second_manifest second_manifest (pos 0) second_manifest
      (pos 0) refl refl

some_is : (m n : RunManifest) → some m ≡ some n → m ≡ n
some_is m n h = cc

nothing_newer : (k : ℤ) → ltb_ℤ (pos 0) k ≡ true → revision_file first_run.history k ≡ none
unfolding revision_file
nothing_newer (pos k) h = ground arith
nothing_newer (negsuc k) h = refl

started-IsLinear : IsLinear (run_of started "run")
unfolding run_of revision_file
started-IsLinear = record {
  newest = nothing_newer;
  kept = λ m h. rw (sym (some_is ready_manifest m h)) refl;
}

finalize-publishes_example :
    ((finalize (local_store host) started ready_manifest (pos 0) (output ∷ [])).0
      ≡ ok (finalized_manifest ready_manifest (pos 0) (output ∷ [])))
    × (read_manifest
          (finalize (local_store host) started ready_manifest (pos 0) (output ∷ [])).1
          "run"
        ≡ ok (some (finalized_manifest ready_manifest (pos 0) (output ∷ []))))
unfolding run_of validate_manifest safe_file_component validate_local_refs validate_artifact sorted
    is_safe_component
finalize-publishes_example =
    finalize-publishes host started ready_manifest (output ∷ []) started-IsLinear refl refl refl
      refl refl (output ∷ []) refl refl
