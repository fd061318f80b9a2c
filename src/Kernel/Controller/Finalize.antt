-- ===== src/Kernel/Controller/Finalize.antt =====
-- What `finalize` writes, and when its validator accepts it.
use portable_batch_execution.Base.{
  true, ◌≡◌, List, [], ◌∷◌, arith, if◌then◌else◌, ok, raise, value_error,
}
use portable_batch_execution.Base.Int.{ℤ}
use portable_batch_execution.Contracts.Artifact.{ArtifactRef}
use portable_batch_execution.Contracts.Attempt.{is_empty}
use portable_batch_execution.Contracts.Manifest.{RunManifest, is_ready, manifest_invariants}
use portable_batch_execution.Contracts.Manifest.Facts.{manifest_invariants_sound}
use portable_batch_execution.Kernel.Controller.{finalized_manifest}

-- Of a valid manifest that is ready, the finalized one is valid exactly if there are output
-- references: without them, the validator raises.
pub finalized_manifest-valid :
    (m : RunManifest) (expected_revision : ℤ) (output_refs : List ArtifactRef)
    → manifest_invariants m ≡ ok tt
    → is_ready m.finalization_status ≡ true
    → manifest_invariants (finalized_manifest m expected_revision output_refs) ≡ (
        if is_empty output_refs
        then raise (value_error "finalized manifest requires succeeded status and outputs")
        else ok tt)
unfolding manifest_invariants
finalized_manifest-valid m expected_revision [] valid ready =
    let h = manifest_invariants_sound m valid in
    rw (h.in_order, h.expected_once, h.known, h.canonical_once, h.canonical_good, h.completed)
finalized_manifest-valid m expected_revision (r ∷ refs) valid ready =
    let h = manifest_invariants_sound m valid in
    rw (h.in_order, h.expected_once, h.known, h.canonical_once, h.canonical_good, h.completed)
      (ground (arith, h.unblocked))
