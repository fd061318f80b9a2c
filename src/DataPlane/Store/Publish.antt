-- ===== src/DataPlane/Store/Publish.antt =====
-- The controller over the local data plane: a run that is ready is finalized and read back.
use portable_batch_execution.Base.{true, false, ◌≡◌, refl, ◌∙◌, ap, some, List, arith, ok, traverse}
use portable_batch_execution.Base.Int.{ℤ, pos, negsuc, eq_ℤ_iff, succ_ℤ, ltb_ℤ}
use portable_batch_execution.Contracts.Artifact.{ArtifactRef, validate_artifact}
use portable_batch_execution.Contracts.Attempt.{is_empty}
use portable_batch_execution.Contracts.Manifest.{RunManifest, is_ready, validate_manifest}
use portable_batch_execution.Contracts.Manifest.Checks.{
  validate_manifest-IsChecked, validate_manifest-pass,
}
use portable_batch_execution.DataPlane.Artifacts.{validate_local_refs}
use portable_batch_execution.DataPlane.Attempts.{Plane, run_of}
use portable_batch_execution.DataPlane.Host.{Host}
use portable_batch_execution.DataPlane.Manifests.{
  current_revision, read_manifest, write_next_manifest,
}
use portable_batch_execution.DataPlane.Manifests.Linear.{IsLinear, write_next_manifest-succeeds}
use portable_batch_execution.DataPlane.Manifests.Writers.{write_next_manifest-reads}
use portable_batch_execution.DataPlane.Store.{local_store}
use portable_batch_execution.Kernel.Controller.{finalized_manifest, finalize}
use portable_batch_execution.Kernel.Controller.Finalize.{finalized_manifest-valid}
use portable_batch_execution.Names.{safe_file_component}

not_negative-succ : (r : ℤ) → ltb_ℤ r (pos 0) ≡ false → ltb_ℤ (succ_ℤ r) (pos 0) ≡ false
not_negative-succ (pos n) h = ground arith
not_negative-succ (negsuc n) h = ground arith

module _ (host : Host) (s : Plane) (m : RunManifest) (output_refs : List ArtifactRef) where
  next-valid :
      validate_manifest m ≡ ok m
      → is_ready m.finalization_status ≡ true
      → is_empty output_refs ≡ false
      → (rs : List ArtifactRef) → traverse validate_artifact output_refs ≡ ok rs
      → validate_manifest (finalized_manifest m m.revision output_refs)
        ≡ ok (finalized_manifest m m.revision output_refs)
  next-valid valid ready some_refs rs refs =
      let h = validate_manifest-IsChecked m m valid in
      validate_manifest-pass _ record {
        not_negative = not_negative-succ m.revision h.not_negative;
        waves = h.waves;
        discovered = h.discovered;
        canonical = h.canonical;
        refs = (rs, refs);
        invariants =
            finalized_manifest-valid m m.revision output_refs h.invariants ready
            ∙ rw some_refs refl;
      }

  finalize_ready :
      is_ready m.finalization_status ≡ true
      → finalize (local_store host) s m m.revision output_refs
        ≡ write_next_manifest host s (finalized_manifest m m.revision output_refs) m.revision
  unfolding finalize
  finalize_ready ready = rw ((eq_ℤ_iff m.revision m.revision).1 refl, ready)

  -- Given a manifest that is the current one of its run, is valid and is ready, a run whose revisions
  -- are a line and that is well named, and output references that are there, are valid and pass the
  -- data plane's checks: `finalize`, expecting the manifest's revision, returns, and `read_manifest`
  -- then returns the finalized manifest, of the next revision.
  pub finalize-publishes :
      IsLinear (run_of s m.logical_run_id)
      → (run_of s m.logical_run_id).latest ≡ some m
      → validate_manifest m ≡ ok m
      → safe_file_component m.logical_run_id ≡ ok m.logical_run_id
      → is_ready m.finalization_status ≡ true
      → is_empty output_refs ≡ false
      → (rs : List ArtifactRef) → traverse validate_artifact output_refs ≡ ok rs
      → validate_local_refs host s.artifacts output_refs ≡ ok tt
      → ((finalize (local_store host) s m m.revision output_refs).0
          ≡ ok (finalized_manifest m m.revision output_refs))
        × (read_manifest (finalize (local_store host) s m m.revision output_refs).1 m.logical_run_id
            ≡ ok (some (finalized_manifest m m.revision output_refs)))
  finalize-publishes linear current valid named ready some_refs rs refs local =
      let next = finalized_manifest m m.revision output_refs in
      let wrote =
        write_next_manifest-succeeds host s next m.revision linear
          (next-valid valid ready some_refs rs refs) named (ap current_revision current) refl
          local in
      let after = (write_next_manifest host s next m.revision).1 in
      let reads =
        write_next_manifest-reads host s after next next m.revision (ap (λ o. (o, after)) wrote) in
      rw (finalize_ready ready) (wrote, reads.3)
