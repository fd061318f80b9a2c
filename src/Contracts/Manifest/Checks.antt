-- ===== src/Contracts/Manifest/Checks.antt =====
-- The steps of `RunManifest.model_validate`, apart.
use portable_batch_execution.Base.{
  false, ◌≡◌, ap, List, ok, raise_if, traverse, ◌>>◌, >>=-returns, raise_if-eq-ok,
}
use portable_batch_execution.Base.Int.{pos, ltb_ℤ}
use portable_batch_execution.Contracts.Artifact.{ArtifactRef, validate_artifact}
use portable_batch_execution.Contracts.Attempt.{ShardAttemptRecord, validate_attempt}
use portable_batch_execution.Contracts.Manifest.{
  RunManifest, manifest_invariants, manifest_checks, validate_manifest,
}
use portable_batch_execution.Contracts.Shard.{WaveSpec, validate_wave}

-- What the validation of a manifest goes through.
pub record IsChecked (m : RunManifest) : Type 0 where
  pub not_negative : ltb_ℤ m.revision (pos 0) ≡ false
  pub waves : (ws : List WaveSpec) × (traverse validate_wave m.waves ≡ ok ws)
  pub discovered :
      (rs : List ShardAttemptRecord) × (traverse validate_attempt m.discovered_attempts ≡ ok rs)
  pub canonical :
      (rs : List ShardAttemptRecord) × (traverse validate_attempt m.canonical_attempts ≡ ok rs)
  pub refs : (rs : List ArtifactRef) × (traverse validate_artifact m.final_output_refs ≡ ok rs)
  pub invariants : manifest_invariants m ≡ ok tt

pub manifest_checks-IsChecked : (m : RunManifest) → manifest_checks m ≡ ok tt → IsChecked m
unfolding manifest_checks
manifest_checks-IsChecked m h =
    let (_, not_negative, h1) = >>=-returns (raise_if (ltb_ℤ m.revision (pos 0)) _) _ h in
    let (ws, waves, h2) = >>=-returns (traverse validate_wave m.waves) _ h1 in
    let (ds, discovered, h3) = >>=-returns (traverse validate_attempt m.discovered_attempts) _ h2 in
    let (cs, canonical, h4) = >>=-returns (traverse validate_attempt m.canonical_attempts) _ h3 in
    let (rs, refs, h5) = >>=-returns (traverse validate_artifact m.final_output_refs) _ h4 in
    record {
      not_negative = raise_if-eq-ok _ _ not_negative;
      waves = (ws, waves);
      discovered = (ds, discovered);
      canonical = (cs, canonical);
      refs = (rs, refs);
      invariants = h5;
    }

pub manifest_checks-pass : (m : RunManifest) → IsChecked m → manifest_checks m ≡ ok tt
unfolding manifest_checks
manifest_checks-pass m h =
    rw (h.not_negative, h.waves.1, h.discovered.1, h.canonical.1, h.refs.1) h.invariants

pub validate_manifest-IsChecked : (m n : RunManifest) → validate_manifest m ≡ ok n → IsChecked m
unfolding validate_manifest
validate_manifest-IsChecked m n h =
    let (_, checks, _) = >>=-returns (manifest_checks m) _ h in manifest_checks-IsChecked m checks

pub validate_manifest-pass : (m : RunManifest) → IsChecked m → validate_manifest m ≡ ok m
unfolding validate_manifest
validate_manifest-pass m h = ap (λ o. o >> ok m) (manifest_checks-pass m h)
