-- ===== src/DataPlane/Manifests/Swap.antt =====
-- What a write of the next manifest leaves behind: the run with one more revision, or the same state.
use portable_batch_execution.Base.{
  String, ◌==◌, eq_iff, ◌≡◌, sym, ◌∙◌, ap, some, ◌∷◌, arith, if◌then◌else◌, Error, Outcome-cases,
  inl, inr, ok, raise,
}
use portable_batch_execution.Base.Int.{ℤ}
use portable_batch_execution.Contracts.Manifest.{RunManifest}
use portable_batch_execution.DataPlane.Attempts.{RunDirectory, Plane, run_of}
use portable_batch_execution.DataPlane.Attempts.Records.{run_of-put_run}
use portable_batch_execution.DataPlane.Host.{Host}
use portable_batch_execution.DataPlane.Manifests.{
  next_checks, publish_revision, publish_latest, write_next_manifest,
}
use portable_batch_execution.DataPlane.Manifests.Checks.{ok_inj}

-- The run after a write of `m`.
abbrev pub with_manifest : RunDirectory → RunManifest → RunDirectory
with_manifest r m = record r { history = (m.revision, m) ∷ r.history; latest = some m }

pub published : Plane → RunManifest → Plane
unfolding publish_latest publish_revision
published s m = publish_latest (publish_revision s m) m

pub run_of-published :
    (s : Plane) (m : RunManifest) (j : String)
    → run_of (published s m) j
      ≡ (if m.logical_run_id == j then with_manifest (run_of s m.logical_run_id) m else run_of s j)
unfolding published
run_of-published s m j = ground (
  arith,
  run_of-put_run (publish_revision s m) m.logical_run_id j
      (record (run_of (publish_revision s m) m.logical_run_id) { latest = some m }),
  run_of-put_run s m.logical_run_id j (record (run_of s m.logical_run_id) {
    history = (m.revision, m) ∷ (run_of s m.logical_run_id).history;
  }),
  run_of-put_run s m.logical_run_id m.logical_run_id (record (run_of s m.logical_run_id) {
    history = (m.revision, m) ∷ (run_of s m.logical_run_id).history;
  }),
  eq_iff m.logical_run_id j,
  eq_iff m.logical_run_id m.logical_run_id,
)

module _ (host : Host) (s : Plane) (m : RunManifest) (expected : ℤ) where
  pub write_ok :
      (n : RunManifest)
      → next_checks host s m expected ≡ ok n
      → write_next_manifest host s m expected ≡ (ok n, published s n)
  unfolding write_next_manifest published
  write_ok n h = rw (h, write_next_manifest)

  pub write_raise :
      (e : Error)
      → next_checks host s m expected ≡ raise e
      → write_next_manifest host s m expected ≡ (raise e, s)
  unfolding write_next_manifest
  write_raise e h = rw (h, write_next_manifest)

  -- A write that returns has passed the checks, and its state is the published one.
  pub write_ok_inv :
      (n : RunManifest) (s' : Plane)
      → write_next_manifest host s m expected ≡ (ok n, s')
      → (next_checks host s m expected ≡ ok n) × (s' ≡ published s n)
  write_ok_inv n s' h = elim (Outcome-cases (next_checks host s m expected)) [
    | inl (k, e) ↦
        let same = sym (write_ok k e) ∙ h in
        let kn = ap (λ r. r.0) same in
        (e ∙ kn, sym (ap (λ r. r.1) same) ∙ ap (published s) (ok_inj kn))
    | inr (err, e) ↦ let wrong = ap (λ r. r.0) (sym (write_raise err e) ∙ h) in cc
  ]
