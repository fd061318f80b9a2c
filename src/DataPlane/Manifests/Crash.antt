-- ===== src/DataPlane/Manifests/Crash.antt =====
-- A process that stops between the two writes of `write_next_manifest`.
use portable_batch_execution.Base.{
  eq_iff, ◌≡◌, sym, ◌∙◌, ap, none, some, ◌∷◌, arith, Outcome-cases, ok, raise, inl, inr, Error,
  ◌>>=◌,
}
use portable_batch_execution.Base.Int.{ℤ, eq_ℤ_iff, succ_ℤ}
use portable_batch_execution.Contracts.Manifest.{RunManifest}
use portable_batch_execution.DataPlane.Attempts.{RunDirectory, Plane, run_of}
use portable_batch_execution.DataPlane.Attempts.Records.{run_of-put_run}
use portable_batch_execution.DataPlane.Host.{Host}
use portable_batch_execution.DataPlane.Manifests.{
  revision_file, current_revision, read_manifest, next_checks, publish_revision,
  write_next_manifest, interrupted_write,
}
use portable_batch_execution.DataPlane.Manifests.Checks.{IsNext, next_checks-IsNext}
use portable_batch_execution.DataPlane.Manifests.Swap.{write_raise}
use portable_batch_execution.Names.{safe_file_component}

-- The run after the first of the two writes.
half_written : RunDirectory → RunManifest → RunDirectory
half_written r m = record r { history = (m.revision, m) ∷ r.history }

run_of-publish_revision :
    (s : Plane) (m : RunManifest)
    → run_of (publish_revision s m) m.logical_run_id ≡ half_written (run_of s m.logical_run_id) m
unfolding publish_revision half_written
run_of-publish_revision s m = ground (
  arith,
  eq_iff m.logical_run_id m.logical_run_id,
  run_of-put_run s m.logical_run_id m.logical_run_id (half_written (run_of s m.logical_run_id) m),
)

interrupted_ok :
    (host : Host) (s : Plane) (m n : RunManifest) (expected : ℤ)
    → next_checks host s m expected ≡ ok n
    → interrupted_write host s m expected ≡ publish_revision s n
unfolding interrupted_write
interrupted_ok host s m n expected h = rw (h, interrupted_write)

-- The file of the next revision is there, so no manifest passes the checks.
blocked :
    (host : Host) (s : Plane) (m n : RunManifest) (expected later : ℤ) (next k : RunManifest)
    → IsNext host s n expected
    → next.logical_run_id ≡ n.logical_run_id
    → next_checks host (publish_revision s n) next later ≡ ok k
    → some n ≡ none
unfolding revision_file half_written
blocked host s m n expected later next k first same_run h =
    let (same, late) = next_checks-IsNext host (publish_revision s n) next k later h in
    let run =
      ap (run_of (publish_revision s n)) (ap (λ x. x.logical_run_id) (sym same) ∙ same_run)
      ∙ run_of-publish_revision s n in
    let now = sym late.current ∙ (ap (λ r. current_revision r.latest) run ∙ first.current) in
    let again = late.next ∙ (ap succ_ℤ now ∙ sym first.next) in
    sym (ground (arith, eq_ℤ_iff n.revision n.revision))
    ∙ (ap (λ i. revision_file (half_written (run_of s n.logical_run_id) n).history i) (sym again)
        ∙ (ap (λ r. revision_file r.history k.revision) (sym run) ∙ late.fresh))

module _ (host : Host) (s : Plane) (m n : RunManifest) (expected : ℤ) where
  unread :
      next_checks host s m expected ≡ ok n
      → read_manifest (interrupted_write host s m expected) n.logical_run_id
        ≡ read_manifest s n.logical_run_id
  unfolding read_manifest half_written
  unread h = rw (interrupted_ok host s m n expected h) (
      ap (λ r. safe_file_component n.logical_run_id >>= λ _. ok r.latest)
        (run_of-publish_revision s n))

  refuses :
      (next : RunManifest) (later : ℤ)
      → next_checks host s m expected ≡ ok n
      → next.logical_run_id ≡ n.logical_run_id
      → (e : Error) × (write_next_manifest host (interrupted_write host s m expected) next later
          ≡ (raise e, interrupted_write host s m expected))
  refuses next later h same_run =
      let (_, first) = next_checks-IsNext host s m n expected h in
      rw (interrupted_ok host s m n expected h)
        (elim (Outcome-cases (next_checks host (publish_revision s n) next later)) [
          | inl (k, e) ↦ let wrong = blocked host s m n expected later next k first same_run e in cc
          | inr (err, e) ↦ (err, write_raise host (publish_revision s n) next later err e)
        ])

  -- When the process stops between the two writes of a write that passed its checks, the run is
  -- stuck: `read_manifest` still returns what it did, while every write to the run from then on,
  -- whatever its manifest and the revision it expects, raises and changes nothing.
  pub interrupted_write-blocks :
      (next : RunManifest) (later : ℤ)
      → next_checks host s m expected ≡ ok n
      → next.logical_run_id ≡ n.logical_run_id
      → (read_manifest (interrupted_write host s m expected) n.logical_run_id
          ≡ read_manifest s n.logical_run_id)
        × (e : Error) × (write_next_manifest host (interrupted_write host s m expected) next later
            ≡ (raise e, interrupted_write host s m expected))
  interrupted_write-blocks next later h same_run =
      let (e, refused) = refuses next later h same_run in (unread h, e, refused)
