-- ===== src/DataPlane/Manifests/Writers.antt =====
-- Compare and swap: what a write of the next manifest does to its run, and to a second writer.
use portable_batch_execution.Base.{
  String, ◌==◌, eq_iff, ◌≡◌, sym, ◌∙◌, ap, some, arith, if◌then◌else◌, ok, raise, revision_conflict,
}
use portable_batch_execution.Base.Int.{ℤ, eq_ℤ, eq_ℤ_iff, succ_ℤ, succ_ℤ-ne}
use portable_batch_execution.Contracts.Manifest.{RunManifest, validate_manifest}
use portable_batch_execution.DataPlane.Attempts.{Plane, run_of}
use portable_batch_execution.DataPlane.Host.{Host}
use portable_batch_execution.DataPlane.Manifests.{
  revision_file, current_revision, read_manifest, write_next_manifest,
}
use portable_batch_execution.DataPlane.Manifests.Checks.{next_checks-IsNext, next_checks_late}
use portable_batch_execution.DataPlane.Manifests.Swap.{
  with_manifest, published, run_of-published, write_raise, write_ok_inv,
}
use portable_batch_execution.Names.{safe_file_component}

run_of-published_self :
    (s : Plane) (m : RunManifest)
    → run_of (published s m) m.logical_run_id ≡ with_manifest (run_of s m.logical_run_id) m
run_of-published_self s m =
    ground (arith, run_of-published s m m.logical_run_id, eq_iff m.logical_run_id m.logical_run_id)

read_manifest-published :
    (s : Plane) (m : RunManifest)
    → safe_file_component m.logical_run_id ≡ ok m.logical_run_id
    → read_manifest (published s m) m.logical_run_id ≡ ok (some m)
unfolding read_manifest
read_manifest-published s m h = rw (h, run_of-published_self s m)

revision_file-published :
    (s : Plane) (m : RunManifest)
    → revision_file (run_of (published s m) m.logical_run_id).history m.revision ≡ some m
unfolding revision_file
revision_file-published s m =
    rw (run_of-published_self s m) (ground (arith, eq_ℤ_iff m.revision m.revision))

module _ (host : Host) (s s' : Plane) (m n : RunManifest) (expected : ℤ) where
  -- A write that returns has written: it returns the manifest it was given, whose revision follows
  -- the expected one, which was the current one. From then on `read_manifest` returns it, the file
  -- of its revision holds it, and the other runs are as they were.
  pub write_next_manifest-reads :
      write_next_manifest host s m expected ≡ (ok n, s')
      → (m ≡ n)
        × (current_revision (run_of s n.logical_run_id).latest ≡ expected)
        × (n.revision ≡ succ_ℤ expected)
        × (read_manifest s' n.logical_run_id ≡ ok (some n))
        × (revision_file (run_of s' n.logical_run_id).history n.revision ≡ some n)
        × ((j : String)
            → run_of s' j
              ≡ (if n.logical_run_id == j then run_of s' n.logical_run_id else run_of s j))
  write_next_manifest-reads h =
      let (checks, after) = write_ok_inv host s m expected n s' h in
      let (same, is_next) = next_checks-IsNext host s m n expected checks in
      rw after (
        same,
        is_next.current,
        is_next.next,
        read_manifest-published s n is_next.named,
        revision_file-published s n,
        λ j. ground (
          arith,
          run_of-published s n j,
          run_of-published s n n.logical_run_id,
          eq_iff n.logical_run_id j,
          eq_iff n.logical_run_id n.logical_run_id,
        ),
      )

  -- After a write that returns, a second writer to the same run that expected the same revision, with
  -- a manifest that is valid by itself, gets a revision conflict and changes nothing.
  pub write_next_manifest-conflicts :
      (rival : RunManifest)
      → write_next_manifest host s m expected ≡ (ok n, s')
      → rival.logical_run_id ≡ n.logical_run_id
      → validate_manifest rival ≡ ok rival
      → write_next_manifest host s' rival expected
        ≡ (raise (revision_conflict "expected revision, found another"), s')
  write_next_manifest-conflicts rival h same_run valid =
      let (checks, after) = write_ok_inv host s m expected n s' h in
      let (same, is_next) = next_checks-IsNext host s m n expected checks in
      let named = ap safe_file_component same_run ∙ (is_next.named ∙ ap ok (sym same_run)) in
      let late =
        ap (λ r. eq_ℤ (current_revision r.latest) expected)
          (ap (run_of s') same_run
            ∙ (ap (λ t. run_of t n.logical_run_id) after ∙ run_of-published_self s n))
        ∙ (ap (λ r. eq_ℤ r expected) is_next.next ∙ succ_ℤ-ne expected) in
      write_raise host s' rival expected _
        (next_checks_late host s' rival expected valid named late)
