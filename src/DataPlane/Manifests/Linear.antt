-- ===== src/DataPlane/Manifests/Linear.antt =====
-- The revisions of a run are a line: every write keeps them so, and what was written stays.
use portable_batch_execution.Base.{
  String, true, ◌==◌, eq_iff, ◌≡◌, sym, ◌∙◌, ap, none, some, arith, Outcome-cases, ok, inl, inr,
  Bool-cases,
}
use portable_batch_execution.Base.Int.{
  ℤ, eq_ℤ_iff, succ_ℤ, ltb_ℤ, ltb_ℤ-irreflexive, ltb_ℤ-succ, ltb_ℤ-below_succ,
}
use portable_batch_execution.Contracts.Manifest.{RunManifest, validate_manifest}
use portable_batch_execution.DataPlane.Artifacts.{validate_local_refs}
use portable_batch_execution.DataPlane.Attempts.{RunDirectory, Plane, run_of}
use portable_batch_execution.DataPlane.Host.{Host}
use portable_batch_execution.DataPlane.Manifests.{
  revision_file, current_revision, next_checks, write_next_manifest,
}
use portable_batch_execution.DataPlane.Manifests.Checks.{
  IsNext, next_checks-IsNext, next_checks_pass,
}
use portable_batch_execution.DataPlane.Manifests.Swap.{
  with_manifest, published, run_of-published, write_ok, write_raise,
}
use portable_batch_execution.Names.{safe_file_component}

-- No file is beyond the current revision, and the current manifest is in the file of its revision.
pub record IsLinear (r : RunDirectory) : Type 0 where
  pub newest :
      (k : ℤ) → ltb_ℤ (current_revision r.latest) k ≡ true → revision_file r.history k ≡ none
  pub kept : (m : RunManifest) → r.latest ≡ some m → revision_file r.history m.revision ≡ some m

some_inj : {A : Type 0} {a b : A} → some a ≡ some b → a ≡ b
some_inj h = cc

with_manifest-IsLinear :
    (host : Host) (s : Plane) (m : RunManifest) (expected : ℤ)
    → IsNext host s m expected
    → IsLinear (run_of s m.logical_run_id)
    → IsLinear (with_manifest (run_of s m.logical_run_id) m)
unfolding revision_file
with_manifest-IsLinear host s m expected next l = record {
  newest = λ k h.
      let below = ltb_ℤ-below_succ expected k (ap (λ r. ltb_ℤ r k) (sym next.next) ∙ h) in
      ground (
        arith,
        l.newest k (ap (λ r. ltb_ℤ r k) next.current ∙ below),
        eq_ℤ_iff m.revision k,
        ltb_ℤ-irreflexive k,
      );
  kept = λ n h. rw (sym (some_inj h)) (ground (arith, eq_ℤ_iff m.revision m.revision));
}

with_manifest-keeps :
    (host : Host) (s : Plane) (m : RunManifest) (expected : ℤ)
    → IsNext host s m expected
    → (k : ℤ) (old : RunManifest) → revision_file (run_of s m.logical_run_id).history k ≡ some old
    → revision_file (with_manifest (run_of s m.logical_run_id) m).history k ≡ some old
unfolding revision_file
with_manifest-keeps host s m expected next k old h =
    ground (arith, next.fresh, eq_ℤ_iff m.revision k)

-- What holds of the run written and of the others holds of every run.
published_ind :
    (P : RunDirectory → Type 0) (s : Plane) (m : RunManifest) (j : String)
    → (m.logical_run_id ≡ j → P (with_manifest (run_of s m.logical_run_id) m))
    → P (run_of s j)
    → P (run_of (published s m) j)
published_ind P s m j here there =
    rw (run_of-published s m j) (elim (Bool-cases (m.logical_run_id == j)) [
      | inl e ↦ rw e (here ((eq_iff m.logical_run_id j).0 e))
      | inr e ↦ rw e there
    ])

module _ (host : Host) (s : Plane) (m : RunManifest) (expected : ℤ) where
  -- A file of a revision, once there, is never changed or removed by a write of a manifest, whatever
  -- the run, and whether the write returns or raises.
  write_next_manifest-keeps_history :
      (j : String) (k : ℤ) (old : RunManifest)
      → revision_file (run_of s j).history k ≡ some old
      → revision_file (run_of (write_next_manifest host s m expected).1 j).history k ≡ some old
  write_next_manifest-keeps_history j k old h =
      elim (Outcome-cases (next_checks host s m expected)) [
        | inl (n, e) ↦
            rw (write_ok host s m expected n e)
              let (_, next) = next_checks-IsNext host s m n expected e in
                published_ind (λ r. revision_file r.history k ≡ some old) s n j
                  (λ same.
                    with_manifest-keeps host s n expected next k old
                      (ap (λ i. revision_file (run_of s i).history k) same ∙ h))
                  h
        | inr (err, e) ↦ rw (write_raise host s m expected err e) h
      ]

  -- If the revisions of every run are a line, they are after a write, whether it returns or raises.
  pub write_next_manifest-IsLinear :
      ((j : String) → IsLinear (run_of s j))
      → (j : String) → IsLinear (run_of (write_next_manifest host s m expected).1 j)
  write_next_manifest-IsLinear l j = elim (Outcome-cases (next_checks host s m expected)) [
    | inl (n, e) ↦
        rw (write_ok host s m expected n e)
          let (_, next) = next_checks-IsNext host s m n expected e in
            published_ind IsLinear s n j
              (λ _. with_manifest-IsLinear host s n expected next (l n.logical_run_id)) (l j)
    | inr (err, e) ↦ rw (write_raise host s m expected err e) (l j)
  ]

  -- If the revisions of the run are a line, a valid manifest whose run is well named, whose revision
  -- follows the expected one, which is the current one, and whose references pass is written.
  pub write_next_manifest-succeeds :
      IsLinear (run_of s m.logical_run_id)
      → validate_manifest m ≡ ok m
      → safe_file_component m.logical_run_id ≡ ok m.logical_run_id
      → current_revision (run_of s m.logical_run_id).latest ≡ expected
      → m.revision ≡ succ_ℤ expected
      → validate_local_refs host s.artifacts m.final_output_refs ≡ ok tt
      → (write_next_manifest host s m expected).0 ≡ ok m
  write_next_manifest-succeeds l valid named current next refs =
      ap (λ r. r.0)
        (write_ok host s m expected m (
          next_checks_pass host s m expected valid named record {
            valid = valid;
            named = named;
            current = current;
            next = next;
            refs = refs;
            fresh = l.newest m.revision (
                ap (λ r. ltb_ℤ r m.revision) current
                ∙ (ap (ltb_ℤ expected) next ∙ ltb_ℤ-succ expected));
          }))
