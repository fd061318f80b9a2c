-- ===== src/DataPlane/Manifests/Checks.antt =====
-- What the checks before a write of the next manifest let through.
use portable_batch_execution.Base.{
  raise, revision_conflict, String, Bool, true, false, not, ◌≡◌, refl, sym, ◌∙◌, ap, Option, none,
  some, arith, ok, raise, revision_conflict, raise_if, >>=-returns, raise_if-eq-ok,
}
use portable_batch_execution.Base.Int.{eq_ℤ, ℤ, eq_ℤ, eq_ℤ_iff, succ_ℤ}
use portable_batch_execution.Contracts.Manifest.{RunManifest, manifest_checks, validate_manifest}
use portable_batch_execution.DataPlane.Artifacts.{validate_local_refs}
use portable_batch_execution.DataPlane.Attempts.{Plane, run_of}
use portable_batch_execution.DataPlane.Host.{Host}
use portable_batch_execution.DataPlane.Manifests.{
  revision_file, current_revision, is_there, next_checks,
}
use portable_batch_execution.Names.{is_safe_component, safe_file_component}

-- What the checks of a write that goes through have found.
pub record IsNext (host : Host) (s : Plane) (m : RunManifest) (expected_revision : ℤ) : Type 0 where
  pub valid : validate_manifest m ≡ ok m
  pub named : safe_file_component m.logical_run_id ≡ ok m.logical_run_id
  pub current : current_revision (run_of s m.logical_run_id).latest ≡ expected_revision
  pub next : m.revision ≡ succ_ℤ expected_revision
  pub refs : validate_local_refs host s.artifacts m.final_output_refs ≡ ok tt
  pub fresh : revision_file (run_of s m.logical_run_id).history m.revision ≡ none

pub ok_inj : {A : Type 0} {a b : A} → ok a ≡ ok b → a ≡ b
ok_inj h = cc

validate_manifest_same : (m n : RunManifest) → validate_manifest m ≡ ok n → m ≡ n
unfolding validate_manifest
validate_manifest_same m n h =
    let (_, _, h1) = >>=-returns (manifest_checks m) (λ _. ok m) h in ok_inj h1

pub safe_file_component_same : (t u : String) → safe_file_component t ≡ ok u → t ≡ u
unfolding safe_file_component
safe_file_component_same t u h =
    let (_, _, h1) = >>=-returns (raise_if (not (is_safe_component t)) _) _ h in ok_inj h1

is_there-none : (o : Option RunManifest) → is_there o ≡ false → o ≡ none
is_there-none none h = refl
is_there-none (some m) h = cc

of_negation : (b : Bool) → not b ≡ false → b ≡ true
of_negation true h = refl
of_negation false h = cc

valid_again : (m k : RunManifest) → validate_manifest m ≡ ok k → validate_manifest k ≡ ok k
valid_again m k h =
    rw (sym (validate_manifest_same m k h)) (h ∙ ap ok (sym (validate_manifest_same m k h)))

pub next_checks-IsNext :
    (host : Host) (s : Plane) (m n : RunManifest) (e : ℤ)
    → next_checks host s m e ≡ ok n
    → (m ≡ n) × IsNext host s n e
unfolding next_checks
next_checks-IsNext host s m n e h =
    let (k, valid, h1) = >>=-returns (validate_manifest m) _ h in
    let (i, named, h2) = >>=-returns (safe_file_component k.logical_run_id) _ h1 in
    let (_, current, h3) = >>=-returns (raise_if _ _) _ h2 in
    let (_, next, h4) = >>=-returns (raise_if _ _) _ h3 in
    let (_, refs, h5) =
      >>=-returns (validate_local_refs host s.artifacts k.final_output_refs) _ h4 in
    let (_, fresh, h6) = >>=-returns (raise_if _ _) _ h5 in
    let same = ok_inj h6 in
    let valid_self = validate_manifest_same m k valid in
    rw (sym same) (
      valid_self,
      record {
        valid = valid_again m k valid;
        named = named ∙ ap ok (sym (safe_file_component_same _ i named));
        current = (eq_ℤ_iff _ e).0 (of_negation _ (raise_if-eq-ok _ _ current));
        next = (eq_ℤ_iff _ (succ_ℤ e)).0 (of_negation _ (raise_if-eq-ok _ _ next));
        refs = refs;
        fresh = is_there-none _ (raise_if-eq-ok _ _ fresh);
      },
    )

-- The checks after the manifest is valid, and its run well named.
module _ (host : Host) (s : Plane) (m : RunManifest) (e : ℤ) (valid : validate_manifest m ≡ ok m)
    (named : safe_file_component m.logical_run_id ≡ ok m.logical_run_id) where
  pub next_checks_late :
      eq_ℤ (current_revision (run_of s m.logical_run_id).latest) e ≡ false
      → next_checks host s m e ≡ raise (revision_conflict "expected revision, found another")
  unfolding next_checks
  next_checks_late late = rw (valid, named, late)

  pub next_checks_pass : IsNext host s m e → next_checks host s m e ≡ ok m
  unfolding next_checks
  next_checks_pass n =
      rw (valid, named, n.refs, n.fresh, n.current, n.next)
        (ground (arith, eq_ℤ_iff e e, eq_ℤ_iff (succ_ℤ e) (succ_ℤ e)))
