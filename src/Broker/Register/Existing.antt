-- ===== src/Broker/Register/Existing.antt =====
-- The registration of a request whose wave is in the registry: what it leaves behind.
use portable_batch_execution.A1Controller.{ControllerRoot}
use portable_batch_execution.A1Controller.Python.{Runtime}
use portable_batch_execution.Base.{
  refl, backend_transport_error, backend_api_error, lock_error, lock_timeout, index_error,
  file_not_found, overflow_error, attribute_error, type_error, key_error, none, ok-injective,
  runtime_error, value_error, Option, false, revision_conflict, raise, true, ◌∙◌, ap, subst, sym,
  some, Outcome, ok, ◌≡◌, Bool, String,
}
use portable_batch_execution.Base.Exec.{fail, read_then-returns, and_then-returns, done}
use portable_batch_execution.Base.Int.{negsuc}
use portable_batch_execution.Broker.Planning.{opaque_wave_id, opaque_run_id, Asked}
use portable_batch_execution.Broker.Register.{initial_manifest, RegisteredRun, Parts, Surroundings}
use portable_batch_execution.Broker.Register.Call.{
  repaired_run, repair_checks, in_plane, publish_or_read, repair_manifest, with_manifest,
  bound_parts, await_lock, lock_unless_held, published_or_current,
}
use portable_batch_execution.Broker.Register.Registered.{IsRegistered}
use portable_batch_execution.Contracts.Manifest.{RunManifest}
use portable_batch_execution.DataPlane.Attempts.{Plane}
use portable_batch_execution.DataPlane.Host.{Host}
use portable_batch_execution.DataPlane.Manifests.{read_manifest, write_next_manifest}
use portable_batch_execution.DataPlane.Manifests.Writers.{write_next_manifest-reads}
use portable_batch_execution.Registry.{resolve_wave, Bundle}

-- Of a write that returns or finds another's manifest: the manifest is then the current one.
published-current :
    (host : Host) (m found : RunManifest) (run_id : String) (s after : Plane)
    (wrote : Outcome RunManifest × Plane)
    → wrote ≡ write_next_manifest host s m (negsuc 0)
    → m.logical_run_id ≡ run_id
    → published_or_current m run_id wrote ≡ (ok (some found), after)
    → read_manifest after run_id ≡ ok (some found)
unfolding published_or_current
published-current host m found run_id s after (ok written, t) e same h =
    let reads = write_next_manifest-reads host s t m written (negsuc 0) (sym e) in
    let there : read_manifest t run_id ≡ ok (some written) =
      subst (λ i. read_manifest t i ≡ ok (some written))
        (ap (λ k. k.logical_run_id) (sym reads.0) ∙ same) reads.3 in
    let m_found : m ≡ found = cc (h) in
    subst (λ u. read_manifest u run_id ≡ ok (some found)) (ap (λ p. p.1) h)
      (subst (λ k. read_manifest t run_id ≡ ok (some k)) (sym reads.0 ∙ m_found) there)
published-current host m found run_id s after (raise (revision_conflict why), t) e same h =
    subst (λ u. read_manifest u run_id ≡ ok (some found)) (ap (λ p. p.1) h) (ap (λ p. p.0) h)
published-current host m found run_id s after (raise (value_error why), t) e same h = cc
published-current host m found run_id s after (raise type_error, t) e same h = cc
published-current host m found run_id s after (raise attribute_error, t) e same h = cc
published-current host m found run_id s after (raise overflow_error, t) e same h = cc
published-current host m found run_id s after (raise file_not_found, t) e same h = cc
published-current host m found run_id s after (raise index_error, t) e same h = cc
published-current host m found run_id s after (raise lock_timeout, t) e same h = cc
published-current host m found run_id s after (raise lock_error, t) e same h = cc
published-current host m found run_id s after (raise backend_api_error, t) e same h = cc
published-current host m found run_id s after (raise backend_transport_error, t) e same h = cc
published-current host m found run_id s after (raise (runtime_error why), t) e same h = cc
published-current host m found run_id s after (raise (key_error why), t) e same h = cc

-- What others do to the registry keeps the waves that are in it.
pub record KeepsWaves (others : ControllerRoot → ControllerRoot) : Type 0 where
  pub keeps :
      (root : ControllerRoot) (run_id wave_id : String) (b : Bundle)
      → resolve_wave root.registry run_id wave_id ≡ ok b
      → resolve_wave (others root).registry run_id wave_id ≡ ok b

-- The wave of the run, as the registry has it.
abbrev pub HasWave : Runtime → ControllerRoot → Asked → Bundle → Type 0
HasWave r root asked b =
    resolve_wave root.registry (opaque_run_id r asked.request_id)
      (opaque_wave_id r asked.request_id)
    ≡ ok b

locked-HasWave :
    (r : Runtime) (around : Surroundings) (polite : KeepsWaves around.others) (held : Bool)
    (asked : Asked) (root after : ControllerRoot) (b : Bundle)
    → lock_unless_held around held root ≡ (ok tt, after)
    → HasWave r root asked b
    → HasWave r after asked b
unfolding await_lock done
locked-HasWave r around polite true asked root after b h there =
    subst (λ t. HasWave r t asked b) (ap (λ p. p.1) h) there
locked-HasWave r around polite false asked root after b h there =
    subst (λ t. HasWave r t asked b) (ap (λ p. p.1) h) (polite.keeps root _ _ b there)

repaired_run-returns :
    (r : Runtime) (parts : Parts) (repaired : Option RunManifest) (root after : ControllerRoot)
    (run : RegisteredRun)
    → repaired_run r parts repaired root ≡ (ok run, after)
    → (m : RunManifest) × (repaired ≡ some m)
      × (record { parts = parts; manifest = m } ≡ run)
      × (root ≡ after)
unfolding repaired_run done fail
repaired_run-returns r parts none root after run h = cc
repaired_run-returns r parts (some m) root after run h =
    (m, refl, ok-injective _ _ (ap (λ p. p.0) h), ap (λ p. p.1) h)

publish_or_read-current :
    (r : Runtime) (run_id : String) (first m : RunManifest) (root after : ControllerRoot)
    → first.logical_run_id ≡ run_id
    → publish_or_read r run_id first root ≡ (ok (some m), after)
    → (read_manifest after.plane run_id ≡ ok (some m)) × (root.registry ≡ after.registry)
unfolding publish_or_read in_plane
publish_or_read-current r run_id first m root after same h =
    let wrote = write_next_manifest r.host root.plane first (negsuc 0) in
    (
      published-current r.host first m run_id root.plane after.plane wrote refl same
          (λ i. ((h i).0, (h i).1.plane)),
      ap (λ p. p.1.registry) h,
    )

module _ (r : Runtime) (around : Surroundings) (polite : KeepsWaves around.others) (held : Bool)
    (asked : Asked) (bundle : Bundle) (parts : Parts)
    (bound : bound_parts r asked bundle ≡ ok parts)
    (filed : parts.job.logical_run_id ≡ opaque_run_id r asked.request_id) where
  repaired-IsRegistered :
      (root after : ControllerRoot) (run : RegisteredRun)
      → HasWave r root asked bundle
      → with_manifest r around held asked parts none root ≡ (ok run, after)
      → IsRegistered r after asked run
  unfolding with_manifest repair_manifest publish_or_read in_plane initial_manifest
  repaired-IsRegistered root after run there h =
      let first = initial_manifest r parts.job parts.wave parts.shard in
      let (u, s1, locked, h1) =
        and_then-returns (lock_unless_held around held) _ root after run h in
      let there1 = locked-HasWave r around polite held asked root s1 bundle locked there in
      let (repaired, s2, mended, h2) =
        and_then-returns
          (repair_manifest r asked (opaque_run_id r asked.request_id) parts.shard first) _ s1 after
          run h1 in
      let (u2, checked, h3) =
        read_then-returns (repair_checks r asked parts.shard) _ s1 s2 repaired mended in
      let (m, is_some, same_run, same_root) =
        repaired_run-returns r parts repaired s2 after run h2 in
      let (current, kept) =
        publish_or_read-current r (opaque_run_id r asked.request_id) first m s1 s2 filed (
          subst (λ k. publish_or_read r (opaque_run_id r asked.request_id) first s1 ≡ (ok k, s2))
            is_some h3) in
      subst (λ t. IsRegistered r t asked run) same_root
        (subst (λ n. IsRegistered r s2 asked n) same_run
          (record {
            bundle = bundle;
            resolved =
                subst
                  (λ g.
                    resolve_wave g (opaque_run_id r asked.request_id)
                      (opaque_wave_id r asked.request_id)
                    ≡ ok bundle)
                  kept there1;
            bound = bound;
            current = current;
          }))

  pub materialized-IsRegistered :
      (root after : ControllerRoot) (run : RegisteredRun)
      → HasWave r root asked bundle
      → (found : Option RunManifest)
      → read_manifest root.plane (opaque_run_id r asked.request_id) ≡ ok found
      → with_manifest r around held asked parts found root ≡ (ok run, after)
      → IsRegistered r after asked run
  unfolding with_manifest done
  materialized-IsRegistered root after run there none read h =
      repaired-IsRegistered root after run there h
  materialized-IsRegistered root after run there (some m) read h =
      let same_run : record { parts = parts; manifest = m } ≡ run =
        ok-injective _ _ (ap (λ p. p.0) h) in
      subst (λ t. IsRegistered r t asked run) (ap (λ p. p.1) h)
        (subst (λ n. IsRegistered r root asked n) same_run
          (record { bundle = bundle; resolved = there; bound = bound; current = read }))
