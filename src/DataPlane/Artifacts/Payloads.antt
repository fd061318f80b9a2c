-- ===== src/DataPlane/Artifacts/Payloads.antt =====
-- A payload that has been written is found, read and verified under the reference returned.
use portable_batch_execution.Base.{
  String, true, ◌==◌, eq_iff, eqb_iff, truthy, length, ◌≡◌, refl, ap, Option, none, some, arith, ok,
  ◌⊎◌, inl, inr, Bool-cases,
}
use portable_batch_execution.Base.Order.{codes}
use portable_batch_execution.Base.Decimal.{after}
use portable_batch_execution.Base.Dict.{get, get-put}
use portable_batch_execution.Contracts.Artifact.{ArtifactRef, is_digest, validate_artifact}
use portable_batch_execution.DataPlane.Artifacts.{
  Artifacts, removeprefix, artifact_ref_for_payload, persist_payload, write, plane_path, read,
  verify, check_ref, local_payload_path,
}
use portable_batch_execution.DataPlane.Host.{Bytes, Host, IsHost}

truthy-digest : (d : String) → is_digest (after "sha256:" d) ≡ true → truthy d ≡ true
unfolding is_digest
truthy-digest String.[] h = cc
truthy-digest (String.◌∷◌ c d) h = elim (Bool-cases (String.◌∷◌ c d == "")) [
  | inl e ↦
      let lengths = ap (λ t. length (codes t)) ((eq_iff (String.◌∷◌ c d) "").0 e) in
      ground (arith, lengths)
  | inr e ↦ rw e
]

removeprefix-after : (d : String) → removeprefix (after "sha256:" d) "sha256:" ≡ d
unfolding removeprefix
removeprefix-after d = refl

get-persist_payload :
    (host : Host) (files : Artifacts) (digest : String) (payload : Bytes)
    → (get files digest ≡ none) ⊎ (get files digest ≡ some payload)
    → get (persist_payload host files digest payload) digest ≡ some payload
unfolding persist_payload
get-persist_payload host files digest payload (inl h) =
    rw (h, persist_payload)
      (ground (arith, get-put files digest digest payload, eq_iff digest digest))
get-persist_payload host files digest payload (inr h) = rw (h, persist_payload) h

module _ (host : Host) (laws : IsHost host) (payload : Bytes) (media_type : Option String) where
  -- The reference that `write` returns.
  unfoldable written_ref : ArtifactRef
  written_ref = record {
    object_id = host.hexdigest payload;
    uri = host.artifact_uri (host.hexdigest payload);
    sha256 = after "sha256:" (host.hexdigest payload);
    media_type = media_type;
    size_bytes = some (length payload);
  }

  ref-valid :
      artifact_ref_for_payload host (host.hexdigest payload) payload media_type ≡ ok written_ref
  unfolding artifact_ref_for_payload written_ref validate_artifact
  ref-valid = rw (
    laws.clean payload,
    laws.hexadecimal payload,
    truthy-digest (host.hexdigest payload) (laws.hexadecimal payload),
  )

  plane_path-written : plane_path host written_ref ≡ ok (host.hexdigest payload)
  unfolding plane_path written_ref
  plane_path-written =
      rw (laws.found payload, plane_path)
        (ground (arith, eq_iff (host.hexdigest payload) (host.hexdigest payload)))

  local_payload_path-written :
      local_payload_path host written_ref ≡ ok (some (host.hexdigest payload))
  unfolding local_payload_path written_ref removeprefix
  local_payload_path-written =
      rw (laws.really_found payload, local_payload_path)
        (ground (arith, eq_iff (host.hexdigest payload) (host.hexdigest payload)))

  module _ (files : Artifacts) (there : get files (host.hexdigest payload) ≡ some payload) where
    read_there : read host files written_ref ≡ ok payload
    unfolding read
    read_there = rw (plane_path-written, there, read)

    verify_there : verify host files written_ref ≡ true
    unfolding verify written_ref
    verify_there =
        rw (read_there, verify)
          (ground (
            arith,
            eq_iff (after "sha256:" (host.hexdigest payload))
                (after "sha256:" (host.hexdigest payload)),
            eqb_iff (length payload) (length payload),
          ))

    check_there : check_ref host files written_ref ≡ ok tt
    unfolding check_ref written_ref
    check_there =
        rw (local_payload_path-written, there)
          (ground (arith, eqb_iff (length payload) (length payload)))

  written : Artifacts → Artifacts
  written files = persist_payload host files (host.hexdigest payload) payload

  write_lem :
      (files : Artifacts) → write host files payload media_type ≡ (ok written_ref, written files)
  unfolding write written
  write_lem files = rw ref-valid

  -- Given a host that keeps its laws, and a payload under whose digest the artifact directory has no
  -- file yet or that payload: `write` returns a reference under which the payload is read, which
  -- `verify` accepts, and which the checks of a record's or a manifest's references let through.
  pub write-verified :
      (files : Artifacts)
      → (get files (host.hexdigest payload) ≡ none)
        ⊎ (get files (host.hexdigest payload) ≡ some payload)
      → (ref : ArtifactRef) × ((write host files payload media_type).0 ≡ ok ref)
        × (read host (write host files payload media_type).1 ref ≡ ok payload)
        × (verify host (write host files payload media_type).1 ref ≡ true)
        × (check_ref host (write host files payload media_type).1 ref ≡ ok tt)
  unfolding written
  write-verified files h =
      let there = get-persist_payload host files (host.hexdigest payload) payload h in
      rw (write_lem files) (
        written_ref,
        refl,
        read_there (written files) there,
        verify_there (written files) there,
        check_there (written files) there,
      )
