-- ===== src/DataPlane/Host.antt =====
-- What the data plane takes from its host: the digest of a payload, the URIs of files, and where a
-- URI leads on this machine. Links and the data plane's root decide that, so these are parameters.
use portable_batch_execution.Base.{ℕ, String, Bool, true, false, List, ◌≡◌}
use portable_batch_execution.Base.Decimal.{after}
use portable_batch_execution.Contracts.Artifact.{is_digest, has_secret}

abbrev pub Bytes : Type 0
Bytes = List ℕ

-- Where a URI leads: its scheme is not `file`; it names another host; or it is the path of a file,
-- inside the artifact directory or not, with its last component.
pub data Location : Type 0 where
  external elsewhere : Location
  file_at : Bool → String → Location

pub record Host : Type 0 where
  -- `sha256(data).hexdigest()`
  pub hexdigest : Bytes → String
  -- `(self._artifacts / digest).as_uri()`
  pub artifact_uri : String → String
  -- the path as it is written, and as `Path.resolve` finds it
  pub written : String → Location
  pub resolved : String → Location

-- What is documented of these: digests are 64 hexadecimal digits, and a file in the artifact
-- directory is found by the URI made for it, which has no credentials in it.
pub record IsHost (h : Host) : Type 0 where
  pub hexadecimal : (d : Bytes) → is_digest (after "sha256:" (h.hexdigest d)) ≡ true
  pub found :
      (d : Bytes) → h.written (h.artifact_uri (h.hexdigest d)) ≡ file_at true (h.hexdigest d)
  pub really_found :
      (d : Bytes) → h.resolved (h.artifact_uri (h.hexdigest d)) ≡ file_at true (h.hexdigest d)
  pub clean : (d : Bytes) → has_secret (h.artifact_uri (h.hexdigest d)) ≡ false
