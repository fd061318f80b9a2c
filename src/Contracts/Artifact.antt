-- ===== src/Contracts/Artifact.antt =====
-- `ArtifactRef` and `Provenance` of contracts/models.py, with the regular expressions of the
-- validators as searches over code points.
use portable_batch_execution.Base.{
  ℕ, ◌+◌, String, Bool, true, false, not, ◌&&◌, ◌||◌, Option, List, [], ◌∷◌, all, leb, eqb, length,
  truthy, if◌then◌else◌, Outcome, ok, value_error, raise_if, ◌>>◌, drop, ◌≡◌, refl,
}
use portable_batch_execution.Base.Order.{codes}
use portable_batch_execution.Contracts.Datetime.{Datetime}

pub record ArtifactRef : Type 0 where
  pub object_id : String
  pub uri : String
  pub sha256 : String
  pub media_type : Option String
  pub size_bytes : Option ℕ

pub record Provenance : Type 0 where
  pub producer : String
  pub revision : String
  pub created_at : Datetime
  pub parent_run_ids : List String

-- Whether the text begins so.
starts : List ℕ → List ℕ → Bool
starts [] xs = true
starts (c ∷ cs) [] = false
starts (c ∷ cs) (x ∷ xs) = eqb c x && starts cs xs

-- `[0-9a-f]`
is_hex : ℕ → Bool
is_hex c = leb b'0' c && leb c b'9' || leb b'a' c && leb c b'f'

-- `sha256:[0-9a-f]{64}`, of the whole text
unfoldable pub is_digest : String → Bool
unfolding starts is_hex
is_digest s =
    let xs = codes s in
    starts (codes "sha256:") xs && (all is_hex (drop 7 xs) && eqb (length xs) 71)

-- Letters that `re.IGNORECASE` does not tell apart, also the four outside ASCII.
fold_case : ℕ → ℕ
fold_case c =
    if leb b'A' c && leb c b'Z'
    then c + 32
    else if eqb c 0x130 || eqb c 0x131
    then b'i'
    else if eqb c 0x17f
    then b's'
    else if eqb c 0x212a
    then b'k'
    else c

starts_folded : List ℕ → List ℕ → Bool
unfolding fold_case
starts_folded [] xs = true
starts_folded (c ∷ cs) [] = false
starts_folded (c ∷ cs) (x ∷ xs) = eqb c (fold_case x) && starts_folded cs xs

-- `[^/]*@`
at_sign_ahead : List ℕ → Bool
at_sign_ahead [] = false
at_sign_ahead (c ∷ cs) = eqb c b'@' || not (eqb c b'/') && at_sign_ahead cs

-- `[^/]+@`
userinfo_ahead : List ℕ → Bool
unfolding at_sign_ahead
userinfo_ahead [] = false
userinfo_ahead (c ∷ cs) = not (eqb c b'/') && at_sign_ahead cs

-- `(token|secret|password|credential)`
secret_word : List ℕ → Bool
unfolding starts_folded
secret_word xs =
    starts_folded (codes "token") xs
    || starts_folded (codes "secret") xs
    || starts_folded (codes "password") xs
    || starts_folded (codes "credential") xs

-- `.*(token|secret|password|credential)`: the dot does not pass a newline.
secret_ahead : List ℕ → Bool
unfolding secret_word
secret_ahead [] = false
secret_ahead (c ∷ cs) = secret_word (c ∷ cs) || not (eqb c 10) && secret_ahead cs

-- The regular expression matches at this place.
secret_here : List ℕ → Bool
unfolding starts userinfo_ahead secret_ahead
secret_here xs =
    starts (codes "://") xs && userinfo_ahead (drop 3 xs)
    || (starts (codes "?") xs || starts (codes "#") xs) && secret_ahead (drop 1 xs)

secret_search : List ℕ → Bool
unfolding secret_here
secret_search [] = false
secret_search (c ∷ cs) = secret_here (c ∷ cs) || secret_search cs

-- `re.search(r"://[^/]+@|[?#].*(token|secret|password|credential)", uri, re.IGNORECASE)`
unfoldable pub has_secret : String → Bool
unfolding secret_search
has_secret uri = secret_search (codes uri)

unfoldable pub validate_artifact : ArtifactRef → Outcome ArtifactRef
unfolding is_digest has_secret
validate_artifact r = do
  raise_if (has_secret r.uri) (value_error "secret URI")
  raise_if (not (is_digest r.sha256)) (value_error "sha256 required")
  raise_if (not (truthy r.object_id)) (value_error "object_id required")
  ok r

has_secret_examples :
    ((has_secret "https://user:pw@host/x" ≡ true) × (has_secret "https://h/x?a=1&ToKen=2" ≡ true))
    × (has_secret "https://h/@/token" ≡ false)
unfolding has_secret
has_secret_examples = ((refl, refl), refl)
