-- ===== src/Kernel/Waves/Slices.antt =====
-- Slices of a list of shards, and their identifiers.
use Prim.Native.Nat.add
use portable_batch_execution.Base.{
  ℕ, zero, suc, ◌+◌, min, String, true, false, ◌≡◌, refl, sym, ◌∙◌, ap, List, [], ◌∷◌, contains,
  distinct, take, drop, length, arith,
}
use portable_batch_execution.Contracts.Shard.{ShardSpec}
use portable_batch_execution.Kernel.Waves.{shard_ids}

module _ {ℓ} {A : Type ℓ} where
  drop-nil : (n : ℕ) → drop {A = A} n [] ≡ []
  drop-nil zero = refl
  drop-nil (suc n) = refl

  pub drop-drop : (m n : ℕ) (xs : List A) → drop n (drop m xs) ≡ drop (m + n) xs
  drop-drop zero n xs = ap (λ k. drop k xs) (omega arith)
  drop-drop (suc m) n [] = drop-nil n ∙ sym (drop-nil (suc m + n))
  drop-drop (suc m) n (x ∷ xs) = rw add.suc (drop-drop m n xs)

contains-drop :
    (n : ℕ) (ss : List ShardSpec) (i : String)
    → contains (shard_ids ss) i ≡ false
    → contains (shard_ids (drop n ss)) i ≡ false
contains-drop zero ss i h = h
contains-drop (suc n) [] i h = refl
contains-drop (suc n) (s ∷ ss) i h = contains-drop n ss i (ground arith)

pub distinct-drop :
    (n : ℕ) (ss : List ShardSpec)
    → distinct (shard_ids ss) ≡ true
    → distinct (shard_ids (drop n ss)) ≡ true
distinct-drop zero ss h = h
distinct-drop (suc n) [] h = refl
distinct-drop (suc n) (s ∷ ss) h = distinct-drop n ss (ground arith)

contains-take :
    (n : ℕ) (ss : List ShardSpec) (i : String)
    → contains (shard_ids ss) i ≡ false
    → contains (shard_ids (take n ss)) i ≡ false
contains-take zero ss i h = refl
contains-take (suc n) [] i h = refl
contains-take (suc n) (s ∷ ss) i h = ground (arith, contains-take n ss i)

pub distinct-take :
    (n : ℕ) (ss : List ShardSpec)
    → distinct (shard_ids ss) ≡ true
    → distinct (shard_ids (take n ss)) ≡ true
distinct-take zero ss h = refl
distinct-take (suc n) [] h = refl
distinct-take (suc n) (s ∷ ss) h = ground (arith, contains-take n ss s.shard_id, distinct-take n ss)

pub length-shard_ids-take :
    (n : ℕ) (ss : List ShardSpec) → length (shard_ids (take n ss)) ≡ min n (length ss)
length-shard_ids-take zero ss = omega arith
length-shard_ids-take (suc n) [] = omega arith
length-shard_ids-take (suc n) (s ∷ ss) = omega (arith, length-shard_ids-take n ss)
