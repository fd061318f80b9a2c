-- ===== src/Base/Dict.antt =====
-- Dictionaries with text keys as association lists, and grouping by a key.
use Prim.Native.String.{String}
use mathlib.Core.Path.{◌≡◌, refl, sym}
use mathlib.Core.List.{List, [], ◌∷◌, ◌++◌, append_assoc, append-nil}
use mathlib.Core.Option.{Option, none, some}
use native.Mathlib.Omega.{arith}
use text.Mathlib.Text.{◌==◌}
use text.Mathlib.TextEquality.{eq_iff}
use portable_batch_execution.Base.Tests.{if◌then◌else◌}
use portable_batch_execution.Base.Lists.{select}

abbrev pub Dict {ℓ} : Type ℓ → Type ℓ
Dict V = List (String × V)

module _ {ℓ} {V : Type ℓ} where
  -- `d.get(k)`
  abbrev pub get : Dict V → String → Option V
  get [] k = none
  get ((j, v) ∷ d) k = if j == k then some v else get d k

  -- `d[k] = v`
  unfoldable pub put : Dict V → String → V → Dict V
  put [] k v = (k, v) ∷ []
  put ((j, w) ∷ d) k v = if j == k then (j, v) ∷ d else (j, w) ∷ put d k v

  pub get-put :
      (entries : Dict V) (key sought : String) (new : V)
      → get (put entries key new) sought ≡ (if key == sought then some new else get entries sought)
  unfolding put
  get-put [] key sought new = refl
  get-put ((i, old) ∷ rest) key sought new =
      ground (arith, get-put rest key sought new, eq_iff i key, eq_iff i sought, eq_iff key sought)

  -- `del d[k]`, where it is there at all
  pub erase : Dict V → String → Dict V
  erase [] k = []
  erase ((j, v) ∷ d) k = let rest = erase d k in if j == k then rest else (j, v) ∷ rest

  pub get-erase :
      (entries : Dict V) (gone sought : String)
      → get (erase entries gone) sought ≡ (if gone == sought then none else get entries sought)
  unfolding erase
  get-erase [] gone sought = ground arith
  get-erase ((i, v) ∷ rest) gone sought =
      ground (arith, get-erase rest gone sought, eq_iff i gone, eq_iff i sought, eq_iff gone sought)

-- The keys, in the order in which they came in.
abbrev pub keys {ℓ} : {V : Type ℓ} → Dict V → List String
keys [] = []
keys ((k, v) ∷ d) = k ∷ keys d

abbrev pub values {ℓ} : {V : Type ℓ} → Dict V → List V
values [] = []
values ((k, v) ∷ d) = v ∷ values d

module _ {ℓ} {A : Type ℓ} where
  -- `d[k]` of a `defaultdict(list)`
  abbrev pub get_list : Dict (List A) → String → List A
  get_list d k = elim (get d k) [ none ↦ [] | some xs ↦ xs ]

  -- `for x in xs: d[key(x)].append(x)`
  unfoldable pub group_onto : Dict (List A) → (A → String) → List A → Dict (List A)
  group_onto d key [] = d
  group_onto d key (x ∷ xs) = group_onto (put d (key x) (get_list d (key x) ++ x ∷ [])) key xs

  pub get_list-put :
      (d : Dict (List A)) (k j : String) (v : List A)
      → get_list (put d k v) j ≡ (if k == j then v else get_list d j)
  get_list-put d k j v = ground (arith, get-put d k j v)

  -- The group of a key holds the elements with that key, in their order.
  pub get_list-group_onto :
      (d : Dict (List A)) (key : A → String) (xs : List A) (k : String)
      → get_list (group_onto d key xs) k ≡ get_list d k ++ select (λ x. key x == k) xs
  unfolding group_onto
  get_list-group_onto d key [] k = sym (append-nil _)
  get_list-group_onto d key (x ∷ xs) k =
      rw (get_list-group_onto (put d (key x) (get_list d (key x) ++ x ∷ [])) key xs k) (
        ground (
          arith,
          get_list-put d (key x) k (get_list d (key x) ++ x ∷ []),
          eq_iff (key x) k,
          append_assoc (get_list d k) (x ∷ []) (select (λ y. key y == k) xs),
        ))
