-- ===== src/Broker/Serializer/Progress.antt =====
-- What a thread that waits for an identifier's lock waits for.
use portable_batch_execution.Base.{
  ◌∙◌, eq_iff, ap, eq_refl, subst, [], inr, inl, ◌⊎◌, Bool-cases, eqb, arith, false, ◌∷◌, some,
  ◌++◌, true, ◌≡◌, ◌<◌, List, String, Bool, ℕ, refl,
}
use portable_batch_execution.Base.Dict.{get}
use portable_batch_execution.Broker.Serializer.{
  idle, inside, broken, leaves, waits, Reach, Threads, Pc,
}
use portable_batch_execution.Broker.Serializer.Exclusion.{
  at_most_one, reach-IsKept, recounted, is_within, lock_of_entry,
}
use portable_batch_execution.Broker.Serializer.Kept.{
  bit, count-middle, is_inside, has_lock, count, is_at, IsKept,
}

find :
    (f : Pc → Bool) (ps : List Pc)
    → 0 < count f ps
    → (front : List Pc) × (p : Pc) × (back : List Pc) × (ps ≡ front ++ p ∷ back) × (f p ≡ true)
find f [] h = absurd (omega arith)
find f (p ∷ ps) h = elim (Bool-cases (f p)) [
  | inl yes_so ↦ ([], p, ps, refl, yes_so)
  | inr other ↦
      let (front, found, back, here, good) = find f ps (omega (arith, ap bit other)) in
      (p ∷ front, found, back, ap (◌∷◌ p) here, good)
]

module _ (x : Threads) (v : IsKept x.book x.taken x.pcs) where
  own_lock :
      (front back : List Pc) (p : Pc) (q : String) (lock : ℕ)
      → is_at q p ≡ true
      → ((m : ℕ) → has_lock q m p ≡ eqb lock m)
      → x.pcs ≡ front ++ p ∷ back
      → (users : ℕ) × (get x.book.locks q ≡ some (lock, users))
  own_lock front back p q lock at has here =
      lock_of_entry x.book q lock p (front ++ back) (get x.book.locks q) at has (
        (recounted x.book x.taken (front ++ p ∷ back) (p ∷ front ++ back)
            (λ f. count-middle f front back p) (subst (IsKept x.book x.taken) here v)).entries
          q)

  -- Who holds the lock of an identifier is inside with that identifier.
  holder-within :
      (q : String) (lock users : ℕ)
      → get x.book.locks q ≡ some (lock, users)
      → (front back : List Pc) (p : Pc) → x.pcs ≡ front ++ p ∷ back
      → is_inside lock p ≡ true
      → is_within q p ≡ true
  holder-within q lock users there front back idle here holds = cc
  holder-within q lock users there front back (waits k l) here holds = cc
  holder-within q lock users there front back (leaves k l) here holds = cc
  holder-within q lock users there front back (broken e) here holds = cc
  holder-within q lock users there front back (inside k l) here holds =
      let same : l ≡ lock = ground arith in
      let (others, also) =
        own_lock front back (inside k l) k l (eq_refl k) (λ m. rw (eq_refl k) refl) here in
      (eq_iff k q).1 (v.apart k q lock others users (also ∙ rw same refl) there)

module _ (n : ℕ) (x : Threads) (reached : Reach n x) where
  -- In every state that any number of threads reach, in any interleaving, a thread that waits finds
  -- its lock free, or just one thread is inside with the same identifier: it never waits for a request
  -- of another identifier.
  pub hold-waits_for :
      (front back : List Pc) (q : String) (lock : ℕ)
      → x.pcs ≡ front ++ waits q lock ∷ back
      → (x.taken lock ≡ false) ⊎ (count (is_within q) x.pcs ≡ 1)
  hold-waits_for front back q lock here = elim (Bool-cases (x.taken lock)) [
    | inr free ↦ inl free
    | inl busy ↦
        let v = reach-IsKept n x reached in
        let (users, there) =
          own_lock x v front back (waits q lock) q lock (eq_refl q) (λ m. rw (eq_refl q) refl)
            here in
        let (a, p, b, held_at, holds) =
          find (is_inside lock) x.pcs (omega (arith, v.one_inside lock, ap bit busy)) in
        let within = holder-within x v q lock users there a b p held_at holds in
        inr (
          omega (
            arith,
            at_most_one x.book x.taken x.pcs q v,
            ap (count (is_within q)) held_at,
            count-middle (is_within q) a b p,
            ap bit within,
          ))
  ]
