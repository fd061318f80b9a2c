-- ===== src/Broker/Serializer/Exclusion.antt =====
-- What holds in every state that the threads can reach.
use portable_batch_execution.Base.{
  ok-injective, [], eqb, eq_refl, ◌==◌, ◌+◌, ◌≤◌, ◌↔◌, true, none, zero, some, ◌∙◌, subst, ap,
  arith, Option, sym, suc, String, false, ◌++◌, ◌∷◌, ◌≡◌, List, Bool, ℕ, refl,
}
use portable_batch_execution.Base.Dict.{get}
use portable_batch_execution.Broker.Serializer.{
  breaks, departs, releases, acquires, broken, waits, leaves, inside, starts, later, joins, Move,
  idle, one, Reach, Taken, Step, Pc, Book, Threads, idle_threads,
}
use portable_batch_execution.Broker.Serializer.Kept.{
  leave_lock-returns, has_lock-le-is_at, has_lock, bit, count-middle, IsEntry, is_broken, is_inside,
  count, is_at, IsKept,
}
use portable_batch_execution.Broker.Serializer.Steps.{
  departs-IsKept, releases-IsKept, own_entry, acquires-IsKept, bit-le_one, joins-IsKept,
}

-- The order of the threads does not matter.
pub recounted :
    (b : Book) (taken : Taken) (ps qs : List Pc)
    → ((f : Pc → Bool) → count f ps ≡ count f qs)
    → IsKept b taken ps
    → IsKept b taken qs
recounted b taken ps qs same v = record {
  entries = λ k. entry_so k (get b.locks k) (v.entries k);
  apart = v.apart;
  one_inside = λ l. sym (same (is_inside l)) ∙ v.one_inside l;
  unbroken = sym (same is_broken) ∙ v.unbroken;
}
  where
    entry_so : (k : String) (o : Option (ℕ × ℕ)) → IsEntry b ps k o → IsEntry b qs k o
    entry_so k none h = sym (same (is_at k)) ∙ h
    entry_so k (some (lock, users)) (at, with_lock, some_user, old) =
        (sym (same (is_at k)) ∙ at, sym (same (has_lock k lock)) ∙ with_lock, some_user, old)

Move-IsKept :
    (b b' : Book) (taken taken' : Taken) (p p' : Pc) (ts : List Pc)
    → Move b taken p b' taken' p'
    → IsKept b taken (p ∷ ts)
    → IsKept b' taken' (p' ∷ ts)
Move-IsKept b b' taken taken' p p' ts (joins q) v = joins-IsKept b taken ts q v
Move-IsKept b b' taken taken' p p' ts (acquires q lock free) v =
    acquires-IsKept b taken ts q lock free v
Move-IsKept b b' taken taken' p p' ts (releases q lock) v = releases-IsKept b taken ts q lock v
Move-IsKept b b' taken taken' p p' ts (departs q lock c h) v =
    let (users, there) = own_entry b taken ts q lock v in
    subst (λ x. IsKept x taken (idle ∷ ts))
      (ok-injective _ c (sym (leave_lock-returns q b ts lock users there) ∙ h))
      (departs-IsKept b taken ts q lock v users there)
Move-IsKept b b' taken taken' p p' ts (breaks q lock e h) v =
    let (users, there) = own_entry b taken ts q lock v in
    absurd (cc (sym (leave_lock-returns q b ts lock users there) ∙ h))

Step-IsKept : (x y : Threads) → Step x y → IsKept x.book x.taken x.pcs → IsKept y.book y.taken y.pcs
Step-IsKept x y (one front back p p' b' taken' here moved) v =
    recounted b' taken' (p' ∷ front ++ back) (front ++ p' ∷ back)
      (λ f. sym (count-middle f front back p'))
      (Move-IsKept x.book b' x.taken taken' p p' (front ++ back) moved (
        recounted x.book x.taken (front ++ p ∷ back) (p ∷ front ++ back)
          (λ f. count-middle f front back p) (subst (IsKept x.book x.taken) here v)))

idle_count : (f : Pc → Bool) (n : ℕ) → f idle ≡ false → count f (idle_threads n) ≡ 0
idle_count f zero h = refl
idle_count f (suc n) h = omega (arith, idle_count f n h, ap bit h)

pub reach-IsKept : (n : ℕ) (x : Threads) → Reach n x → IsKept x.book x.taken x.pcs
reach-IsKept n x starts = record {
  entries = λ k. idle_count (is_at k) n refl;
  apart = λ j k lock m m' hj hk. cc (hj);
  one_inside = λ l. idle_count (is_inside l) n refl;
  unbroken = idle_count is_broken n refl;
}
reach-IsKept n x (later y z r step) = Step-IsKept y x step (reach-IsKept n y r)

-- A thread that is inside for the identifier.
abbrev pub is_within : String → Pc → Bool
is_within k idle = false
is_within k (waits q lock) = false
is_within k (inside q lock) = q == k
is_within k (leaves q lock) = false
is_within k (broken e) = false

within-le :
    (k : String) (l : ℕ) (ps : List Pc)
    → count (is_within k) ps + count (has_lock k l) ps ≤ count (is_inside l) ps + count (is_at k) ps
within-le k l [] = omega arith
within-le k l (idle ∷ ps) = omega (arith, within-le k l ps)
within-le k l (broken e ∷ ps) = omega (arith, within-le k l ps)
within-le k l (waits q lock ∷ ps) = ground (arith, within-le k l ps)
within-le k l (inside q lock ∷ ps) = ground (arith, within-le k l ps)
within-le k l (leaves q lock ∷ ps) = ground (arith, within-le k l ps)

within-le-is_at : (k : String) (ps : List Pc) → count (is_within k) ps ≤ count (is_at k) ps
within-le-is_at k [] = omega arith
within-le-is_at k (idle ∷ ps) = omega (arith, within-le-is_at k ps)
within-le-is_at k (broken e ∷ ps) = omega (arith, within-le-is_at k ps)
within-le-is_at k (waits q lock ∷ ps) = ground (arith, within-le-is_at k ps)
within-le-is_at k (inside q lock ∷ ps) = omega (arith, within-le-is_at k ps)
within-le-is_at k (leaves q lock ∷ ps) = ground (arith, within-le-is_at k ps)

-- The lock of an entry is the lock of each thread that has joined it.
pub lock_of_entry :
    (b : Book) (q : String) (l : ℕ) (p : Pc) (ts : List Pc) (o : Option (ℕ × ℕ))
    → is_at q p ≡ true
    → ((m : ℕ) → has_lock q m p ≡ eqb l m)
    → IsEntry b (p ∷ ts) q o
    → (users : ℕ) × (o ≡ some (l, users))
lock_of_entry b q l p ts none at has h = absurd (omega (arith, ap bit at))
lock_of_entry b q l p ts (some (lock, users)) at has (all_at, all_have, some_user, old) =
    let same : l ≡ lock = ground (arith, has lock, has_lock-le-is_at q lock ts, at) in
    (users, rw same refl)

pub at_most_one :
    (b : Book) (taken : Taken) (ps : List Pc) (q : String)
    → IsKept b taken ps
    → count (is_within q) ps ≤ 1
at_most_one b taken ps q v = bounded (get b.locks q) (v.entries q)
  where
    bounded : (o : Option (ℕ × ℕ)) → IsEntry b ps q o → count (is_within q) ps ≤ 1
    bounded none h = omega (arith, h, within-le-is_at q ps)
    bounded (some (lock, users)) (all_at, all_have, some_user, old) =
        omega (arith, within-le q lock ps, v.one_inside lock, bit-le_one (taken lock))

module _ (n : ℕ) (x : Threads) (reached : Reach n x) where
  -- In every state that any number of threads reach, in any interleaving, while a thread is inside
  -- with an identifier no other thread is inside with it.
  pub hold-excludes :
      (front back : List Pc) (q : String) (lock : ℕ)
      → x.pcs ≡ front ++ inside q lock ∷ back
      → count (is_within q) (front ++ back) ≡ 0
  hold-excludes front back q lock here = omega (
    arith,
    at_most_one x.book x.taken x.pcs q (reach-IsKept n x reached),
    ap (count (is_within q)) here,
    count-middle (is_within q) front back (inside q lock),
    ap bit (eq_refl q),
  )

  -- In every state that any number of threads reach, in any interleaving, no thread has found the
  -- bookkeeping corrupt, and an identifier has an entry exactly while some thread has joined it: no
  -- idle entry is kept.
  pub hold-forgets :
      (count is_broken x.pcs ≡ 0)
      × ((q : String) → (get x.book.locks q ≡ none) ↔ (count (is_at q) x.pcs ≡ 0))
  hold-forgets = (
    (reach-IsKept n x reached).unbroken,
    λ q. forgets q (get x.book.locks q) ((reach-IsKept n x reached).entries q),
  )
    where
      forgets :
          (q : String) (o : Option (ℕ × ℕ))
          → IsEntry x.book x.pcs q o
          → (o ≡ none) ↔ (count (is_at q) x.pcs ≡ 0)
      forgets q none h = (λ _. h, λ _. refl)
      forgets q (some (lock, users)) h = (λ e. absurd (cc (e)), λ e. absurd (omega arith))
