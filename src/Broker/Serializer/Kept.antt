-- ===== src/Broker/Serializer/Kept.antt =====
-- What the steps of the threads keep.
use portable_batch_execution.Base.{
  ◌-◌, runtime_error, raise, ltb, ◌||◌, not, ok, if◌then◌else◌, zero, eq_refl, ap, suc, ◌≤◌, refl,
  none, ◌<◌, ◌&&◌, [], arith, eqb, some, ◌==◌, ◌≡◌, ◌+◌, Option, ◌∷◌, ◌++◌, false, List, true,
  String, ℕ, Bool,
}
use portable_batch_execution.Base.Dict.{put, erase, get-erase, get-put, get}
use portable_batch_execution.Broker.Serializer.{
  leave_entry, leave_lock, join_entry, idle, leaves, inside, waits, Taken, broken, Pc, Book,
}

-- Whether a thread has joined the identifier's lock, the lock given, and whether it is inside.
abbrev pub is_at : String → Pc → Bool
is_at k idle = false
is_at k (waits q lock) = q == k
is_at k (inside q lock) = q == k
is_at k (leaves q lock) = q == k
is_at k (broken e) = false

abbrev pub has_lock : String → ℕ → Pc → Bool
has_lock k l idle = false
has_lock k l (waits q lock) = (q == k) && eqb lock l
has_lock k l (inside q lock) = (q == k) && eqb lock l
has_lock k l (leaves q lock) = (q == k) && eqb lock l
has_lock k l (broken e) = false

abbrev pub is_inside : ℕ → Pc → Bool
is_inside l idle = false
is_inside l (waits q lock) = false
is_inside l (inside q lock) = eqb lock l
is_inside l (leaves q lock) = false
is_inside l (broken e) = false

abbrev pub is_broken : Pc → Bool
is_broken (broken e) = true
is_broken p = false

abbrev pub bit : Bool → ℕ
bit true = 1
bit false = 0

abbrev pub count : (Pc → Bool) → List Pc → ℕ
count f [] = 0
count f (p ∷ ps) = bit (f p) + count f ps

pub count-append :
    (f : Pc → Bool) (front back : List Pc) → count f (front ++ back) ≡ count f front + count f back
count-append f [] back = omega arith
count-append f (p ∷ front) back = omega (arith, count-append f front back)

pub count-middle :
    (f : Pc → Bool) (front back : List Pc) (p : Pc)
    → count f (front ++ p ∷ back) ≡ count f (p ∷ front ++ back)
count-middle f front back p =
    omega (arith, count-append f front (p ∷ back), count-append f front back)

-- The entry of an identifier: no thread has joined it, or its users are the threads that have, all
-- with its lock.
abbrev pub IsEntry : Book → List Pc → String → Option (ℕ × ℕ) → Type 0
IsEntry b pcs k none = count (is_at k) pcs ≡ 0
IsEntry b pcs k (some (lock, users)) =
    (count (is_at k) pcs ≡ users)
    × (count (has_lock k lock) pcs ≡ users)
    × (0 < users)
    × (lock < b.next)

pub record IsKept (b : Book) (taken : Taken) (pcs : List Pc) : Type 0 where
  pub entries : (k : String) → IsEntry b pcs k (get b.locks k)
  pub apart :
      (j k : String) (lock m n : ℕ)
      → get b.locks j ≡ some (lock, m)
      → get b.locks k ≡ some (lock, n)
      → j ≡ k
  pub one_inside : (l : ℕ) → count (is_inside l) pcs ≡ bit (taken l)
  pub unbroken : count is_broken pcs ≡ 0

pub has_lock-le-is_at :
    (k : String) (l : ℕ) (pcs : List Pc) → count (has_lock k l) pcs ≤ count (is_at k) pcs
has_lock-le-is_at k l [] = omega arith
has_lock-le-is_at k l (idle ∷ pcs) = omega (arith, has_lock-le-is_at k l pcs)
has_lock-le-is_at k l (broken e ∷ pcs) = omega (arith, has_lock-le-is_at k l pcs)
has_lock-le-is_at k l (waits q lock ∷ pcs) = ground (arith, has_lock-le-is_at k l pcs)
has_lock-le-is_at k l (inside q lock ∷ pcs) = ground (arith, has_lock-le-is_at k l pcs)
has_lock-le-is_at k l (leaves q lock ∷ pcs) = ground (arith, has_lock-le-is_at k l pcs)

-- An entry that a thread's step is not about.
pub IsEntry-same :
    (b b' : Book) (p p' : Pc) (ts : List Pc) (k : String) (o : Option (ℕ × ℕ))
    → is_at k p ≡ is_at k p'
    → ((l : ℕ) → has_lock k l p ≡ has_lock k l p')
    → b.next ≤ b'.next
    → IsEntry b (p ∷ ts) k o
    → IsEntry b' (p' ∷ ts) k o
IsEntry-same b b' p p' ts k none at lock next h = omega (arith, ap bit at)
IsEntry-same b b' p p' ts k (some (l, users)) at lock next h =
    let (a, c, d, e) = h in
    (omega (arith, ap bit at), omega (arith, ap bit (lock l)), d, omega arith)

module _ (q : String) (b : Book) where
  -- What the thread leaves behind.
  unfoldable pub after_leaving : ℕ → ℕ → Book
  after_leaving lock zero = record b { locks = erase b.locks q }
  after_leaving lock (suc users) = record b { locks = put b.locks q (lock, suc users) }

module _ (q : String) (b : Book) (ts : List Pc) where
  pub joined-IsEntry :
      (found : Option (ℕ × ℕ))
      → IsEntry b (idle ∷ ts) q found
      → IsEntry
          (join_entry q b found).1
          (waits q (join_entry q b found).0 ∷ ts)
          q
          (get (join_entry q b found).1.locks q)
  unfolding join_entry
  joined-IsEntry none h =
      rw (get-put b.locks q q (b.next, 1), eq_refl q)
        (ground (arith, eq_refl q, has_lock-le-is_at q b.next ts))
  joined-IsEntry (some (lock, users)) h =
      rw (get-put b.locks q q (lock, suc users), eq_refl q) (ground (arith, eq_refl q))

  -- The thread that leaves has its lock in the entry.
  pub leaving_entry :
      (lock : ℕ) (found : Option (ℕ × ℕ))
      → IsEntry b (leaves q lock ∷ ts) q found
      → (users : ℕ) × (found ≡ some (lock, suc users))
  leaving_entry lock none h = absurd (ground (arith, eq_refl q))
  leaving_entry lock (some (current_lock, zero)) h = absurd (omega arith)
  leaving_entry lock (some (current_lock, suc users)) h =
      let same : current_lock ≡ lock =
        ground (arith, eq_refl q, has_lock-le-is_at q current_lock ts) in
      (users, rw same refl)

  pub join_entry-other :
      (k : String) (found : Option (ℕ × ℕ))
      → (q == k) ≡ false
      → get (join_entry q b found).1.locks k ≡ get b.locks k
  unfolding join_entry
  join_entry-other k none other = rw (get-put b.locks q k (b.next, 1), other) refl
  join_entry-other k (some (lock, users)) other =
      rw (get-put b.locks q k (lock, suc users), other) refl

  pub join_entry-next : (found : Option (ℕ × ℕ)) → b.next ≤ (join_entry q b found).1.next
  unfolding join_entry
  join_entry-next none = omega arith
  join_entry-next (some (lock, users)) = omega arith

  pub left-IsEntry :
      (lock users : ℕ)
      → IsEntry b (leaves q lock ∷ ts) q (some (lock, suc users))
      → IsEntry
          (after_leaving q b lock users)
          (idle ∷ ts)
          q
          (get (after_leaving q b lock users).locks q)
  unfolding after_leaving
  left-IsEntry lock zero h = rw (get-erase b.locks q q, eq_refl q) (ground (arith, eq_refl q))
  left-IsEntry lock (suc users) h =
      rw (get-put b.locks q q (lock, suc users), eq_refl q) (ground (arith, eq_refl q))

  pub after_leaving-other :
      (lock users : ℕ) (k : String)
      → (q == k) ≡ false
      → get (after_leaving q b lock users).locks k ≡ get b.locks k
  unfolding after_leaving
  after_leaving-other lock zero k other = rw (get-erase b.locks q k, other) refl
  after_leaving-other lock (suc users) k other =
      rw (get-put b.locks q k (lock, suc users), other) refl

  pub after_leaving-next : (lock users : ℕ) → (after_leaving q b lock users).next ≡ b.next
  unfolding after_leaving
  after_leaving-next lock zero = refl
  after_leaving-next lock (suc users) = refl

  pub leave_lock-returns :
      (lock users : ℕ)
      → get b.locks q ≡ some (lock, suc users)
      → leave_lock q lock b ≡ ok (after_leaving q b lock users)
  unfolding leave_lock leave_entry after_leaving
  leave_lock-returns lock users there = rw (there, leave_lock) (leaves_so users)
    where
      leaves_so :
          (n : ℕ)
          → (if not (eqb lock lock) || ltb (suc n) 1
              then raise (runtime_error "broker request lock bookkeeping corrupt")
              else if eqb (suc n) 1
              then ok (record b { locks = erase b.locks q })
              else ok (record b { locks = put b.locks q (lock, suc n - 1) }))
            ≡ ok (after_leaving q b lock n)
      leaves_so zero = ground arith
      leaves_so (suc n) = ground arith
