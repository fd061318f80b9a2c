-- ===== src/Broker/Serializer.antt =====
-- `_RequestIdSerializer` of broker/service.py: the table of locks by request identifier, and the
-- threads that hold them, interleaved in any order. A block under `_guard` is one step, taking or
-- leaving a request's lock is another.
pub mod Kept
pub mod Steps
pub mod Exclusion
pub mod Progress
use portable_batch_execution.Base.{
  ◌-◌, runtime_error, ltb, ◌||◌, ok, zero, none, not, ◌∷◌, key_error, true, eqb, some, false, raise,
  suc, ◌++◌, if◌then◌else◌, ◌≡◌, Error, Option, [], Outcome, Bool, List, ℕ, String,
}
use portable_batch_execution.Base.Dict.{erase, put, get, Dict}

-- `_locks`, and the identity that the next `Lock()` gets
pub record Book : Type 0 where
  pub locks : Dict (ℕ × ℕ)
  pub next : ℕ

-- The first block of `hold`: the lock of the identifier, with one more user.
unfoldable pub join_entry : String → Book → Option (ℕ × ℕ) → ℕ × Book
join_entry q b none = (b.next, record { locks = put b.locks q (b.next, 1); next = suc b.next })
join_entry q b (some (lock, users)) = (lock, record b { locks = put b.locks q (lock, suc users) })

unfoldable pub join_lock : String → Book → ℕ × Book
join_lock q b = join_entry q b (get b.locks q)

-- The last block of `hold`, for the lock that was joined.
pub leave_entry : String → ℕ → Book → Option (ℕ × ℕ) → Outcome Book
leave_entry q lock b none = raise (key_error q)
leave_entry q lock b (some (current_lock, users)) =
    if not (eqb current_lock lock) || ltb users 1
    then raise (runtime_error "broker request lock bookkeeping corrupt")
    else if eqb users 1
    then ok (record b { locks = erase b.locks q })
    else ok (record b { locks = put b.locks q (lock, users - 1) })

pub leave_lock : String → ℕ → Book → Outcome Book
leave_lock q lock b = leave_entry q lock b (get b.locks q)

-- Where a thread stands in `hold`, with the identifier and the lock that it has joined.
pub data Pc : Type 0 where
  idle : Pc
  waits : String → ℕ → Pc
  inside : String → ℕ → Pc
  leaves : String → ℕ → Pc
  broken : Error → Pc

-- Which locks are taken.
abbrev pub Taken : Type 0
Taken = ℕ → Bool

abbrev pub taking : Taken → ℕ → Bool → Taken
taking taken lock now k = if eqb lock k then now else taken k

-- One step of one thread.
pub data Move (b : Book) (taken : Taken) : Pc → Book → Taken → Pc → Type 0 where
  joins : (q : String) → Move b taken idle (join_lock q b).1 taken (waits q (join_lock q b).0)
  acquires :
      (q : String) (lock : ℕ)
      → taken lock ≡ false
      → Move b taken (waits q lock) b (taking taken lock true) (inside q lock)
  releases :
      (q : String) (lock : ℕ)
      → Move b taken (inside q lock) b (taking taken lock false) (leaves q lock)
  departs :
      (q : String) (lock : ℕ) (b' : Book)
      → leave_lock q lock b ≡ ok b'
      → Move b taken (leaves q lock) b' taken idle
  breaks :
      (q : String) (lock : ℕ) (e : Error)
      → leave_lock q lock b ≡ raise e
      → Move b taken (leaves q lock) b taken (broken e)

pub record Threads : Type 0 where
  pub book : Book
  pub taken : Taken
  pub pcs : List Pc

-- Any thread takes a step, between the others.
pub data Step (x : Threads) : Threads → Type 0 where
  one :
      (front back : List Pc) (p p' : Pc) (b' : Book) (taken' : Taken)
      → x.pcs ≡ front ++ p ∷ back
      → Move x.book x.taken p b' taken' p'
      → Step x (record { book = b'; taken = taken'; pcs = front ++ p' ∷ back })

abbrev pub idle_threads : ℕ → List Pc
idle_threads zero = []
idle_threads (suc n) = idle ∷ idle_threads n

-- The service as it starts, with `n` threads to come.
abbrev pub at_start : ℕ → Threads
at_start n = record {
  book = record { locks = []; next = 0 };
  taken = λ k. false;
  pcs = idle_threads n;
}

pub data Reach (n : ℕ) : Threads → Type 0 where
  starts : Reach n (at_start n)
  later : (x y : Threads) → Reach n x → Step x y → Reach n y
