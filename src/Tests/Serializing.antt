-- ===== src/Tests/Serializing.antt =====
-- The theorems on the request serializer at two threads with one identifier.
use portable_batch_execution.Base.{String, none, true, false, [], ◌∷◌, ◌≡◌, ◌↔◌, ◌⊎◌, refl}
use portable_batch_execution.Base.Dict.{get, put}
use portable_batch_execution.Broker.Serializer.{
  Threads, Reach, starts, later, one, idle, waits, inside, joins, acquires, join_entry, join_lock,
  at_start, taking,
}
use portable_batch_execution.Broker.Serializer.Exclusion.{hold-excludes, hold-forgets, is_within}
use portable_batch_execution.Broker.Serializer.Kept.{is_broken, count, is_at}
use portable_batch_execution.Broker.Serializer.Progress.{hold-waits_for}

abbrev joined_once : Threads
joined_once = record {
  book = record { locks = ("request", (0, 1)) ∷ []; next = 1 };
  taken = λ k. false;
  pcs = waits "request" 0 ∷ idle ∷ [];
}

abbrev entered : Threads
entered = record joined_once {
  taken = taking joined_once.taken 0 true;
  pcs = inside "request" 0 ∷ idle ∷ [];
}

-- One thread is inside, the other waits for it.
abbrev joined_twice : Threads
joined_twice = record entered {
  book = record { locks = ("request", (0, 2)) ∷ []; next = 1 };
  pcs = inside "request" 0 ∷ waits "request" 0 ∷ [];
}

reaches_joined_once : Reach 2 joined_once
unfolding join_lock join_entry put
reaches_joined_once = later (at_start 2) joined_once starts (
    one [] (idle ∷ []) idle (waits "request" 0) joined_once.book joined_once.taken refl
      (joins "request"))

reaches_entered : Reach 2 entered
reaches_entered = later joined_once entered reaches_joined_once (
    one [] (idle ∷ []) (waits "request" 0) (inside "request" 0) entered.book entered.taken refl
      (acquires "request" 0 refl))

reaches_joined_twice : Reach 2 joined_twice
unfolding join_lock join_entry put
reaches_joined_twice = later entered joined_twice reaches_entered (
    one (inside "request" 0 ∷ []) [] idle (waits "request" 0) joined_twice.book joined_twice.taken
      refl (joins "request"))

hold-excludes_example : count (is_within "request") (waits "request" 0 ∷ []) ≡ 0
hold-excludes_example =
    hold-excludes 2 joined_twice reaches_joined_twice [] (waits "request" 0 ∷ []) "request" 0 refl

hold-waits_for_example :
    (joined_twice.taken 0 ≡ false) ⊎ (count (is_within "request") joined_twice.pcs ≡ 1)
hold-waits_for_example =
    hold-waits_for 2 joined_twice reaches_joined_twice (inside "request" 0 ∷ []) [] "request" 0 refl

hold-forgets_example :
    (count is_broken joined_twice.pcs ≡ 0)
    × ((q : String)
        → (get joined_twice.book.locks q ≡ none) ↔ (count (is_at q) joined_twice.pcs ≡ 0))
hold-forgets_example = hold-forgets 2 joined_twice reaches_joined_twice
