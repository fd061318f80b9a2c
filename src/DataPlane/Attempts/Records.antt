-- ===== src/DataPlane/Attempts/Records.antt =====
-- Attempt records are written once: what is there under an identifier stays, and an append that
-- returns finds its record there.
use portable_batch_execution.Base.{
  String, Bool, true, false, ◌==◌, eq_iff, ◌≡◌, refl, sym, ◌∙◌, ap, Option, none, some, arith,
  if◌then◌else◌, Outcome, Outcome-cases, ok, raise, ◌⊎◌, inl, inr, Error, Bool-cases,
}
use portable_batch_execution.Base.Dict.{get, put, get-put}
use portable_batch_execution.Contracts.Attempt.{ShardAttemptRecord}
use portable_batch_execution.DataPlane.Attempts.{
  RunDirectory, Plane, run_of, put_run, attempt_eq, store_attempt, append_checks, append_attempt,
}
use portable_batch_execution.DataPlane.Host.{Host}

pub run_of-put_run :
    (s : Plane) (i j : String) (r : RunDirectory)
    → run_of (put_run s i r) j ≡ (if i == j then r else run_of s j)
unfolding run_of put_run
run_of-put_run s i j r = ground (arith, get-put s.runs i j r)

-- The record under an identifier in a run.
abbrev pub stored : Plane → String → String → Option ShardAttemptRecord
stored s run_id attempt_id = get (run_of s run_id).attempts attempt_id

with_attempt : Plane → ShardAttemptRecord → RunDirectory
with_attempt s a = record (run_of s a.logical_run_id) {
  attempts = put (run_of s a.logical_run_id).attempts a.attempt_id a;
}

-- The records after one more is written.
stored-put_run :
    (s : Plane) (a : ShardAttemptRecord) (j i : String)
    → stored (put_run s a.logical_run_id (with_attempt s a)) j i ≡ (
        if a.logical_run_id == j
        then (if a.attempt_id == i then some a else stored s j i)
        else stored s j i)
unfolding with_attempt
stored-put_run s a j i = rw (run_of-put_run s a.logical_run_id j (with_attempt s a)) (
    ground (
      arith,
      get-put (run_of s a.logical_run_id).attempts a.attempt_id i a,
      eq_iff a.logical_run_id j,
    ))

chosen_ok :
    (s t : Plane) (e : Error) (c : Bool)
    → (if◌then◌else◌ {A = Outcome (Unit {0}) × Plane} c (ok tt, s) (raise e, t)).0 ≡ ok tt
    → c ≡ true
chosen_ok s t e true h = refl
chosen_ok s t e false h = cc

module _ (s : Plane) (a : ShardAttemptRecord) where
  -- The two ends of `store_attempt`.
  store_attempt-keeps :
      (j i : String) (old : ShardAttemptRecord) (found : Option ShardAttemptRecord)
      → stored s a.logical_run_id a.attempt_id ≡ found
      → stored s j i ≡ some old
      → stored (store_attempt s a found).1 j i ≡ some old
  unfolding store_attempt with_attempt
  store_attempt-keeps j i old (some b) e h = elim (Bool-cases (attempt_eq b a)) [
    | inl t ↦ rw t h
    | inr f ↦ rw f h
  ]
  store_attempt-keeps j i old none e h =
      stored-put_run s a j i ∙ ground (arith, eq_iff a.logical_run_id j, eq_iff a.attempt_id i)

  store_attempt-stores :
      (found : Option ShardAttemptRecord)
      → stored s a.logical_run_id a.attempt_id ≡ found
      → (store_attempt s a found).0 ≡ ok tt
      → (stored (store_attempt s a found).1 a.logical_run_id a.attempt_id ≡ some a)
        ⊎ ((b : ShardAttemptRecord) × (stored s a.logical_run_id a.attempt_id ≡ some b)
            × (attempt_eq b a ≡ true)
            × ((store_attempt s a found).1 ≡ s))
  unfolding store_attempt with_attempt
  store_attempt-stores (some b) e h =
      let same = chosen_ok s s _ (attempt_eq b a) h in inr (b, e, same, rw same refl)
  store_attempt-stores none e h = inl (
      stored-put_run s a a.logical_run_id a.attempt_id
      ∙ ground (arith, eq_iff a.logical_run_id a.logical_run_id, eq_iff a.attempt_id a.attempt_id))

module _ (host : Host) (s : Plane) (a : ShardAttemptRecord) where
  append_ok :
      append_checks host s a ≡ ok tt
      → append_attempt host s a ≡ store_attempt s a (stored s a.logical_run_id a.attempt_id)
  unfolding append_attempt
  append_ok h = rw (h, append_attempt)

  append_raise :
      (e : Error) → append_checks host s a ≡ raise e → append_attempt host s a ≡ (raise e, s)
  unfolding append_attempt
  append_raise e h = rw (h, append_attempt)

  -- A record that is there stays there unchanged when another is appended, whatever its run and
  -- identifier, and whether the append returns or raises.
  append_attempt-keeps :
      (j i : String) (old : ShardAttemptRecord)
      → stored s j i ≡ some old
      → stored (append_attempt host s a).1 j i ≡ some old
  append_attempt-keeps j i old h = elim (Outcome-cases (append_checks host s a)) [
    | inl (tt, e) ↦ rw (append_ok e) (store_attempt-keeps s a j i old _ refl h)
    | inr (err, e) ↦ rw (append_raise err e) h
  ]

  -- After an append that returns, the record is there under its run and identifier, or else a record
  -- equal to it was there, and nothing has changed.
  append_attempt-stores :
      (append_attempt host s a).0 ≡ ok tt
      → (stored (append_attempt host s a).1 a.logical_run_id a.attempt_id ≡ some a)
        ⊎ ((b : ShardAttemptRecord) × (stored s a.logical_run_id a.attempt_id ≡ some b)
            × (attempt_eq b a ≡ true)
            × ((append_attempt host s a).1 ≡ s))
  append_attempt-stores h = elim (Outcome-cases (append_checks host s a)) [
    | inl (tt, e) ↦
        rw (append_ok e) (store_attempt-stores s a _ refl (ap (λ r. r.0) (sym (append_ok e)) ∙ h))
    | inr (err, e) ↦ let wrong = ap (λ r. r.0) (sym (append_raise err e)) ∙ h in cc
  ]
