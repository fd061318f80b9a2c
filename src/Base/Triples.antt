-- ===== src/Base/Triples.antt =====
-- What holds after an action that starts where something holds: of its value and the state if it
-- returns, of the state if it raises.
use mathlib.Core.Bool.{Bool, true, false}
use mathlib.Core.Path.{◌≡◌, refl}
use portable_batch_execution.Base.Errors.{Error, Outcome, ok, raise}
use portable_batch_execution.Base.Exec.{Exec, done, fail, reading, and_then, try_then}
use portable_batch_execution.Base.Tests.{if◌then◌else◌}

abbrev pub Ends : {S A : Type 0} → (A → S → Type 0) → (S → Type 0) → Outcome A × S → Type 0
Ends Q R (ok a, s) = Q a s
Ends Q R (raise e, s) = R s

pub record Triple {S A : Type 0} (P : S → Type 0) (m : Exec S A) (Q : A → S → Type 0)
    (R : S → Type 0) : Type 0 where
  pub ends : (s : S) → P s → Ends Q R (m s)

module _ {S A : Type 0} (R : S → Type 0) where
  read-Ends :
      (Q : A → S → Type 0) (o : Outcome A) (s : S)
      → ((a : A) → o ≡ ok a → Q a s)
      → R s
      → Ends Q R (o, s)
  read-Ends Q (ok a) s hq hr = hq a refl
  read-Ends Q (raise e) s hq hr = hr

module _ {S A B : Type 0} (R : S → Type 0) where
  then-Ends :
      (Q : A → S → Type 0) (T : B → S → Type 0) (first : Exec S A) (rest : A → Exec S B) (s : S)
      (o : Outcome A) (t : S)
      → first s ≡ (o, t)
      → ((a : A) → Triple (Q a) (rest a) T R)
      → Ends Q R (o, t)
      → Ends T R (and_then first rest s)
  unfolding and_then
  then-Ends Q T first rest s (ok a) t e hr h = rw (e, and_then) ((hr a).ends t h)
  then-Ends Q T first rest s (raise x) t e hr h = rw (e, and_then) h

module _ {S A : Type 0} {P : S → Type 0} {R : S → Type 0} where
  pub done-Triple : (Q : A → S → Type 0) (a : A) → ((s : S) → P s → Q a s) → Triple P (done a) Q R
  unfolding done
  done-Triple Q a h = record { ends = h }

  pub fail-Triple : (Q : A → S → Type 0) (e : Error) → ((s : S) → P s → R s) → Triple P (fail e) Q R
  unfolding fail
  fail-Triple Q e h = record { ends = h }

  pub if-Triple :
      (Q : A → S → Type 0) (c : Bool) (m n : Exec S A)
      → (c ≡ true → Triple P m Q R)
      → (c ≡ false → Triple P n Q R)
      → Triple P (if c then m else n) Q R
  if-Triple Q true m n hm hn = hm refl
  if-Triple Q false m n hm hn = hn refl

  pub reading-Triple :
      (Q : A → S → Type 0) (f : S → Outcome A)
      → ((s : S) (a : A) → P s → f s ≡ ok a → Q a s)
      → ((s : S) → P s → R s)
      → Triple P (reading f) Q R
  unfolding reading
  reading-Triple Q f hq hr = record {
    ends = λ s p. read-Ends R Q (f s) s (λ a e. hq s a p e) (hr s p);
  }

module _ {S A B : Type 0} {P : S → Type 0} {R : S → Type 0} where
  pub and_then-Triple :
      (Q : A → S → Type 0) (T : B → S → Type 0) (first : Exec S A) (rest : A → Exec S B)
      → Triple P first Q R
      → ((a : A) → Triple (Q a) (rest a) T R)
      → Triple P (and_then first rest) T R
  and_then-Triple Q T first rest hf hr = record {
    ends = λ s p. then-Ends R Q T first rest s (first s).0 (first s).1 refl hr (hf.ends s p);
  }

  -- The handler starts where the part has ended.
  pub try_then-Triple :
      (Q : A → S → Type 0) (T : B → S → Type 0) (R' : S → Type 0) (first : Exec S A)
      (handler : Outcome A → Exec S B)
      → Triple P first Q R'
      → ((a : A) → Triple (Q a) (handler (ok a)) T R)
      → ((e : Error) → Triple R' (handler (raise e)) T R)
      → Triple P (try_then first handler) T R
  unfolding try_then
  try_then-Triple Q T R' first handler hf ho hr = record {
    ends = λ s p. handled (first s).0 (first s).1 (hf.ends s p);
  }
    where
      handled : (o : Outcome A) (t : S) → Ends Q R' (o, t) → Ends T R (handler o t)
      handled (ok a) t h = (ho a).ends t h
      handled (raise e) t h = (hr e).ends t h

module _ {S A : Type 0} {P P' : S → Type 0} {R : S → Type 0} where
  pub weaken :
      (Q : A → S → Type 0) (m : Exec S A)
      → ((s : S) → P' s → P s)
      → Triple P m Q R
      → Triple P' m Q R
  weaken Q m h t = record { ends = λ s p. t.ends s (h s p) }

pub relax-Ends :
    {S A : Type 0} (Q : A → S → Type 0) (R R' : S → Type 0) (r : Outcome A × S)
    → ((s : S) → R s → R' s)
    → Ends Q R r
    → Ends Q R' r
relax-Ends Q R R' (ok a, s) h e = e
relax-Ends Q R R' (raise x, s) h e = h s e

module _ {S A : Type 0} {P : S → Type 0} {R R' : S → Type 0} where
  pub relax :
      (Q : A → S → Type 0) (m : Exec S A)
      → ((s : S) → R s → R' s)
      → Triple P m Q R
      → Triple P m Q R'
  relax Q m h t = record { ends = λ s p. relax-Ends Q R R' (m s) h (t.ends s p) }

module _ {S A : Type 0} {P : S → Type 0} {R : S → Type 0} where
  -- What is known beside the state.
  pub knowing :
      (C : Type 0) (Q : A → S → Type 0) (m : Exec S A)
      → (C → Triple P m Q R)
      → Triple (λ s. C × P s) m Q R
  knowing C Q m h = record { ends = λ s p. (h p.0).ends s p.1 }

beside-Ends :
    {S A : Type 0} (C : Type 0) (Q R : S → Type 0) (out : Outcome A × S)
    → C
    → Ends (λ _. Q) R out
    → Ends (λ _ s. C × Q s) R out
beside-Ends C Q R (ok a, s) c h = (c, h)
beside-Ends C Q R (raise e, s) c h = h

module _ {S A : Type 0} {P Q R : S → Type 0} {m : Exec S A} where
  -- A fact that no state changes is known after, too.
  pub beside : (C : Type 0) → C → Triple P m (λ _. Q) R → Triple P m (λ _ s. C × Q s) R
  beside C c h = record { ends = λ s p. beside-Ends C Q R (m s) c (h.ends s p) }

fact-Ends :
    {S A : Type 0} (C : Type 0) (Q R : S → Type 0) (out : Outcome A × S)
    → C
    → Ends (λ _. Q) R out
    → Ends (λ _ s. Q s × C) R out
fact-Ends C Q R (ok a, s) c h = (h, c)
fact-Ends C Q R (raise e, s) c h = h

module _ {S A : Type 0} {P Q R : S → Type 0} {m : Exec S A} where
  -- What a part starts with may be known of it alone, and a fact is added to how it ends.
  pub with_fact :
      (C F : Type 0) → (F → C) → Triple P m (λ _. Q) R → Triple (λ s. P s × F) m (λ _ s. Q s × C) R
  with_fact C F g h = record { ends = λ s p. fact-Ends C Q R (m s) (g p.1) (h.ends s p.0) }

-- What holds both ways holds of the state after.
pub ends-either : {S A : Type 0} (Q : S → Type 0) (o : Outcome A × S) → Ends (λ _. Q) Q o → Q o.1
ends-either Q (ok a, s) h = h
ends-either Q (raise e, s) h = h
