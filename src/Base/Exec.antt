-- ===== src/Base/Exec.antt =====
-- Python code that changes a state and may raise: what it changed before it raised stays changed.
use mathlib.Core.Bool.{Bool, true, false}
use mathlib.Core.List.{List, [], ◌∷◌, ◌++◌}
use mathlib.Core.Path.{◌≡◌, refl, sym}
use portable_batch_execution.Base.{inr, ◌∙◌, inl, ap, Outcome-cases}
use portable_batch_execution.Base.Errors.{Error, Outcome, ok, raise}
use portable_batch_execution.Base.Lists.{All}
use portable_batch_execution.Base.Tests.{if◌then◌else◌}

abbrev pub Exec : Type 0 → Type 0 → Type 0
Exec S A = S → Outcome A × S

module _ {S A : Type 0} where
  unfoldable pub done : A → Exec S A
  done a s = (ok a, s)

  unfoldable pub fail : Error → Exec S A
  fail e s = (raise e, s)

  -- A part that only reads the state.
  unfoldable pub reading : (S → Outcome A) → Exec S A
  reading f s = (f s, s)

module _ {S A B : Type 0} where
  abbrev resume : Outcome A × S → (A → Exec S B) → Outcome B × S
  resume (ok a, s) rest = rest a s
  resume (raise e, s) rest = (raise e, s)

  unfoldable pub and_then : Exec S A → (A → Exec S B) → Exec S B
  and_then first rest s = resume (first s) rest

module _ {S A B : Type 0} where
  -- `for x in xs: result.extend(body(x))`
  pub for_each : (A → Exec S (List B)) → List A → Exec S (List B)
  unfolding done and_then
  for_each body [] = done []
  for_each body (x ∷ xs) =
      and_then (body x) λ found. and_then (for_each body xs) λ later. done (found ++ later)

-- Whether the action returns or raises, what held of the state before it holds after it.
pub record Keeps {S A : Type 0} (P : S → Type 0) (m : Exec S A) : Type 0 where
  pub holds : (s : S) → P s → P (m s).1

module _ {S A : Type 0} (P : S → Type 0) where
  pub done-Keeps : (a : A) → Keeps P (done a)
  unfolding done
  done-Keeps a = record { holds = λ s h. h }

  pub fail-Keeps : (e : Error) → Keeps {A = A} P (fail e)
  unfolding fail
  fail-Keeps e = record { holds = λ s h. h }

  pub reading-Keeps : (f : S → Outcome A) → Keeps P (reading f)
  unfolding reading
  reading-Keeps f = record { holds = λ s h. h }

  pub if-Keeps : (c : Bool) (m n : Exec S A) → Keeps P m → Keeps P n → Keeps P (if c then m else n)
  if-Keeps true m n hm hn = hm
  if-Keeps false m n hm hn = hn

module _ {S A B : Type 0} (P : S → Type 0) where
  pub resume-holds :
      (r : Outcome A × S) (rest : A → Exec S B)
      → ((a : A) → Keeps P (rest a))
      → P r.1
      → P (resume r rest).1
  resume-holds (ok a, s) rest h p = (h a).holds s p
  resume-holds (raise e, s) rest h p = p

  pub and_then-Keeps :
      (first : Exec S A) (rest : A → Exec S B)
      → Keeps P first
      → ((a : A) → Keeps P (rest a))
      → Keeps P (and_then first rest)
  unfolding and_then
  and_then-Keeps first rest hf hr = record {
    holds = λ s p. resume-holds (first s) rest hr (hf.holds s p);
  }

module _ {S A B : Type 0} (P : S → Type 0) where
  read-holds :
      (f : S → Outcome A) (rest : A → Exec S B) (s : S) (found : Outcome A)
      → found ≡ f s
      → ((a : A) → f s ≡ ok a → P s → P (rest a s).1)
      → P s
      → P (resume (found, s) rest).1
  read-holds f rest s (ok a) eq h p = h a (sym eq) p
  read-holds f rest s (raise e) eq h p = p

  -- What a part has read of the state is known of it in the parts after.
  pub read_then-Keeps :
      (f : S → Outcome A) (rest : A → Exec S B)
      → ((s : S) (a : A) → f s ≡ ok a → P s → P (rest a s).1)
      → Keeps P (and_then (reading f) rest)
  unfolding and_then reading
  read_then-Keeps f rest h = record { holds = λ s p. read-holds f rest s (f s) refl (h s) p }

module _ {S A B : Type 0} (P : S → Type 0) (Good : A → Type 0) where
  pub for_each-Keeps :
      (body : A → Exec S (List B))
      → ((a : A) → Good a → Keeps P (body a))
      → (xs : List A) → All Good xs
      → Keeps P (for_each body xs)
  unfolding for_each
  for_each-Keeps body h [] good = done-Keeps P []
  for_each-Keeps body h (x ∷ xs) good = and_then-Keeps P (body x) _ (h x good.0) λ found.
      and_then-Keeps P (for_each body xs) _ (for_each-Keeps body h xs good.1)
        λ later. done-Keeps P (found ++ later)

module _ {S A B : Type 0} where
  resume-returns :
      (r : Outcome A × S) (rest : A → Exec S B) (b : B) (s' : S)
      → resume r rest ≡ (ok b, s')
      → (a : A) × (s : S) × (r ≡ (ok a, s)) × (rest a s ≡ (ok b, s'))
  resume-returns (ok a, s) rest b s' h = (a, s, refl, h)
  resume-returns (raise e, s) rest b s' h = cc

  -- A chain that returns: its first part has returned, and the rest on its value and its state.
  pub and_then-returns :
      (first : Exec S A) (rest : A → Exec S B) (s s' : S) (b : B)
      → and_then first rest s ≡ (ok b, s')
      → (a : A) × (t : S) × (first s ≡ (ok a, t)) × (rest a t ≡ (ok b, s'))
  unfolding and_then
  and_then-returns first rest s s' b h = resume-returns (first s) rest b s' h

module _ {S A : Type 0} where
  reading-returns :
      (f : S → Outcome A) (s t : S) (a : A) → reading f s ≡ (ok a, t) → (f s ≡ ok a) × (s ≡ t)
  unfolding reading
  reading-returns f s t a h = (ap (λ p. p.0) h, ap (λ p. p.1) h)

  pub done-returns : (a b : A) (s t : S) → done a s ≡ (ok b, t) → (a ≡ b) × (s ≡ t)
  unfolding done
  done-returns a b s t h = (cc, ap (λ p. p.1) h)

-- A chain that begins by reading and returns: what was read, and the rest on the same state.
module _ {S A B : Type 0} where
  pub read_then-returns :
      (f : S → Outcome A) (rest : A → Exec S B) (s s' : S) (b : B)
      → and_then (reading f) rest s ≡ (ok b, s')
      → (a : A) × (f s ≡ ok a) × (rest a s ≡ (ok b, s'))
  unfolding and_then reading
  read_then-returns f rest s s' b h = elim (Outcome-cases (f s)) [
    | inl (a, e) ↦ (a, e, sym (ap (λ o. resume (o, s) rest) e) ∙ h)
    | inr (e, raised) ↦ absurd (cc (sym (ap (λ o. resume (o, s) rest) raised) ∙ h))
  ]

-- `try: ... except ...:` over a part, with a handler for what it returned or raised.
module _ {S A B : Type 0} where
  unfoldable pub try_then : Exec S A → (Outcome A → Exec S B) → Exec S B
  try_then first handler s = handler (first s).0 (first s).1

  try_then-Keeps :
      (P : S → Type 0) (first : Exec S A) (handler : Outcome A → Exec S B)
      → Keeps P first
      → ((o : Outcome A) → Keeps P (handler o))
      → Keeps P (try_then first handler)
  unfolding try_then
  try_then-Keeps P first handler hf hh = record {
    holds = λ s p. (hh (first s).0).holds (first s).1 (hf.holds s p);
  }
