-- ===== src/Lifecycle/Holds.antt =====
-- `HoldStore` of lifecycle/holds.py.
use Prim.Native.Char.{Char, code}
use portable_batch_execution.Base.{
  eq_refl, ℕ, Bool, true, false, String, ◌&&◌, ◌||◌, any, contains, leb, eqb, none, some, [], ◌∷◌,
  if◌then◌else◌, Bool-cases, Option-cases, ◌==◌, eq_iff, ok, ◌≡◌, refl, sym, ◌∙◌, ap, subst, inl,
  inr, arith,
}
use portable_batch_execution.Base.Decimal.{after}
use portable_batch_execution.Base.Dict.{get-put, Dict, get, put, erase, get-erase}
use portable_batch_execution.Base.Exec.{Exec}
use portable_batch_execution.Lifecycle.Index.{is_protected}
use portable_batch_execution.Lifecycle.Reachability.{build_reachability_index}
use portable_batch_execution.Lifecycle.Reachability.Held.{holds_digest, held-is_protected}
use portable_batch_execution.Lifecycle.Records.{HoldRecord, LifecyclePolicy}
use portable_batch_execution.Lifecycle.References.{Outside}
use portable_batch_execution.Lifecycle.Root.{StateRoot, holding}

-- `[a-zA-Z0-9._-]`
unfoldable pub is_name_code : ℕ → Bool
is_name_code c =
    leb b'a' c && leb c b'z'
    || leb b'A' c && leb c b'Z'
    || leb b'0' c && leb c b'9'
    || eqb c b'.'
    || eqb c b'_'
    || eqb c b'-'

-- What is left to replace, after a character of such a run or not.
collapsed : Bool → String → String
unfolding is_name_code
collapsed in_run String.[] = ""
collapsed in_run (String.◌∷◌ c rest) =
    let run_goes_on = collapsed true rest in
    let run_is_over = collapsed false rest in
    if is_name_code (code c)
    then String.◌∷◌ c run_is_over
    else if in_run
    then run_goes_on
    else after "_" run_goes_on

-- `re.sub(r"[^a-zA-Z0-9._-]+", "_", hold_id)`
pub safe_hold_name : String → String
unfolding collapsed
safe_hold_name hold_id = collapsed false hold_id

-- `HoldStore.put`
pub put_hold : HoldRecord → StateRoot → StateRoot
put_hold h root = record root { holds = put root.holds (safe_hold_name h.hold_id) (holding h) }

-- `HoldStore.remove`
pub remove_hold : String → Exec StateRoot Bool
remove_hold hold_id root = elim (get root.holds (safe_hold_name hold_id)) [
  | none ↦ (ok false, root)
  | some there ↦ (ok true, record root { holds = erase root.holds (safe_hold_name hold_id) })
]

any-put :
    {V : Type 0} (p : String × V → Bool) (entries : Dict V) (key : String) (v : V)
    → p (key, v) ≡ true
    → any p (put entries key v) ≡ true
unfolding put
any-put p [] key v h = rw h refl
any-put p ((i, old) ∷ rest) key v h = elim (Bool-cases (i == key)) [
  | inl e ↦
      let here : p (i, v) ≡ true = subst (λ k. p (k, v) ≡ true) (sym ((eq_iff i key).0 e)) h in
      ground (arith, e, here)
  | inr e ↦ ground (arith, e, any-put p rest key v h)
]

put-put :
    {V : Type 0} (entries : Dict V) (key : String) (u v : V)
    → put (put entries key u) key v ≡ put entries key v
unfolding put
put-put [] key u v = ground (arith, eq_iff key key)
put-put ((i, old) ∷ rest) key u v = elim (Bool-cases (i == key)) [
  | inl e ↦ rw (e, put) (rw e refl)
  | inr e ↦ rw (e, put) (rw e (ap (◌∷◌ (i, old)) (put-put rest key u v)))
]

-- After a hold is put, every digest that it names is protected in the index.
put_hold-protects :
    (outside : Outside) (policy : LifecyclePolicy) (h : HoldRecord) (root : StateRoot)
    (digest : String)
    → contains h.artifact_digests digest ≡ true
    → is_protected (build_reachability_index outside (put_hold h root) policy) digest ≡ true
unfolding put_hold
put_hold-protects outside policy h root digest named =
    held-is_protected outside (put_hold h root) policy digest
      (any-put (holds_digest digest) root.holds (safe_hold_name h.hold_id) (holding h) named)

-- One character outside of `[a-zA-Z0-9._-]` is written as any other.
collapsed-other :
    (in_run : Bool) (front back : String) (c d : Char)
    → is_name_code (code c) ≡ false
    → is_name_code (code d) ≡ false
    → collapsed in_run (after front (String.◌∷◌ c back))
      ≡ collapsed in_run (after front (String.◌∷◌ d back))
unfolding collapsed
collapsed-other in_run String.[] back c d hc hd = rw (hc, hd) refl
collapsed-other in_run (String.◌∷◌ x front) back c d hc hd =
    let going = collapsed-other true front back c d hc hd in
    let over = collapsed-other false front back c d hc hd in ground (arith, going, over)

-- If the identifiers of two holds differ in one character, which neither identifier has from
-- `[a-zA-Z0-9._-]`, then putting the second after the first leaves what putting the second alone
-- would: the first is gone, and the file of its identifier has the second.
pub put_hold-replaces :
    (front back : String) (c d : Char) (first second : HoldRecord) (root : StateRoot)
    → first.hold_id ≡ after front (String.◌∷◌ c back)
    → second.hold_id ≡ after front (String.◌∷◌ d back)
    → is_name_code (code c) ≡ false
    → is_name_code (code d) ≡ false
    → (put_hold second (put_hold first root) ≡ put_hold second root)
      × (get (put_hold second (put_hold first root)).holds (safe_hold_name first.hold_id)
          ≡ some (holding second))
unfolding put_hold safe_hold_name
put_hold-replaces front back c d first second root of_first of_second hc hd =
    let same : safe_hold_name first.hold_id ≡ safe_hold_name second.hold_id =
      ap safe_hold_name of_first
      ∙ collapsed-other false front back c d hc hd
      ∙ sym (ap safe_hold_name of_second) in
    let replaced : put_hold second (put_hold first root) ≡ put_hold second root =
      ap (λ holds. record root { holds = holds })
        (ap
            (λ name.
              put (put root.holds name (holding first)) (safe_hold_name second.hold_id)
                (holding second))
            same
          ∙ put-put root.holds (safe_hold_name second.hold_id) (holding first) (holding second)) in
    (
      replaced,
      ap (λ (x : StateRoot). get x.holds (safe_hold_name first.hold_id)) replaced
          ∙ ap (get (put_hold second root).holds) same
          ∙ get-put root.holds (safe_hold_name second.hold_id) (safe_hold_name second.hold_id)
              (holding second)
          ∙ rw (eq_refl (safe_hold_name second.hold_id)) refl,
    )

-- What `remove` leaves: the file is gone, and the others are as they were.
pub remove_hold-removes :
    (hold_id name : String) (root : StateRoot)
    → get (remove_hold hold_id root).1.holds name
      ≡ (if safe_hold_name hold_id == name then none else get root.holds name)
unfolding remove_hold
remove_hold-removes hold_id name root =
    elim (Option-cases (get root.holds (safe_hold_name hold_id))) [
      | inl e ↦
          rw (e, remove_hold)
            (elim (Bool-cases (safe_hold_name hold_id == name)) [
              | inl f ↦
                  rw f (ap (get root.holds) (sym ((eq_iff (safe_hold_name hold_id) name).0 f)) ∙ e)
              | inr f ↦ rw f refl
            ])
      | inr (there, e) ↦ rw (e, remove_hold) (get-erase root.holds (safe_hold_name hold_id) name)
    ]
