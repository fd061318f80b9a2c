-- ===== src/Broker/Serializer/Steps.antt =====
-- Every step of every thread keeps the table of locks and the threads in agreement.
use portable_batch_execution.Base.{
  none, zero, ◌∙◌, sym, eq_iff, ap, inr, eqb, inl, ◌==◌, subst, Bool-cases, ◌<◌, suc, ◌∷◌, ◌⊎◌,
  false, some, ◌≡◌, true, arith, ℕ, ◌≤◌, List, Option, String, Bool, refl,
}
use portable_batch_execution.Base.Dict.{erase, get-erase, get-put, get}
use portable_batch_execution.Broker.Serializer.{
  taking, waits, idle, inside, leaves, join_lock, Pc, Taken, join_entry, Book,
}
use portable_batch_execution.Broker.Serializer.Kept.{
  join_entry-next, join_entry-other, after_leaving-next, after_leaving-other, joined-IsEntry,
  left-IsEntry, IsEntry-same, IsEntry, leaving_entry, IsKept, bit, after_leaving,
}

pub bit-le_one : (b : Bool) → bit b ≤ 1
bit-le_one true = omega arith
bit-le_one false = omega arith

entry_below :
    (b : Book) (taken : Taken) (pcs : List Pc) (k : String) (lock n : ℕ)
    → IsKept b taken pcs
    → get b.locks k ≡ some (lock, n)
    → lock < b.next
entry_below b taken pcs k lock n v there = (subst (IsEntry b pcs k) there (v.entries k)).3

module _ (q : String) (b : Book) where
  -- An entry after the join was there, or is the new one.
  joined-cases :
      (found : Option (ℕ × ℕ)) (k : String) (lock n : ℕ)
      → get b.locks q ≡ found
      → get (join_entry q b found).1.locks k ≡ some (lock, n)
      → ((m : ℕ) × (get b.locks k ≡ some (lock, m))) ⊎ ((q ≡ k) × (lock ≡ b.next))
  unfolding join_entry
  joined-cases none k lock n was h = elim (Bool-cases (q == k)) [
    | inl same ↦
        let h' : ◌≡◌ {A = Option (ℕ × ℕ)} (some (b.next, 1)) (some (lock, n)) =
          sym (get-put b.locks q k (b.next, 1) ∙ rw same refl) ∙ h in
        inr ((eq_iff q k).0 same, cc (h'))
    | inr other ↦ inl (n, sym (get-put b.locks q k (b.next, 1) ∙ rw other refl) ∙ h)
  ]
  joined-cases (some (l, users)) k lock n was h = elim (Bool-cases (q == k)) [
    | inl same ↦
        let h' : ◌≡◌ {A = Option (ℕ × ℕ)} (some (l, suc users)) (some (lock, n)) =
          sym (get-put b.locks q k (l, suc users) ∙ rw same refl) ∙ h in
        let of_q : q ≡ k = (eq_iff q k).0 same in
        inl (users, ap (get b.locks) (sym of_q) ∙ was ∙ cc (h'))
    | inr other ↦ inl (n, sym (get-put b.locks q k (l, suc users) ∙ rw other refl) ∙ h)
  ]

  -- An entry after a thread has left was there.
  left-was :
      (l users : ℕ) (k : String) (lock n : ℕ)
      → get b.locks q ≡ some (l, suc users)
      → get (after_leaving q b l users).locks k ≡ some (lock, n)
      → (m : ℕ) × (get b.locks k ≡ some (lock, m))
  unfolding after_leaving
  left-was l zero k lock n was h = elim (Bool-cases (q == k)) [
    | inl same ↦
        let gone : get (erase b.locks q) k ≡ none = get-erase b.locks q k ∙ rw same refl in
        let h' : ◌≡◌ {A = Option (ℕ × ℕ)} none (some (lock, n)) = sym gone ∙ h in cc (h')
    | inr other ↦ (n, sym (get-erase b.locks q k ∙ rw other refl) ∙ h)
  ]
  left-was l (suc users) k lock n was h = elim (Bool-cases (q == k)) [
    | inl same ↦
        let h' : ◌≡◌ {A = Option (ℕ × ℕ)} (some (l, suc users)) (some (lock, n)) =
          sym (get-put b.locks q k (l, suc users) ∙ rw same refl) ∙ h in
        let of_q : q ≡ k = (eq_iff q k).0 same in
        (suc (suc users), ap (get b.locks) (sym of_q) ∙ was ∙ cc (h'))
    | inr other ↦ (n, sym (get-put b.locks q k (l, suc users) ∙ rw other refl) ∙ h)
  ]

module _ (b : Book) (taken : Taken) (ts : List Pc) where
  pub joins-IsKept :
      (q : String)
      → IsKept b taken (idle ∷ ts)
      → IsKept (join_lock q b).1 taken (waits q (join_lock q b).0 ∷ ts)
  unfolding join_lock
  joins-IsKept q v = record {
    entries = λ k. elim (Bool-cases (q == k)) [
      | inl same ↦
          subst
            (λ j.
              IsEntry (join_lock q b).1 (waits q (join_lock q b).0 ∷ ts) j
                (get (join_lock q b).1.locks j))
            ((eq_iff q k).0 same) (joined-IsEntry q b ts (get b.locks q) (v.entries q))
      | inr other ↦
          subst (IsEntry (join_lock q b).1 (waits q (join_lock q b).0 ∷ ts) k)
            (sym (join_entry-other q b ts k (get b.locks q) other))
            (IsEntry-same b (join_lock q b).1 idle (waits q (join_lock q b).0) ts k (get b.locks k)
              (sym other) (λ l. rw other refl) (join_entry-next q b ts (get b.locks q))
              (v.entries k))
    ];
    apart = λ j k lock m n hj hk.
        separate j k lock (joined-cases q b (get b.locks q) j lock m refl hj)
          (joined-cases q b (get b.locks q) k lock n refl hk);
    one_inside = v.one_inside;
    unbroken = v.unbroken;
  }
    where
      separate :
          (j k : String) (lock : ℕ)
          → ((m : ℕ) × (get b.locks j ≡ some (lock, m))) ⊎ ((q ≡ j) × (lock ≡ b.next))
          → ((m : ℕ) × (get b.locks k ≡ some (lock, m))) ⊎ ((q ≡ k) × (lock ≡ b.next))
          → j ≡ k
      separate j k lock (inl (m, hj)) (inl (n, hk)) = v.apart j k lock m n hj hk
      separate j k lock (inl (m, hj)) (inr (of_q, fresh)) =
          absurd (omega (arith, entry_below b taken (idle ∷ ts) j lock m v hj))
      separate j k lock (inr (of_q, fresh)) (inl (n, hk)) =
          absurd (omega (arith, entry_below b taken (idle ∷ ts) k lock n v hk))
      separate j k lock (inr (of_j, fresh)) (inr (of_k, again)) = sym of_j ∙ of_k

  pub acquires-IsKept :
      (q : String) (lock : ℕ)
      → taken lock ≡ false
      → IsKept b taken (waits q lock ∷ ts)
      → IsKept b (taking taken lock true) (inside q lock ∷ ts)
  acquires-IsKept q lock free v = record {
    entries = λ k.
        IsEntry-same b b (waits q lock) (inside q lock) ts k (get b.locks k) refl (λ l. refl)
          (omega arith) (v.entries k);
    apart = v.apart;
    one_inside = λ l. elim (Bool-cases (eqb lock l)) [
      | inl same ↦
          let of_lock : lock ≡ l = ground arith in
          rw same (omega (arith, v.one_inside l, ap bit (ap taken (sym of_lock) ∙ free)))
      | inr other ↦ rw other (v.one_inside l)
    ];
    unbroken = v.unbroken;
  }

  pub releases-IsKept :
      (q : String) (lock : ℕ)
      → IsKept b taken (inside q lock ∷ ts)
      → IsKept b (taking taken lock false) (leaves q lock ∷ ts)
  releases-IsKept q lock v = record {
    entries = λ k.
        IsEntry-same b b (inside q lock) (leaves q lock) ts k (get b.locks k) refl (λ l. refl)
          (omega arith) (v.entries k);
    apart = v.apart;
    one_inside = λ l. elim (Bool-cases (eqb lock l)) [
      | inl same ↦ rw same (omega (arith, v.one_inside l, ap bit same, bit-le_one (taken l)))
      | inr other ↦ rw other (omega (arith, v.one_inside l, ap bit other))
    ];
    unbroken = v.unbroken;
  }

  module _ (q : String) (lock : ℕ) (v : IsKept b taken (leaves q lock ∷ ts)) where
    -- The entry of a thread that leaves.
    pub own_entry : (users : ℕ) × (get b.locks q ≡ some (lock, suc users))
    own_entry = leaving_entry q b ts lock (get b.locks q) (v.entries q)

    pub departs-IsKept :
        (users : ℕ)
        → get b.locks q ≡ some (lock, suc users)
        → IsKept (after_leaving q b lock users) taken (idle ∷ ts)
    departs-IsKept users there = record {
      entries = λ k. elim (Bool-cases (q == k)) [
        | inl same ↦
            subst
              (λ j.
                IsEntry (after_leaving q b lock users) (idle ∷ ts) j
                  (get (after_leaving q b lock users).locks j))
              ((eq_iff q k).0 same)
              (left-IsEntry q b ts lock users
                (subst (IsEntry b (leaves q lock ∷ ts) q) there (v.entries q)))
        | inr other ↦
            subst (IsEntry (after_leaving q b lock users) (idle ∷ ts) k)
              (sym (after_leaving-other q b ts lock users k other))
              (IsEntry-same b (after_leaving q b lock users) (leaves q lock) idle ts k
                (get b.locks k) other (λ l. rw other refl)
                (omega (arith, after_leaving-next q b ts lock users)) (v.entries k))
      ];
      apart = λ j k l m n hj hk.
          let (m', was_j) = left-was q b lock users j l m there hj in
          let (n', was_k) = left-was q b lock users k l n there hk in
          v.apart j k l m' n' was_j was_k;
      one_inside = v.one_inside;
      unbroken = v.unbroken;
    }
