-- ===== src/Broker/Deliveries/Commits.antt =====
-- What a commit of a delivery does to the delivery records.
use portable_batch_execution.A1Controller.Python.{Runtime}
use portable_batch_execution.Base.{
  inl, eq_refl, inr, eq_iff, ap, ◌⊎◌, arith, raise, sym, raise_if, none, some, subst, >>=-returns,
  true, Bool, false, ok-injective, ok, Option, ◌≡◌, String, Outcome, refl,
}
use portable_batch_execution.Base.Dict.{get-put, get, put}
use portable_batch_execution.Broker.Deliveries.{
  same_transport, save_after, save_checks, save_new, may_save,
}
use portable_batch_execution.Broker.Root.{BrokerRoot, opaque_request_id}
use portable_batch_execution.Lifecycle.Records.{DeliveryRecord}
use portable_batch_execution.Lifecycle.Root.{unreadable, not_object, holding, Stored}

pub opaque_request_id-same : (t name : String) → opaque_request_id t ≡ ok name → t ≡ name
unfolding opaque_request_id
opaque_request_id-same t name h = ok-injective t name (>>=-returns (raise_if _ _) (λ _. ok t) h).2

module _ (r : Runtime) where
  may_save-fresh :
      (d : DeliveryRecord) (found : Option (Stored DeliveryRecord))
      → may_save r d found ≡ ok true
      → found ≡ none
  unfolding may_save
  may_save-fresh d none h = refl
  may_save-fresh d (some (holding e)) h = ground (arith, h)
  may_save-fresh d (some not_object) h = cc
  may_save-fresh d (some unreadable) h = cc

  may_save-same :
      (d : DeliveryRecord) (found : Option (Stored DeliveryRecord))
      → may_save r d found ≡ ok false
      → (kept : DeliveryRecord) × (found ≡ some (holding kept)) × (same_transport r kept d ≡ true)
  unfolding may_save
  may_save-same d none h = cc
  may_save-same d (some (holding e)) h = (e, refl, ground (arith, h))
  may_save-same d (some not_object) h = cc
  may_save-same d (some unreadable) h = cc

  module _ (lock : Outcome (Unit {0})) (d : DeliveryRecord) (root : BrokerRoot) where
    -- What the checks have found in the file.
    found_by_checks :
        (fresh : Bool)
        → save_checks r lock d root ≡ ok fresh
        → may_save r d (get root.deliveries d.request_id) ≡ ok fresh
    unfolding save_checks
    found_by_checks fresh h =
        let (name, named, h1) = >>=-returns (opaque_request_id d.request_id) _ h in
        let (u, locked, h2) = >>=-returns lock _ h1 in
        subst (λ n. may_save r d (get root.deliveries n) ≡ ok fresh)
          (sym (opaque_request_id-same d.request_id name named)) h2

    after-keeps :
        (checks : Outcome Bool)
        → save_checks r lock d root ≡ checks
        → (k : String) (old : Stored DeliveryRecord) → get root.deliveries k ≡ some old
        → get (save_after r checks d root).1.deliveries k ≡ some old
    unfolding save_after
    after-keeps (raise e) h k old there = there
    after-keeps (ok false) h k old there = there
    after-keeps (ok true) h k old there =
        let absent = may_save-fresh d _ (found_by_checks true h) in
        ground (
          arith,
          get-put root.deliveries d.request_id k (holding d),
          eq_iff d.request_id k,
          absent,
          there,
        )

    -- A delivery record that is there stays as it is whatever is saved, whether that returns or raises.
    pub save_new-keeps :
        (k : String) (old : Stored DeliveryRecord)
        → get root.deliveries k ≡ some old
        → get (save_new r lock d root).1.deliveries k ≡ some old
    unfolding save_new
    save_new-keeps k old there = after-keeps (save_checks r lock d root) refl k old there

    -- The record is new and on file, and nothing else has changed; or the one that was there differs by
    -- nothing but the time of delivery, and nothing has changed.
    abbrev pub IsSaved : BrokerRoot → DeliveryRecord → Type 0
    IsSaved after kept =
        ((get root.deliveries d.request_id ≡ none)
          × (kept ≡ d)
          × (after ≡ record root { deliveries = put root.deliveries d.request_id (holding d) }))
        ⊎ ((get root.deliveries d.request_id ≡ some (holding kept))
            × (same_transport r kept d ≡ true)
            × (after ≡ root))

    after-stores :
        (checks : Outcome Bool) (after : BrokerRoot)
        → save_checks r lock d root ≡ checks
        → save_after r checks d root ≡ (ok tt, after)
        → (kept : DeliveryRecord) × (get after.deliveries d.request_id ≡ some (holding kept))
          × IsSaved after kept
    unfolding save_after
    after-stores (raise e) after checks h = cc
    after-stores (ok false) after checks h =
        let (kept, there, same) = may_save-same d _ (found_by_checks false checks) in
        (
          kept,
          subst (λ b. get b.deliveries d.request_id ≡ some (holding kept)) (ap (λ p. p.1) h) there,
          inr (there, same, sym (ap (λ p. p.1) h)),
        )
    after-stores (ok true) after checks h = (
      d,
      subst (λ b. get b.deliveries d.request_id ≡ some (holding d)) (ap (λ p. p.1) h)
          (rw (get-put root.deliveries d.request_id d.request_id (holding d), eq_refl d.request_id)
            refl),
      inl (may_save-fresh d _ (found_by_checks true checks), refl, sym (ap (λ p. p.1) h)),
    )

    -- After a save that returns, the record is there, or one that was there before and differs from it
    -- by nothing but the time of delivery and what is written alike.
    pub save_new-stores :
        (after : BrokerRoot)
        → save_new r lock d root ≡ (ok tt, after)
        → (kept : DeliveryRecord) × (get after.deliveries d.request_id ≡ some (holding kept))
          × IsSaved after kept
    unfolding save_new
    save_new-stores after h = after-stores (save_checks r lock d root) after refl h
