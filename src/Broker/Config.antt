-- ===== src/Broker/Config.antt =====
-- `BrokerConfig` of broker/config.py, once it is loaded: who may ask for what, and the static inputs
-- and the model delivery of an operation.
use portable_batch_execution.Base.{
  any, [], some, if◌then◌else◌, ◌∷◌, ◌&&◌, false, ◌==◌, none, Option, Bool, ℕ, List, String,
}
use portable_batch_execution.Base.Int.{eq_ℤ, ℤ}
use portable_batch_execution.Contracts.Artifact.{ArtifactRef}
use portable_batch_execution.Contracts.Job.{ModelDelivery}

pub record BrokerConfig : Type 0 where
  pub public_sha : String
  pub max_input_bytes : ℕ
  pub allowed_operations_by_uid : List (ℤ × List (String × String))
  pub static_input_bindings : List ((String × String) × List ArtifactRef)
  pub model_deliveries : List ((String × String) × ModelDelivery)

abbrev same_pair : String × String → String → String → Bool
same_pair (p, o) pack operation = (p == pack) && (o == operation)

refs_in : List ((String × String) × List ArtifactRef) → String → String → List ArtifactRef
refs_in [] pack operation = []
refs_in ((key, refs) ∷ bindings) pack operation =
    let rest = refs_in bindings pack operation in
    if same_pair key pack operation then refs else rest

-- `static_input_refs_for`
unfoldable pub static_input_refs_for : BrokerConfig → String → String → List ArtifactRef
unfolding refs_in
static_input_refs_for config = refs_in config.static_input_bindings

delivery_in : List ((String × String) × ModelDelivery) → String → String → Option ModelDelivery
delivery_in [] pack operation = none
delivery_in ((key, delivery) ∷ deliveries) pack operation =
    let rest = delivery_in deliveries pack operation in
    if same_pair key pack operation then some delivery else rest

-- `model_delivery_for`
pub model_delivery_for : BrokerConfig → String → String → Option ModelDelivery
unfolding delivery_in
model_delivery_for config = delivery_in config.model_deliveries

allowed_in : List (ℤ × List (String × String)) → ℤ → String → String → Bool
allowed_in [] uid pack operation = false
allowed_in ((u, pairs) ∷ rest) uid pack operation =
    let others = allowed_in rest uid pack operation in
    if eq_ℤ u uid then any (λ p. same_pair p pack operation) pairs else others

-- `authorize`
unfoldable pub authorize : BrokerConfig → ℤ → String → String → Bool
unfolding allowed_in
authorize config = allowed_in config.allowed_operations_by_uid
