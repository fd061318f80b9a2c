-- ===== src/Broker.antt =====
-- The broker on the Unix socket, broker/*.py: registration of a request's run, its durable state,
-- and the loop that drives a request to its end.
pub mod Planning
pub mod StaticInputs
pub mod Register
pub mod Requests
pub mod Root
pub mod Attempts
pub mod Responses
pub mod Drive
pub mod Config
pub mod Service
pub mod Serializer
pub mod Handle
pub mod Deliveries
