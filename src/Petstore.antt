-- ===== src/Petstore.antt =====
-- The pet store of kubernetes/petstore-operator: its data, its validation and its storage.
pub mod Calendar
pub mod Pet
pub mod Validate
pub mod Tree
pub mod Mem
pub mod Server
pub mod Sampler
pub mod Log
pub mod Metrics
pub mod Client
pub mod Operator
mod Examples
