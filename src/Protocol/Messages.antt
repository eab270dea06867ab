-- ===== src/Protocol/Messages.antt =====
-- The plain structs of pkg/protocol/protocol.go, with the keys that their tags give the fields.
pub mod Items
pub mod Checks
pub mod Channels
pub mod History
pub mod Posts
pub mod Ranges
pub mod Targets
pub mod Batches
pub mod Jobs
pub mod Engines
pub mod Catalogue
pub mod RoundTrip
mod Tests
