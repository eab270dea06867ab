-- ===== src/Protocol.antt =====
-- pkg/protocol: the messages, and the transports that carry them.
pub mod Messages
pub mod Types
mod Tests
mod CallTests
mod WireTests
pub mod Buffer
pub mod Serve
pub mod Wire
pub mod Deletion
pub mod Intake
pub mod Answer
pub mod Engine
pub mod Payload
pub mod Listen
pub mod Paths
pub mod Client
