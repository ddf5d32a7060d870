-- ===== src/Metadata.antt =====
-- internal/metadata: what the user interface is told of the definitions.
pub mod Action
pub mod Descriptor
pub mod Section
pub mod Refusal
pub mod Form
pub mod Page
pub mod Schema
pub mod Menu
pub mod Resource
mod Tests
mod Providers
