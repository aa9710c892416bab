-- ===== src/Lifecycle.antt =====
-- The lifecycle assessment of a device: src/modules/device/device-lifecycle.service.ts. `now` is what
-- `new Date()` returns in the call.
mod Readings
mod Assessment
pub mod Scores
pub mod Stages
pub mod Rounds
unfoldable pub use Readings.*
unfoldable pub use Assessment.*
